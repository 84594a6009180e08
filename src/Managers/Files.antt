-- ===== src/Managers/Files.antt =====
-- netherbrain/agent_runtime/managers/files.py: which path of the disk an operation of a project may touch.
-- A real path is the list of its parts. What the operating system answers is a parameter; what the
-- code asks it to change is the operation's result.
pub mod Containment
pub mod Reading
use netherbrain.Prelude.{
  ℕ, ◌+◌, suc, String, Bool, true, false, Option, none, some, List, [], ◌∷◌, ◌++◌, ◌==◌, ◌&&◌, ◌||◌,
  not, if◌then◌else◌, cat, length, ltb, eqb, take, map,
}
use netherbrain.Prelude.Results.{Result, ok, err, ◌>>=◌, ◌>>◌, raise_if, or_raise}

abbrev pub RealPath : Type 0
RealPath = List String

-- LookupError, PermissionError, ValueError and OSError.
pub data Error : Type 0 where
  lookup permission value os_error : Error

-- What the operating system answers. `project_dir` is the resolved directory of a project, where it
-- is one; `resolve` is `(root / relative).resolve()`; `under` is what `os.walk` finds.
pub record Disk : Type 0 where
  pub project_dir : String → Option RealPath
  pub resolve : RealPath → String → RealPath
  pub is_symlink : RealPath → String → Bool
  pub exists : RealPath → Bool
  pub is_dir : RealPath → Bool
  pub is_file : RealPath → Bool
  pub bytes : RealPath → List ℕ
  pub under : RealPath → List RealPath

-- What an operation has changed or sends.
pub data Effect : Type 0 where
  writes : RealPath → List ℕ → Effect
  makes : RealPath → Effect
  removes : (is_tree : Bool) → RealPath → Effect
  sends : RealPath → Effect
  packs : List RealPath → Effect

unfoldable pub same_path : RealPath → RealPath → Bool
same_path [] [] = true
same_path [] (x ∷ xs) = false
same_path (y ∷ ys) [] = false
same_path (y ∷ ys) (x ∷ xs) = let rest = same_path ys xs in y == x && rest

-- `root in target.parents`.
unfoldable pub in_parents : RealPath → RealPath → Bool
in_parents root [] = false
in_parents [] (x ∷ xs) = true
in_parents (y ∷ ys) (x ∷ xs) = let rest = in_parents ys xs in y == x && rest

-- `target != root_real and root_real not in target.parents`.
abbrev pub escapes : RealPath → RealPath → Bool
escapes root target = not (same_path target root) && not (in_parents root target)

-- `not path or path in (".", "/")`.
abbrev pub is_root_text : String → Bool
is_root_text path = path == "" || path == "." || path == "/"

-- The first bytes that `_is_binary` inspects.
abbrev pub binary_check_size : ℕ
binary_check_size = 8192

-- `_is_binary`.
unfoldable pub is_binary : List ℕ → Bool
is_binary [] = false
is_binary (b ∷ bs) = let rest = is_binary bs in eqb b 0 || rest

-- `FileReadResult`, without the path and the times.
pub record FileReadResult : Type 0 where
  pub content : String
  pub size : ℕ
  pub truncated : Bool
  pub encoding : String

module _ (disk : Disk) where
  -- `ProjectPathResolver.project_root`.
  unfoldable pub project_root : String → Result Error RealPath
  project_root project_id = or_raise (disk.project_dir project_id) lookup

  -- The check of a path below a root, and the second one of a symbolic link.
  unfoldable pub checked : RealPath → String → Result Error RealPath
  checked root relative_path = do
    let target = disk.resolve root relative_path
    raise_if (escapes root target) permission
    raise_if (disk.is_symlink root relative_path && escapes root (disk.resolve root relative_path))
        permission
    ok target

  abbrev pub resolve_in : RealPath → String → Result Error RealPath
  resolve_in root relative_path =
      if is_root_text relative_path then ok root else checked root relative_path

  -- `ProjectPathResolver.resolve`.
  unfoldable pub resolve : String → String → Result Error RealPath
  resolve project_id relative_path = do
    root ← project_root project_id
    resolve_in root relative_path

  -- The check that the writing operations make on their own.
  unfoldable pub bounded : String → String → Result Error RealPath
  bounded project_id path = do
    root ← project_root project_id
    raise_if (escapes root (disk.resolve root path)) permission
    ok (disk.resolve root path)

  module _ (utf8 : List ℕ → Option String) (latin1 : List ℕ → String) where
    -- The content with its encoding.
    abbrev pub decoded : List ℕ → String × String
    decoded raw = elim (utf8 raw) [ some text ↦ (text, "utf-8") | none ↦ (latin1 raw, "latin-1") ]

    -- `raw[:max_size]` where there is more.
    abbrev pub kept : ℕ → List ℕ → List ℕ
    kept max_size raw = if ltb max_size (length raw) then take max_size raw else raw

    abbrev pub read_result : RealPath → List ℕ → ℕ → FileReadResult
    read_result target raw max_size = record {
      content = (decoded (kept max_size raw)).0;
      size = length (disk.bytes target);
      truncated = ltb max_size (length raw);
      encoding = (decoded (kept max_size raw)).1;
    }

    -- The part of `read_file` behind the path: at most one byte more than asked for is read.
    abbrev pub read_at : ℕ → RealPath → Result Error FileReadResult
    read_at max_size target = do
      raise_if (not (disk.is_file target)) lookup
      raise_if (is_binary (take binary_check_size (take (suc max_size) (disk.bytes target)))) value
      ok (read_result target (take (suc max_size) (disk.bytes target)) max_size)

    -- `read_file`.
    unfoldable pub read_file :
        (project_id path : String) (max_size : ℕ) → Result Error FileReadResult
    read_file project_id path max_size = do
      target ← resolve project_id path
      read_at max_size target

  -- `write_file`, of encoded content; a directory cannot be replaced by the temporary file.
  unfoldable pub write_file : (project_id path : String) (content : List ℕ) → Result Error Effect
  write_file project_id path content = do
    target ← bounded project_id path
    raise_if (disk.is_dir target) os_error
    ok (writes target content)

  -- `save_upload`.
  unfoldable pub save_upload :
      (project_id target_dir filename : String) (contents : List ℕ) (max_file_size : ℕ)
      → Result Error Effect
  save_upload project_id target_dir filename contents max_file_size = do
    raise_if (ltb max_file_size (length contents)) value
    file_path ←
        bounded project_id
          (if target_dir == "" then filename else cat target_dir (cat "/" filename))
    raise_if (disk.is_dir file_path) os_error
    ok (writes file_path contents)

  -- `resolve_download`.
  unfoldable pub resolve_download : (project_id path : String) → Result Error Effect
  resolve_download project_id path = do
    target ← resolve project_id path
    raise_if (not (disk.is_file target)) lookup
    ok (sends target)

  -- `delete_path`.
  unfoldable pub delete_path : (project_id path : String) → Result Error Effect
  delete_path project_id path = do
    raise_if (is_root_text path) value
    target ← resolve project_id path
    raise_if (not (disk.exists target)) lookup
    ok (removes (disk.is_dir target) target)

  -- `create_directory`.
  unfoldable pub create_directory : (project_id path : String) → Result Error Effect
  create_directory project_id path = do
    raise_if (is_root_text path) value
    target ← bounded project_id path
    raise_if (disk.exists target) value
    ok (makes target)

  -- The files that one of the paths adds to an archive.
  abbrev pub archived : RealPath → List RealPath
  archived target =
      if disk.is_file target
      then target ∷ []
      else if disk.is_dir target
      then disk.under target
      else []

  -- The loop of `build_archive`.
  unfoldable pub collect_files : String → List String → Result Error (List RealPath)
  collect_files project_id [] = ok []
  collect_files project_id (p ∷ ps) =
      let rest = collect_files project_id ps in
      do
        target ← resolve project_id p
        raise_if (not (disk.exists target)) lookup
        files ← rest
        ok (archived target ++ files)

  unfoldable pub total_size : List RealPath → ℕ
  total_size [] = 0
  total_size (f ∷ fs) = length (disk.bytes f) + total_size fs

  -- `build_archive`, up to the writing of the zip file.
  unfoldable pub build_archive :
      (project_id : String) (paths : List String) (max_total_size : ℕ)
      → Result Error (List RealPath)
  build_archive project_id paths max_total_size = do
    root ← project_root project_id
    files ← collect_files project_id paths
    raise_if (ltb max_total_size (total_size files)) value
    ok files

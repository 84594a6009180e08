-- ===== src/Tests/Files.antt =====
-- The files of a project.
use netherbrain.Prelude.{
  ℕ, String, true, false, Option, none, some, List, [], ◌∷◌, ◌≡◌, ◌==◌, refl, ltb, length, take,
  if◌then◌else◌,
}
use netherbrain.Prelude.Results.{ok}
use netherbrain.Managers.Files.{
  RealPath, Disk, writes, FileReadResult, resolve, read_file, decoded, write_file, bounded,
  project_root, same_path, in_parents, is_binary, checked,
}
use netherbrain.Managers.Files.Containment.{Touches, writing, perform-IsBelow}
use netherbrain.Managers.Files.Reading.{read_file-bounded}

abbrev root : RealPath
root = "data" ∷ "p" ∷ []

abbrev note : RealPath
note = "data" ∷ "p" ∷ "note" ∷ []

-- A disk with one project and one file, to which every text resolves.
abbrev disk : Disk
disk = record {
  project_dir = λ project_id. if project_id == "p" then some root else none;
  resolve = λ r path. note;
  is_symlink = λ r path. false;
  exists = λ path. true;
  is_dir = λ path. false;
  is_file = λ path. true;
  bytes = λ path. 72 ∷ 105 ∷ [];
  under = λ path. [];
}

perform-IsBelow_example :
    (r : RealPath) × (disk.project_dir "p" ≡ some r) × Touches disk r (writes note (1 ∷ []))
unfolding write_file bounded project_root same_path in_parents
perform-IsBelow_example =
    perform-IsBelow disk "p" (writing "a/../note" (1 ∷ [])) (writes note (1 ∷ [])) refl

abbrev utf8 : List ℕ → Option String
utf8 bytes = some "H"

abbrev latin1 : List ℕ → String
latin1 bytes = ""

abbrev first_byte : FileReadResult
first_byte = record { content = "H"; size = 2; truncated = true; encoding = "utf-8" }

read_file-bounded_example :
    (target : RealPath) × (resolve disk "p" "note" ≡ ok target)
    × (disk.is_file target ≡ true)
    × (first_byte.content ≡ (decoded disk utf8 latin1 (take 1 (disk.bytes target))).0)
    × (first_byte.truncated ≡ ltb 1 (length (disk.bytes target)))
    × (first_byte.size ≡ length (disk.bytes target))
unfolding read_file resolve project_root same_path in_parents is_binary checked
read_file-bounded_example = read_file-bounded disk utf8 latin1 "p" "note" 1 first_byte refl

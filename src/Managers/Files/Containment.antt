-- ===== src/Managers/Files/Containment.antt =====
-- No operation touches a path outside of its project, whatever the disk answers.
use netherbrain.Prelude.{
  ℕ, String, Bool, true, false, some, List, [], ◌∷◌, ◌++◌, ◌≡◌, refl, sym, ap, ◌∙◌, subst, arith,
  Bool-cases, inl, inr, ◌⊎◌, eq_iff, not, append-nil, All, All-map, All-append, ltb, some-injective,
}
use netherbrain.Prelude.Results.{
  Result, ok, ◌>>=◌, ◌>>◌, raise_if, guarded-ok, required-ok, >>=-ok, ok-injective,
}
use netherbrain.Managers.Files.{
  RealPath, Error, Disk, Effect, writes, makes, removes, sends, same_path, in_parents, escapes,
  is_root_text, project_root, packs, archived, collect_files, total_size, build_archive, checked,
  resolve_in, resolve, bounded, write_file, save_upload, resolve_download, delete_path,
  create_directory,
}

-- The path is the root, or below it.
abbrev pub IsWithin : RealPath → RealPath → Type 0
IsWithin root target = (rest : RealPath) × (target ≡ root ++ rest)

same-IsWithin : (root target : RealPath) → same_path target root ≡ true → IsWithin root target
unfolding same_path
same-IsWithin [] [] h = ([], refl)
same-IsWithin [] (x ∷ xs) h = absurd (ground arith)
same-IsWithin (y ∷ ys) [] h = absurd (ground arith)
same-IsWithin (y ∷ ys) (x ∷ xs) h =
    let (rest, e) = same-IsWithin ys xs (ground arith) in
    let first : x ≡ y = ground (arith, eq_iff x y) in
    (rest, ap (λ z. z ∷ xs) first ∙ ap (λ zs. y ∷ zs) e)

parents-IsWithin : (root target : RealPath) → in_parents root target ≡ true → IsWithin root target
unfolding in_parents
parents-IsWithin root [] h = absurd (ground arith)
parents-IsWithin [] (x ∷ xs) h = (x ∷ xs, refl)
parents-IsWithin (y ∷ ys) (x ∷ xs) h =
    let (rest, e) = parents-IsWithin ys xs (ground arith) in
    let first : x ≡ y = ground (arith, eq_iff y x) in
    (rest, ap (λ z. z ∷ xs) first ∙ ap (λ zs. y ∷ zs) e)

escapes-IsWithin : (root target : RealPath) → escapes root target ≡ false → IsWithin root target
escapes-IsWithin root target h = elim (Bool-cases (same_path target root)) [
  | inl e ↦ same-IsWithin root target e
  | inr e ↦ parents-IsWithin root target (ground arith)
]

-- A call that gives a path gives one within the project's directory.
abbrev IsBelow : Disk → String → RealPath → Type 0
IsBelow disk project_id target =
    (root : RealPath) × (disk.project_dir project_id ≡ some root) × IsWithin root target

abbrev pub IsIn : RealPath → List RealPath → Type 0
IsIn file [] = false ≡ true
IsIn file (f ∷ fs) = (file ≡ f) ⊎ IsIn file fs

All-IsIn : (xs : List RealPath) → All (λ x. IsIn x xs) xs
All-IsIn [] = tt
All-IsIn (x ∷ xs) =
    (inl refl, All-map (λ y. IsIn y xs) (λ y. IsIn y (x ∷ xs)) xs (λ y i. inr i) (All-IsIn xs))

module _ (disk : Disk) where
  checked-IsWithin :
      (root target : RealPath) (path : String)
      → checked disk root path ≡ ok target
      → IsWithin root target
  unfolding checked
  checked-IsWithin root target path h =
      let (e, k) = guarded-ok (escapes root (disk.resolve root path)) Error.permission _ target h in
      let (_, g) = guarded-ok _ Error.permission (ok (disk.resolve root path)) target k in
      subst (IsWithin root) (ok-injective (disk.resolve root path) target g)
        (escapes-IsWithin root (disk.resolve root path) e)

  in_root :
      (root : RealPath) (path : String)
      → is_root_text path ≡ true
      → resolve_in disk root path ≡ ok root
  in_root root path e = rw e refl

  below_root :
      (root : RealPath) (path : String)
      → is_root_text path ≡ false
      → resolve_in disk root path ≡ checked disk root path
  below_root root path e = rw e refl

  resolve-IsBelow :
      (project_id path : String) (target : RealPath)
      → resolve disk project_id path ≡ ok target
      → IsBelow disk project_id target
  unfolding resolve project_root
  resolve-IsBelow project_id path target h =
      let (root, d, k) =
        required-ok (disk.project_dir project_id) Error.lookup (λ r. resolve_in disk r path) target
          h in
      elim (Bool-cases (is_root_text path)) [
        | inl e ↦ (
          root,
          d,
          (
            [],
            sym (ok-injective root target (sym (in_root root path e) ∙ k)) ∙ sym (append-nil root),
          ),
        )
        | inr e ↦ (root, d, checked-IsWithin root target path (sym (below_root root path e) ∙ k))
      ]

  bounded-IsBelow :
      (project_id path : String) (target : RealPath)
      → bounded disk project_id path ≡ ok target
      → IsBelow disk project_id target
  unfolding bounded project_root
  bounded-IsBelow project_id path target h =
      let (root, d, k) =
        required-ok (disk.project_dir project_id) Error.lookup
          (λ r.
            raise_if (escapes r (disk.resolve r path)) Error.permission >> ok (disk.resolve r path))
          target h in
      let (e, g) =
        guarded-ok (escapes root (disk.resolve root path)) Error.permission
          (ok (disk.resolve root path)) target k in
      (
        root,
        d,
        subst (IsWithin root) (ok-injective (disk.resolve root path) target g)
            (escapes-IsWithin root (disk.resolve root path) e),
      )

  -- The operations that change the disk or send files.
  pub data Operation : Type 0 where
    writing : (path : String) (content : List ℕ) → Operation
    uploading : (target_dir filename : String) (contents : List ℕ) (max_file_size : ℕ) → Operation
    downloading deleting creating : (path : String) → Operation
    archiving : (paths : List String) (max_total_size : ℕ) → Operation

  abbrev pub perform : String → Operation → Result Error Effect
  perform project_id (writing path content) = write_file disk project_id path content
  perform project_id (uploading target_dir filename contents max_file_size) =
      save_upload disk project_id target_dir filename contents max_file_size
  perform project_id (downloading path) = resolve_download disk project_id path
  perform project_id (deleting path) = delete_path disk project_id path
  perform project_id (creating path) = create_directory disk project_id path
  perform project_id (archiving paths max_total_size) =
      build_archive disk project_id paths max_total_size >>= λ files. ok (packs files)

  -- The file is what `os.walk` finds in a directory that is the root or below it.
  abbrev pub IsWalked : RealPath → RealPath → Type 0
  IsWalked root file =
      (dir : RealPath) × IsWithin root dir × (disk.is_dir dir ≡ true) × IsIn file (disk.under dir)

  -- What an effect may touch in a project.
  abbrev pub Touches : RealPath → Effect → Type 0
  Touches root (writes path content) = IsWithin root path
  Touches root (makes path) = IsWithin root path
  Touches root (removes is_tree path) = IsWithin root path
  Touches root (sends path) = IsWithin root path
  Touches root (packs files) = All (λ file. IsWithin root file ⊎ IsWalked root file) files

  abbrev IsConfined : String → Effect → Type 0
  IsConfined project_id e =
      (root : RealPath) × (disk.project_dir project_id ≡ some root) × Touches root e

  -- A checked path, a test of it, and an effect at it.
  tested-IsBelow :
      (project_id : String) (m : Result Error RealPath) (p : RealPath → Bool) (x : Error)
      (f : RealPath → Effect) (e : Effect)
      → ((target : RealPath) → m ≡ ok target → IsBelow disk project_id target)
      → ((root target : RealPath) → IsWithin root target → Touches root (f target))
      → (m >>= λ t. raise_if (p t) x >> ok (f t)) ≡ ok e
      → IsConfined project_id e
  tested-IsBelow project_id m p x f e below at h =
      let (t, k, g) = >>=-ok m (λ t. raise_if (p t) x >> ok (f t)) e h in
      let (_, i) = guarded-ok (p t) x (ok (f t)) e g in
      let (root, d, w) = below t k in
      (root, d, subst (Touches root) (ok-injective (f t) e i) (at root t w))

  archived-Touches :
      (root target : RealPath) → IsWithin root target → Touches root (packs (archived disk target))
  archived-Touches root target w = elim (Bool-cases (disk.is_file target)) [
    | inl f ↦ rw f (inl w, tt)
    | inr f ↦ elim (Bool-cases (disk.is_dir target)) [
      | inl d ↦
          rw (f, d)
            (All-map (λ file. IsIn file (disk.under target))
              (λ file. IsWithin root file ⊎ IsWalked root file) (disk.under target)
              (λ file i. inr (target, w, d, i)) (All-IsIn (disk.under target)))
      | inr d ↦ rw (f, d) tt
    ]
  ]

  collect_files-Touches :
      (project_id : String) (root : RealPath) (paths : List String) (files : List RealPath)
      → disk.project_dir project_id ≡ some root
      → collect_files disk project_id paths ≡ ok files
      → Touches root (packs files)
  unfolding collect_files
  collect_files-Touches project_id root [] files d h =
      subst (λ fs. Touches root (packs fs)) (ok-injective [] files h) tt
  collect_files-Touches project_id root (p ∷ ps) files d h =
      let (t, k, g) = >>=-ok (resolve disk project_id p) _ files h in
      let (_, i) = guarded-ok (not (disk.exists t)) Error.lookup _ files g in
      let (more, j, e) =
        >>=-ok (collect_files disk project_id ps) (λ fs. ok (archived disk t ++ fs)) files i in
      let (r, d', w) = resolve-IsBelow project_id p t k in
      let same : r ≡ root = some-injective r root (sym d' ∙ d) in
      subst (λ fs. Touches root (packs fs)) (ok-injective _ files e)
        (All-append (λ file. IsWithin root file ⊎ IsWalked root file) (archived disk t) more
          (archived-Touches root t (subst (λ x. IsWithin x t) same w))
          (collect_files-Touches project_id root ps more d j))

  -- Writing, uploading, downloading, deleting or creating a directory, where it succeeds, touches a
  -- path that is the project's directory or below it, for whatever text names the path and whatever
  -- symbolic links resolve it to. An archive has such files, and files that os.walk finds in such a
  -- directory, whose own links are not resolved.
  pub perform-IsBelow :
      (project_id : String) (op : Operation) (e : Effect)
      → perform project_id op ≡ ok e
      → (root : RealPath) × (disk.project_dir project_id ≡ some root) × Touches root e
  unfolding write_file save_upload resolve_download delete_path create_directory build_archive
      project_root
  perform-IsBelow project_id (writing path content) e h =
      tested-IsBelow project_id (bounded disk project_id path) (λ t. disk.is_dir t) Error.os_error
        (λ t. writes t content) e (bounded-IsBelow project_id path) (λ root t w. w) h
  perform-IsBelow project_id (uploading dir filename contents max) e h =
      tested-IsBelow project_id (bounded disk project_id _) (λ t. disk.is_dir t) Error.os_error
        (λ t. writes t contents) e (bounded-IsBelow project_id _) (λ root t w. w)
        (guarded-ok _ Error.value _ e h).1
  perform-IsBelow project_id (downloading path) e h =
      tested-IsBelow project_id (resolve disk project_id path) (λ t. not (disk.is_file t))
        Error.lookup sends e (resolve-IsBelow project_id path) (λ root t w. w) h
  perform-IsBelow project_id (deleting path) e h =
      tested-IsBelow project_id (resolve disk project_id path) (λ t. not (disk.exists t))
        Error.lookup (λ t. removes (disk.is_dir t) t) e (resolve-IsBelow project_id path)
        (λ root t w. w) (guarded-ok (is_root_text path) Error.value _ e h).1
  perform-IsBelow project_id (creating path) e h =
      tested-IsBelow project_id (bounded disk project_id path) (λ t. disk.exists t) Error.value
        makes e (bounded-IsBelow project_id path) (λ root t w. w)
        (guarded-ok (is_root_text path) Error.value _ e h).1
  perform-IsBelow project_id (archiving paths max) e h =
      let (files, k, g) =
        >>=-ok (build_archive disk project_id paths max) (λ fs. ok (packs fs)) e h in
      let (root, d, r) = required-ok (disk.project_dir project_id) Error.lookup _ files k in
      let (fs, c, i) = >>=-ok (collect_files disk project_id paths) _ files r in
      let (_, j) = guarded-ok (ltb max (total_size disk fs)) Error.value (ok fs) files i in
      (
        root,
        d,
        subst (Touches root) (ok-injective (packs files) e g)
            (collect_files-Touches project_id root paths files d (c ∙ j)),
      )

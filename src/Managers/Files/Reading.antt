-- ===== src/Managers/Files/Reading.antt =====
-- What `read_file` gives of a file.
use netherbrain.Prelude.{
  ℕ, zero, suc, String, true, false, Option, List, [], ◌∷◌, ◌≡◌, refl, sym, ap, ◌∙◌, arith,
  if◌then◌else◌, not, length, ltb, take, Bool-cases, inl, inr,
}
use netherbrain.Prelude.Results.{ok, guarded-ok, >>=-ok, ok-injective}
use netherbrain.Managers.Files.{
  RealPath, Error, Disk, resolve, is_binary, binary_check_size, decoded, FileReadResult, read_file,
  read_at, read_result,
}

longer : {A : Type 0} (n : ℕ) (xs : List A) → ltb n (length (take (suc n) xs)) ≡ ltb n (length xs)
longer n [] = refl
longer zero (x ∷ xs) = ground arith
longer (suc n) (x ∷ xs) = ground (arith, longer n xs)

take-take : {A : Type 0} (n : ℕ) (xs : List A) → take n (take (suc n) xs) ≡ take n xs
take-take zero xs = refl
take-take (suc n) [] = refl
take-take (suc n) (x ∷ xs) = ap (λ ys. x ∷ ys) (take-take n xs)

take-short :
    {A : Type 0} (n : ℕ) (xs : List A) → ltb n (length xs) ≡ false → take (suc n) xs ≡ take n xs
take-short zero [] h = refl
take-short zero (x ∷ xs) h = absurd (ground arith)
take-short (suc n) [] h = refl
take-short (suc n) (x ∷ xs) h = ap (λ ys. x ∷ ys) (take-short n xs (ground arith))

-- The bytes that are kept, of those that are read.
kept-take :
    (n : ℕ) (xs : List ℕ)
    → (if ltb n (length (take (suc n) xs)) then take n (take (suc n) xs) else take (suc n) xs)
      ≡ take n xs
kept-take n xs = elim (Bool-cases (ltb n (length xs))) [
  | inl e ↦ rw (longer n xs, e) (take-take n xs)
  | inr e ↦ rw (longer n xs, e) (take-short n xs e)
]

module _ (disk : Disk) (utf8 : List ℕ → Option String) (latin1 : List ℕ → String) where
  -- A file that is read is a path of the project that is a file; the content is that of its first
  -- `max_size` bytes, the flag says whether there are more, and the size is that of the whole file.
  pub read_file-bounded :
      (project_id path : String) (max_size : ℕ) (r : FileReadResult)
      → read_file disk utf8 latin1 project_id path max_size ≡ ok r
      → (target : RealPath) × (resolve disk project_id path ≡ ok target)
        × (disk.is_file target ≡ true)
        × (r.content ≡ (decoded disk utf8 latin1 (take max_size (disk.bytes target))).0)
        × (r.truncated ≡ ltb max_size (length (disk.bytes target)))
        × (r.size ≡ length (disk.bytes target))
  unfolding read_file
  read_file-bounded project_id path max_size r h =
      let (target, found, k) =
        >>=-ok (resolve disk project_id path) (read_at disk utf8 latin1 max_size) r h in
      let raw = take (suc max_size) (disk.bytes target) in
      let result = read_result disk utf8 latin1 target raw max_size in
      let (is_file, g) = guarded-ok (not (disk.is_file target)) Error.lookup _ r k in
      let (_, f) =
        guarded-ok (is_binary (take binary_check_size raw)) Error.value (ok result) r g in
      let same : result ≡ r = ok-injective result r f in
      (
        target,
        found,
        ground arith,
        sym (ap (λ x. x.content) same)
            ∙ ap (λ bs. (decoded disk utf8 latin1 bs).0) (kept-take max_size (disk.bytes target)),
        sym (ap (λ x. x.truncated) same) ∙ longer max_size (disk.bytes target),
        sym (ap (λ x. x.size) same),
      )

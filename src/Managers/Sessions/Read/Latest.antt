-- ===== src/Managers/Sessions/Read/Latest.antt =====
-- The session that a continuation or a fork starts from.
use mathlib.Core.List.{reverse-cons, reverse-reverse}
use netherbrain.Prelude.{
  ◌≤◌, String, Bool, true, false, some, List, [], ◌∷◌, ◌++◌, ◌⊎◌, ◌≡◌, refl, sym, ap, ◌∙◌, subst,
  arith, reverse, head?, keep, All, Bool-cases, inl, inr,
}
use netherbrain.Prelude.Dict
use netherbrain.Prelude.Dict.{Dict}
use netherbrain.Managers.Sessions.{System, SessionRow}
use netherbrain.Managers.Sessions.Read.{
  insert_row, chronological, precedes, is_turn, find_latest_committed_session,
}

module _ (P : SessionRow → Type 0) where
  All-insert : (r : SessionRow) (xs : List SessionRow) → P r → All P xs → All P (insert_row r xs)
  unfolding insert_row
  All-insert r [] hr h = (hr, tt)
  All-insert r (x ∷ xs) hr h = elim (Bool-cases (precedes r x)) [
    | inl e ↦ rw e (hr, h)
    | inr e ↦ rw e (h.0, All-insert r xs hr h.1)
  ]

  All-of_insert : (r : SessionRow) (xs : List SessionRow) → All P (insert_row r xs) → P r × All P xs
  unfolding insert_row
  All-of_insert r [] h = h
  All-of_insert r (x ∷ xs) h = elim (Bool-cases (precedes r x)) [
    | inl e ↦ rw e at h
    | inr e ↦
        let behind = rw e at h in
        let parts = All-of_insert r xs behind.1 in (parts.0, (behind.0, parts.1))
  ]

  All-chronological : (xs : List SessionRow) → All P xs → All P (chronological xs)
  unfolding chronological
  All-chronological [] h = tt
  All-chronological (x ∷ xs) h = All-insert x (chronological xs) h.0 (All-chronological xs h.1)

  All-of_chronological : (xs : List SessionRow) → All P (chronological xs) → All P xs
  unfolding chronological
  All-of_chronological [] h = tt
  All-of_chronological (x ∷ xs) h =
      let parts = All-of_insert x (chronological xs) h in (parts.0, All-of_chronological xs parts.1)

abbrev NotBefore : SessionRow → SessionRow → Type 0
NotBefore a b = a.created_at ≤ b.created_at

-- Each row is no later than those behind it.
IsSorted : List SessionRow → Type 0
IsSorted [] = Unit
IsSorted (x ∷ xs) = All (NotBefore x) xs × IsSorted xs

precedes-NotBefore : (a b : SessionRow) → precedes a b ≡ true → NotBefore a b
precedes-NotBefore a b h = ground arith

not_precedes-NotBefore : (a b : SessionRow) → precedes a b ≡ false → NotBefore b a
not_precedes-NotBefore a b h = ground arith

All-mono :
    (P Q : SessionRow → Type 0) (xs : List SessionRow)
    → ((r : SessionRow) → P r → Q r)
    → All P xs
    → All Q xs
All-mono P Q [] f h = tt
All-mono P Q (x ∷ xs) f h = (f x h.0, All-mono P Q xs f h.1)

insert-IsSorted : (r : SessionRow) (xs : List SessionRow) → IsSorted xs → IsSorted (insert_row r xs)
unfolding insert_row IsSorted
insert-IsSorted r [] h = (tt, tt)
insert-IsSorted r (x ∷ xs) h = elim (Bool-cases (precedes r x)) [
  | inl e ↦
      let first = precedes-NotBefore r x e in
      rw e ((first, All-mono (NotBefore x) (NotBefore r) xs (λ y hy. omega arith) h.0), h)
  | inr e ↦
      rw e
        (All-insert (NotBefore x) r xs (not_precedes-NotBefore r x e) h.0, insert-IsSorted r xs h.1)
]

chronological-IsSorted : (xs : List SessionRow) → IsSorted (chronological xs)
unfolding chronological IsSorted
chronological-IsSorted [] = tt
chronological-IsSorted (x ∷ xs) = insert-IsSorted x (chronological xs) (chronological-IsSorted xs)

head-append :
    (ys : List SessionRow) (x r : SessionRow)
    → head? (ys ++ (x ∷ [])) ≡ some r
    → (ys ≡ []) × (x ≡ r) ⊎ (head? ys ≡ some r)
head-append [] x r h = inl (refl, ground arith)
head-append (y ∷ ys) x r h = inr h

nil_of_reverse : (xs : List SessionRow) → reverse xs ≡ [] → xs ≡ []
nil_of_reverse xs h = sym (reverse-reverse xs) ∙ ap reverse h

module _ (P : SessionRow → Type 0) where
  last-All : (xs : List SessionRow) (r : SessionRow) → head? (reverse xs) ≡ some r → All P xs → P r
  last-All [] r h a = absurd (ground arith)
  last-All (x ∷ xs) r h a =
      elim (head-append (reverse xs) x r (sym (ap head? (reverse-cons x xs)) ∙ h)) [
        | inl (nil, same) ↦ subst P same a.0
        | inr e ↦ last-All xs r e a.1
      ]

-- The last row of a sorted list is no earlier than any.
last-latest :
    (xs : List SessionRow) (r : SessionRow)
    → IsSorted xs
    → head? (reverse xs) ≡ some r
    → All (λ x. NotBefore x r) xs
unfolding IsSorted
last-latest [] r s h = tt
last-latest (x ∷ xs) r s h =
    elim (head-append (reverse xs) x r (sym (ap head? (reverse-cons x xs)) ∙ h)) [
      | inl (nil, same) ↦
          subst (All (λ y. NotBefore y r)) (ap (◌∷◌ x) (sym (nil_of_reverse xs nil)))
            (subst (NotBefore x) same (omega arith), tt)
      | inr e ↦ (last-All (NotBefore x) xs r e s.0, last-latest xs r s.1 e)
    ]

keep-All : (p : SessionRow → Bool) (xs : List SessionRow) → All (λ r. p r ≡ true) (keep p xs)
unfolding keep
keep-All p [] = tt
keep-All p (x ∷ xs) = elim (Bool-cases (p x)) [
  | inl e ↦ rw e (e, keep-All p xs)
  | inr e ↦ rw e (keep-All p xs)
]

All-of_keep :
    (p : SessionRow → Bool) (P : SessionRow → Type 0) (xs : List SessionRow)
    → All P (keep p xs)
    → All (λ r. p r ≡ true → P r) xs
unfolding keep
All-of_keep p P [] h = tt
All-of_keep p P (x ∷ xs) h = elim (Bool-cases (p x)) [
  | inl e ↦ let kept = rw e at h in (λ _. kept.0, All-of_keep p P xs kept.1)
  | inr e ↦ (λ yes. absurd (cc), All-of_keep p P xs (rw e at h))
]

-- The session that a continuation or a fork starts from is settled (committed, or awaiting tool
-- results) and in the conversation, and no settled session of the conversation, of either type, was
-- created after it.
pub find_latest_committed_session-latest :
    (conversation_id : String) (s : System) (row : SessionRow)
    → find_latest_committed_session conversation_id s ≡ some row
    → (is_turn conversation_id row ≡ true)
      × All
          (λ r. is_turn conversation_id r ≡ true → r.created_at ≤ row.created_at)
          (Dict.values s.sessions)
unfolding find_latest_committed_session
find_latest_committed_session-latest conversation_id s row h =
    let rows = Dict.values s.sessions in
    let turns = keep (is_turn conversation_id) rows in
    (
      last-All (λ r. is_turn conversation_id r ≡ true) (chronological turns) row h
          (All-chronological (λ r. is_turn conversation_id r ≡ true) turns
            (keep-All (is_turn conversation_id) rows)),
      All-of_keep (is_turn conversation_id) (λ r. NotBefore r row) rows
          (All-of_chronological (λ r. NotBefore r row) turns
            (last-latest (chronological turns) row (chronological-IsSorted turns) h)),
    )

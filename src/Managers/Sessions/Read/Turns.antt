-- ===== src/Managers/Sessions/Read/Turns.antt =====
-- The pages of a conversation's turns.
use mathlib.Core.List.{reverse-cons, reverse-reverse}
use netherbrain.Prelude.{
  ℕ, zero, suc, ◌-◌, ◌≤◌, String, Bool, true, false, Option, none, some, List, [], ◌∷◌, ◌++◌, ◌≡◌,
  refl, sym, ap, ◌∙◌, arith, map, reverse, take, drop, length, length-append, ltb, ltb-false→le,
  Bool-cases, inl, inr,
}
use netherbrain.Managers.Sessions.{System, SessionRow}
use netherbrain.Managers.Sessions.Read.{page_rows, get_conversation_turns, turn_of, selected}

module _ {ℓ} {A : Type ℓ} where
  drop-append : (n : ℕ) (xs ys : List A) → n ≤ length xs → drop n (xs ++ ys) ≡ drop n xs ++ ys
  drop-append zero xs ys h = refl
  drop-append (suc n) [] ys h = absurd (omega arith)
  drop-append (suc n) (x ∷ xs) ys h = drop-append n xs ys (omega arith)

  drop-length : (n : ℕ) (xs : List A) → length xs ≤ n → drop n xs ≡ []
  drop-length zero [] h = refl
  drop-length zero (x ∷ xs) h = absurd (omega arith)
  drop-length (suc n) [] h = refl
  drop-length (suc n) (x ∷ xs) h = drop-length n xs (omega arith)

  length-reverse : (xs : List A) → length (reverse xs) ≡ length xs
  length-reverse [] = refl
  length-reverse (x ∷ xs) =
      rw (reverse-cons x xs) (omega (arith, length-append (reverse xs) (x ∷ []), length-reverse xs))

  take-take : (n : ℕ) (xs : List A) → take n (take (suc n) xs) ≡ take n xs
  take-take zero xs = refl
  take-take (suc n) [] = refl
  take-take (suc n) (x ∷ xs) = ap (◌∷◌ x) (take-take n xs)

  take_all : (n : ℕ) (xs : List A) → length (take (suc n) xs) ≤ n → take (suc n) xs ≡ take n xs
  take_all zero [] h = refl
  take_all zero (x ∷ xs) h = absurd (omega arith)
  take_all (suc n) [] h = refl
  take_all (suc n) (x ∷ xs) h = ap (◌∷◌ x) (take_all n xs (omega arith))

  ltb-take : (n : ℕ) (xs : List A) → ltb n (length (take (suc n) xs)) ≡ ltb n (length xs)
  ltb-take n [] = refl
  ltb-take zero (x ∷ xs) = ground arith
  ltb-take (suc n) (x ∷ xs) = ground (arith, ltb-take n xs)

  reverse-take : (n : ℕ) (xs : List A) → reverse (take n xs) ≡ drop (length xs - n) (reverse xs)
  reverse-take zero xs =
      sym (drop-length (length xs - 0) (reverse xs) (omega (arith, length-reverse xs)))
  reverse-take (suc n) [] = sym (drop-length (0 - suc n) [] (omega arith))
  reverse-take (suc n) (x ∷ xs) =
      reverse-cons x (take n xs)
      ∙ ap (λ l. l ++ (x ∷ [])) (reverse-take n xs)
      ∙ sym (drop-append (length xs - n) (reverse xs) (x ∷ []) (omega (arith, length-reverse xs)))
      ∙ ap (drop (length xs - n)) (sym (reverse-cons x xs))
      ∙ ap (λ k. drop k (reverse (x ∷ xs))) (omega arith)

  last : (n : ℕ) (xs : List A) → reverse (take n (reverse xs)) ≡ drop (length xs - n) xs
  last n xs =
      reverse-take n (reverse xs)
      ∙ ap (λ k. drop (k - n) (reverse (reverse xs))) (length-reverse xs)
      ∙ ap (drop (length xs - n)) (reverse-reverse xs)

map-drop : {A B : Type 0} (f : A → B) (n : ℕ) (xs : List A) → map f (drop n xs) ≡ drop n (map f xs)
map-drop f zero xs = refl
map-drop f (suc n) [] = refl
map-drop f (suc n) (x ∷ xs) = map-drop f n xs

length-map : {A B : Type 0} (f : A → B) (xs : List A) → length (map f xs) ≡ length xs
length-map f [] = refl
length-map f (x ∷ xs) = ap suc (length-map f xs)

same_count :
    (limit : ℕ) (xs : List SessionRow) → ltb limit (length (reverse xs)) ≡ ltb limit (length xs)
same_count limit xs = ap (ltb limit) (length-reverse xs)

page_rows-last :
    (limit : ℕ) (ordered : List SessionRow)
    → page_rows (some limit) ordered
      ≡ (drop (length ordered - limit) ordered, ltb limit (length ordered))
unfolding page_rows
page_rows-last limit ordered =
    let more = sym (ltb-take limit (reverse ordered)) in
    elim (Bool-cases (ltb limit (length (take (suc limit) (reverse ordered))))) [
      | inl h ↦ rw h (
          ap (λ l. (reverse l, true)) (take-take limit (reverse ordered))
          ∙ ap (λ l. (l, true)) (last limit ordered)
          ∙ ap (λ b. (drop (length ordered - limit) ordered, b))
              (sym h ∙ ltb-take limit (reverse ordered) ∙ same_count limit ordered))
      | inr h ↦ rw h (
          ap (λ l. (reverse l, false)) (take_all limit (reverse ordered) (ltb-false→le _ _ h))
          ∙ ap (λ l. (l, false)) (last limit ordered)
          ∙ ap (λ b. (drop (length ordered - limit) ordered, b))
              (sym h ∙ ltb-take limit (reverse ordered) ∙ same_count limit ordered))
    ]

-- With a limit, the page is the last `limit` turns of all those that the filters select, in the
-- same order, and `has_more` says whether there are any others.
pub get_conversation_turns-limit :
    (conversation_id : String) (include_display : Bool) (limit : ℕ) (before : Option String)
    (s : System)
    → let all = (get_conversation_turns conversation_id include_display none before s).turns in
      get_conversation_turns conversation_id include_display (some limit) before s
      ≡ record { turns = drop (length all - limit) all; has_more = ltb limit (length all) }
unfolding get_conversation_turns page_rows
get_conversation_turns-limit conversation_id include_display limit before s =
    let rows = selected conversation_id before s in
    let turn = turn_of include_display s in
    ap (λ p. record { turns = map turn p.0; has_more = p.1 }) (page_rows-last limit rows)
    ∙ ap (λ l. record { turns = l; has_more = ltb limit (length rows) })
        (map-drop turn (length rows - limit) rows)
    ∙ ap (λ n. record { turns = drop (n - limit) (map turn rows); has_more = ltb limit n })
        (sym (length-map turn rows))

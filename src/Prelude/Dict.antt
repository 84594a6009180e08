-- ===== src/Prelude/Dict.antt =====
-- A Python dict with text keys, in insertion order: an assignment to a present key keeps its
-- place, `pop` removes the key.
use Prim.Native.String.{String}
use mathlib.Core.Path.{◌≡◌, refl}
use mathlib.Core.Bool.{Bool, true, false}
use mathlib.Core.Option.{Option, none, some}
use mathlib.Core.List.{List, [], ◌∷◌, map}
use native.Mathlib.Omega.{arith}
use text.Mathlib.Text.{◌==◌}
use text.Mathlib.TextEquality.{eq_iff}
use text.Mathlib.TextPositions.{eq_refl}
use mathlib.Core.Logic.{inl, inr}
use netherbrain.Prelude.Tests.{if◌then◌else◌, Bool-cases, is_some}
use netherbrain.Prelude.Lists.{All}

abbrev pub Dict {ℓ} : Type ℓ → Type ℓ
Dict V = List (String × V)

module _ {ℓ} {V : Type ℓ} where
  unfoldable pub get : String → Dict V → Option V
  get k [] = none
  get k ((j, v) ∷ m) = if j == k then some v else get k m

  unfoldable pub set : String → V → Dict V → Dict V
  set k v [] = (k, v) ∷ []
  set k v ((j, w) ∷ m) = if j == k then (j, v) ∷ m else (j, w) ∷ set k v m

  unfoldable pub pop : String → Dict V → Dict V
  pop k [] = []
  pop k ((j, w) ∷ m) = let rest = pop k m in if j == k then rest else (j, w) ∷ rest

  unfoldable pub has : String → Dict V → Bool
  has k [] = false
  has k ((j, w) ∷ m) = if j == k then true else has k m

  abbrev pub values : Dict V → List V
  values = map (λ e. e.1)

  abbrev pub keys : Dict V → List String
  keys = map (λ e. e.0)

  pub get-set :
      (k j : String) (v : V) (m : Dict V) → get j (set k v m) ≡ (if k == j then some v else get j m)
  unfolding get set
  get-set k j v [] = refl
  get-set k j v ((i, w) ∷ m) = ground (arith, eq_iff k j, eq_iff i k, eq_iff i j, get-set k j v m)

  pub get-pop : (k j : String) (m : Dict V) → get j (pop k m) ≡ (if k == j then none else get j m)
  unfolding get pop
  get-pop k j [] = ground arith
  get-pop k j ((i, w) ∷ m) = ground (arith, eq_iff k j, eq_iff i k, eq_iff i j, get-pop k j m)

  pub has-get : (k : String) (m : Dict V) → has k m ≡ is_some (get k m)
  unfolding has get
  has-get k [] = refl
  has-get k ((j, v) ∷ m) = ground (arith, has-get k m)

  pub get-set_self : (k : String) (v : V) (m : Dict V) → get k (set k v m) ≡ some v
  get-set_self k v m = simp (get-set, eq_refl)

  pub get-pop_self : (k : String) (m : Dict V) → get k (pop k m) ≡ none
  get-pop_self k m = simp (get-pop, eq_refl)

-- A property of every value survives an assignment of a value that has it, and a removal.
module _ {ℓ κ} {V : Type ℓ} (P : V → Type κ) where
  abbrev pub AllValues : Dict V → Type κ
  AllValues = All (λ e. P e.1)

  pub AllValues-set : (k : String) (v : V) (m : Dict V) → P v → AllValues m → AllValues (set k v m)
  unfolding set
  AllValues-set k v [] hv h = (hv, tt)
  AllValues-set k v ((j, w) ∷ m) hv h = elim (Bool-cases (j == k)) [
    | inl e ↦ rw e (hv, h.1)
    | inr e ↦ rw e (h.0, AllValues-set k v m hv h.1)
  ]

  pub AllValues-pop : (k : String) (m : Dict V) → AllValues m → AllValues (pop k m)
  unfolding pop
  AllValues-pop k [] h = tt
  AllValues-pop k ((j, w) ∷ m) h = elim (Bool-cases (j == k)) [
    | inl e ↦ rw e (AllValues-pop k m h.1)
    | inr e ↦ rw e (h.0, AllValues-pop k m h.1)
  ]

pub ruleset dict_laws = (get-set, get-pop, eq_refl)

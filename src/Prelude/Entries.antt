-- ===== src/Prelude/Entries.antt =====
-- The entries of a dict: keys that stand once, and what `find` over the values meets.
use Prim.Native.String.{String}
use mathlib.Core.Path.{◌≡◌, refl}
use mathlib.Core.Bool.{Bool, true, false}
use mathlib.Core.Option.{none, some}
use mathlib.Core.Logic.{inl, inr}
use mathlib.Core.List.{[], ◌∷◌}
use native.Mathlib.Omega.{arith}
use text.Mathlib.Text.{◌==◌}
use text.Mathlib.TextEquality.{eq_iff}
use netherbrain.Prelude.Tests.{Bool-cases}
use netherbrain.Prelude.Lists.{find}
use netherbrain.Prelude.Dict
use netherbrain.Prelude.Dict.{Dict}

module _ {V : Type 0} where
  -- No key stands twice.
  abbrev pub IsDict : Dict V → Type 0
  IsDict [] = Unit
  IsDict ((k, v) ∷ m) = (Dict.get k m ≡ none) × IsDict m

  pub IsDict-set : (k : String) (v : V) (m : Dict V) → IsDict m → IsDict (Dict.set k v m)
  unfolding Dict.set Dict.get
  IsDict-set k v [] h = (refl, tt)
  IsDict-set k v ((j, w) ∷ m) h = elim (Bool-cases (j == k)) [
    | inl e ↦ rw e h
    | inr e ↦
        rw e
          (ground (arith, h.0, Dict.get-set k j v m, eq_iff j k, eq_iff k j), IsDict-set k v m h.1)
  ]

  module _ (p : V → Bool) where
    pub find-none :
        (m : Dict V) (k : String) (v : V)
        → find p (Dict.values m) ≡ none
        → Dict.get k m ≡ some v
        → p v ≡ false
    unfolding find Dict.get
    find-none [] k v h g = cc
    find-none ((j, w) ∷ m) k v h g = ground (arith, find-none m k v)

    pub find-some :
        (m : Dict V) (v : V)
        → IsDict m
        → find p (Dict.values m) ≡ some v
        → (k : String) × (Dict.get k m ≡ some v) × (p v ≡ true)
    unfolding find Dict.get
    find-some [] v d h = cc
    find-some ((j, w) ∷ m) v d h = elim (Bool-cases (p w)) [
      | inl e ↦ (j, ground (arith, eq_iff j j), ground arith)
      | inr e ↦
          let (k, g, q) = find-some m v d.1 (ground arith) in
          (k, ground (arith, d.0, g, eq_iff j k), q)
    ]

    -- A value behind those that the test refuses is found.
    pub find-set :
        (k : String) (v : V) (m : Dict V)
        → find p (Dict.values m) ≡ none
        → p v ≡ true
        → find p (Dict.values (Dict.set k v m)) ≡ some v
    unfolding find Dict.set
    find-set k v [] h t = ground arith
    find-set k v ((j, w) ∷ m) h t = ground (arith, find-set k v m)

-- ===== src/Prelude/Actions.antt =====
-- Calls that change a state and may raise: an exception keeps what was changed before it.
use mathlib.Core.Bool.{Bool, true, false}
use mathlib.Core.Option.{Option, none, some}
use netherbrain.Prelude.Results.{Result, ok, err}

abbrev pub Action {ℓ κ μ} : Type ℓ → Type κ → Type μ → Type (ℓ ⊔ κ ⊔ μ)
Action S E A = S → S × Result E A

module _ {ℓ κ} {S : Type ℓ} {E : Type κ} where
  abbrev pub next {μ ν} :
      {A : Type μ} {B : Type ν} → (A → Action S E B) → S × Result E A → S × Result E B
  next f (s, ok a) = f a s
  next f (s, err e) = (s, err e)

  infixl 1 ◌>>=◌ ◌>>◌
  abbrev pub ◌>>=◌ {μ ν} :
      {A : Type μ} {B : Type ν} → Action S E A → (A → Action S E B) → Action S E B
  (m >>= f) s = next f (m s)

  abbrev pub ◌>>◌ {μ} : {B : Type μ} → Action S E (Unit {0}) → Action S E B → Action S E B
  m >> k = m >>= λ _. k

  abbrev pub ret {μ} : {A : Type μ} → A → Action S E A
  ret a s = (s, ok a)

  -- A part that only reads.
  abbrev pub reading {μ} : {A : Type μ} → (S → Result E A) → Action S E A
  reading f s = (s, f s)

  abbrev pub writes : (S → S) → Action S E (Unit {0})
  writes f s = (f s, ok tt)

  abbrev pub raise_if : Bool → E → Action S E (Unit {0})
  raise_if true e s = (s, err e)
  raise_if false e s = (s, ok tt)

  abbrev pub or_raise {μ} : {A : Type μ} → Option A → E → Action S E A
  or_raise none e s = (s, err e)
  or_raise (some a) e s = (s, ok a)

-- ===== src/Usage/Laws.antt =====
-- Usage is conserved: adding a model's usage adds it to the total, and to that model alone.
use netherbrain.Prelude.{
  ◌≡◌, sym, ap, ◌∙◌, String, Option, none, some, [], ◌∷◌, foldl, arith, ◌==◌, if◌then◌else◌,
  Option-cases, inl, inr,
}
use netherbrain.Prelude.Dict
use netherbrain.Prelude.Dict.{Dict, dict_laws}
use netherbrain.Usage.{ModelUsage, no_usage, plus, PipelineUsage, add, total}

pub plus_assoc : (a b c : ModelUsage) → plus (plus a b) c ≡ plus a (plus b c)
unfolding plus
plus_assoc a b c = ground arith

pub plus_comm : (a b : ModelUsage) → plus a b ≡ plus b a
unfolding plus
plus_comm a b = ground arith

pub plus-zero : (a : ModelUsage) → plus no_usage a ≡ a
unfolding plus
plus-zero a = ground arith

-- The sum of a dict's usages, from the right.
unfoldable pub sum : PipelineUsage → ModelUsage
sum [] = no_usage
sum ((k, u) ∷ p) = plus u (sum p)

foldl-plus : (a : ModelUsage) (p : PipelineUsage) → foldl plus a (Dict.values p) ≡ plus a (sum p)
unfolding sum
foldl-plus a [] = sym (plus_comm a no_usage ∙ plus-zero a)
foldl-plus a ((k, u) ∷ p) = foldl-plus (plus a u) p ∙ plus_assoc a u (sum p)

pub total-sum : (p : PipelineUsage) → total p ≡ sum p
unfolding total
total-sum p = foldl-plus no_usage p ∙ plus-zero (sum p)

swap_front : (a b c : ModelUsage) → plus a (plus b c) ≡ plus b (plus a c)
swap_front a b c = sym (plus_assoc a b c) ∙ ap (λ t. plus t c) (plus_comm a b) ∙ plus_assoc b a c

sum-set_new :
    (k : String) (u : ModelUsage) (p : PipelineUsage)
    → Dict.get k p ≡ none
    → sum (Dict.set k u p) ≡ plus (sum p) u
unfolding sum Dict.get Dict.set
sum-set_new k u [] h = plus_comm u no_usage
sum-set_new k u ((j, w) ∷ p) h = ground (arith, sum-set_new k u p, plus_assoc w (sum p) u)

sum-set_old :
    (k : String) (u old : ModelUsage) (p : PipelineUsage)
    → Dict.get k p ≡ some old
    → sum (Dict.set k (plus old u) p) ≡ plus (sum p) u
unfolding sum Dict.get Dict.set
sum-set_old k u old [] h = absurd (cc)
sum-set_old k u old ((j, w) ∷ p) h = ground (
  arith,
  sum-set_old k u old p,
  plus_assoc w (sum p) u,
  plus_assoc w u (sum p),
  plus_comm u (sum p),
)

-- The total over all models grows by exactly the usage that is added, whether or not the model
-- was there.
pub total-add :
    (k : String) (u : ModelUsage) (p : PipelineUsage) → total (add k u p) ≡ plus (total p) u
unfolding add
total-add k u p = elim (Option-cases (Dict.get k p)) [
  | inl e ↦ rw (e, add, total-sum, total-sum) (sum-set_new k u p e)
  | inr (old, e) ↦ rw (e, add, total-sum, total-sum) (sum-set_old k u old p e)
]

abbrev pub accumulate : Option ModelUsage → ModelUsage → ModelUsage
accumulate none u = u
accumulate (some old) u = plus old u

-- After an addition the model's entry is its old usage plus the new, and every other entry is as
-- before.
pub get-add :
    (k j : String) (u : ModelUsage) (p : PipelineUsage)
    → Dict.get j (add k u p) ≡ (if k == j then some (accumulate (Dict.get k p) u) else Dict.get j p)
unfolding add
get-add k j u p = elim (Option-cases (Dict.get k p)) [
  | inl e ↦ rw (e, add) (simp dict_laws)
  | inr (old, e) ↦ rw (e, add) (simp dict_laws)
]

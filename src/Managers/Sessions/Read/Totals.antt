-- ===== src/Managers/Sessions/Read/Totals.antt =====
-- The usage over a conversation's sessions.
use mathlib.Core.Path.{Path}
use netherbrain.Prelude.{
  ℕ, String, Option, none, some, List, [], ◌∷◌, ◌⊎◌, ◌≡◌, refl, sym, ap, ◌∙◌, arith, keep,
  Option-cases, inl, inr,
}
use netherbrain.Prelude.Dict
use netherbrain.Prelude.Dict.{Dict}
use netherbrain.Usage.{ModelUsage, PipelineUsage, no_usage, plus, add, total}
use netherbrain.Usage.Laws.{total-add, plus_assoc, plus-zero, plus_comm, sum, total-sum}
use netherbrain.Managers.Sessions.{System, SessionRow, RawSummary, valid, invalid}
use netherbrain.Managers.Sessions.Read.{
  is_turn, accumulate, accumulate_all, aggregate, get_conversation_usage,
}

accumulate-add :
    (aggregated : PipelineUsage) (id : String) (u : ModelUsage)
    → accumulate aggregated id u ≡ add id u aggregated
unfolding accumulate add
accumulate-add aggregated id u = elim (Option-cases (Dict.get id aggregated)) [
  | inl e ↦ rw (accumulate, add, e) (ap (λ v. Dict.set id v aggregated) (plus-zero u))
  | inr (old, e) ↦ rw (accumulate, add, e) refl
]

total-accumulate_all :
    (p aggregated : PipelineUsage)
    → total (accumulate_all aggregated p) ≡ plus (total aggregated) (sum p)
unfolding accumulate_all sum
total-accumulate_all [] a = sym (plus_comm (total a) no_usage ∙ plus-zero (total a))
total-accumulate_all ((id, u) ∷ p) a =
    total-accumulate_all p (accumulate a id u)
    ∙ ap (λ t. plus (total t) (sum p)) (accumulate-add a id u)
    ∙ ap (λ t. plus t (sum p)) (total-add id u a)
    ∙ plus_assoc (total a) u (sum p)

-- The usage that a row's summary records.
abbrev pub recorded : Option RawSummary → ModelUsage
recorded none = no_usage
recorded (some invalid) = no_usage
recorded (some (valid duration model_usages)) = total model_usages

abbrev pub recorded_all : List SessionRow → ModelUsage
recorded_all [] = no_usage
recorded_all (r ∷ rs) = plus (recorded r.run_summary) (recorded_all rs)

skip : (a b : ModelUsage) → plus a b ≡ plus a (plus no_usage b)
skip a b = ap (plus a) (sym (plus-zero b))

aggregate_skip :
    (r : SessionRow) (rs : List SessionRow) (a : PipelineUsage)
    → (r.run_summary ≡ none) ⊎ (r.run_summary ≡ some invalid)
    → aggregate a (r ∷ rs) ≡ aggregate a rs
unfolding aggregate
aggregate_skip r rs a (inl e) = rw (aggregate, e) refl
aggregate_skip r rs a (inr e) = rw (aggregate, e) refl

aggregate_valid :
    (r : SessionRow) (rs : List SessionRow) (a : PipelineUsage) (d : ℕ) (p : PipelineUsage)
    → r.run_summary ≡ some (valid d p)
    → aggregate a (r ∷ rs) ≡ aggregate (accumulate_all a p) rs
unfolding aggregate
aggregate_valid r rs a d p e = rw (aggregate, e) refl

summary-cases :
    (o : Option RawSummary)
    → (o ≡ none) ⊎ ((o ≡ some invalid) ⊎ ((d : ℕ) × (p : PipelineUsage) × (o ≡ some (valid d p))))
summary-cases none = inl refl
summary-cases (some invalid) = inr (inl refl)
summary-cases (some (valid d p)) = inr (inr (d, p, refl))

-- The counts aggregated over rows are, over all models together, those aggregated before and the
-- totals of the rows' summaries, a row without a valid summary counting nothing.
pub total-aggregate :
    (rows : List SessionRow) (aggregated : PipelineUsage)
    → total (aggregate aggregated rows) ≡ plus (total aggregated) (recorded_all rows)
unfolding aggregate
total-aggregate [] a = sym (plus_comm (total a) no_usage ∙ plus-zero (total a))
total-aggregate (r ∷ rs) a = elim (summary-cases r.run_summary) [
  | inl e ↦
      ap total (aggregate_skip r rs a (inl e))
      ∙ total-aggregate rs a
      ∙ skip (total a) (recorded_all rs)
      ∙ ap (λ o. plus (total a) (plus (recorded o) (recorded_all rs))) (sym e)
  | inr (inl e) ↦
      ap total (aggregate_skip r rs a (inr e))
      ∙ total-aggregate rs a
      ∙ skip (total a) (recorded_all rs)
      ∙ ap (λ o. plus (total a) (plus (recorded o) (recorded_all rs))) (sym e)
  | inr (inr (d, p, e)) ↦
      ap total (aggregate_valid r rs a d p e)
      ∙ total-aggregate rs (accumulate_all a p)
      ∙ ap (λ t. plus t (recorded_all rs)) (total-accumulate_all p a)
      ∙ ap (λ t. plus (plus (total a) t) (recorded_all rs)) (sym (total-sum p))
      ∙ plus_assoc (total a) (total p) (recorded_all rs)
      ∙ ap (λ o. plus (total a) (plus (recorded o) (recorded_all rs))) (sym e)
]

shown :
    (p usage : PipelineUsage)
    → Path
        (Option PipelineUsage)
        (elim p [ [] ↦ none | entry ∷ rest ↦ some (entry ∷ rest) ])
        (some usage)
    → p ≡ usage
shown [] usage h = absurd (ground arith)
shown (entry ∷ rest) usage h = ground arith

-- Where a conversation has a usage, its total is the sum of the totals that its settled sessions
-- recorded.
pub total-get_conversation_usage :
    (conversation_id : String) (s : System) (usage : PipelineUsage)
    → get_conversation_usage conversation_id s ≡ some usage
    → total usage ≡ recorded_all (keep (is_turn conversation_id) (Dict.values s.sessions))
unfolding get_conversation_usage total
total-get_conversation_usage conversation_id s usage h =
    let rows = keep (is_turn conversation_id) (Dict.values s.sessions) in
    ap total (sym (shown (aggregate [] rows) usage h))
    ∙ total-aggregate rows []
    ∙ plus-zero (recorded_all rows)

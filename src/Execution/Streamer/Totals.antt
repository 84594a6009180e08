-- ===== src/Execution/Streamer/Totals.antt =====
-- The usage that a session reports, against the usages of its run and of what ran beside it.
use netherbrain.Prelude.{String, List, [], ◌∷◌, ◌≡◌, refl, ap, ◌∙◌, foldl, map}
use netherbrain.Usage.{
  PipelineUsage, RunUsage, ModelUsage, plus, no_usage, add, total, from_run_usage,
}
use netherbrain.Usage.Laws.{total-add}
use netherbrain.Execution.Streamer.{
  Streamer, add_usages, main_usages, extra_usages_of, build_pipeline_usage,
}

abbrev pub usage_of : String × RunUsage → ModelUsage
usage_of e = from_run_usage e.1

total-add_usages :
    (us : List (String × RunUsage)) (p : PipelineUsage)
    → total (add_usages us p) ≡ foldl plus (total p) (map usage_of us)
unfolding add_usages
total-add_usages [] p = refl
total-add_usages ((m, u) ∷ us) p =
    total-add_usages us (add m (from_run_usage u) p)
    ∙ ap (λ t. foldl plus t (map usage_of us)) (total-add m (from_run_usage u) p)

-- The total that a session reports is the sum of the usages of its main run and of every extra
-- record, whichever models they name, and however often.
pub total-build_pipeline_usage :
    (model_id : String) (s : Streamer)
    → total (build_pipeline_usage model_id s)
      ≡ foldl plus
          (foldl plus no_usage (map usage_of (main_usages model_id s)))
          (map usage_of (extra_usages_of s))
unfolding build_pipeline_usage total
total-build_pipeline_usage model_id s =
    total-add_usages (extra_usages_of s) (add_usages (main_usages model_id s) [])
    ∙ ap (λ t. foldl plus t (map usage_of (extra_usages_of s)))
        (total-add_usages (main_usages model_id s) [])

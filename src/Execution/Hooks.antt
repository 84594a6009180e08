-- ===== src/Execution/Hooks.antt =====
-- netherbrain/agent_runtime/execution/hooks.py: the usage that is announced after each request to
-- the model. What the hook puts on the output queue is a list.
use netherbrain.Prelude.{String, Option, none, some, List, [], ◌∷◌, ◌≡◌, refl}
use netherbrain.Usage.{RunUsage, of_run_usage}
use netherbrain.Sdk.{SdkEvent, usage_snapshot}
use netherbrain.Execution.Streamer.{
  Run, Streamer, build_pipeline_usage, add_usages, extra_usages_of,
}

-- `UsageSnapshotEmitter.post_node_hook`; the emitter's session is the one of the adapter.
unfoldable pub post_node_hook : (model_id : String) → (run : Option Run) → List SdkEvent
post_node_hook model_id none = []
post_node_hook model_id (some run) = elim run.usage [
  | none ↦ []
  | some sdk_usage ↦ usage_snapshot (of_run_usage model_id sdk_usage) ∷ []
]

-- Where nothing ran beside the main model, the announced usage is the one that the session will
-- report, entry by entry.
post_node_hook-build_pipeline_usage :
    (model_id : String) (s : Streamer) (run : Run) (u : RunUsage)
    → s.run ≡ some run
    → run.usage ≡ some u
    → extra_usages_of s ≡ []
    → post_node_hook model_id s.run ≡ usage_snapshot (build_pipeline_usage model_id s) ∷ []
unfolding post_node_hook build_pipeline_usage add_usages of_run_usage
post_node_hook-build_pipeline_usage model_id s run u started used alone =
    rw (alone, started, used) refl

-- ===== src/Execution/Streamer.antt =====
-- What netherbrain/agent_runtime/execution/coordinator.py exports from a run of the SDK. The SDK's
-- objects are given by the values that the code reads, with none where the reading raises.
pub mod Totals
use netherbrain.Prelude.{
  ℕ, String, Bool, true, false, Option, none, some, List, [], ◌∷◌, if◌then◌else◌, foldl, map,
}
use netherbrain.Managers.Sessions.{SessionState, RawSummary}
use netherbrain.Usage.{PipelineUsage, RunUsage, ModelUsage, add, from_run_usage}

-- A part of `DeferredToolRequests`; `args` is `args_as_json_str()`, none where there are no args.
pub record ToolCallPart : Type 0 where
  pub tool_call_id : String
  pub tool_name : String
  pub args : Option String

pub record DeferredToolRequests : Type 0 where
  pub calls : List ToolCallPart
  pub approvals : List ToolCallPart

-- The output of a run; any other object by its `str()`.
pub data Output : Type 0 where
  text : String → Output
  deferred : DeferredToolRequests → Output
  other : (shown : String) → Output

-- `run.result`: none where it raises or is None; its output may be None.
pub record Run : Type 0 where
  pub result : Option (Option Output)
  pub usage : Option RunUsage
  pub messages : String

pub record Streamer : Type 0 where
  pub run : Option Run
  pub extra_usages : Option (List (String × RunUsage))
  pub context_state : String
  pub environment_state : Option String

-- `_get_output`.
unfoldable pub get_output : Streamer → Option Output
get_output s = elim s.run [
  | none ↦ none
  | some run ↦ elim run.result [ none ↦ none | some output ↦ output ]
]

-- `_extract_final_message`.
unfoldable pub extract_final_message : Streamer → Option String
extract_final_message s = elim (get_output s) [
  | none ↦ none
  | some output ↦ elim output [
    | text t ↦ some t
    | deferred requests ↦ none
    | other shown ↦ some shown
  ]
]

-- `_check_deferred`, with the requests where it holds.
unfoldable pub deferred_of : Streamer → Option DeferredToolRequests
deferred_of s = elim (get_output s) [
  | none ↦ none
  | some output ↦ elim output [
    | text t ↦ none
    | deferred requests ↦ some requests
    | other shown ↦ none
  ]
]

-- `_serialize_call`.
abbrev pub serialize_call : ToolCallPart → String × String × String
serialize_call part =
    (part.tool_call_id, part.tool_name, elim part.args [ none ↦ "" | some args ↦ args ])

-- `_serialize_deferred_tools`, before it is written as JSON.
unfoldable pub serialize_deferred_tools :
    DeferredToolRequests → List (String × String × String) × List (String × String × String)
serialize_deferred_tools requests =
    (map serialize_call requests.calls, map serialize_call requests.approvals)

-- `_export_session_state`.
unfoldable pub export_session_state : Streamer → SessionState
export_session_state s = record {
  context_state = s.context_state;
  message_history = elim s.run [ none ↦ "[]" | some run ↦ run.messages ];
  environment_state = elim s.environment_state [ none ↦ "{}" | some env ↦ env ];
}

-- The usage of the main run.
abbrev pub main_usages : String → Streamer → List (String × RunUsage)
main_usages model_id s = elim s.run [
  | none ↦ []
  | some run ↦ elim run.usage [ none ↦ [] | some usage ↦ (model_id, usage) ∷ [] ]
]

abbrev pub extra_usages_of : Streamer → List (String × RunUsage)
extra_usages_of s = elim s.extra_usages [ none ↦ [] | some extras ↦ extras ]

-- The calls of `usage.add`, one after the other.
unfoldable pub add_usages : List (String × RunUsage) → PipelineUsage → PipelineUsage
add_usages [] p = p
add_usages ((model_id, usage) ∷ usages) p =
    add_usages usages (add model_id (from_run_usage usage) p)

-- `_build_pipeline_usage`.
unfoldable pub build_pipeline_usage : String → Streamer → PipelineUsage
build_pipeline_usage model_id s =
    add_usages (extra_usages_of s) (add_usages (main_usages model_id s) [])

-- `_pipeline_usage_to_summary` and `_build_run_summary`.
unfoldable pub build_run_summary : (model_id : String) (duration_ms : ℕ) → Streamer → RawSummary
build_run_summary model_id duration_ms s =
    RawSummary.valid duration_ms (build_pipeline_usage model_id s)

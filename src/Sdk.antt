-- ===== src/Sdk.antt =====
-- The events of the agent SDK (`pydantic_ai`, `ya_agent_sdk`) and of the pipeline that
-- netherbrain/agent_runtime/streaming/protocols/agui.py inspects, with what it reads of each.
use netherbrain.Prelude.{ℕ, String, Bool, Option, List}
use netherbrain.Usage.{PipelineUsage}

-- A response part. `has_args` says whether `part.args` is truthy, `json` is what
-- `part.args_as_json_str()` returns.
pub data Part : Type 0 where
  text thinking : (content : String) → Part
  tool_call : (tool_call_id tool_name : String) (has_args : Bool) (json : String) → Part
  other : Part

-- `args_delta` of a tool call's delta: None, a text, or a dict, given by its `json.dumps`.
pub data ArgsDelta : Type 0 where
  missing : ArgsDelta
  fragment dumped : String → ArgsDelta

pub data Delta : Type 0 where
  text thinking : (content_delta : Option String) → Delta
  tool_call : (tool_call_id : Option String) (args_delta : ArgsDelta) → Delta
  other : Delta

-- A function's result. `response` is what `model_response_str()` returns, none where it raises;
-- `content` is `str(result.content)` where that content is truthy.
pub data ToolOutcome : Type 0 where
  tool_return : (tool_call_id : String) (response content : Option String) → ToolOutcome
  retry_prompt : (tool_call_id response : String) → ToolOutcome
  other : (tool_call_id : String) → ToolOutcome

pub data Sideband : Type 0 where
  subagent_start : (agent_id agent_name prompt_preview : String) → Sideband
  subagent_complete :
      (agent_id agent_name : String) (success : Bool) (result_preview error : String)
      (duration_seconds : ℕ)
      → Sideband
  compact_start : (message_count : ℕ) → Sideband
  compact_complete : (original_message_count compacted_message_count : ℕ) → Sideband
  handoff_complete : (original_message_count : ℕ) → Sideband
  message_received : (content_texts : List (Option String)) → Sideband
  unknown : Sideband

-- The event inside a `StreamEvent`.
pub data SdkEvent : Type 0 where
  pipeline_started : (session_id conversation_id : String) → SdkEvent
  pipeline_completed : SdkEvent
  usage_snapshot : PipelineUsage → SdkEvent
  part_start part_end : Part → SdkEvent
  part_delta : Delta → SdkEvent
  function_tool_call : SdkEvent
  function_tool_result : ToolOutcome → SdkEvent
  sideband : Sideband → SdkEvent

-- ===== src/Events.antt =====
-- The AG-UI events that the runtime builds (the classes of `ag_ui.core`, with the fields that
-- netherbrain sets), the extension events of netherbrain/agent_runtime/models/events.py, and the
-- SDK events that the protocol adapter inspects.
use netherbrain.Prelude.{ℕ, String, Bool, true, false, Option}
use netherbrain.Usage.{PipelineUsage}

-- `ExtensionEvent`, the names of the runtime's custom events.
pub data ExtensionEvent : Type 0 where
  subagent_started subagent_completed compact_started compact_completed : ExtensionEvent
  handoff_completed steering_received usage_snapshot : ExtensionEvent

-- The text of a name.
unfoldable pub extension_name : ExtensionEvent → String
extension_name subagent_started = "subagent_started"
extension_name subagent_completed = "subagent_completed"
extension_name compact_started = "compact_started"
extension_name compact_completed = "compact_completed"
extension_name handoff_completed = "handoff_completed"
extension_name steering_received = "steering_received"
extension_name usage_snapshot = "usage_snapshot"

-- The value dicts of the custom events, one constructor for each dict the adapter builds.
pub data Value : Type 0 where
  usage : PipelineUsage → Value
  started : (sub_agent_id sub_agent_name prompt_preview : String) → Value
  completed :
      (sub_agent_id sub_agent_name : String) (success : Bool) (result_preview error : String)
      (duration_seconds : ℕ)
      → Value
  message_count : ℕ → Value
  compacted : (original_message_count compacted_message_count : ℕ) → Value
  original_message_count : ℕ → Value
  steering : (message_count : ℕ) (text : String) → Value

-- `status` of a tool call's result.
pub data ToolStatus : Type 0 where
  complete retry cancel : ToolStatus

pub data BaseEvent : Type 0 where
  run_started run_finished : (thread_id run_id : String) → BaseEvent
  run_error : (message code : String) → BaseEvent
  text_start : (message_id role : String) → BaseEvent
  text_content : (message_id delta : String) → BaseEvent
  text_end : (message_id : String) → BaseEvent
  text_chunk : (message_id role delta : String) → BaseEvent
  tool_start :
      (tool_call_id tool_call_name : String) (parent_message_id : Option String) → BaseEvent
  tool_args : (tool_call_id delta : String) → BaseEvent
  tool_end : (tool_call_id : String) → BaseEvent
  tool_chunk :
      (tool_call_id tool_call_name : String) (parent_message_id : Option String) (delta : String)
      → BaseEvent
  tool_result : (message_id tool_call_id content : String) (status : ToolStatus) → BaseEvent
  reasoning_start : (message_id : String) → BaseEvent
  reasoning_message_start : (message_id : String) → BaseEvent
  reasoning_content : (message_id delta : String) → BaseEvent
  reasoning_message_end : (message_id : String) → BaseEvent
  reasoning_end : (message_id : String) → BaseEvent
  reasoning_chunk : (message_id delta : String) → BaseEvent
  custom : ExtensionEvent → Value → BaseEvent

-- `is_terminal`: the event's type is in `TERMINAL_TYPES`.
unfoldable pub is_terminal : BaseEvent → Bool
is_terminal (run_finished t r) = true
is_terminal (run_error m c) = true
is_terminal _ = false

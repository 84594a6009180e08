-- ===== src/Streaming/Agui.antt =====
-- netherbrain/agent_runtime/streaming/protocols/agui.py: `AGUIProtocol`. A handler takes the adapter
-- and returns the events it yields with the adapter that it leaves. `new_id` gives the ids that
-- `_new_id` draws one after the other, `order` the order in which a set of ids is iterated.
pub mod State
pub mod Closing
pub mod Parts
pub mod Notices
pub mod Sets
pub mod Delivery
pub mod Brackets
pub mod Sessions
pub mod Speech
pub mod Text
use netherbrain.Prelude.{
  ℕ, suc, String, Bool, true, false, Option, none, some, List, [], ◌∷◌, ◌++◌, ◌==◌, ◌&&◌, not, cat,
  if◌then◌else◌, length,
}
use netherbrain.Events.{
  BaseEvent, run_started, run_finished, run_error, text_start, text_content, text_end, tool_start,
  tool_args, tool_end, tool_result, ToolStatus, complete, retry, cancel, reasoning_start,
  reasoning_message_start, reasoning_content, reasoning_message_end, reasoning_end, custom,
  ExtensionEvent, Value,
}
use netherbrain.Sdk
use netherbrain.Sdk.{Part, ArgsDelta, Delta, ToolOutcome, Sideband, SdkEvent}
use State.{Adapter, Emits, nothing, emit, seq, when, assign, reading, member, include, discard}
use Closing.{close_open_streams}
use Parts.{handle_part_start, handle_part_delta, handle_part_end}
use Notices.{handle_tool_result, handle_sideband}

-- `_handle_pipeline_started`.
enter_run : String → String → Adapter → Adapter
enter_run session conversation a = record a { session_id = session; conversation_id = conversation }

handle_pipeline_started : String → String → Emits
unfolding enter_run
handle_pipeline_started session conversation =
    assign (enter_run session conversation) (emit (run_started conversation session))

-- `_handle_pipeline_completed`.
handle_pipeline_completed : (List String → List String) → Emits
handle_pipeline_completed order =
    seq (close_open_streams order) (reading λ a. emit (run_finished a.conversation_id a.session_id))

-- `_handle_usage_snapshot`.
handle_usage_snapshot : Value → Emits
handle_usage_snapshot value = emit (custom ExtensionEvent.usage_snapshot value)

-- `on_error`.
unfoldable pub on_error : (List String → List String) → String → String → Emits
on_error order code message = seq (close_open_streams order) (emit (run_error message code))

-- `reset_for_new_message`, which draws an id.
unfoldable pub reset_for_new_message : (ℕ → String) → Adapter → Adapter
reset_for_new_message new_id a = record a {
  message_id = new_id a.fresh;
  fresh = suc a.fresh;
  text_open = false;
  reasoning_open = false;
  reasoning_msg_open = false;
}

module _ (new_id : ℕ → String) (order : List String → List String) where
  -- `__init__`, which draws the first two ids.
  unfoldable pub init : Adapter
  init = record {
    session_id = "";
    conversation_id = "";
    message_id = new_id 0;
    reasoning_id = new_id 1;
    text_open = false;
    reasoning_open = false;
    reasoning_msg_open = false;
    tool_call_ids = [];
    buffer = [];
    fresh = 2;
  }

  -- `on_event` and `_dispatch`.
  unfoldable pub on_event : SdkEvent → Emits
  unfolding handle_pipeline_started handle_usage_snapshot handle_pipeline_completed
  on_event (SdkEvent.pipeline_started session conversation) =
      handle_pipeline_started session conversation
  on_event SdkEvent.pipeline_completed = handle_pipeline_completed order
  on_event (SdkEvent.usage_snapshot u) = handle_usage_snapshot (Value.usage u)
  on_event (SdkEvent.part_start part) = handle_part_start new_id part
  on_event (SdkEvent.part_delta delta) = handle_part_delta delta
  on_event (SdkEvent.part_end part) = handle_part_end part
  on_event SdkEvent.function_tool_call = nothing
  on_event (SdkEvent.function_tool_result outcome) = handle_tool_result outcome
  on_event (SdkEvent.sideband event) = handle_sideband event

  -- The events of a session in turn.
  unfoldable pub on_events : List SdkEvent → Emits
  on_events [] = nothing
  on_events (e ∷ es) = seq (on_event e) (on_events es)

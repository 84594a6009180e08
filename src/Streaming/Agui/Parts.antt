-- ===== src/Streaming/Agui/Parts.antt =====
-- `AGUIProtocol`: the handlers of response parts
-- (netherbrain/agent_runtime/streaming/protocols/agui.py).
use netherbrain.Prelude.{ℕ, suc, String, Bool, true, Option, none, some, ◌==◌, not, if◌then◌else◌}
use netherbrain.Events.{
  text_start, text_content, tool_start, tool_args, reasoning_start, reasoning_message_start,
  reasoning_content,
}
use netherbrain.Sdk.{Part, ArgsDelta, Delta}
use netherbrain.Streaming.Agui.State.{
  Adapter, Emits, nothing, emit, seq, when, assign, reading, member, include,
}
use netherbrain.Streaming.Agui.Closing.{end_text, end_thinking, end_tool}

-- The `TextPart` branch of `_handle_part_start`.
open_text : Adapter → Adapter
open_text a = record a { text_open = true }

-- The message's start event, with the flag set.
begin_text : Emits
unfolding open_text
begin_text = reading λ a. assign open_text (emit (text_start a.message_id "assistant"))

start_text : String → Emits
unfolding begin_text
start_text content =
    seq begin_text
      (when (not (content == "")) (reading λ a. emit (text_content a.message_id content)))

-- The `ThinkingPart` branch, with the id that `_new_id` draws.
open_reasoning : String → Adapter → Adapter
open_reasoning id a = record a { reasoning_id = id; reasoning_open = true; fresh = suc a.fresh }

open_reasoning_message : Adapter → Adapter
open_reasoning_message a = record a { reasoning_msg_open = true }

begin_reasoning_message : Emits
unfolding open_reasoning_message
begin_reasoning_message =
    reading λ a. assign open_reasoning_message (emit (reasoning_message_start a.reasoning_id))

start_thinking : String → String → Emits
unfolding open_reasoning begin_reasoning_message
start_thinking id content = seq (assign (open_reasoning id) (emit (reasoning_start id))) (
    when (not (content == ""))
      (seq begin_reasoning_message (reading λ a. emit (reasoning_content a.reasoning_id content))))

-- The `ToolCallPart` branch.
open_tool : String → Adapter → Adapter
open_tool id a = record a { tool_call_ids = include id a.tool_call_ids }

start_tool : String → String → Bool → String → Emits
unfolding open_tool
start_tool id name has_args json =
    seq (reading λ a. assign (open_tool id) (emit (tool_start id name (some a.message_id))))
      (when has_args (emit (tool_args id json)))

-- `_handle_part_start`.
unfoldable pub handle_part_start : (ℕ → String) → Part → Emits
unfolding start_text start_thinking start_tool
handle_part_start new_id (Part.text content) = start_text content
handle_part_start new_id (Part.thinking content) =
    reading λ a. start_thinking (new_id a.fresh) content
handle_part_start new_id (Part.tool_call id name has_args json) = start_tool id name has_args json
handle_part_start new_id Part.other = nothing

-- `_handle_text_delta`. A late delta opens the message first.
handle_text_delta : Option String → Emits
unfolding begin_text
handle_text_delta none = nothing
handle_text_delta (some delta) = when (not (delta == "")) (
    seq (reading λ a. when (not a.text_open) begin_text)
      (reading λ a. emit (text_content a.message_id delta)))

-- `_handle_thinking_delta`.
handle_thinking_delta : Option String → Emits
unfolding begin_reasoning_message
handle_thinking_delta none = nothing
handle_thinking_delta (some delta) = when (not (delta == "")) (
    seq (reading λ a. when (not a.reasoning_msg_open) begin_reasoning_message)
      (reading λ a. emit (reasoning_content a.reasoning_id delta)))

-- `_handle_tool_call_delta`. A dict's JSON text is never empty.
args_delta_text : ArgsDelta → Option String
args_delta_text ArgsDelta.missing = none
args_delta_text (ArgsDelta.fragment s) = if s == "" then none else some s
args_delta_text (ArgsDelta.dumped s) = some s

unfoldable pub emit_args : String → Option String → Emits
emit_args id none = nothing
emit_args id (some delta) = emit (tool_args id delta)

handle_tool_call_delta : Option String → ArgsDelta → Emits
unfolding args_delta_text emit_args
handle_tool_call_delta none args = nothing
handle_tool_call_delta (some id) args =
    reading λ a. when (member id a.tool_call_ids) (emit_args id (args_delta_text args))

-- `_handle_part_delta`.
unfoldable pub handle_part_delta : Delta → Emits
unfolding handle_text_delta handle_thinking_delta handle_tool_call_delta
handle_part_delta (Delta.text delta) = handle_text_delta delta
handle_part_delta (Delta.thinking delta) = handle_thinking_delta delta
handle_part_delta (Delta.tool_call id args) = handle_tool_call_delta id args
handle_part_delta Delta.other = nothing

-- `_handle_part_end`.
unfoldable pub handle_part_end : Part → Emits
unfolding end_text end_thinking end_tool
handle_part_end (Part.text content) = end_text
handle_part_end (Part.thinking content) = end_thinking
handle_part_end (Part.tool_call id name has_args json) = end_tool id
handle_part_end Part.other = nothing

-- ===== src/Streaming/Agui/Closing.antt =====
-- `AGUIProtocol`: the events that close a stream, and `_close_open_streams`
-- (netherbrain/agent_runtime/streaming/protocols/agui.py).
use netherbrain.Prelude.{String, false, List, [], ◌∷◌}
use netherbrain.Events.{
  text_end, tool_end, tool_result, cancel, reasoning_message_end, reasoning_end,
}
use netherbrain.Streaming.Agui.State.{
  Adapter, Emits, nothing, emit, seq, when, assign, reading, member, discard,
}

-- The parts of `_handle_part_end` and of `_close_open_streams` that close one stream.
close_text : Adapter → Adapter
close_text a = record a { text_open = false }

unfoldable pub end_text : Emits
unfolding close_text
end_text = reading λ a. when a.text_open (assign close_text (emit (text_end a.message_id)))

close_reasoning_message : Adapter → Adapter
close_reasoning_message a = record a { reasoning_msg_open = false }

unfoldable pub end_reasoning_message : Emits
unfolding close_reasoning_message
end_reasoning_message = reading λ a.
    when a.reasoning_msg_open
      (assign close_reasoning_message (emit (reasoning_message_end a.reasoning_id)))

close_reasoning : Adapter → Adapter
close_reasoning a = record a { reasoning_open = false }

unfoldable pub end_reasoning : Emits
unfolding close_reasoning
end_reasoning =
    reading
      λ a. when a.reasoning_open (assign close_reasoning (emit (reasoning_end a.reasoning_id)))

unfoldable pub end_thinking : Emits
end_thinking = seq end_reasoning_message end_reasoning

discard_tool : String → Adapter → Adapter
discard_tool id a = record a { tool_call_ids = discard id a.tool_call_ids }

unfoldable pub end_tool : String → Emits
unfolding discard_tool
end_tool id =
    reading λ a. when (member id a.tool_call_ids) (assign (discard_tool id) (emit (tool_end id)))

-- The loop of `_close_open_streams` over the ids of the open tool calls.
unfoldable pub cancel_tools : List String → Emits
cancel_tools [] = nothing
cancel_tools (id ∷ ids) =
    seq (emit (tool_end id))
      (seq (reading λ a. emit (tool_result a.message_id id "" cancel)) (cancel_tools ids))

clear_tools : Adapter → Adapter
clear_tools a = record a { tool_call_ids = [] }

-- `_close_open_streams`.
unfoldable pub close_open_streams : (List String → List String) → Emits
unfolding clear_tools
close_open_streams order = seq end_text (
    seq end_reasoning_message (
      seq end_reasoning
        (seq (reading λ a. cancel_tools (order a.tool_call_ids)) (assign clear_tools nothing))))

-- ===== src/Streaming/Agui/Notices.antt =====
-- `AGUIProtocol`: tool results and the SDK's sideband events
-- (netherbrain/agent_runtime/streaming/protocols/agui.py).
use netherbrain.Prelude.{
  String, Option, none, some, List, [], ◌∷◌, ◌==◌, cat, if◌then◌else◌, length,
}
use netherbrain.Events.{tool_result, complete, retry, custom, ExtensionEvent, Value}
use netherbrain.Sdk.{ToolOutcome, Sideband}
use netherbrain.Streaming.Agui.State.{Emits, nothing, emit, reading}

-- `_handle_tool_result`.
return_content : Option String → Option String → String
return_content (some response) content = response
return_content none none = ""
return_content none (some content) = content

unfoldable pub handle_tool_result : ToolOutcome → Emits
unfolding return_content
handle_tool_result (ToolOutcome.tool_return id response content) =
    reading λ a. emit (tool_result a.message_id id (return_content response content) complete)
handle_tool_result (ToolOutcome.retry_prompt id response) =
    reading λ a. emit (tool_result a.message_id id response retry)
handle_tool_result (ToolOutcome.other id) = nothing

-- `[m.content_text for m in event.messages if m.content_text]`, and `"\n".join`.
unfoldable pub present_texts : List (Option String) → List String
present_texts [] = []
present_texts (none ∷ ts) = present_texts ts
present_texts (some t ∷ ts) = let rest = present_texts ts in if t == "" then rest else t ∷ rest

unfoldable pub join_lines : List String → String
join_lines [] = ""
join_lines (t ∷ []) = t
join_lines (t ∷ u ∷ ts) = cat t (cat "\n" (join_lines (u ∷ ts)))

-- `_handle_sideband`.
unfoldable pub handle_sideband : Sideband → Emits
unfolding present_texts join_lines
handle_sideband (Sideband.subagent_start id name preview) =
    emit (custom ExtensionEvent.subagent_started (Value.started id name preview))
handle_sideband (Sideband.subagent_complete id name success preview error seconds) = emit (
    custom ExtensionEvent.subagent_completed
      (Value.completed id name success preview error seconds))
handle_sideband (Sideband.compact_start n) =
    emit (custom ExtensionEvent.compact_started (Value.message_count n))
handle_sideband (Sideband.compact_complete n m) =
    emit (custom ExtensionEvent.compact_completed (Value.compacted n m))
handle_sideband (Sideband.handoff_complete n) =
    emit (custom ExtensionEvent.handoff_completed (Value.original_message_count n))
handle_sideband (Sideband.message_received texts) = emit (
    custom ExtensionEvent.steering_received
      (Value.steering (length texts) (join_lines (present_texts texts))))
handle_sideband Sideband.unknown = nothing

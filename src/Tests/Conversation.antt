-- ===== src/Tests/Conversation.antt =====
-- A streamed session: the AG-UI adapter of streaming/protocols/agui.py, and the compression of
-- streaming/compress.py.
use netherbrain.Prelude.{
  ℕ, String, false, none, some, List, [], ◌∷◌, ◌++◌, ◌≡◌, refl, if◌then◌else◌, eqb, map,
}
use netherbrain.Usage.{ModelUsage, no_usage}
use netherbrain.Events.{
  BaseEvent, text_start, text_content, text_end, tool_start, tool_args, custom, usage_snapshot,
  Value, run_error, run_finished,
}
use netherbrain.Sdk.{SdkEvent, Part, Delta, ArgsDelta}
use netherbrain.Streaming.Compress.{compressed}
use netherbrain.Streaming.Compress.Text.{chunk_text-compressed, chunk_text, streamed_text}
use netherbrain.Streaming.Compress.Segments.{
  compressed_segments, Segment, text, tool, streamed_all, chunk,
}
use netherbrain.Streaming.Compress.Snapshots.{snapshots-compressed, Plain, listed, last_snapshot}
use netherbrain.Streaming.Agui.State.{Adapter}
use netherbrain.Streaming.Agui.{init, on_event, on_events, on_error}
use netherbrain.Streaming.Agui.Brackets.{scan, closed}
use netherbrain.Streaming.Agui.Sessions.{error_closes, completion_closes, IsIteration, after}
use netherbrain.Streaming.Agui.Text.{stored_text}
use netherbrain.Streaming.Agui.Speech.{sdk_text}

abbrev pub ids : ℕ → String
ids n = if eqb n 0 then "m0" else if eqb n 1 then "m1" else "m2"

abbrev pub in_order : List String → List String
in_order s = s

pub in_order-IsIteration : IsIteration in_order
in_order-IsIteration s k = refl

-- A run with a text, a tool call whose arguments are still streaming, and no end.
abbrev pub cut_off : List SdkEvent
cut_off =
    SdkEvent.pipeline_started "s" "c"
    ∷ SdkEvent.part_start (Part.text "Hel")
    ∷ SdkEvent.part_delta (Delta.text (some "lo"))
    ∷ SdkEvent.part_end (Part.text "Hello")
    ∷ SdkEvent.part_start (Part.tool_call "t" "shell" false "")
    ∷ SdkEvent.part_delta (Delta.tool_call (some "t") (ArgsDelta.fragment "{"))
    ∷ []

cut_off_text : sdk_text cut_off ≡ "Hello"
cut_off_text = refl

stored_text_example :
    chunk_text (compressed (on_events ids in_order cut_off (init ids in_order)).1.buffer)
    ≡ sdk_text cut_off
stored_text_example = stored_text ids in_order cut_off (tt, (refl, (tt, (tt, (tt, (tt, tt))))))

-- The adapter after these events.
abbrev cut : Adapter
cut = after in_order in_order-IsIteration ids cut_off

error_closes_example :
    let b = (on_error in_order "interrupted" "stopped" cut).1.buffer in
    (scan "t" b ≡ some closed)
    × ((body : List BaseEvent) × (b ≡ body ++ (run_error "stopped" "interrupted" ∷ [])))
error_closes_example =
    error_closes in_order in_order-IsIteration ids cut_off "interrupted" "stopped" "t"

completion_closes_example :
    let b = (on_event ids in_order SdkEvent.pipeline_completed cut).1.buffer in
    (scan "t" b ≡ some closed)
    × ((body : List BaseEvent) × (b
          ≡ body ++ (run_finished cut.conversation_id cut.session_id ∷ [])))
completion_closes_example = completion_closes in_order in_order-IsIteration ids cut_off "t"

-- A message that is never closed, around a tool call.
abbrev unclosed : List BaseEvent
unclosed =
    text_start "m" "assistant"
    ∷ text_content "m" "Hi "
    ∷ tool_start "t" "shell" none
    ∷ tool_args "t" "{}"
    ∷ text_content "m" "there"
    ∷ []

chunk_text-compressed_example : chunk_text (compressed unclosed) ≡ streamed_text unclosed
chunk_text-compressed_example =
    chunk_text-compressed unclosed (refl, (refl, (tt, (tt, (refl, tt)))))

abbrev two_messages : List Segment
two_messages =
    text "m" "assistant" ("a" ∷ "b" ∷ []) ∷ tool "t" "shell" (some "m") ("{" ∷ "}" ∷ []) ∷ []

compressed_segments_example : compressed (streamed_all two_messages) ≡ map chunk two_messages
compressed_segments_example = compressed_segments two_messages (tt, (tt, tt))

abbrev snapshots : List BaseEvent
snapshots =
    custom usage_snapshot (Value.usage [])
    ∷ text_start "m" "assistant"
    ∷ custom usage_snapshot (Value.usage (("gpt", no_usage) ∷ []))
    ∷ text_end "m"
    ∷ []

snapshots-compressed_example :
    (body : List BaseEvent) × Plain body
    × (compressed snapshots ≡ body ++ listed (last_snapshot none snapshots))
snapshots-compressed_example = snapshots-compressed snapshots

abbrev one_request : ModelUsage
one_request = record no_usage { input_tokens = 10; requests = 1 }

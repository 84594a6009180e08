-- ===== src/Streaming/Agui/Sessions.antt =====
-- Whole sessions: the brackets hold throughout, and a terminal event finds everything closed.
use netherbrain.Prelude.{
  ℕ, ◌≤◌, String, none, some, List, [], ◌∷◌, ◌++◌, ◌≡◌, refl, sym, ap, ◌∙◌, arith, eq_iff, ltb,
}
use netherbrain.Events.{BaseEvent, run_finished, run_error}
use netherbrain.Sdk.{Part, ArgsDelta, Delta, ToolOutcome, Sideband, SdkEvent}
use netherbrain.Streaming.Agui.State.{Adapter, emission, member}
use netherbrain.Streaming.Agui.Sets.{
  occurrences, member-occurrences, occurrences-include, occurrences-discard,
}
use netherbrain.Streaming.Agui.Closing.{end_reasoning_message, end_reasoning, close_open_streams}
use netherbrain.Streaming.Agui.Parts.{handle_part_start, handle_part_delta, handle_part_end}
use netherbrain.Streaming.Agui.Notices.{handle_tool_result, handle_sideband}
use netherbrain.Streaming.Agui.Brackets.{
  closed, scan, scan-snoc, flags, IsBracketed, start-IsBracketed, delta-IsBracketed,
  end-IsBracketed, result-IsBracketed, sideband-IsBracketed, cancel_scan, cancel_adapter,
  after_streams, streams-IsBracketed, streams_closed,
}
use netherbrain.Streaming.Agui.{init, on_event, on_events, on_error}

-- No id is listed twice.
abbrev pub HasNoRepeats : List String → Type 0
HasNoRepeats s = (k : String) → occurrences k s ≤ 1

-- What the code relies on of the iteration over a set: each member comes as often as it is in it.
abbrev pub IsIteration : (List String → List String) → Type 0
IsIteration order = (s : List String) (k : String) → occurrences k (order s) ≡ occurrences k s

pub record IsSound (a : Adapter) : Type 0 where
  pub bracketed : (k : String) → IsBracketed k a
  pub ids : HasNoRepeats a.tool_call_ids

start_ids :
    (new_id : ℕ → String) (p : Part) (a : Adapter)
    → HasNoRepeats a.tool_call_ids
    → HasNoRepeats (handle_part_start new_id p a).1.tool_call_ids
unfolding handle_part_start emission
start_ids new_id (Part.text content) a h k = ground (arith, h k)
start_ids new_id (Part.thinking content) a h k = ground (arith, h k)
start_ids new_id (Part.tool_call id name has_args json) a h k = ground (
  arith,
  h k,
  eq_iff id k,
  occurrences-include k id a.tool_call_ids,
  member-occurrences id a.tool_call_ids,
)
start_ids new_id Part.other a h k = h k

delta_ids : (d : Delta) (a : Adapter) → (handle_part_delta d a).1.tool_call_ids ≡ a.tool_call_ids
unfolding handle_part_delta emission
delta_ids (Delta.text none) a = refl
delta_ids (Delta.text (some s)) a = ground arith
delta_ids (Delta.thinking none) a = refl
delta_ids (Delta.thinking (some s)) a = ground arith
delta_ids (Delta.tool_call none args) a = refl
delta_ids (Delta.tool_call (some id) ArgsDelta.missing) a = ground arith
delta_ids (Delta.tool_call (some id) (ArgsDelta.fragment s)) a = ground arith
delta_ids (Delta.tool_call (some id) (ArgsDelta.dumped s)) a = ground arith
delta_ids Delta.other a = refl

end_ids :
    (p : Part) (a : Adapter)
    → HasNoRepeats a.tool_call_ids
    → HasNoRepeats (handle_part_end p a).1.tool_call_ids
unfolding handle_part_end end_reasoning_message end_reasoning emission
end_ids (Part.text content) a h k = ground (arith, h k)
end_ids (Part.thinking content) a h k = ground (arith, h k)
end_ids (Part.tool_call id name has_args json) a h k =
    ground (arith, h k, occurrences-discard k id a.tool_call_ids)
end_ids Part.other a h k = h k

result_ids :
    (o : ToolOutcome) (a : Adapter) → (handle_tool_result o a).1.tool_call_ids ≡ a.tool_call_ids
unfolding handle_tool_result emission
result_ids (ToolOutcome.other id) a = refl
result_ids _ a = refl

sideband_ids :
    (s : Sideband) (a : Adapter) → (handle_sideband s a).1.tool_call_ids ≡ a.tool_call_ids
unfolding handle_sideband emission
sideband_ids Sideband.unknown a = refl
sideband_ids _ a = refl

module _ (order : List String → List String) (iterates : IsIteration order) where
  -- Everything is closed after `_close_open_streams`.
  close_scan :
      (k : String) (a : Adapter)
      → IsSound a
      → scan k (close_open_streams order a).1.buffer ≡ some closed
  unfolding close_open_streams emission
  close_scan k a h =
      let b = after_streams a in
      let s = order b.tool_call_ids in
      let once : occurrences k s ≤ 1 =
        ground (arith, iterates b.tool_call_ids k, streams_closed a, h.ids k) in
      let opened : member k b.tool_call_ids ≡ ltb 0 (occurrences k s) =
        rw iterates (member-occurrences k b.tool_call_ids) in
      cancel_scan k s b (flags k b) (streams-IsBracketed k a (h.bracketed k)) opened once
      ∙ ground (arith, streams_closed a)

  close_flags : (k : String) (a : Adapter) → flags k (close_open_streams order a).1 ≡ closed
  unfolding close_open_streams emission member
  close_flags k a =
      let b = after_streams a in
      ground (arith, streams_closed a, cancel_adapter (order b.tool_call_ids) b)

  close_run :
      (a : Adapter)
      → ((close_open_streams order a).1.conversation_id ≡ a.conversation_id)
        × ((close_open_streams order a).1.session_id ≡ a.session_id)
  unfolding close_open_streams emission
  close_run a =
      let b = after_streams a in
      ground (arith, streams_closed a, cancel_adapter (order b.tool_call_ids) b)

  close-IsSound : (a : Adapter) → IsSound a → IsSound (close_open_streams order a).1
  unfolding close_open_streams emission occurrences
  close-IsSound a h = record {
    bracketed = λ k. close_scan k a h ∙ ap some (sym (close_flags k a));
    ids = λ k. omega arith;
  }

  module _ (new_id : ℕ → String) where
    event-IsSound : (e : SdkEvent) (a : Adapter) → IsSound a → IsSound (on_event new_id order e a).1
    unfolding on_event emission
    event-IsSound (SdkEvent.pipeline_started session conversation) a h = record {
      bracketed = λ k. grind (arith, scan-snoc, h.bracketed k);
      ids = h.ids;
    }
    event-IsSound SdkEvent.pipeline_completed a h =
        let c = close-IsSound a h in
        record { bracketed = λ k. grind (arith, scan-snoc, c.bracketed k); ids = c.ids }
    event-IsSound (SdkEvent.usage_snapshot u) a h = record {
      bracketed = λ k. grind (arith, scan-snoc, h.bracketed k);
      ids = h.ids;
    }
    event-IsSound (SdkEvent.part_start p) a h = record {
      bracketed = λ k. start-IsBracketed k new_id p a (h.bracketed k);
      ids = start_ids new_id p a h.ids;
    }
    event-IsSound (SdkEvent.part_delta d) a h = record {
      bracketed = λ k. delta-IsBracketed k d a (h.bracketed k);
      ids = rw delta_ids h.ids;
    }
    event-IsSound (SdkEvent.part_end p) a h = record {
      bracketed = λ k. end-IsBracketed k p a (h.bracketed k);
      ids = end_ids p a h.ids;
    }
    event-IsSound SdkEvent.function_tool_call a h = h
    event-IsSound (SdkEvent.function_tool_result o) a h = record {
      bracketed = λ k. result-IsBracketed k o a (h.bracketed k);
      ids = rw result_ids h.ids;
    }
    event-IsSound (SdkEvent.sideband s) a h = record {
      bracketed = λ k. sideband-IsBracketed k s a (h.bracketed k);
      ids = rw sideband_ids h.ids;
    }

    init-IsSound : IsSound (init new_id order)
    unfolding init scan occurrences member
    init-IsSound = record { bracketed = λ k. refl; ids = λ k. omega arith }

    pub events-IsSound :
        (es : List SdkEvent) (a : Adapter) → IsSound a → IsSound (on_events new_id order es a).1
    unfolding on_events emission
    events-IsSound [] a h = h
    events-IsSound (e ∷ es) a h = events-IsSound es _ (event-IsSound e a h)

    abbrev pub after : List SdkEvent → Adapter
    after es = (on_events new_id order es (init new_id order)).1

    -- Whatever the SDK sends, in whatever order, the events emitted so far are bracketed: text,
    -- reasoning and each tool call's arguments come only between a start and an end, no end comes
    -- without a start, and what is left open is what the adapter's flags and set say.
    pub scan-after :
        (es : List SdkEvent) (k : String) → scan k (after es).buffer ≡ some (flags k (after es))
    scan-after es k = (events-IsSound es _ init-IsSound).bracketed k

    -- An error or interrupt, after any events, leaves nothing open: text, reasoning and every tool
    -- call have been ended, and the error event is the last one.
    pub error_closes :
        (es : List SdkEvent) (code message k : String)
        → let b = (on_error order code message (after es)).1.buffer in
          (scan k b ≡ some closed)
          × ((body : List BaseEvent) × (b ≡ body ++ (run_error message code ∷ [])))
    unfolding on_error emission
    error_closes es code message k = (
      grind (arith, scan-snoc, close_scan k (after es) (events-IsSound es _ init-IsSound)),
      ((close_open_streams order (after es)).1.buffer, refl),
    )

    -- Completion, after any events, leaves nothing open either: text, reasoning and every tool call
    -- have been ended, and the run's finish is the last event, with the ids of its conversation and
    -- session.
    pub completion_closes :
        (es : List SdkEvent) (k : String)
        → let a = after es in
          let b = (on_event new_id order SdkEvent.pipeline_completed a).1.buffer in
          (scan k b ≡ some closed)
          × ((body : List BaseEvent) × (b
                ≡ body ++ (run_finished a.conversation_id a.session_id ∷ [])))
    unfolding on_event emission
    completion_closes es k = (
      grind (arith, scan-snoc, close_scan k (after es) (events-IsSound es _ init-IsSound)),
      ((close_open_streams order (after es)).1.buffer, ground (arith, close_run (after es))),
    )

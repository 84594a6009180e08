-- ===== src/Streaming/Agui/Delivery.antt =====
-- What the adapter yields is what it keeps.
use netherbrain.Prelude.{
  ℕ, String, Bool, true, false, Option, none, some, List, [], ◌∷◌, ◌++◌, ◌≡◌, refl, sym, ap, ◌∙◌,
  append_assoc, append-nil,
}
use netherbrain.Events.{BaseEvent}
use netherbrain.Sdk.{Part, Delta, ToolOutcome, Sideband, SdkEvent}
use netherbrain.Streaming.Agui.State.{
  Adapter, Emits, nothing, emit, seq, when, assign, reading, emission,
}
use netherbrain.Streaming.Agui.Closing.{
  end_text, end_reasoning_message, end_reasoning, cancel_tools, close_open_streams,
}
use netherbrain.Streaming.Agui.Parts.{
  handle_part_start, handle_part_delta, handle_part_end, emit_args,
}
use netherbrain.Streaming.Agui.Notices.{handle_tool_result, handle_sideband}
use netherbrain.Streaming.Agui.{init, on_event, on_events, on_error}

-- The buffer grows by the events that are yielded.
pub record Delivers (m : Emits) : Type 0 where
  pub at : (a : Adapter) → (m a).1.buffer ≡ a.buffer ++ (m a).0

Delivers-nothing : Delivers nothing
unfolding emission
Delivers-nothing = record { at = λ a. sym (append-nil a.buffer) }

Delivers-emit : (e : BaseEvent) → Delivers (emit e)
unfolding emission
Delivers-emit e = record { at = λ a. refl }

Delivers-seq : (m n : Emits) → Delivers m → Delivers n → Delivers (seq m n)
unfolding emission
Delivers-seq m n hm hn = record {
  at = λ a.
      hn.at (m a).1
      ∙ ap (λ b. b ++ (n (m a).1).0) (hm.at a)
      ∙ append_assoc a.buffer (m a).0 (n (m a).1).0;
}

Delivers-when : (b : Bool) (m : Emits) → Delivers m → Delivers (when b m)
unfolding emission
Delivers-when true m h = record { at = h.at }
Delivers-when false m h = record { at = λ a. sym (append-nil a.buffer) }

Delivers-assign :
    (f : Adapter → Adapter) (m : Emits)
    → ((a : Adapter) → (f a).buffer ≡ a.buffer)
    → Delivers m
    → Delivers (assign f m)
unfolding emission
Delivers-assign f m same h = record { at = λ a. h.at (f a) ∙ ap (λ b. b ++ (m (f a)).0) (same a) }

Delivers-reading : (f : Adapter → Emits) → ((a : Adapter) → Delivers (f a)) → Delivers (reading f)
unfolding emission
Delivers-reading f h = record { at = λ a. (h a).at a }

keeps_buffer : (a : Adapter) → a.buffer ≡ a.buffer
keeps_buffer a = refl

ruleset delivery = (
  Delivers-nothing, Delivers-emit, Delivers-seq, Delivers-when, Delivers-assign, Delivers-reading,
  keeps_buffer,
)

Delivers-start : (new_id : ℕ → String) (p : Part) → Delivers (handle_part_start new_id p)
unfolding handle_part_start
Delivers-start new_id (Part.text content) = search delivery
Delivers-start new_id (Part.thinking content) = search delivery depth 8
Delivers-start new_id _ = search delivery

Delivers-args : (id : String) (o : Option String) → Delivers (emit_args id o)
unfolding emit_args
Delivers-args id none = search delivery
Delivers-args id (some delta) = search delivery

Delivers-delta : (d : Delta) → Delivers (handle_part_delta d)
unfolding handle_part_delta
Delivers-delta (Delta.text none) = search delivery
Delivers-delta (Delta.text (some s)) = search delivery depth 9
Delivers-delta (Delta.thinking none) = search delivery
Delivers-delta (Delta.thinking (some s)) = search delivery depth 9
Delivers-delta (Delta.tool_call none args) = search delivery
Delivers-delta (Delta.tool_call (some id) args) = search (delivery, Delivers-args)
Delivers-delta Delta.other = search delivery

Delivers-end : (p : Part) → Delivers (handle_part_end p)
unfolding handle_part_end end_reasoning_message end_reasoning
Delivers-end (Part.text content) = search delivery
Delivers-end (Part.thinking content) = search delivery depth 8
Delivers-end _ = search delivery

Delivers-result : (o : ToolOutcome) → Delivers (handle_tool_result o)
unfolding handle_tool_result
Delivers-result (ToolOutcome.other id) = search delivery
Delivers-result _ = search delivery

Delivers-sideband : (s : Sideband) → Delivers (handle_sideband s)
unfolding handle_sideband
Delivers-sideband Sideband.unknown = search delivery
Delivers-sideband _ = search delivery

Delivers-cancel : (ids : List String) → Delivers (cancel_tools ids)
unfolding cancel_tools
Delivers-cancel [] = search delivery
Delivers-cancel (id ∷ ids) =
    Delivers-seq _ _ (Delivers-emit _)
      (Delivers-seq _ _ (Delivers-reading _ λ a. Delivers-emit _) (Delivers-cancel ids))

module _ (order : List String → List String) where
  Delivers-close : Delivers (close_open_streams order)
  unfolding close_open_streams end_text end_reasoning_message end_reasoning
  Delivers-close = search (delivery, Delivers-cancel) depth 12

  pub Delivers-error : (code message : String) → Delivers (on_error order code message)
  unfolding on_error
  Delivers-error code message = search (delivery, Delivers-close)

  module _ (new_id : ℕ → String) where
    pub Delivers-event : (e : SdkEvent) → Delivers (on_event new_id order e)
    unfolding on_event
    Delivers-event (SdkEvent.sideband s) = Delivers-sideband s
    Delivers-event (SdkEvent.part_start p) = Delivers-start new_id p
    Delivers-event (SdkEvent.part_delta d) = Delivers-delta d
    Delivers-event (SdkEvent.part_end p) = Delivers-end p
    Delivers-event (SdkEvent.function_tool_result o) = Delivers-result o
    Delivers-event SdkEvent.pipeline_completed = search (delivery, Delivers-close)
    Delivers-event _ = search delivery

    -- What the adapter yields over a session, event by event, is exactly what its buffer gains: the
    -- stored history is made from the events that the transport was given, none more, none less.
    pub Delivers-events : (es : List SdkEvent) → Delivers (on_events new_id order es)
    unfolding on_events
    Delivers-events [] = search delivery
    Delivers-events (e ∷ es) = Delivers-seq _ _ (Delivers-event e) (Delivers-events es)

-- The events kept for the history are those that were yielded to the client, in their order, for
-- any events of the SDK.
pub buffer-on_events :
    (order : List String → List String) (new_id : ℕ → String) (es : List SdkEvent)
    → (on_events new_id order es (init new_id order)).1.buffer
      ≡ (on_events new_id order es (init new_id order)).0
unfolding init
buffer-on_events order new_id es = (Delivers-events order new_id es).at (init new_id order)

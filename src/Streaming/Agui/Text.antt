-- ===== src/Streaming/Agui/Text.antt =====
-- The assistant's text from the SDK to the stored history: through the adapter and the compressor.
use netherbrain.Prelude.{ℕ, String, Bool, false, List, [], ◌∷◌, ◌≡◌, refl, ap, ◌∙◌, arith}
use netherbrain.Sdk.{ToolOutcome, Sideband, SdkEvent}
use netherbrain.Streaming.Compress.{compressed}
use netherbrain.Streaming.Compress.Text.{chunk_text, chunk_text-compressed}
use netherbrain.Streaming.Agui.State.{Adapter, emission}
use netherbrain.Streaming.Agui.Delivery.{Delivers-events}
use netherbrain.Streaming.Agui.{init, on_event, on_events}
use netherbrain.Streaming.Agui.Speech.{
  event_text, sdk_text, part_open_after, PartFits, PartsOk, Speaks, Speaks-append, start-Speaks,
  delta-Speaks, end-Speaks, result-Speaks, sideband-Speaks, close-Speaks, close_text_open,
  start_text_open, delta_text_open, end_text_open, other_text_open,
}

module _ (new_id : ℕ → String) (order : List String → List String) where
  event_text_open :
      (e : SdkEvent) (a : Adapter)
      → (on_event new_id order e a).1.text_open ≡ part_open_after a.text_open e
  unfolding on_event emission
  event_text_open (SdkEvent.part_start p) a = start_text_open new_id p a
  event_text_open (SdkEvent.part_delta d) a = delta_text_open d a
  event_text_open (SdkEvent.part_end p) a = end_text_open p a
  event_text_open (SdkEvent.function_tool_result r) a = (other_text_open r Sideband.unknown a).0
  event_text_open (SdkEvent.sideband s) a = (other_text_open (ToolOutcome.other "") s a).1
  event_text_open SdkEvent.pipeline_completed a = close_text_open order a
  event_text_open _ a = refl

  event-Speaks :
      (e : SdkEvent) (a : Adapter)
      → PartFits a.text_open e
      → Speaks a.text_open
          (part_open_after a.text_open e)
          (event_text e)
          (on_event new_id order e a).0
  unfolding on_event emission
  event-Speaks (SdkEvent.part_start p) a h = start-Speaks new_id p a h
  event-Speaks (SdkEvent.part_delta d) a h = delta-Speaks d a
  event-Speaks (SdkEvent.part_end p) a h = end-Speaks p a
  event-Speaks (SdkEvent.function_tool_result r) a h = result-Speaks r a a.text_open
  event-Speaks (SdkEvent.sideband s) a h = sideband-Speaks s a a.text_open
  event-Speaks SdkEvent.pipeline_completed a h =
      Speaks-append _ _ {p = false} {u = ""} (close-Speaks order a) (ground arith)
  event-Speaks _ a h = ground arith

  Speaks-all :
      (es : List SdkEvent) (a : Adapter)
      → PartsOk a.text_open es
      → (p : Bool) × Speaks a.text_open p (sdk_text es) (on_events new_id order es a).0
  unfolding on_events emission
  Speaks-all [] a h = (a.text_open, ground arith)
  Speaks-all (e ∷ es) a h =
      let (p, later) = Speaks-all es (on_event new_id order e a).1 (rw event_text_open h.1) in
      (p, Speaks-append _ _ (event-Speaks e a h.0) (rw event_text_open at later))

  -- The assistant's text reaches the stored history unchanged: for any events of the SDK in which no
  -- text part starts before the one before it has ended, the text chunks of the compressed buffer
  -- carry exactly the text that the SDK streamed, whatever else comes between, late deltas without
  -- a start and a session that is cut off in the middle of a message included.
  pub stored_text :
      (es : List SdkEvent)
      → PartsOk false es
      → chunk_text (compressed (on_events new_id order es (init new_id order)).1.buffer)
        ≡ sdk_text es
  unfolding init
  stored_text es h =
      let a = init new_id order in
      let (p, all) = Speaks-all es a h in
      let same : (on_events new_id order es a).1.buffer ≡ (on_events new_id order es a).0 =
        (Delivers-events order new_id es).at a in
      ap (λ b. chunk_text (compressed b)) same ∙ chunk_text-compressed _ all.fits ∙ all.says

-- ===== src/Streaming/Agui/Speech.antt =====
-- What each handler of the adapter does to the assistant's text: which part of it its events carry,
-- and whether they leave a text message open.
use mathlib.Core.List.{foldl-append}
use netherbrain.Prelude.{
  ℕ, String, Bool, true, false, none, some, List, [], ◌∷◌, ◌++◌, foldl, ◌≡◌, sym, ap, ◌∙◌, arith,
  ◌==◌, eq_iff, if◌then◌else◌, cat, cat-nil, nil-cat, cat_assoc,
}
use netherbrain.Events.{BaseEvent}
use netherbrain.Sdk.{Part, ArgsDelta, Delta, ToolOutcome, Sideband, SdkEvent}
use netherbrain.Streaming.Compress.Text.{streamed_text, open_after, TextOk, streamed_text-cons}
use netherbrain.Streaming.Agui.State.{Adapter, emission}
use netherbrain.Streaming.Agui.Closing.{
  end_text, end_reasoning_message, end_reasoning, cancel_tools, close_open_streams,
}
use netherbrain.Streaming.Agui.Parts.{handle_part_start, handle_part_delta, handle_part_end}
use netherbrain.Streaming.Agui.Notices.{handle_tool_result, handle_sideband}
use netherbrain.Streaming.Agui.Brackets.{cancel_one, cancel_adapter, after_streams, streams_closed}

-- The text that the SDK streams.
abbrev pub event_text : SdkEvent → String
event_text (SdkEvent.part_start (Part.text content)) = content
event_text (SdkEvent.part_delta (Delta.text (some delta))) = delta
event_text _ = ""

abbrev pub sdk_text : List SdkEvent → String
sdk_text [] = ""
sdk_text (e ∷ es) = cat (event_text e) (sdk_text es)

-- Whether a text part is open after an event: a start opens one, and so does a late delta.
abbrev pub part_open_after : Bool → SdkEvent → Bool
part_open_after o (SdkEvent.part_start (Part.text content)) = true
part_open_after o (SdkEvent.part_delta (Delta.text (some delta))) = if delta == "" then o else true
part_open_after o (SdkEvent.part_end (Part.text content)) = false
part_open_after o SdkEvent.pipeline_completed = false
part_open_after o _ = o

-- The SDK starts no text part before the one before it has ended.
abbrev pub PartFits : Bool → SdkEvent → Type 0
PartFits o (SdkEvent.part_start (Part.text content)) = o ≡ false
PartFits o _ = Unit

abbrev pub PartsOk : Bool → List SdkEvent → Type 0
PartsOk o [] = Unit
PartsOk o (e ∷ es) = PartFits o e × PartsOk (part_open_after o e) es

abbrev pub opened : Bool → List BaseEvent → Bool
opened = foldl open_after

-- A list of events, from `o` open to `p` open, that carries the text `t`.
pub record Speaks (o p : Bool) (t : String) (es : List BaseEvent) : Type 0 where
  pub fits : TextOk o es
  pub ends : opened o es ≡ p
  pub says : streamed_text es ≡ t

TextOk-append :
    (o : Bool) (xs ys : List BaseEvent)
    → TextOk o xs
    → TextOk (opened o xs) ys
    → TextOk o (xs ++ ys)
TextOk-append o [] ys h k = k
TextOk-append o (x ∷ xs) ys h k = (h.0, TextOk-append (open_after o x) xs ys h.1 k)

streamed_text-append :
    (xs ys : List BaseEvent) → streamed_text (xs ++ ys) ≡ cat (streamed_text xs) (streamed_text ys)
streamed_text-append [] ys = sym (nil-cat _)
streamed_text-append (x ∷ xs) ys =
    streamed_text-cons x (xs ++ ys)
    ∙ ap (cat (streamed_text (x ∷ []))) (streamed_text-append xs ys)
    ∙ sym (cat_assoc (streamed_text (x ∷ [])) (streamed_text xs) (streamed_text ys))
    ∙ ap (λ t. cat t (streamed_text ys)) (sym (streamed_text-cons x xs))

pub Speaks-append :
    (xs ys : List BaseEvent) {o p q : Bool} {t u : String}
    → Speaks o p t xs
    → Speaks p q u ys
    → Speaks o q (cat t u) (xs ++ ys)
Speaks-append xs ys {o} h k = record {
  fits = TextOk-append o xs ys h.fits (rw h.ends k.fits);
  ends = foldl-append open_after o xs ys ∙ rw h.ends k.ends;
  says = streamed_text-append xs ys ∙ rw (h.says, k.says);
}

pub start-Speaks :
    (new_id : ℕ → String) (p : Part) (a : Adapter)
    → PartFits a.text_open (SdkEvent.part_start p)
    → Speaks a.text_open
        (part_open_after a.text_open (SdkEvent.part_start p))
        (event_text (SdkEvent.part_start p))
        (handle_part_start new_id p a).0
unfolding handle_part_start emission
start-Speaks new_id (Part.text content) a h = ground (arith, cat-nil content, eq_iff content "")
start-Speaks new_id _ a h = ground arith

pub delta-Speaks :
    (d : Delta) (a : Adapter)
    → Speaks a.text_open
        (part_open_after a.text_open (SdkEvent.part_delta d))
        (event_text (SdkEvent.part_delta d))
        (handle_part_delta d a).0
unfolding handle_part_delta emission
delta-Speaks (Delta.text none) a = ground arith
delta-Speaks (Delta.text (some s)) a = ground (arith, cat-nil s, eq_iff s "")
delta-Speaks (Delta.thinking none) a = ground arith
delta-Speaks (Delta.thinking (some s)) a = ground arith
delta-Speaks (Delta.tool_call none args) a = ground arith
delta-Speaks (Delta.tool_call (some id) ArgsDelta.missing) a = ground arith
delta-Speaks (Delta.tool_call (some id) (ArgsDelta.fragment s)) a = ground arith
delta-Speaks (Delta.tool_call (some id) (ArgsDelta.dumped s)) a = ground arith
delta-Speaks Delta.other a = ground arith

pub end-Speaks :
    (p : Part) (a : Adapter)
    → Speaks a.text_open
        (part_open_after a.text_open (SdkEvent.part_end p))
        ""
        (handle_part_end p a).0
unfolding handle_part_end end_reasoning_message end_reasoning emission
end-Speaks (Part.text content) a = ground arith
end-Speaks _ a = ground arith

pub result-Speaks :
    (r : ToolOutcome) (a : Adapter) (o : Bool) → Speaks o o "" (handle_tool_result r a).0
unfolding handle_tool_result emission
result-Speaks (ToolOutcome.other id) a o = ground arith
result-Speaks _ a o = ground arith

pub sideband-Speaks :
    (s : Sideband) (a : Adapter) (o : Bool) → Speaks o o "" (handle_sideband s a).0
unfolding handle_sideband emission
sideband-Speaks Sideband.unknown a o = ground arith
sideband-Speaks _ a o = ground arith

cancel-Speaks : (ids : List String) (a : Adapter) (o : Bool) → Speaks o o "" (cancel_tools ids a).0
unfolding cancel_tools emission
cancel-Speaks [] a o = ground arith
cancel-Speaks (id ∷ ids) a o =
    let rest = cancel-Speaks ids (cancel_one id a) o in
    record { fits = (tt, (tt, rest.fits)); ends = rest.ends; says = rest.says }

end_text-Speaks : (a : Adapter) → Speaks a.text_open false "" (end_text a).0
unfolding end_text emission
end_text-Speaks a = ground arith

end_message-Speaks : (a : Adapter) (o : Bool) → Speaks o o "" (end_reasoning_message a).0
unfolding end_reasoning_message emission
end_message-Speaks a o = ground arith

end_reasoning-Speaks : (a : Adapter) (o : Bool) → Speaks o o "" (end_reasoning a).0
unfolding end_reasoning emission
end_reasoning-Speaks a o = ground arith

silence : Speaks false false "" []
silence = ground arith

pub close-Speaks :
    (order : List String → List String) (a : Adapter)
    → Speaks a.text_open false "" (close_open_streams order a).0
unfolding close_open_streams emission
close-Speaks order a = Speaks-append _ _ (end_text-Speaks a) (
    Speaks-append _ _ (end_message-Speaks _ false) (
      Speaks-append _ _ (end_reasoning-Speaks _ false) (
        Speaks-append _ _
          (cancel-Speaks (order (after_streams a).tool_call_ids) (after_streams a) false) silence)))

pub close_text_open :
    (order : List String → List String) (a : Adapter)
    → (close_open_streams order a).1.text_open ≡ false
unfolding close_open_streams emission
close_text_open order a = ground (
  arith,
  streams_closed a,
  cancel_adapter (order (after_streams a).tool_call_ids) (after_streams a),
)

pub start_text_open :
    (new_id : ℕ → String) (p : Part) (a : Adapter)
    → (handle_part_start new_id p a).1.text_open
      ≡ part_open_after a.text_open (SdkEvent.part_start p)
unfolding handle_part_start emission
start_text_open new_id (Part.text content) a = ground arith
start_text_open new_id _ a = ground arith

pub delta_text_open :
    (d : Delta) (a : Adapter)
    → (handle_part_delta d a).1.text_open ≡ part_open_after a.text_open (SdkEvent.part_delta d)
unfolding handle_part_delta emission
delta_text_open (Delta.text none) a = ground arith
delta_text_open (Delta.text (some s)) a = ground arith
delta_text_open (Delta.thinking none) a = ground arith
delta_text_open (Delta.thinking (some s)) a = ground arith
delta_text_open (Delta.tool_call none args) a = ground arith
delta_text_open (Delta.tool_call (some id) ArgsDelta.missing) a = ground arith
delta_text_open (Delta.tool_call (some id) (ArgsDelta.fragment s)) a = ground arith
delta_text_open (Delta.tool_call (some id) (ArgsDelta.dumped s)) a = ground arith
delta_text_open Delta.other a = ground arith

pub end_text_open :
    (p : Part) (a : Adapter)
    → (handle_part_end p a).1.text_open ≡ part_open_after a.text_open (SdkEvent.part_end p)
unfolding handle_part_end end_reasoning_message end_reasoning emission
end_text_open (Part.text content) a = ground arith
end_text_open _ a = ground arith

pub other_text_open :
    (r : ToolOutcome) (s : Sideband) (a : Adapter)
    → ((handle_tool_result r a).1.text_open ≡ a.text_open)
      × ((handle_sideband s a).1.text_open ≡ a.text_open)
unfolding handle_tool_result handle_sideband emission
other_text_open (ToolOutcome.other id) Sideband.unknown a = ground arith
other_text_open _ _ a = ground arith

-- ===== src/Streaming/Agui/Brackets.antt =====
-- Start and end events are properly bracketed.
use mathlib.Core.List.{foldl-append}
use netherbrain.Prelude.{
  ℕ, ◌≤◌, String, Bool, true, false, Option, none, some, List, [], ◌∷◌, ◌++◌, foldl, ◌≡◌, refl,
  arith, ◌==◌, eq_iff, if◌then◌else◌, Bool-cases, inl, inr, ltb,
}
use netherbrain.Events.{
  BaseEvent, cancel, text_start, text_content, text_end, tool_start, tool_args, tool_end,
  tool_result, reasoning_start, reasoning_message_start, reasoning_content, reasoning_message_end,
  reasoning_end,
}
use netherbrain.Sdk.{Part, ArgsDelta, Delta, ToolOutcome, Sideband}
use netherbrain.Streaming.Agui.State.{Adapter, emission, member}
use netherbrain.Streaming.Agui.Sets.{member-include, member-discard, occurrences}
use netherbrain.Streaming.Agui.Closing.{
  end_text, end_reasoning_message, end_reasoning, cancel_tools,
}
use netherbrain.Streaming.Agui.Parts.{handle_part_start, handle_part_delta, handle_part_end}
use netherbrain.Streaming.Agui.Notices.{handle_tool_result, handle_sideband}

-- What a client that reads the events holds open: the message, the reasoning, the reasoning
-- message, and the call of one tool.
pub record Opened : Type 0 where
  pub text : Bool
  pub reasoning : Bool
  pub message : Bool
  pub tool : Bool

abbrev pub closed : Opened
closed = record { text = false; reasoning = false; message = false; tool = false }

abbrev pub require : Bool → Opened → Option Opened
require b o = if b then some o else none

-- One event, for the tool call `k`: content and ends are refused where nothing is open.
abbrev pub read : String → Opened → BaseEvent → Option Opened
read k o (text_start id role) = some (record o { text = true })
read k o (text_content id delta) = require o.text o
read k o (text_end id) = require o.text (record o { text = false })
read k o (reasoning_start id) = some (record o { reasoning = true })
read k o (reasoning_end id) = require o.reasoning (record o { reasoning = false })
read k o (reasoning_message_start id) = some (record o { message = true })
read k o (reasoning_content id delta) = require o.message o
read k o (reasoning_message_end id) = require o.message (record o { message = false })
read k o (tool_start id name parent) = if id == k then some (record o { tool = true }) else some o
read k o (tool_args id delta) = if id == k then require o.tool o else some o
read k o (tool_end id) = if id == k then require o.tool (record o { tool = false }) else some o
read k o _ = some o

abbrev pub read_next : String → Option Opened → BaseEvent → Option Opened
read_next k none e = none
read_next k (some o) e = read k o e

-- The events read in turn; none where one is refused.
unfoldable pub scan : String → List BaseEvent → Option Opened
scan k = foldl (read_next k) (some closed)

pub scan-snoc :
    (k : String) (es : List BaseEvent) (e : BaseEvent)
    → scan k (es ++ (e ∷ [])) ≡ read_next k (scan k es) e
unfolding scan
scan-snoc k es e = foldl-append (read_next k) (some closed) es (e ∷ [])

-- What the adapter's flags say is open.
abbrev pub flags : String → Adapter → Opened
flags k a = record {
  text = a.text_open;
  reasoning = a.reasoning_open;
  message = a.reasoning_msg_open;
  tool = member k a.tool_call_ids;
}

-- The events kept so far are bracketed, and leave open what the flags say.
abbrev pub IsBracketed : String → Adapter → Type 0
IsBracketed k a = scan k a.buffer ≡ some (flags k a)

pub start-IsBracketed :
    (k : String) (new_id : ℕ → String) (p : Part) (a : Adapter)
    → IsBracketed k a
    → IsBracketed k (handle_part_start new_id p a).1
unfolding handle_part_start emission
start-IsBracketed k new_id (Part.text content) a h = elim (Bool-cases (content == "")) [
  | inl e ↦ ground (arith, scan-snoc k a.buffer (text_start a.message_id "assistant"))
  | inr e ↦ ground (
    arith,
    scan-snoc k a.buffer (text_start a.message_id "assistant"),
    scan-snoc k (a.buffer ++ (text_start a.message_id "assistant" ∷ []))
        (text_content a.message_id content),
  )
]
start-IsBracketed k new_id (Part.thinking content) a h = elim (Bool-cases (content == "")) [
  | inl e ↦ grind (arith, scan-snoc)
  | inr e ↦ grind (arith, scan-snoc)
]
start-IsBracketed k new_id (Part.tool_call id name true json) a h =
    grind (arith, scan-snoc, member-include k id a.tool_call_ids)
start-IsBracketed k new_id (Part.tool_call id name false json) a h =
    grind (arith, scan-snoc, member-include k id a.tool_call_ids)
start-IsBracketed k new_id Part.other a h = h

pub delta-IsBracketed :
    (k : String) (d : Delta) (a : Adapter)
    → IsBracketed k a
    → IsBracketed k (handle_part_delta d a).1
unfolding handle_part_delta emission
delta-IsBracketed k (Delta.text none) a h = h
delta-IsBracketed k (Delta.text (some s)) a h = elim (Bool-cases (s == "")) [
  | inl e ↦ ground arith
  | inr e ↦ elim (Bool-cases a.text_open) [
    | inl o ↦ grind (arith, scan-snoc)
    | inr o ↦ grind (arith, scan-snoc)
  ]
]
delta-IsBracketed k (Delta.thinking none) a h = h
delta-IsBracketed k (Delta.thinking (some s)) a h = elim (Bool-cases (s == "")) [
  | inl e ↦ ground arith
  | inr e ↦ elim (Bool-cases a.reasoning_msg_open) [
    | inl o ↦ grind (arith, scan-snoc)
    | inr o ↦ grind (arith, scan-snoc)
  ]
]
delta-IsBracketed k (Delta.tool_call none args) a h = h
delta-IsBracketed k (Delta.tool_call (some id) ArgsDelta.missing) a h = ground arith
delta-IsBracketed k (Delta.tool_call (some id) (ArgsDelta.fragment s)) a h =
    elim (Bool-cases (s == "")) [
      | inl e ↦ ground (arith)
      | inr e ↦ ground (arith, eq_iff id k, scan-snoc k a.buffer (tool_args id s))
    ]
delta-IsBracketed k (Delta.tool_call (some id) (ArgsDelta.dumped s)) a h =
    ground (arith, eq_iff id k, scan-snoc k a.buffer (tool_args id s))
delta-IsBracketed k Delta.other a h = h

pub end-IsBracketed :
    (k : String) (p : Part) (a : Adapter) → IsBracketed k a → IsBracketed k (handle_part_end p a).1
unfolding handle_part_end end_reasoning_message end_reasoning emission
end-IsBracketed k (Part.text content) a h =
    ground (arith, scan-snoc k a.buffer (text_end a.message_id))
end-IsBracketed k (Part.thinking content) a h = grind (arith, scan-snoc)
end-IsBracketed k (Part.tool_call id name has_args json) a h =
    ground
      (arith, eq_iff id k, scan-snoc k a.buffer (tool_end id), member-discard k id a.tool_call_ids)
end-IsBracketed k Part.other a h = h

pub result-IsBracketed :
    (k : String) (o : ToolOutcome) (a : Adapter)
    → IsBracketed k a
    → IsBracketed k (handle_tool_result o a).1
unfolding handle_tool_result emission
result-IsBracketed k (ToolOutcome.other id) a h = h
result-IsBracketed k _ a h = grind (arith, scan-snoc)

pub sideband-IsBracketed :
    (k : String) (s : Sideband) (a : Adapter)
    → IsBracketed k a
    → IsBracketed k (handle_sideband s a).1
unfolding handle_sideband emission
sideband-IsBracketed k Sideband.unknown a h = h
sideband-IsBracketed k _ a h = grind (arith, scan-snoc)

-- One round of the loop.
abbrev pub cancel_one : String → Adapter → Adapter
cancel_one id a = record a {
  buffer = (a.buffer ++ (tool_end id ∷ [])) ++ (tool_result a.message_id id "" cancel ∷ []);
}

-- The loop over the open tool calls closes each, and changes nothing but the buffer.
pub cancel_scan :
    (k : String) (ids : List String) (a : Adapter) (o : Opened)
    → scan k a.buffer ≡ some o
    → o.tool ≡ ltb 0 (occurrences k ids)
    → occurrences k ids ≤ 1
    → scan k (cancel_tools ids a).1.buffer ≡ some (record o { tool = false })
unfolding cancel_tools emission occurrences
cancel_scan k [] a o h t n = ground arith
cancel_scan k (id ∷ ids) a o h t n = elim (Bool-cases (id == k)) [
  | inl e ↦
      cancel_scan k ids (cancel_one id a) (record o { tool = false }) (grind (arith, scan-snoc))
        (ground arith) (ground arith)
  | inr e ↦
      cancel_scan k ids (cancel_one id a) o (grind (arith, scan-snoc)) (ground arith) (ground arith)
]

pub cancel_adapter :
    (ids : List String) (a : Adapter)
    → (cancel_tools ids a).1 ≡ record a { buffer = (cancel_tools ids a).1.buffer }
unfolding cancel_tools emission
cancel_adapter [] a = refl
cancel_adapter (id ∷ ids) a = cancel_adapter ids (cancel_one id a)

-- The three single streams are closed first.
abbrev pub after_streams : Adapter → Adapter
after_streams a = (end_reasoning (end_reasoning_message (end_text a).1).1).1

pub streams-IsBracketed :
    (k : String) (a : Adapter) → IsBracketed k a → IsBracketed k (after_streams a)
unfolding end_text end_reasoning_message end_reasoning emission
streams-IsBracketed k a h = grind (arith, scan-snoc)

pub streams_closed :
    (a : Adapter)
    → ((after_streams a).text_open ≡ false)
      × ((after_streams a).reasoning_open ≡ false)
      × ((after_streams a).reasoning_msg_open ≡ false)
      × ((after_streams a).tool_call_ids ≡ a.tool_call_ids)
      × ((after_streams a).conversation_id ≡ a.conversation_id)
      × ((after_streams a).session_id ≡ a.session_id)
unfolding end_text end_reasoning_message end_reasoning emission
streams_closed a = ground arith

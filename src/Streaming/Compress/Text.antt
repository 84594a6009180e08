-- ===== src/Streaming/Compress/Text.antt =====
-- The assistant's text through the compressor, whatever else is interleaved with it.
use netherbrain.Prelude.{
  String, Bool, true, false, Option, none, some, List, [], ◌∷◌, ◌++◌, foldl, map, ◌≡◌, refl, sym,
  ap, ◌∙◌, cat, Option-cases, inl, inr, nil-cat, cat-nil, cat_assoc, is_some, arith, eq_iff,
}
use netherbrain.Prelude.Dict
use netherbrain.Prelude.Dict.{Dict, AllValues, AllValues-set}
use netherbrain.Events.{
  BaseEvent, text_start, text_content, text_end, text_chunk, custom, tool_end, tool_result,
  reasoning_end, usage_snapshot, extension_name,
}
use netherbrain.Streaming.Compress.{
  Compressor, TextAcc, ToolAcc, ReasoningAcc, init, process, finished, flush_unclosed, compressed,
  tool_chunk_of, text_chunk_of, reasoning_chunk_of, unclosed_text, unclosed_reasoning,
}

-- The text that the content events of a buffer carry.
abbrev pub streamed_text : List BaseEvent → String
streamed_text [] = ""
streamed_text (text_content id delta ∷ es) = cat delta (streamed_text es)
streamed_text (_ ∷ es) = streamed_text es

-- The text that the chunk events of a compressed list carry.
abbrev pub chunk_text : List BaseEvent → String
chunk_text [] = ""
chunk_text (text_chunk id role delta ∷ es) = cat delta (chunk_text es)
chunk_text (_ ∷ es) = chunk_text es

-- No message starts inside a message, and content comes inside one: `opened` says whether a
-- message is open before the event.
abbrev pub Fits : Bool → BaseEvent → Type 0
Fits opened (text_start id role) = opened ≡ false
Fits opened (text_content id delta) = opened ≡ true
Fits opened _ = Unit

abbrev pub open_after : Bool → BaseEvent → Bool
open_after opened (text_start id role) = true
open_after opened (text_end id) = false
open_after opened _ = opened

abbrev pub TextOk : Bool → List BaseEvent → Type 0
TextOk opened [] = Unit
TextOk opened (e ∷ es) = Fits opened e × TextOk (open_after opened e) es

abbrev open_text : Option TextAcc → String
open_text none = ""
open_text (some acc) = acc.delta

chunk_text-append :
    (xs ys : List BaseEvent) → chunk_text (xs ++ ys) ≡ cat (chunk_text xs) (chunk_text ys)
chunk_text-append [] ys = sym (nil-cat _)
chunk_text-append (text_chunk id role delta ∷ xs) ys =
    ap (cat delta) (chunk_text-append xs ys) ∙ sym (cat_assoc delta _ _)
chunk_text-append (_ ∷ xs) ys = chunk_text-append xs ys

chunk_text-tools : (accs : List ToolAcc) → chunk_text (map tool_chunk_of accs) ≡ ""
chunk_text-tools [] = refl
chunk_text-tools (acc ∷ accs) = chunk_text-tools accs

chunk_text-reasoning : (o : Option ReasoningAcc) → chunk_text (unclosed_reasoning o) ≡ ""
unfolding unclosed_reasoning
chunk_text-reasoning none = refl
chunk_text-reasoning (some acc) = ground arith

chunk_text-unclosed : (o : Option TextAcc) → chunk_text (unclosed_text o) ≡ open_text o
unfolding unclosed_text
chunk_text-unclosed none = refl
chunk_text-unclosed (some acc) = ground (arith, cat-nil acc.delta, eq_iff acc.delta "")

abbrev IsCustom : BaseEvent → Type 0
IsCustom (custom name v) = Unit
IsCustom _ = ⊥

-- What the compressor keeps as snapshots are custom events.
abbrev pub HasSnapshots : Compressor → Type 0
HasSnapshots c = AllValues IsCustom c.snapshots

chunk_text-snapshots : (m : Dict BaseEvent) → AllValues IsCustom m → chunk_text (Dict.values m) ≡ ""
chunk_text-snapshots [] h = refl
chunk_text-snapshots ((k, custom name v) ∷ m) h = chunk_text-snapshots m h.1
chunk_text-snapshots ((k, _) ∷ m) h = absurd h.0

chunk_text-finished :
    (c : Compressor)
    → HasSnapshots c
    → chunk_text (finished c) ≡ cat (chunk_text c.result) (open_text c.text)
unfolding finished flush_unclosed
chunk_text-finished c h = simp (
  chunk_text-append,
  chunk_text-tools,
  chunk_text-reasoning,
  chunk_text-unclosed,
  chunk_text-snapshots c.snapshots h,
  nil-cat,
  cat-nil,
)

abbrev pub snapshots_after : Compressor → BaseEvent → Dict BaseEvent
snapshots_after c (custom usage_snapshot v) =
    Dict.set (extension_name usage_snapshot) (custom usage_snapshot v) c.snapshots
snapshots_after c _ = c.snapshots

pub snapshots-process :
    (c : Compressor) (e : BaseEvent) → (process c e).snapshots ≡ snapshots_after c e
unfolding process
snapshots-process c (custom usage_snapshot v) = refl
snapshots-process c (custom _ v) = refl
snapshots-process c _ = ground arith

process-HasSnapshots :
    (c : Compressor) (e : BaseEvent) → HasSnapshots c → HasSnapshots (process c e)
process-HasSnapshots c (custom usage_snapshot v) h =
    rw snapshots-process (AllValues-set IsCustom _ _ c.snapshots tt h)
process-HasSnapshots c (custom _ v) h = rw snapshots-process h
process-HasSnapshots c _ h = rw snapshots-process h

-- What is written so far, with the open message.
abbrev written : Compressor → String
written c = cat (chunk_text c.result) (open_text c.text)

written-process :
    (c : Compressor) (e : BaseEvent)
    → Fits (is_some c.text) e
    → written (process c e) ≡ cat (written c) (streamed_text (e ∷ []))
unfolding process
written-process c (text_start id role) h = ground (arith, cat-nil (chunk_text c.result))
written-process c (text_content id delta) h = elim (Option-cases c.text) [
  | inl e ↦ absurd (ground arith)
  | inr (acc, e) ↦ ground (arith, cat-nil delta, cat_assoc (chunk_text c.result) acc.delta delta)
]
written-process c (text_end id) h = elim (Option-cases c.text) [
  | inl e ↦ ground (arith, cat-nil (written c))
  | inr (acc, e) ↦ ground (
    arith,
    cat-nil acc.delta,
    cat-nil (written c),
    cat-nil (cat (chunk_text c.result) acc.delta),
    chunk_text-append c.result (text_chunk_of acc ∷ []),
  )
]
written-process c (custom usage_snapshot v) h = sym (cat-nil _)
written-process c (custom name v) h = simp (chunk_text-append, cat-nil)
written-process c (tool_end id) h = elim (Option-cases (Dict.get id c.tools)) [
  | inl e ↦ ground (arith, cat-nil (written c))
  | inr (acc, e) ↦ ground (
    arith,
    cat-nil (chunk_text c.result),
    cat-nil (written c),
    chunk_text-append c.result (tool_chunk_of acc ∷ []),
  )
]
written-process c (tool_result m id content status) h = simp (chunk_text-append, cat-nil)
written-process c (reasoning_end id) h = elim (Option-cases c.reasoning) [
  | inl e ↦ ground (arith, cat-nil (written c))
  | inr (acc, e) ↦ ground (
    arith,
    cat-nil (chunk_text c.result),
    cat-nil (written c),
    chunk_text-append c.result (reasoning_chunk_of acc ∷ []),
  )
]
written-process c _ h = ground (arith, cat-nil (written c))

is_some-process :
    (c : Compressor) (e : BaseEvent) → is_some (process c e).text ≡ open_after (is_some c.text) e
unfolding process
is_some-process c (custom usage_snapshot v) = refl
is_some-process c (custom name v) = refl
is_some-process c _ = ground arith

pub streamed_text-cons :
    (e : BaseEvent) (es : List BaseEvent)
    → streamed_text (e ∷ es) ≡ cat (streamed_text (e ∷ [])) (streamed_text es)
streamed_text-cons (text_content id delta) es = rw cat-nil
streamed_text-cons _ es = sym (nil-cat _)

chunk_text-run :
    (es : List BaseEvent) (c : Compressor)
    → HasSnapshots c
    → TextOk (is_some c.text) es
    → chunk_text (finished (foldl process c es)) ≡ cat (written c) (streamed_text es)
chunk_text-run [] c v h = chunk_text-finished c v ∙ sym (cat-nil _)
chunk_text-run (e ∷ es) c v h =
    chunk_text-run es (process c e) (process-HasSnapshots c e v) (rw is_some-process h.1)
    ∙ ap (λ t. cat t (streamed_text es)) (written-process c e h.0)
    ∙ cat_assoc (written c) _ _
    ∙ ap (cat (written c)) (sym (streamed_text-cons e es))

-- No text is lost or made up: when no message starts inside another and every content event comes
-- inside a message, the text chunks of the compressed buffer carry exactly the text that the
-- buffer streamed, in order, whatever tool, reasoning and custom events lie between them, and also
-- when the last message is never closed.
pub chunk_text-compressed :
    (buffer : List BaseEvent)
    → TextOk false buffer
    → chunk_text (compressed buffer) ≡ streamed_text buffer
unfolding compressed
chunk_text-compressed buffer h = chunk_text-run buffer init tt h ∙ nil-cat _

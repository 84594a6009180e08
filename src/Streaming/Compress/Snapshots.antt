-- ===== src/Streaming/Compress/Snapshots.antt =====
-- Cumulative usage snapshots: only the last one survives, and it comes last.
use netherbrain.Prelude.{
  Bool, true, false, Option, none, some, List, [], ◌∷◌, ◌++◌, foldl, map, ◌≡◌, refl, arith, All,
  All-append, Option-cases, Bool-cases, ◌⊎◌, ◌==◌, inl, inr,
}
use netherbrain.Prelude.Dict
use netherbrain.Prelude.Dict.{Dict}
use netherbrain.Events.{
  BaseEvent, custom, text_end, tool_result, usage_snapshot, extension_name, tool_end, reasoning_end,
}
use netherbrain.Streaming.Compress.{
  Compressor, TextAcc, ToolAcc, ReasoningAcc, init, process, finished, flush_unclosed, compressed,
  tool_chunk_of, text_chunk_of, reasoning_chunk_of, unclosed_text, unclosed_reasoning,
}
use netherbrain.Streaming.Compress.Text.{snapshots-process}

abbrev pub is_snapshot : BaseEvent → Bool
is_snapshot (custom usage_snapshot v) = true
is_snapshot _ = false

-- The last snapshot of a buffer, if there is one; `old` is the one before the buffer.
abbrev pub last_snapshot : Option BaseEvent → List BaseEvent → Option BaseEvent
last_snapshot old [] = old
last_snapshot old (custom usage_snapshot v ∷ es) = last_snapshot (some (custom usage_snapshot v)) es
last_snapshot old (_ ∷ es) = last_snapshot old es

abbrev pub listed : Option BaseEvent → List BaseEvent
listed none = []
listed (some e) = e ∷ []

abbrev held : Option BaseEvent → Dict BaseEvent
held none = []
held (some e) = (extension_name usage_snapshot, e) ∷ []

set-held :
    (o : Option BaseEvent) (e : BaseEvent)
    → Dict.set (extension_name usage_snapshot) e (held o) ≡ held (some e)
unfolding Dict.set extension_name
set-held none e = refl
set-held (some f) e = refl

snapshots-run :
    (es : List BaseEvent) (c : Compressor) (o : Option BaseEvent)
    → c.snapshots ≡ held o
    → (foldl process c es).snapshots ≡ held (last_snapshot o es)
snapshots-run [] c o h = h
snapshots-run (custom usage_snapshot v ∷ es) c o h =
    snapshots-run es _ (some (custom usage_snapshot v)) (rw (snapshots-process, h) (set-held o _))
snapshots-run (custom _ v ∷ es) c o h = snapshots-run es _ o (rw snapshots-process h)
snapshots-run (_ ∷ es) c o h = snapshots-run es _ o (rw snapshots-process h)

-- No event of the list is a snapshot.
abbrev pub Plain : List BaseEvent → Type 0
Plain = All (λ e. is_snapshot e ≡ false)

Plain-snoc :
    (es : List BaseEvent) (e : BaseEvent)
    → Plain es
    → is_snapshot e ≡ false
    → Plain (es ++ (e ∷ []))
Plain-snoc es e h n = All-append (λ e'. is_snapshot e' ≡ false) es (e ∷ []) h (n, tt)

-- What one event adds to the result.
emitted-Plain :
    (c : Compressor) (e : BaseEvent)
    → ((process c e).result ≡ c.result)
      ⊎ ((x : BaseEvent) × ((process c e).result ≡ c.result ++ (x ∷ [])) × (is_snapshot x ≡ false))
unfolding process
emitted-Plain c (text_end id) = elim (Option-cases c.text) [
  | inl e ↦ inl (ground arith)
  | inr (acc, e) ↦ inr (text_chunk_of acc, ground arith, refl)
]
emitted-Plain c (tool_end id) = elim (Option-cases (Dict.get id c.tools)) [
  | inl e ↦ inl (ground arith)
  | inr (acc, e) ↦ inr (tool_chunk_of acc, ground arith, refl)
]
emitted-Plain c (reasoning_end id) = elim (Option-cases c.reasoning) [
  | inl e ↦ inl (ground arith)
  | inr (acc, e) ↦ elim (Bool-cases (acc.delta == "")) [
    | inl f ↦ inl (ground arith)
    | inr f ↦ inr (reasoning_chunk_of acc, ground arith, refl)
  ]
]
emitted-Plain c (tool_result m id content status) = inr (_, refl, refl)
emitted-Plain c (custom usage_snapshot v) = inl refl
emitted-Plain c (custom name v) = inr (_, refl, refl)
emitted-Plain c _ = inl (ground arith)

result-Plain : (c : Compressor) (e : BaseEvent) → Plain c.result → Plain (process c e).result
result-Plain c e h = elim (emitted-Plain c e) [
  | inl same ↦ rw same h
  | inr (x, grown, plain) ↦ rw grown (Plain-snoc c.result x h plain)
]

run-Plain :
    (es : List BaseEvent) (c : Compressor) → Plain c.result → Plain (foldl process c es).result
run-Plain [] c h = h
run-Plain (e ∷ es) c h = run-Plain es (process c e) (result-Plain c e h)

tools-Plain : (accs : List ToolAcc) → Plain (map tool_chunk_of accs)
tools-Plain [] = tt
tools-Plain (acc ∷ accs) = (refl, tools-Plain accs)

text-Plain : (o : Option TextAcc) → Plain (unclosed_text o)
unfolding unclosed_text
text-Plain none = tt
text-Plain (some acc) = elim (Bool-cases (acc.delta == "")) [
  | inl f ↦ rw f tt
  | inr f ↦ rw f (refl, tt)
]

reasoning-Plain : (o : Option ReasoningAcc) → Plain (unclosed_reasoning o)
unfolding unclosed_reasoning
reasoning-Plain none = tt
reasoning-Plain (some acc) = elim (Bool-cases (acc.delta == "")) [
  | inl f ↦ rw f tt
  | inr f ↦ rw f (refl, tt)
]

flushed-Plain : (c : Compressor) → Plain c.result → Plain (flush_unclosed c)
unfolding flush_unclosed
flushed-Plain c h = All-append P c.result _ h (
    All-append P (unclosed_text c.text) _ (text-Plain c.text) (
      All-append P (map tool_chunk_of (Dict.values c.tools)) _ (tools-Plain _)
        (reasoning-Plain c.reasoning)))
  where
    P : BaseEvent → Type 0
    P e = is_snapshot e ≡ false

values-held : (o : Option BaseEvent) → Dict.values (held o) ≡ listed o
values-held none = refl
values-held (some e) = refl

-- Of the cumulative usage snapshots of a buffer exactly the last is kept, and it stands behind all
-- other events of the compressed list; a buffer without a snapshot gets none.
pub snapshots-compressed :
    (buffer : List BaseEvent)
    → (body : List BaseEvent) × Plain body
      × (compressed buffer ≡ body ++ listed (last_snapshot none buffer))
unfolding compressed finished
snapshots-compressed buffer =
    let end = foldl process init buffer in
    (
      flush_unclosed end,
      flushed-Plain end (run-Plain buffer init tt),
      rw (snapshots-run buffer init none refl, values-held),
    )

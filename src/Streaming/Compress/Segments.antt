-- ===== src/Streaming/Compress/Segments.antt =====
-- A buffer of complete messages, one after the other: what each becomes.
use mathlib.Core.List.{foldl-append}
use netherbrain.Prelude.{
  String, Option, some, List, [], ◌∷◌, ◌++◌, foldl, map, ◌≡◌, ◌≢◌, refl, ap, ◌∙◌, cat, arith,
  eq_iff, eq_refl, All, append_assoc, append-nil,
}
use netherbrain.Prelude.Dict
use netherbrain.Events.{
  BaseEvent, text_start, text_content, text_end, text_chunk, tool_start, tool_args, tool_end,
  tool_chunk, tool_result, ToolStatus, reasoning_start, reasoning_message_start, reasoning_content,
  reasoning_message_end, reasoning_end, reasoning_chunk, custom, ExtensionEvent, usage_snapshot,
  Value,
}
use netherbrain.Streaming.Compress.{Compressor, init, process, finished, flush_unclosed, compressed}

-- A complete message, as the adapter streams it.
pub data Segment : Type 0 where
  text : (message_id role : String) (deltas : List String) → Segment
  tool :
      (tool_call_id tool_call_name : String) (parent_message_id : Option String)
      (deltas : List String)
      → Segment
  reasoning : (message_id : String) (deltas : List String) → Segment
  result : (message_id tool_call_id content : String) (status : ToolStatus) → Segment
  notice : ExtensionEvent → Value → Segment

abbrev pub joined : List String → String
joined = foldl cat ""

unfoldable pub streamed : Segment → List BaseEvent
streamed (text id role deltas) =
    text_start id role ∷ (map (text_content id) deltas ++ (text_end id ∷ []))
streamed (tool id name parent deltas) =
    tool_start id name parent ∷ (map (tool_args id) deltas ++ (tool_end id ∷ []))
streamed (reasoning id deltas) =
    reasoning_start id
    ∷ (reasoning_message_start id
        ∷ (map (reasoning_content id) deltas ++ (reasoning_message_end id ∷ reasoning_end id ∷ [])))
streamed (result m id content status) = tool_result m id content status ∷ []
streamed (notice name value) = custom name value ∷ []

abbrev pub streamed_all : List Segment → List BaseEvent
streamed_all [] = []
streamed_all (s ∷ ss) = streamed s ++ streamed_all ss

abbrev pub chunk : Segment → BaseEvent
chunk (text id role deltas) = text_chunk id role (joined deltas)
chunk (tool id name parent deltas) = tool_chunk id name parent (joined deltas)
chunk (reasoning id deltas) = reasoning_chunk id (joined deltas)
chunk (result m id content status) = tool_result m id content status
chunk (notice name value) = custom name value

-- Empty reasoning is dropped, and snapshots are moved to the end.
abbrev pub IsKept : Segment → Type 0
IsKept (reasoning id deltas) = joined deltas ≢ ""
IsKept (notice name value) = name ≢ usage_snapshot
IsKept _ = Unit

quiet : List BaseEvent → Compressor
quiet r = record init { result = r }

-- The compressor inside a message, with `s` gathered.
in_text : String → String → List BaseEvent → String → Compressor
unfolding quiet
in_text id role r s = record (quiet r) {
  text = some (record { message_id = id; role = role; delta = s });
}

in_tool : String → String → Option String → List BaseEvent → String → Compressor
unfolding quiet
in_tool id name parent r s = record (quiet r) {
  tools =
      (
        id,
        record { tool_call_id = id; tool_call_name = name; parent_message_id = parent; delta = s },
      )
      ∷ [];
}

in_reasoning : String → List BaseEvent → String → Compressor
unfolding quiet
in_reasoning id r s = record (quiet r) { reasoning = some (record { message_id = id; delta = s }) }

-- One event moves the gathered text on, so a list of deltas gathers them all.
deltas_gather :
    (state : String → Compressor) (event : String → BaseEvent)
    → ((s d : String) → process (state s) (event d) ≡ state (cat s d))
    → (deltas : List String) (s : String) (rest : List BaseEvent)
    → foldl process (state s) (map event deltas ++ rest)
      ≡ foldl process (state (foldl cat s deltas)) rest
deltas_gather state event step [] s rest = refl
deltas_gather state event step (d ∷ ds) s rest =
    ap (λ c. foldl process c (map event ds ++ rest)) (step s d)
    ∙ deltas_gather state event step ds (cat s d) rest

text_step :
    (id role : String) (r : List BaseEvent) (s d : String)
    → process (in_text id role r s) (text_content id d) ≡ in_text id role r (cat s d)
unfolding process in_text
text_step id role r s d = refl

tool_step :
    (id name : String) (parent : Option String) (r : List BaseEvent) (s d : String)
    → process (in_tool id name parent r s) (tool_args id d) ≡ in_tool id name parent r (cat s d)
unfolding process in_tool Dict.get Dict.set
tool_step id name parent r s d = ground (arith, eq_refl id)

reasoning_step :
    (id : String) (r : List BaseEvent) (s d : String)
    → process (in_reasoning id r s) (reasoning_content id d) ≡ in_reasoning id r (cat s d)
unfolding process in_reasoning
reasoning_step id r s d = refl

tool_end_step :
    (id name : String) (parent : Option String) (r : List BaseEvent) (s : String)
    → process (in_tool id name parent r s) (tool_end id)
      ≡ quiet (r ++ (tool_chunk id name parent s ∷ []))
unfolding process in_tool Dict.get Dict.pop
tool_end_step id name parent r s = ground (arith, eq_refl id)

reasoning_end_step :
    (id : String) (r : List BaseEvent) (s : String)
    → s ≢ ""
    → process (in_reasoning id r s) (reasoning_end id) ≡ quiet (r ++ (reasoning_chunk id s ∷ []))
unfolding process in_reasoning
reasoning_end_step id r s h = ground (arith, eq_iff s "")

segment :
    (r : List BaseEvent) (s : Segment)
    → IsKept s
    → foldl process (quiet r) (streamed s) ≡ quiet (r ++ (chunk s ∷ []))
unfolding streamed process quiet in_text in_tool in_reasoning Dict.set
segment r (text id role deltas) h =
    deltas_gather (in_text id role r) (text_content id) (text_step id role r) deltas "" _
segment r (tool id name parent deltas) h =
    deltas_gather (in_tool id name parent r) (tool_args id) (tool_step id name parent r) deltas "" _
    ∙ tool_end_step id name parent r (joined deltas)
segment r (reasoning id deltas) h =
    deltas_gather (in_reasoning id r) (reasoning_content id) (reasoning_step id r) deltas "" _
    ∙ reasoning_end_step id r (joined deltas) h
segment r (result m id content status) h = refl
segment r (notice usage_snapshot value) h = absurd (h refl)
segment r (notice _ value) h = refl

segments :
    (ss : List Segment) (r : List BaseEvent)
    → All IsKept ss
    → foldl process (quiet r) (streamed_all ss) ≡ quiet (r ++ map chunk ss)
segments [] r h = rw append-nil
segments (s ∷ ss) r h =
    foldl-append process (quiet r) (streamed s) (streamed_all ss)
    ∙ ap (λ c. foldl process c (streamed_all ss)) (segment r s h.0)
    ∙ segments ss (r ++ (chunk s ∷ [])) h.1
    ∙ ap quiet (append_assoc r (chunk s ∷ []) (map chunk ss))

finished-quiet : (r : List BaseEvent) → finished (quiet r) ≡ r
unfolding finished flush_unclosed quiet
finished-quiet r = rw (append-nil, append-nil)

-- A buffer of complete messages is compressed to one event for each, in their order: a chunk with
-- the ids and role of its message and the deltas joined, and results and notices as they are.
-- Reasoning without text, and usage snapshots, are excluded.
pub compressed_segments :
    (ss : List Segment) → All IsKept ss → compressed (streamed_all ss) ≡ map chunk ss
unfolding compressed quiet
compressed_segments ss h = ap finished (segments ss [] h) ∙ finished-quiet (map chunk ss)

-- ===== src/Streaming/Compress.antt =====
-- netherbrain/agent_runtime/streaming/compress.py: the event buffer of a session is collapsed into
-- chunk events. `dump` of `finish` stands for the JSON serialisation of an event by `ag_ui`.
pub mod Text
pub mod Segments
pub mod Snapshots
use netherbrain.Prelude.{
  String, Option, none, some, List, [], ◌∷◌, ◌++◌, foldl, map, ◌==◌, if◌then◌else◌, cat,
}
use netherbrain.Prelude.Dict
use netherbrain.Prelude.Dict.{Dict}
use netherbrain.Events.{
  BaseEvent, run_started, run_finished, run_error, text_start, text_content, text_end, text_chunk,
  tool_start, tool_args, tool_end, tool_chunk, tool_result, reasoning_start,
  reasoning_message_start, reasoning_content, reasoning_message_end, reasoning_end, reasoning_chunk,
  custom, ExtensionEvent, usage_snapshot, extension_name,
}

-- `_TextAcc`.
pub record TextAcc : Type 0 where
  pub message_id : String
  pub role : String
  pub delta : String

-- `_ToolAcc`.
pub record ToolAcc : Type 0 where
  pub tool_call_id : String
  pub tool_call_name : String
  pub parent_message_id : Option String
  pub delta : String

-- `_ReasoningAcc`.
pub record ReasoningAcc : Type 0 where
  pub message_id : String
  pub delta : String

-- `_Compressor`, the fields of `__init__`.
pub record Compressor : Type 0 where
  pub result : List BaseEvent
  pub text : Option TextAcc
  pub tools : Dict ToolAcc
  pub reasoning : Option ReasoningAcc
  pub snapshots : Dict BaseEvent

abbrev pub init : Compressor
init = record { result = []; text = none; tools = []; reasoning = none; snapshots = [] }

abbrev pub text_chunk_of : TextAcc → BaseEvent
text_chunk_of acc = text_chunk acc.message_id acc.role acc.delta

abbrev pub tool_chunk_of : ToolAcc → BaseEvent
tool_chunk_of acc = tool_chunk acc.tool_call_id acc.tool_call_name acc.parent_message_id acc.delta

abbrev pub reasoning_chunk_of : ReasoningAcc → BaseEvent
reasoning_chunk_of acc = reasoning_chunk acc.message_id acc.delta

append_result : Compressor → BaseEvent → Compressor
append_result c e = record c { result = c.result ++ e ∷ [] }

-- `_handle_text`.
start_text : String → String → Compressor → Compressor
start_text message_id role c = record c {
  text = some (record { message_id = message_id; role = role; delta = "" });
}

extend_text : String → Compressor → Compressor
extend_text delta c = elim c.text [
  | none ↦ c
  | some acc ↦ record c { text = some (record acc { delta = cat acc.delta delta }) }
]

end_text : Compressor → Compressor
unfolding append_result
end_text c = elim c.text [
  | none ↦ c
  | some acc ↦ record (append_result c (text_chunk_of acc)) { text = none }
]

-- `_handle_tool`.
start_tool : String → String → Option String → Compressor → Compressor
start_tool id name parent c = record c {
  tools =
      Dict.set id
        (record {
          tool_call_id = id;
          tool_call_name = name;
          parent_message_id = parent;
          delta = "";
        })
        c.tools;
}

extend_tool : String → String → Compressor → Compressor
extend_tool id delta c = elim (Dict.get id c.tools) [
  | none ↦ c
  | some acc ↦ record c { tools = Dict.set id (record acc { delta = cat acc.delta delta }) c.tools }
]

end_tool : String → Compressor → Compressor
unfolding append_result
end_tool id c = elim (Dict.get id c.tools) [
  | none ↦ c
  | some acc ↦ record (append_result c (tool_chunk_of acc)) { tools = Dict.pop id c.tools }
]

-- `_handle_reasoning`.
start_reasoning : String → Compressor → Compressor
start_reasoning id c = record c { reasoning = some (record { message_id = id; delta = "" }) }

rename_reasoning : String → Compressor → Compressor
rename_reasoning id c = elim c.reasoning [
  | none ↦ c
  | some acc ↦ record c { reasoning = some (record acc { message_id = id }) }
]

extend_reasoning : String → Compressor → Compressor
extend_reasoning delta c = elim c.reasoning [
  | none ↦ c
  | some acc ↦ record c { reasoning = some (record acc { delta = cat acc.delta delta }) }
]

-- An accumulator with no text stays where it is.
end_reasoning : Compressor → Compressor
unfolding append_result
end_reasoning c = elim c.reasoning [
  | none ↦ c
  | some acc ↦
      if acc.delta == ""
      then c
      else record (append_result c (reasoning_chunk_of acc)) { reasoning = none }
]

-- The `CustomEvent` branch of `process`; `_SNAPSHOT_NAMES` holds `usage_snapshot` alone.
handle_custom : ExtensionEvent → BaseEvent → Compressor → Compressor
unfolding append_result
handle_custom usage_snapshot e c = record c {
  snapshots = Dict.set (extension_name usage_snapshot) e c.snapshots;
}
handle_custom _ e c = append_result c e

-- `process`. Events of no listed class, such as chunks, are passed over.
unfoldable pub process : Compressor → BaseEvent → Compressor
unfolding append_result start_text extend_text end_text start_tool extend_tool end_tool
    start_reasoning rename_reasoning extend_reasoning end_reasoning handle_custom
process c (run_started t r) = c
process c (run_finished t r) = c
process c (run_error m code) = c
process c (text_start id role) = start_text id role c
process c (text_content id delta) = extend_text delta c
process c (text_end id) = end_text c
process c (tool_start id name parent) = start_tool id name parent c
process c (tool_args id delta) = extend_tool id delta c
process c (tool_end id) = end_tool id c
process c (reasoning_start id) = start_reasoning id c
process c (reasoning_message_start id) = rename_reasoning id c
process c (reasoning_content id delta) = extend_reasoning delta c
process c (reasoning_message_end id) = c
process c (reasoning_end id) = end_reasoning c
process c (tool_result m id content status) = append_result c (tool_result m id content status)
process c (custom name value) = handle_custom name (custom name value) c
process c _ = c

-- `_flush_unclosed`, its three parts.
unclosed_text : Option TextAcc → List BaseEvent
unclosed_text none = []
unclosed_text (some acc) = if acc.delta == "" then [] else text_chunk_of acc ∷ []

unclosed_reasoning : Option ReasoningAcc → List BaseEvent
unclosed_reasoning none = []
unclosed_reasoning (some acc) = if acc.delta == "" then [] else reasoning_chunk_of acc ∷ []

unfoldable pub flush_unclosed : Compressor → List BaseEvent
unfolding unclosed_text unclosed_reasoning
flush_unclosed c =
    c.result
    ++ (unclosed_text c.text
        ++ (map tool_chunk_of (Dict.values c.tools) ++ unclosed_reasoning c.reasoning))

-- The events that `finish` serialises.
unfoldable pub finished : Compressor → List BaseEvent
finished c = flush_unclosed c ++ Dict.values c.snapshots

-- `finish`.
unfoldable pub finish {ℓ} : {Json : Type ℓ} → (BaseEvent → Json) → Compressor → List Json
finish dump c = map dump (finished c)

-- `compress_display_messages`, before serialisation and as a whole.
unfoldable pub compressed : List BaseEvent → List BaseEvent
compressed buffer = finished (foldl process init buffer)

unfoldable pub compress_display_messages {ℓ} :
    {Json : Type ℓ} → (BaseEvent → Json) → List BaseEvent → List Json
compress_display_messages dump buffer = finish dump (foldl process init buffer)

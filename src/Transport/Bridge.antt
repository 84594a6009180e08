-- ===== src/Transport/Bridge.antt =====
-- netherbrain/agent_runtime/transport/bridge.py: `bridge_stream_to_sse`, which follows a Redis
-- stream from a cursor. The stream is the list of its entries, which the publisher appends to between
-- the reads; XREAD is a parameter, a function of the cursor and the stream. Times are exact, in
-- milliseconds. The event types that end a run are those of `ag_ui.core`, a parameter.
pub mod Order
pub mod Reading
pub mod Following
use netherbrain.Prelude.{
  ℕ, ◌+◌, String, Bool, true, false, Option, none, some, List, [], ◌∷◌, ◌++◌, if◌then◌else◌, leb,
  ◌==◌,
}

-- An entry of the stream, with what the lookups of its fields "data" and "type" find.
pub record Entry : Type 0 where
  pub stream_id : String
  pub data_str : Option String
  pub type_str : Option String

-- What has happened to the stream before a read: it has grown, or it is gone.
pub data Poll : Type 0 where
  grows : (arrived : List Entry) → Poll
  expires : Poll

abbrev pub arrivals : Poll → List Entry
arrivals (grows arrived) = arrived
arrivals expires = []

-- Why the generator has stopped.
pub data Reason : Type 0 where
  terminal idle_timeout expired : Reason

-- The generator's variables, and what it has yielded: ids with data.
pub record Bridge : Type 0 where
  pub cursor : String
  pub idle_elapsed : ℕ
  pub yielded : List (String × String)
  pub stopped : Option Reason

module _ (is_terminal_type : String → Bool) where
  -- The event of `_parse_stream_entry`, none without data.
  abbrev pub sse_event : Entry → List (String × String)
  sse_event e = elim e.data_str [ none ↦ [] | some data_str ↦ (e.stream_id, data_str) ∷ [] ]

  abbrev pub ends_run : Option String → Bool
  ends_run none = false
  ends_run (some s) = if s == "" then false else is_terminal_type s

  -- `is_terminal` of `_parse_stream_entry`.
  unfoldable pub is_terminal : Entry → Bool
  is_terminal e = elim e.data_str [ none ↦ false | some data_str ↦ ends_run e.type_str ]

  -- The body of the loop over messages, before its return.
  abbrev pub took : Entry → Bridge → Bridge
  took e b = record b { cursor = e.stream_id; yielded = b.yielded ++ sse_event e }

  -- The loop over messages.
  unfoldable pub read_entries : List Entry → Bridge → Bridge
  read_entries [] b = b
  read_entries (e ∷ es) b =
      let rest = read_entries es (took e b) in
      if is_terminal e then record (took e b) { stopped = some terminal } else rest

  module _ (poll_interval_ms max_idle_ms : ℕ) where
    -- The rest of a turn, with what XREAD and EXISTS have answered.
    unfoldable pub handled : List Entry → (exists : Bool) → Bridge → Bridge
    handled (e ∷ es) exists b = read_entries (e ∷ es) (record b { idle_elapsed = 0 })
    handled [] exists b =
        let waited = record b { idle_elapsed = b.idle_elapsed + poll_interval_ms } in
        if leb max_idle_ms waited.idle_elapsed
        then record waited { stopped = some idle_timeout }
        else if exists
        then waited
        else record waited { stopped = some expired }

    module _ (xread : (cursor : String) → List Entry → List Entry) where
      -- One turn of the outer loop, with the stream as it is then.
      unfoldable pub turn : Poll → List Entry → Bridge → Bridge
      turn (grows arrived) log b = handled (xread b.cursor log) true b
      turn expires log b = handled [] false b

      -- `bridge_stream_to_sse` behind `_init_bridge`.
      unfoldable pub follow : List Poll → List Entry → Bridge → Bridge
      follow [] log b = b
      follow (p ∷ ps) log b =
          let rest = follow ps (log ++ arrivals p) (turn p (log ++ arrivals p) b) in
          elim b.stopped [ none ↦ rest | some reason ↦ b ]

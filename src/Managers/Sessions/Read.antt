-- ===== src/Managers/Sessions/Read.antt =====
-- The reading half of `SessionManager`, in netherbrain/agent_runtime/managers/sessions.py, and the
-- startup recovery. ORDER BY is an insertion sort by time and then id, and DESC its reverse.
pub mod Turns
pub mod Latest
pub mod Totals
use Prim.Native.String.{compare}
use Prim.Native.Nat.{Ordering}
use netherbrain.Prelude.{
  ℕ, suc, ◌+◌, String, Bool, true, false, Option, none, some, List, [], ◌∷◌, ◌==◌, if◌then◌else◌,
  ◌&&◌, ◌||◌, map, count_if, ltb, eqb, keep, take, drop, head?, reverse, length, is_some,
}
use netherbrain.Prelude.Dict
use netherbrain.Prelude.Dict.{Dict}
use netherbrain.Enums.{SessionStatus, is_settled, is_created}
use netherbrain.Usage.{ModelUsage, PipelineUsage, no_usage, plus}
use netherbrain.Managers.Sessions.{
  System, SessionRow, SessionState, InputPart, RawSummary, valid, invalid,
}

-- `SessionData`.
pub record SessionData : Type 0 where
  pub index : SessionRow
  pub display_messages : Option String
  pub state : Option SessionState

-- `get_session`; none stands for the LookupError.
unfoldable pub get_session :
    (session_id : String) (include_state : Bool) → System → Option SessionData
get_session session_id include_state s = elim (Dict.get session_id s.sessions) [
  | none ↦ none
  | some row ↦ some (record {
    index = row;
    display_messages = Dict.get session_id s.store.display_messages;
    state = if include_state then Dict.get session_id s.store.states else none;
  })
]

abbrev pub before_id : String → String → Bool
before_id a b = elim (compare a b) [ Ordering.lt ↦ true | _ ↦ false ]

-- ORDER BY created_at, session_id.
abbrev pub precedes : SessionRow → SessionRow → Bool
precedes a b =
    ltb a.created_at b.created_at
    || eqb a.created_at b.created_at && before_id a.session_id b.session_id

unfoldable pub insert_row : SessionRow → List SessionRow → List SessionRow
insert_row r [] = r ∷ []
insert_row r (x ∷ xs) = let rest = insert_row r xs in if precedes r x then r ∷ x ∷ xs else x ∷ rest

unfoldable pub chronological : List SessionRow → List SessionRow
chronological [] = []
chronological (x ∷ xs) = insert_row x (chronological xs)

-- `list_sessions`.
unfoldable pub list_sessions :
    (conversation_id : String) (limit offset : ℕ) → System → List SessionRow
list_sessions conversation_id limit offset s = take limit (
    drop offset
      (chronological (keep (λ r. r.conversation_id == conversation_id) (Dict.values s.sessions))))

-- The filter that the reads of settled sessions share.
abbrev pub is_turn : String → SessionRow → Bool
is_turn conversation_id r = r.conversation_id == conversation_id && is_settled r.status

-- `find_latest_committed_session`. Of rows created at the same time the query may give any; here it
-- is the one with the greatest id.
unfoldable pub find_latest_committed_session :
    (conversation_id : String) → System → Option SessionRow
find_latest_committed_session conversation_id s =
    head? (reverse (chronological (keep (is_turn conversation_id) (Dict.values s.sessions))))

-- `TurnData`.
pub record TurnData : Type 0 where
  pub session_id : String
  pub input : Option (List InputPart)
  pub final_message : Option String
  pub created_at : ℕ
  pub display_messages : Option String

-- `TurnsPage`.
pub record TurnsPage : Type 0 where
  pub turns : List TurnData
  pub has_more : Bool

-- `created_at < (SELECT created_at ...)`: a cursor that is unknown selects nothing.
abbrev pub is_older : Option SessionRow → SessionRow → Bool
is_older none r = false
is_older (some cursor) r = ltb r.created_at cursor.created_at

-- The WHERE clause of `get_conversation_turns`.
abbrev pub is_selected : String → Option String → System → SessionRow → Bool
is_selected conversation_id none s r = is_turn conversation_id r
is_selected conversation_id (some before) s r =
    is_turn conversation_id r && is_older (Dict.get before s.sessions) r

-- The rows of a page, and `has_more`: without a limit all in ascending order; with one, the first
-- of `limit + 1` in descending order, reversed.
unfoldable pub page_rows : Option ℕ → List SessionRow → List SessionRow × Bool
page_rows none ordered = (ordered, false)
page_rows (some limit) ordered =
    let rows = take (suc limit) (reverse ordered) in
    if ltb limit (length rows) then (reverse (take limit rows), true) else (reverse rows, false)

abbrev pub turn_of : Bool → System → SessionRow → TurnData
turn_of include_display s r = record {
  session_id = r.session_id;
  input = r.input;
  final_message = r.final_message;
  created_at = r.created_at;
  display_messages =
      if include_display then Dict.get r.session_id s.store.display_messages else none;
}

-- The rows that `get_conversation_turns` selects, in chronological order.
abbrev pub selected : String → Option String → System → List SessionRow
selected conversation_id before s =
    chronological (keep (is_selected conversation_id before s) (Dict.values s.sessions))

-- `get_conversation_turns`.
unfoldable pub get_conversation_turns :
    (conversation_id : String) (include_display : Bool) (limit : Option ℕ) (before : Option String)
    → System
    → TurnsPage
get_conversation_turns conversation_id include_display limit before s =
    let page = page_rows limit (selected conversation_id before s) in
    record { turns = map (turn_of include_display s) page.0; has_more = page.1 }

-- The inner loop of `get_conversation_usage`, for one model: the entry is made where it is missing,
-- and the counts are added to it.
unfoldable pub accumulate : PipelineUsage → String → ModelUsage → PipelineUsage
accumulate aggregated model_id usage = elim (Dict.get model_id aggregated) [
  | some acc ↦ Dict.set model_id (plus acc usage) aggregated
  | none ↦ Dict.set model_id (plus no_usage usage) aggregated
]

unfoldable pub accumulate_all : PipelineUsage → PipelineUsage → PipelineUsage
accumulate_all aggregated [] = aggregated
accumulate_all aggregated ((model_id, usage) ∷ rest) =
    accumulate_all (accumulate aggregated model_id usage) rest

-- The outer loop: a summary that does not validate is skipped.
unfoldable pub aggregate : PipelineUsage → List SessionRow → PipelineUsage
aggregate aggregated [] = aggregated
aggregate aggregated (r ∷ rs) = elim r.run_summary [
  | some (valid duration model_usages) ↦ aggregate (accumulate_all aggregated model_usages) rs
  | _ ↦ aggregate aggregated rs
]

-- `get_conversation_usage`: none where nothing is aggregated.
unfoldable pub get_conversation_usage : (conversation_id : String) → System → Option PipelineUsage
get_conversation_usage conversation_id s =
    elim (aggregate [] (keep (is_turn conversation_id) (Dict.values s.sessions))) [
      | [] ↦ none
      | entry ∷ rest ↦ some (entry ∷ rest)
    ]

-- ===== src/Managers/Sessions.antt =====
-- netherbrain/agent_runtime/managers/sessions.py: `SessionManager`, over the tables `sessions` and
-- `conversations` of db/tables.py, the state store, and the registry. Tables are dicts by their
-- primary key; a commit checks the foreign keys.
pub mod Read
pub mod Lifecycle
pub mod Lineage
use netherbrain.Prelude.{
  ℕ, ◌+◌, String, Bool, true, false, Option, none, some, List, [], ◌∷◌, ◌==◌, if◌then◌else◌, not,
  is_some, ◌&&◌, ◌||◌, map, count_if, strip, take_chars, ltb, ◌>>=◌,
}
use Prim.Native.String.{count}
use netherbrain.Prelude.Dict
use netherbrain.Prelude.Dict.{Dict}
use netherbrain.Enums.{
  SessionStatus, SessionType, Transport, ConversationStatus, is_settled, is_created,
}
use netherbrain.Usage.{PipelineUsage}
use netherbrain.Registry.{Registry, unregister}
use netherbrain.Prelude.{cat}

-- A part of the input: its type, and its text where it has one.
pub record InputPart : Type 0 where
  pub kind : String
  pub text : Option String

-- `RunSummary`, and what the column `run_summary` may hold besides.
pub data RawSummary : Type 0 where
  valid : (duration_ms : ℕ) (model_usages : PipelineUsage) → RawSummary
  invalid : RawSummary

-- `SessionState`; each of its documents by its JSON text.
pub record SessionState : Type 0 where
  pub context_state : String
  pub message_history : String
  pub environment_state : String

-- The table `sessions`.
pub record SessionRow : Type 0 where
  pub session_id : String
  pub parent_session_id : Option String
  pub project_ids : List String
  pub status : SessionStatus
  pub session_type : SessionType
  pub transport : Transport
  pub conversation_id : String
  pub spawned_by : Option String
  pub preset_id : Option String
  pub input : Option (List InputPart)
  pub final_message : Option String
  pub deferred_tools : Option String
  pub run_summary : Option RawSummary
  pub created_at : ℕ

-- The table `conversations`: the columns that a creation sets.
pub record ConversationRow : Type 0 where
  pub conversation_id : String
  pub user_id : String
  pub status : ConversationStatus
  pub title : Option String
  pub default_preset_id : Option String
  pub metadata : Option String

-- The state store, of netherbrain/agent_runtime/store/base.py: the two files of a session.
pub record Store : Type 0 where
  pub states : Dict SessionState
  pub display_messages : Dict String

pub record System : Type 0 where
  pub users : List String
  pub conversations : Dict ConversationRow
  pub sessions : Dict SessionRow
  pub store : Store
  pub registry : Registry

pub data Error : Type 0 where
  parent_not_found user_required bad_status not_found integrity_error : Error

pub data Result : Type 0 where
  ok : System → Result
  err : Error → Result

abbrev pub title_max_len : ℕ
title_max_len = 50

abbrev pub shortened : String → String
shortened text =
    if ltb title_max_len (count text) then cat (take_chars title_max_len text) "..." else text

-- The text part that gives a title, stripped: none where it is missing or blank.
abbrev pub title_of : InputPart → Option String
title_of p = elim p.text [
  | none ↦ none
  | some text ↦
      if p.kind == "text" && not (strip text == "") then some (shortened (strip text)) else none
]

-- The loop of `_extract_title`.
unfoldable pub first_title : List InputPart → Option String
first_title [] = none
first_title (p ∷ parts) =
    let rest = first_title parts in elim (title_of p) [ some title ↦ some title | none ↦ rest ]

-- `_extract_title`.
unfoldable pub extract_title : Option (List InputPart) → Option String
extract_title none = none
extract_title (some parts) = first_title parts

-- The arguments of `create_session`, with the id and the time that the row gets.
pub record Creation : Type 0 where
  pub session_id : String
  pub created_at : ℕ
  pub parent_session_id : Option String
  pub conversation_id : Option String
  pub user_id : Option String
  pub preset_id : Option String
  pub project_ids : List String
  pub session_type : SessionType
  pub transport : Transport
  pub spawned_by : Option String
  pub input_parts : Option (List InputPart)

-- The lineage rules: the conversation of a new session, none where the parent is missing.
unfoldable pub conversation_of : Creation → System → Option String
conversation_of c s = elim c.conversation_id [
  | some conversation_id ↦ some conversation_id
  | none ↦ elim c.parent_session_id [
    | none ↦ some c.session_id
    | some parent_session_id ↦ do
      parent ← Dict.get parent_session_id s.sessions
      some parent.conversation_id
  ]
]

unfoldable pub new_row : Creation → String → SessionRow
new_row c conversation_id = record {
  session_id = c.session_id;
  parent_session_id = c.parent_session_id;
  project_ids = c.project_ids;
  status = SessionStatus.created;
  session_type = c.session_type;
  transport = c.transport;
  conversation_id = conversation_id;
  spawned_by = c.spawned_by;
  preset_id = c.preset_id;
  input = c.input_parts;
  final_message = none;
  deferred_tools = none;
  run_summary = none;
  created_at = c.created_at;
}

unfoldable pub new_conversation : Creation → String → String → ConversationRow
new_conversation c conversation_id user_id = record {
  conversation_id = conversation_id;
  user_id = user_id;
  status = ConversationStatus.active;
  title = extract_title c.input_parts;
  default_preset_id = c.preset_id;
  metadata = none;
}

-- The foreign key of `parent_session_id`.
abbrev pub is_parent_known : Option String → System → Bool
is_parent_known none s = true
is_parent_known (some parent) s = Dict.has parent s.sessions

abbrev pub is_member : String → List String → Bool
is_member x [] = false
is_member x (y ∷ ys) = if x == y then true else is_member x ys

-- The commit of a new session row, in a conversation that is there.
unfoldable pub add_row : Creation → String → System → Result
add_row c conversation_id s =
    if is_parent_known c.parent_session_id s
    then ok (record s { sessions = Dict.set c.session_id (new_row c conversation_id) s.sessions })
    else err integrity_error

-- The commit of the two rows.
abbrev pub add_both : Creation → String → Option String → System → Result
add_both c conversation_id none s = err user_required
add_both c conversation_id (some user_id) s =
    if is_member user_id s.users
    then add_row c conversation_id (record s {
      conversations =
          Dict.set conversation_id (new_conversation c conversation_id user_id) s.conversations;
    })
    else err integrity_error

-- `create_session`.
unfoldable pub create_session : Creation → System → Result
create_session c s = elim (conversation_of c s) [
  | none ↦ err parent_not_found
  | some conversation_id ↦ elim (Dict.get conversation_id s.conversations) [
    | some existing ↦ add_row c conversation_id s
    | none ↦ add_both c conversation_id c.user_id s
  ]
]

-- UPDATE ... WHERE session_id: nothing where there is no such row.
unfoldable pub update_row : String → (SessionRow → SessionRow) → Dict SessionRow → Dict SessionRow
update_row session_id f rows = elim (Dict.get session_id rows) [
  | none ↦ rows
  | some row ↦ Dict.set session_id (f row) rows
]

-- The arguments of `commit_session`.
pub record Commit : Type 0 where
  pub state : SessionState
  pub final_message : Option String
  pub deferred_tools : Option String
  pub run_summary : Option RawSummary
  pub display_messages : Option String
  pub status : SessionStatus

-- A value given replaces the column, and None leaves it.
abbrev pub given {ℓ} : {A : Type ℓ} → Option A → Option A → Option A
given none old = old
given (some a) old = some a

-- The values of the UPDATE.
unfoldable pub committed_row : Commit → SessionRow → SessionRow
committed_row c row = record row {
  status = c.status;
  final_message = given c.final_message row.final_message;
  deferred_tools = given c.deferred_tools row.deferred_tools;
  run_summary = given c.run_summary row.run_summary;
}

-- `write_state`, and `write_display_messages` where there are any.
unfoldable pub write : String → Commit → Store → Store
write session_id c store = record {
  states = Dict.set session_id c.state store.states;
  display_messages = elim c.display_messages [
    | none ↦ store.display_messages
    | some messages ↦ Dict.set session_id messages store.display_messages
  ];
}

-- The writes of `commit_session`, behind its test.
unfoldable pub after_commit : String → Commit → System → System
after_commit session_id c s = record s {
  store = write session_id c s.store;
  sessions = update_row session_id (committed_row c) s.sessions;
  registry = (unregister session_id s.registry).0;
}

-- `commit_session`.
unfoldable pub commit_session : String → Commit → System → Result
commit_session session_id c s =
    if is_settled c.status then ok (after_commit session_id c s) else err bad_status

abbrev pub failed_row : SessionRow → SessionRow
failed_row row = record row { status = SessionStatus.failed }

-- `fail_session`.
unfoldable pub fail_session : String → System → System
fail_session session_id s = record s {
  sessions = update_row session_id failed_row s.sessions;
  registry = (unregister session_id s.registry).0;
}

abbrev pub recovered_row : String × SessionRow → String × SessionRow
recovered_row (key, row) = if is_created row.status then (key, failed_row row) else (key, row)

-- `recover_orphaned_sessions`: the rows after the UPDATE, and their number.
unfoldable pub recover_orphaned_sessions : System → System × ℕ
recover_orphaned_sessions s = (
  record s { sessions = map recovered_row s.sessions },
  count_if (λ r. is_created r.status) (Dict.values s.sessions),
)

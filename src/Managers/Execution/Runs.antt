-- ===== src/Managers/Execution/Runs.antt =====
-- `ExecutionManager.run_conversation`, `fork_conversation`, `prepare_fork` and `execute_session`.
pub mod Forks
use netherbrain.Prelude.{
  ℕ, String, Bool, true, false, Option, none, some, List, [], ◌∷◌, ◌==◌, ◌&&◌, not, if◌then◌else◌,
  truthy, is_some, cat,
}
use netherbrain.Prelude.Dict
use netherbrain.Prelude.Dict.{Dict}
use netherbrain.Prelude.Results.{Result, ok, err}
use netherbrain.Prelude.Actions.{Action, ◌>>=◌, ◌>>◌, ret, reading, raise_if, or_raise, writes}
use netherbrain.Enums.{SessionStatus, SessionType, Transport, EnvironmentMode}
use netherbrain.Managers.Sessions
use netherbrain.Managers.Sessions.{
  System, SessionRow, SessionState, InputPart, ConversationRow, Creation, Commit, create_session,
  commit_session,
}
use netherbrain.Managers.Sessions.Read.{SessionData}
use netherbrain.Managers.Conversations
use netherbrain.Managers.Conversations.{ConversationUpdate, update_conversation}
use netherbrain.Execution.Resolver.{ResolvedConfig, resolve_config}
use netherbrain.Execution.Launch.{Launch, LaunchError, LaunchResult, no_session, launch_session}
use netherbrain.Managers.Execution.{
  Error, input_required, of_launch, of_config, of_conversation, Service, Call, Parent, no_parent,
  parent_of, lift_error, conversation_at, idle, find_parent, resolve_fork_point, session_at,
  config_for, launch_of, is_without_input,
}

-- The launch, on the service's system.
abbrev pub launched :
    Service → System × Result LaunchError LaunchResult → Service × Result Error LaunchResult
launched w (s, r) = (record w { system = s }, lift_error of_launch r)

abbrev pub launch : Launch → Action Service Error LaunchResult
launch l w = launched w (launch_session w.has_redis l w.system)

-- `update_conversation`, with a missing conversation suppressed.
abbrev pub after_update : Service → Result Conversations.Error System → Service
after_update w (ok s) = record w { system = s }
after_update w (err e) = w

abbrev pub metadata_only : Option String → ConversationUpdate
metadata_only metadata = record {
  title = none;
  default_preset_id = none;
  metadata = some metadata;
  status = none;
}

abbrev pub set_metadata : Bool → String → Option String → Action Service Error (Unit {0})
set_metadata wanted conversation_id metadata w = (
  if wanted && truthy metadata
      then after_update w (update_conversation conversation_id (metadata_only metadata) w.system)
      else w,
  ok tt,
)

-- The parent of a conversation that is continued.
abbrev pub continued : Option String → Action Service Error Parent
continued none w = (w, ok no_parent)
continued (some conversation_id) w =
    (do
      conv ← reading (conversation_at conversation_id)
      reading (idle conversation_id)
      reading (find_parent conversation_id))
      w

-- `run_conversation`; metadata is given by its JSON text, and an empty one is "".
unfoldable pub run_conversation :
    Call → (conversation_id preset_id metadata : Option String) → Action Service Error LaunchResult
run_conversation c conversation_id preset_id metadata = do
  raise_if (is_without_input c) input_required
  parent ← continued conversation_id
  config ← reading (config_for c preset_id parent.project_ids)
  result ← launch (launch_of c config parent.session_id conversation_id c.input_parts)
  set_metadata (not (is_some conversation_id)) result.conversation_id metadata
  ret result

-- `fork_conversation`, into the conversation id that it draws.
unfoldable pub fork_conversation :
    Call
    → (conversation_id preset_id new_conversation_id : String)
      (from_session_id metadata : Option String)
    → Action Service Error LaunchResult
fork_conversation c conversation_id preset_id new_conversation_id from_session_id metadata = do
  conv ← reading (conversation_at conversation_id)
  point ← reading (resolve_fork_point conversation_id from_session_id)
  config ← reading (config_for c (some preset_id) (some point.index.project_ids))
  result ←
      launch
        (launch_of c config (some point.index.session_id) (some new_conversation_id) c.input_parts)
  set_metadata true result.conversation_id metadata
  ret result

-- An exception of the session manager.
abbrev pub of_session : Service → Sessions.Result → Service × Result Error (Unit {0})
of_session w (Sessions.ok s) = (record w { system = s }, ok tt)
of_session w (Sessions.err e) = (w, err (of_launch (no_session e)))

abbrev pub empty_session_state : SessionState
empty_session_state = record {
  context_state = "{}";
  message_history = "[]";
  environment_state = "{}";
}

-- The session that holds a forked state.
abbrev pub fork_creation :
    (session_id new_conversation_id : String) (created_at : ℕ)
    → Option String
    → SessionRow
    → Creation
fork_creation session_id new_conversation_id created_at user_id parent = record {
  session_id = session_id;
  created_at = created_at;
  parent_session_id = some parent.session_id;
  conversation_id = some new_conversation_id;
  user_id = user_id;
  preset_id = parent.preset_id;
  project_ids = parent.project_ids;
  session_type = SessionType.agent;
  transport = Transport.sse;
  spawned_by = none;
  input_parts = none;
}

abbrev pub fork_commit : Option SessionState → Commit
fork_commit state = record {
  state = elim state [ none ↦ empty_session_state | some s ↦ s ];
  final_message = none;
  deferred_tools = none;
  run_summary = none;
  display_messages = none;
  status = SessionStatus.committed;
}

-- The copy of the display messages.
unfoldable pub copy_display : (parent session_id : String) → System → System
copy_display parent session_id s = elim (Dict.get parent s.store.display_messages) [
  | none ↦ s
  | some messages ↦ record s {
    store = record s.store {
      display_messages = Dict.set session_id messages s.store.display_messages;
    };
  }
]

abbrev pub fork_update : ConversationRow → SessionRow → Option String → ConversationUpdate
fork_update conv parent metadata = record {
  default_preset_id =
      some (if truthy conv.default_preset_id then conv.default_preset_id else parent.preset_id);
  metadata = if truthy metadata then some metadata else none;
  title = elim conv.title [
    | none ↦ none
    | some title ↦ if title == "" then none else some (some (cat title " (fork)"))
  ];
  status = none;
}

-- An exception of an update, passed on.
abbrev pub after_updating :
    Service → Result Conversations.Error System → Service × Result Error (Unit {0})
after_updating w (ok s) = (record w { system = s }, ok tt)
after_updating w (err e) = (w, err (of_conversation e))

abbrev pub updating : String → ConversationUpdate → Action Service Error (Unit {0})
updating conversation_id body w =
    after_updating w (update_conversation conversation_id body w.system)

-- What `prepare_fork` does once the new session has its row.
abbrev pub save_fork :
    (new_conversation_id session_id : String) (metadata : Option String)
    → ConversationRow
    → SessionData
    → Action Service Error String
save_fork new_conversation_id session_id metadata source point = do
  (λ w. of_session w (commit_session session_id (fork_commit point.state) w.system))
  writes (λ w. record w { system = copy_display point.index.session_id session_id w.system })
  updating new_conversation_id (fork_update source point.index metadata)
  ret new_conversation_id

abbrev pub make_fork :
    (new_conversation_id session_id : String) (created_at : ℕ) (metadata user_id : Option String)
    → ConversationRow
    → SessionData
    → Action Service Error String
make_fork new_conversation_id session_id created_at metadata user_id source point = do
  (λ w. of_session w (
      create_session (fork_creation session_id new_conversation_id created_at user_id point.index)
        w.system))
  save_fork new_conversation_id session_id metadata source point

abbrev pub fork_at :
    (conversation_id new_conversation_id session_id : String) (created_at : ℕ)
    (from_session_id metadata user_id : Option String)
    → ConversationRow
    → Action Service Error String
fork_at conversation_id new_conversation_id session_id created_at from_session_id metadata user_id
      source =
    do
      point ← reading (resolve_fork_point conversation_id from_session_id)
      make_fork new_conversation_id session_id created_at metadata user_id source point

-- `prepare_fork`.
unfoldable pub prepare_fork :
    (conversation_id new_conversation_id session_id : String) (created_at : ℕ)
    (from_session_id metadata user_id : Option String)
    → Action Service Error String
prepare_fork conversation_id new_conversation_id session_id created_at from_session_id metadata
      user_id =
    do
      source ← reading (conversation_at conversation_id)
      fork_at conversation_id new_conversation_id session_id created_at from_session_id metadata
          user_id source

-- The environment that a subagent inherits, and how its session is classified.
pub record Subagent : Type 0 where
  pub session_type : SessionType
  pub spawned_by : Option String
  pub subagent_name : Option String
  pub environment_mode : Option EnvironmentMode
  pub container_id : Option String
  pub container_workdir : Option String

abbrev pub given_parent : Option String → Service → Result Error Parent
given_parent parent_session_id w =
    if truthy parent_session_id
    then (elim parent_session_id [
      | none ↦ ok no_parent
      | some id ↦ elim (session_at id w.system) [ ok d ↦ ok (parent_of d) | err e ↦ err e ]
    ])
    else ok no_parent

-- `execute_session`; `fork_id` is the conversation id that a fork draws.
unfoldable pub execute_session :
    Call
    → Subagent
    → (preset_id : String) (parent_session_id : Option String) (fork : Bool) (fork_id : String)
    → Action Service Error LaunchResult
execute_session c a preset_id parent_session_id fork fork_id = do
  raise_if (is_without_input c) input_required
  parent ← reading (given_parent parent_session_id)
  config ← reading (λ w. lift_error of_config (
      resolve_config w.database (record {
        preset_id = some preset_id;
        override = c.override;
        workspace_id = c.workspace_id;
        project_ids = c.project_ids;
        parent_project_ids = parent.project_ids;
        parent_environment_mode = a.environment_mode;
        parent_container_id = a.container_id;
        parent_container_workdir = a.container_workdir;
      })))
  launch
      (record (launch_of c config parent_session_id
        (if truthy parent_session_id && fork then some fork_id else none) c.input_parts) {
          session_type = a.session_type;
          spawned_by = a.spawned_by;
          subagent_name = a.subagent_name;
        })

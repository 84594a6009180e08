-- ===== src/Managers/Execution.antt =====
-- netherbrain/agent_runtime/managers/execution.py: what `ExecutionManager` reads, decides and launches.
-- The ids that the code draws, and the times, are arguments.
pub mod Control
pub mod Runs
pub mod Fire
pub mod Firing
use netherbrain.Prelude.{
  ℕ, String, Bool, true, false, Option, none, some, List, [], ◌∷◌, ◌==◌, ◌&&◌, ◌||◌, not,
  if◌then◌else◌, truthy, is_some,
}
use netherbrain.Prelude.Dict
use netherbrain.Prelude.Dict.{Dict}
use netherbrain.Prelude.Results
use netherbrain.Prelude.Results.{Result, ok, err}
use netherbrain.Prelude.Actions.{Action, ◌>>=◌, ◌>>◌, ret, reading, raise_if, or_raise}
use netherbrain.Enums.{SessionType, Transport, EnvironmentMode}
use netherbrain.Registry.{RuntimeSession, active_agent_session}
use netherbrain.Managers.Sessions.{System, SessionRow, SessionState, InputPart, ConversationRow}
use netherbrain.Managers.Sessions.Read.{SessionData, get_session, find_latest_committed_session}
use netherbrain.Managers.Mailbox.{Table}
use netherbrain.Managers.Conversations
use netherbrain.Managers.Conversations.{get_conversation}
use netherbrain.Execution.Resolver
use netherbrain.Execution.Resolver.{ResolvedConfig, ConfigOverride, resolve_config}
use netherbrain.Execution.Launch.{Launch, LaunchError, LaunchResult}

-- The domain exceptions, with those that are passed on.
pub data Error : Type 0 where
  conversation_busy : (active : RuntimeSession) → Error
  no_active_session : (identifier : String) → Error
  context_not_ready : (session_id : String) → Error
  input_required steering_text_required : Error
  not_in_conversation : (session_id conversation_id : String) → Error
  no_committed_session empty_mailbox no_default_preset : (conversation_id : String) → Error
  session_not_found : (session_id : String) → Error
  of_conversation : Conversations.Error → Error
  of_config : Resolver.Error → Error
  of_launch : LaunchError → Error
  database_error : Error

-- What the manager's calls read and write.
pub record Service : Type 0 where
  pub system : System
  pub mailbox : Table
  pub database : Resolver.Database
  pub has_redis : Bool

-- An exception of another component, under this one's name.
abbrev pub lift_error {ℓ} : {E : Type ℓ} {A : Type 0} → (E → Error) → Result E A → Result Error A
lift_error f (ok a) = ok a
lift_error f (err e) = err (f e)

abbrev pub conversation_at : String → Service → Result Error ConversationRow
conversation_at conversation_id w =
    lift_error of_conversation (get_conversation conversation_id none false w.system)

abbrev pub refuse_busy : Option RuntimeSession → Result Error (Unit {0})
refuse_busy none = ok tt
refuse_busy (some active) = err (conversation_busy active)

-- A conversation has no active agent session.
abbrev pub idle : String → Service → Result Error (Unit {0})
idle conversation_id w = refuse_busy (active_agent_session conversation_id w.system.registry)

-- The session that a launch continues: its id, its state and its projects.
pub record Parent : Type 0 where
  pub session_id : Option String
  pub state : Option SessionState
  pub project_ids : Option (List String)

abbrev pub no_parent : Parent
no_parent = record { session_id = none; state = none; project_ids = none }

abbrev pub session_at : String → System → Result Error SessionData
session_at session_id s =
    Results.or_raise (get_session session_id true s) (session_not_found session_id)

abbrev pub parent_of : SessionData → Parent
parent_of d = record {
  session_id = some d.index.session_id;
  state = d.state;
  project_ids = some d.index.project_ids;
}

-- `_find_parent`.
unfoldable pub find_parent : String → Service → Result Error Parent
find_parent conversation_id w = elim (find_latest_committed_session conversation_id w.system) [
  | none ↦ ok no_parent
  | some row ↦ elim (session_at row.session_id w.system) [
    | ok d ↦ ok (record {
      session_id = some row.session_id;
      state = d.state;
      project_ids = some row.project_ids;
    })
    | err e ↦ err e
  ]
]

abbrev pub latest_point : String → Service → Result Error SessionData
latest_point conversation_id w = elim (find_latest_committed_session conversation_id w.system) [
  | none ↦ err (no_committed_session conversation_id)
  | some latest ↦ session_at latest.session_id w.system
]

abbrev pub named_point : String → String → Service → Result Error SessionData
named_point conversation_id from_session_id w = elim (session_at from_session_id w.system) [
  | err e ↦ err e
  | ok d ↦
      if d.index.conversation_id == conversation_id
      then ok d
      else err (not_in_conversation from_session_id conversation_id)
]

-- `_resolve_fork_point`.
unfoldable pub resolve_fork_point :
    (conversation_id : String) → Option String → Service → Result Error SessionData
resolve_fork_point conversation_id none w = latest_point conversation_id w
resolve_fork_point conversation_id (some from_session_id) w =
    if from_session_id == ""
    then latest_point conversation_id w
    else named_point conversation_id from_session_id w

-- The arguments that the calls share.
pub record Call : Type 0 where
  pub session_id : String
  pub created_at : ℕ
  pub input_parts : List InputPart
  pub has_feedback : Bool
  pub workspace_id : Option String
  pub project_ids : Option (List String)
  pub override : Option ConfigOverride
  pub transport : Transport
  pub user_id : Option String

-- `_resolve_config`, without an environment to inherit.
abbrev pub config_for :
    Call → Option String → Option (List String) → Service → Result Error ResolvedConfig
config_for c preset_id parent_project_ids w = lift_error of_config (
    resolve_config w.database (record {
      preset_id = preset_id;
      override = c.override;
      workspace_id = c.workspace_id;
      project_ids = c.project_ids;
      parent_project_ids = parent_project_ids;
      parent_environment_mode = none;
      parent_container_id = none;
      parent_container_workdir = none;
    }))

-- `not input_parts and not user_interactions and not tool_results`.
abbrev pub is_without_input : Call → Bool
is_without_input c = elim c.input_parts [ [] ↦ not c.has_feedback | p ∷ ps ↦ false ]

-- A launch of an agent session.
abbrev pub launch_of :
    Call → ResolvedConfig → Option String → Option String → List InputPart → Launch
launch_of c config parent_session_id conversation_id input_parts = record {
  session_id = c.session_id;
  created_at = c.created_at;
  config = config;
  input_parts = input_parts;
  transport = c.transport;
  parent_session_id = parent_session_id;
  conversation_id = conversation_id;
  user_id = c.user_id;
  session_type = SessionType.agent;
  spawned_by = none;
  subagent_name = none;
}

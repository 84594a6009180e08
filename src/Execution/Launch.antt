-- ===== src/Execution/Launch.antt =====
-- `launch_session` of netherbrain/agent_runtime/execution/launch.py, up to the start of the background
-- task, whose work is `execute_session`. The new id and the time are arguments.
pub mod Leftovers
use netherbrain.Prelude.{
  ℕ, String, Bool, true, false, Option, none, some, List, [], ◌∷◌, ◌&&◌, not, if◌then◌else◌, cat,
  truthy,
}
use netherbrain.Prelude.Dict
use netherbrain.Prelude.Dict.{Dict}
use netherbrain.Prelude.Results
use netherbrain.Prelude.Results.{Result, ok, err}
use netherbrain.Prelude.Actions.{Action, ◌>>=◌, ◌>>◌, ret, reading, raise_if, or_raise}
use netherbrain.Enums.{SessionType, Transport, same_transport}
use netherbrain.Registry
use netherbrain.Registry.{RuntimeSession, register}
use netherbrain.Managers.Sessions
use netherbrain.Managers.Sessions.{System, SessionRow, InputPart, Creation, create_session}
use netherbrain.Execution.Resolver.{ResolvedConfig}

pub data LaunchError : Type 0 where
  redis_required : LaunchError
  no_session : Sessions.Error → LaunchError
  not_registered : Registry.Error → LaunchError

-- The arguments, with the id and the time that the session's row gets.
pub record Launch : Type 0 where
  pub session_id : String
  pub created_at : ℕ
  pub config : ResolvedConfig
  pub input_parts : List InputPart
  pub transport : Transport
  pub parent_session_id : Option String
  pub conversation_id : Option String
  pub user_id : Option String
  pub session_type : SessionType
  pub spawned_by : Option String
  pub subagent_name : Option String

-- `LaunchResult`; the SSE transport is there iff the transport is SSE.
pub record LaunchResult : Type 0 where
  pub session_id : String
  pub conversation_id : String
  pub transport : Transport
  pub stream_key : Option String

abbrev pub is_stream : Transport → Bool
is_stream transport = same_transport transport Transport.stream

abbrev pub stream_key_of : Launch → Option String
stream_key_of l = if is_stream l.transport then some (cat "nether:stream:" l.session_id) else none

abbrev pub parts_or_none : List InputPart → Option (List InputPart)
parts_or_none [] = none
parts_or_none (p ∷ ps) = some (p ∷ ps)

-- The arguments of `create_session`.
abbrev pub creation_of : Launch → Creation
creation_of l = record {
  session_id = l.session_id;
  created_at = l.created_at;
  parent_session_id = l.parent_session_id;
  conversation_id = l.conversation_id;
  user_id = l.user_id;
  preset_id = some l.config.preset_id;
  project_ids = l.config.project_ids;
  session_type = l.session_type;
  transport = l.transport;
  spawned_by = l.spawned_by;
  input_parts = parts_or_none l.input_parts;
}

-- The session that is registered before the background task starts.
abbrev pub runtime_session : Launch → String → RuntimeSession
runtime_session l conversation_id = record {
  session_id = l.session_id;
  conversation_id = conversation_id;
  parent_session_id = l.parent_session_id;
  preset_id = some l.config.preset_id;
  project_ids = l.config.project_ids;
  session_type = if truthy l.subagent_name then SessionType.async_subagent else SessionType.agent;
  transport = l.transport;
  sdk_context = none;
  streamer = none;
  subagent_name = l.subagent_name;
  async_subagent_registry = [];
  stream_key = stream_key_of l;
}

-- The exception of `create_session`, passed on.
abbrev pub created : System → Sessions.Result → System × Result LaunchError (Unit {0})
created s (Sessions.ok s') = (s', ok tt)
created s (Sessions.err e) = (s, err (no_session e))

abbrev pub create : Creation → Action System LaunchError (Unit {0})
create c s = created s (create_session c s)

-- The exception of `register`, passed on.
abbrev pub registered : System → Registry.Result → System × Result LaunchError (Unit {0})
registered s (Registry.ok registry) = (record s { registry = registry }, ok tt)
registered s (Registry.err e) = (s, err (not_registered e))

abbrev pub registration : RuntimeSession → Action System LaunchError (Unit {0})
registration session s = registered s (register session s.registry)

-- The row that `create_session` returns.
abbrev pub row_of : String → System → Result LaunchError SessionRow
row_of session_id s =
    Results.or_raise (Dict.get session_id s.sessions) (no_session Sessions.not_found)

abbrev pub result_of : Launch → String → LaunchResult
result_of l conversation_id = record {
  session_id = l.session_id;
  conversation_id = conversation_id;
  transport = l.transport;
  stream_key = stream_key_of l;
}

-- The part of `launch_session` behind the row.
abbrev pub with_row : Launch → SessionRow → Action System LaunchError LaunchResult
with_row l session_row = do
  registration (runtime_session l session_row.conversation_id)
  ret (result_of l session_row.conversation_id)

abbrev pub start : Launch → Action System LaunchError LaunchResult
start l = do session_row ← reading (row_of l.session_id); with_row l session_row

-- `launch_session`.
unfoldable pub launch_session : (has_redis : Bool) → Launch → Action System LaunchError LaunchResult
launch_session has_redis l = do
  raise_if (is_stream l.transport && not has_redis) redis_required
  create (creation_of l)
  start l

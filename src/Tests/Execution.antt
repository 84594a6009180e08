-- ===== src/Tests/Execution.antt =====
-- The execution of a session: launch, coordinator and mailbox.
use netherbrain.Prelude.{
  String, true, false, none, some, [], ◌∷◌, ◌++◌, ◌≡◌, ◌≢◌, ◌⊎◌, refl, map, foldl, arith, eq_iff,
  keep,
}
use netherbrain.Prelude.Dict
use netherbrain.Enums.{SessionStatus, SessionType, Transport, MailboxSourceType, is_settled}
use netherbrain.Usage.{RunUsage, plus, no_usage, total}
use netherbrain.Registry
use netherbrain.Managers.Sessions
use netherbrain.Managers.Sessions.{System, SessionRow, new_row}
use netherbrain.Managers.Mailbox.{MailboxMessage}
use netherbrain.Streaming.Agui.{init}
use netherbrain.Execution.Streamer.{
  Streamer, Output, export_session_state, build_pipeline_usage, main_usages, extra_usages_of,
}
use netherbrain.Execution.Streamer.Totals.{usage_of, total-build_pipeline_usage}
use netherbrain.Execution.Coordinator.Setting.{World, Surroundings, Job, Stream, Exit, Fault}
use netherbrain.Execution.Coordinator.{execute_session}
use netherbrain.Execution.Coordinator.Outcome.{execute_session-outcome}
use netherbrain.Execution.Coordinator.Reports.{reports, execute_session-reports}
use netherbrain.Execution.Coordinator.Wire.{HasEnded, wire, execute_session-HasEnded}
use netherbrain.Execution.Launch.{Launch, launch_session, creation_of}
use netherbrain.Execution.Launch.Leftovers.{Leaves, launch_session-Leaves}
use netherbrain.Prelude.Results.{ok}
use netherbrain.Managers.Sessions.Read.{get_session}
use netherbrain.Managers.Conversations.{get_conversation, update_conversation}
use netherbrain.Managers.Execution.{Service, find_parent, resolve_fork_point}
use netherbrain.Managers.Execution.Runs.{prepare_fork, copy_display}
use netherbrain.Managers.Execution.Runs.Forks.{find_parent-prepare_fork}
use netherbrain.Managers.Execution.Fire.{Firing, fire_conversation}
use netherbrain.Managers.Execution.Firing.{
  delivered, leaves_claim, stranded, fire_conversation-refines,
}
use netherbrain.Tests.Config
use netherbrain.Tests.Conversation

abbrev usage : RunUsage
usage = record {
  input_tokens = 10;
  output_tokens = 5;
  cache_read_tokens = 0;
  cache_write_tokens = 0;
  reasoning = none;
  requests = 1;
}

abbrev streamer : Streamer
streamer = record {
  run =
      some
        (record { result = some (some (Output.text "done")); usage = some usage; messages = "[]" });
  extra_usages = some (("m", usage) ∷ []);
  context_state = "{}";
  environment_state = none;
}

total-build_pipeline_usage_example :
    total (build_pipeline_usage "m" streamer)
    ≡ foldl plus
        (foldl plus no_usage (map usage_of (main_usages "m" streamer)))
        (map usage_of (extra_usages_of streamer))
total-build_pipeline_usage_example = total-build_pipeline_usage "m" streamer

abbrev launch : Launch
launch = record {
  session_id = "s1";
  created_at = 1;
  config = Config.resolved;
  input_parts = [];
  transport = Transport.sse;
  parent_session_id = none;
  conversation_id = some "c";
  user_id = some "bob";
  session_type = SessionType.async_subagent;
  spawned_by = some "s0";
  subagent_name = some "helper";
}

abbrev system : System
system = record {
  users = "bob" ∷ [];
  conversations = [];
  sessions = [];
  store = record { states = []; display_messages = [] };
  registry = Registry.init;
}

launch_session-Leaves_example :
    let p = launch_session false launch system in Leaves launch system p.0 p.1
launch_session-Leaves_example = launch_session-Leaves false launch system

abbrev surroundings : Surroundings
surroundings = record {
  new_id = Conversation.ids;
  order = Conversation.in_order;
  dump = λ e. "{}";
  join = λ chunks. "[]";
  dump_tools = λ tools. "{}";
  takes = λ n e. true;
  commit_fault = some Fault.before_database;
  is_post_refused = false;
  message_id = "m1";
  posted_at = 3;
  duration_ms = 2;
  live_handle = 0;
}

abbrev job : Job
job = record {
  session_id = "s1";
  conversation_id = "c";
  subagent_name = some "helper";
  transport = Transport.sse;
  has_event_transport = true;
  model_id = "m";
  redis = none;
}

abbrev row : SessionRow
row = new_row (creation_of launch) "c"

abbrev world : World
world = record {
  system = record system { sessions = ("s1", row) ∷ [] };
  mailbox = [];
  published = [];
  adapter = init Conversation.ids Conversation.in_order;
  sent = [];
  is_closed = false;
}

-- The events of a run, and its output.
abbrev stream : Stream
stream = record { events = Conversation.cut_off; exported = some streamer; exit = Exit.leaves }

other_session : ◌≢◌ {A = String} "s2" "s1"
other_session e = ground (arith, eq_iff "s2" "s1")

execute_session-outcome_example :
    let p = execute_session surroundings job stream world in
    let s = p.0.system in
    ((row' : SessionRow) × (Dict.get "s1" s.sessions ≡ some row') × (row'.status ≡ p.1.status))
    × (Dict.get "s2" s.sessions ≡ Dict.get "s2" world.system.sessions)
    × (Dict.get "s1" s.registry.sessions ≡ none)
    × (((is_settled p.1.status ≡ true)
          × ((t : Streamer) × (stream.exported ≡ some t)
              × (Dict.get "s1" s.store.states ≡ some (export_session_state t))))
        ⊎ (p.1.status ≡ SessionStatus.failed))
unfolding Dict.get
execute_session-outcome_example =
    execute_session-outcome surroundings job stream world row "s2" refl other_session

execute_session-reports_example :
    let p = execute_session surroundings job stream world in
    p.0.mailbox ≡ [] ++ reports surroundings job (some "helper") false p.1.status
execute_session-reports_example = execute_session-reports surroundings job stream world

execute_session-HasEnded_example :
    HasEnded (λ n e. true) (wire (execute_session surroundings job stream world).0)
execute_session-HasEnded_example =
    execute_session-HasEnded surroundings job Conversation.in_order-IsIteration refl stream world
      refl refl

abbrev letter : MailboxMessage
letter = record {
  message_id = "m1";
  conversation_id = "c";
  source_session_id = "s1";
  source_type = MailboxSourceType.subagent_result;
  subagent_name = "helper";
  created_at = 3;
  delivered_to = none;
}

abbrev service : Service
service = record {
  system = record system {
    conversations = ("c", Sessions.new_conversation (creation_of launch) "c" "bob") ∷ [];
  };
  mailbox = letter ∷ [];
  database = Config.database;
  has_redis = true;
}

abbrev firing : Firing
firing = record {
  call = record {
    session_id = "s3";
    created_at = 4;
    input_parts = [];
    has_feedback = false;
    workspace_id = none;
    project_ids = none;
    override = none;
    transport = Transport.stream;
    user_id = some "bob";
  };
  conversation_id = "c";
  preset_id = none;
  temp_claim = "t";
  fault = none;
}

fire_conversation-refines_example :
    let p = fire_conversation firing service in
    (p.0.mailbox ≡ delivered "c" p.1 (letter ∷ []))
    ⊎ ((leaves_claim none p.1 ≡ true) × (p.0.mailbox ≡ stranded firing (letter ∷ [])))
fire_conversation-refines_example = fire_conversation-refines firing service (refl, tt)

-- A conversation with a committed session, and its fork.
abbrev settled : Service
settled = record service {
  system = record service.system {
    sessions = ("s0", record row { session_id = "s0"; status = SessionStatus.committed }) ∷ [];
    store = record { states = ("s0", export_session_state streamer) ∷ []; display_messages = [] };
  };
}

abbrev forked : Service
forked = (prepare_fork "c" "d" "s9" 9 (some "s0") none (some "bob") settled).0

find_parent-prepare_fork_example :
    find_parent "d" forked
    ≡ ok (record {
      session_id = some "s9";
      state = some (export_session_state streamer);
      project_ids = some row.project_ids;
    })
unfolding prepare_fork resolve_fork_point get_session Dict.get new_row keep get_conversation
    Sessions.create_session Sessions.conversation_of Sessions.add_row Dict.has
    Sessions.commit_session update_conversation copy_display Sessions.after_commit Sessions.write
    Dict.set
find_parent-prepare_fork_example =
    find_parent-prepare_fork "c" "d" "s9" 9 (some "s0") none (some "bob") settled forked "d"
      (record {
        index = record row { session_id = "s0"; status = SessionStatus.committed };
        display_messages = none;
        state = some (export_session_state streamer);
      })
      refl refl refl refl

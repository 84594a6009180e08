-- ===== src/Tests/History.antt =====
-- The session manager.
use netherbrain.Prelude.{
  ◌≤◌, ◌-◌, true, none, some, [], ◌∷◌, ◌≡◌, refl, length, drop, ltb, All, keep,
}
use netherbrain.Prelude.Dict
use netherbrain.Usage.{PipelineUsage, no_usage, total}
use netherbrain.Enums.{SessionStatus, SessionType, Transport}
use netherbrain.Registry
use netherbrain.Managers.Sessions.{
  System, SessionRow, SessionState, RawSummary, valid, Creation, Commit, create_session, ok,
  new_row, commit_session, after_commit, committed_row, given, recover_orphaned_sessions,
}
use netherbrain.Managers.Sessions.Lifecycle.{
  get_session-commit_session, read_back, recover_orphaned_sessions-recovered, recovered,
}
use netherbrain.Managers.Sessions
use netherbrain.Managers.Sessions.Lineage
use netherbrain.Managers.Sessions.Read
use netherbrain.Managers.Sessions.Lineage.{
  IsCreated, create_session-IsCreated, HasConversations, run-HasConversations, run, creates,
  commits, fails, recovers, after,
}
use netherbrain.Managers.Sessions.Read.{
  get_session, get_conversation_turns, TurnsPage, find_latest_committed_session, is_turn,
  get_conversation_usage,
}
use netherbrain.Managers.Sessions.Read.Turns.{get_conversation_turns-limit}
use netherbrain.Managers.Sessions.Read.Latest.{find_latest_committed_session-latest}
use netherbrain.Managers.Sessions.Read.Totals.{total-get_conversation_usage, recorded_all}

abbrev empty : System
empty = record {
  users = "bob" ∷ [];
  conversations = [];
  sessions = [];
  store = record { states = []; display_messages = [] };
  registry = Registry.init;
}

abbrev root : Creation
root = record {
  session_id = "s1";
  created_at = 1;
  parent_session_id = none;
  conversation_id = none;
  user_id = some "bob";
  preset_id = some "p";
  project_ids = [];
  session_type = SessionType.agent;
  transport = Transport.sse;
  spawned_by = none;
  input_parts = some (record { kind = "text"; text = some " hello " } ∷ []);
}

abbrev created : System
created = after empty (create_session root empty)

abbrev continuation : Creation
continuation = record root { session_id = "s2"; created_at = 2; parent_session_id = some "s1" }

abbrev usage : PipelineUsage
usage = ("gpt", record no_usage { input_tokens = 5; requests = 1 }) ∷ []

abbrev outcome : Commit
outcome = record {
  state = record { context_state = "{}"; message_history = "[]"; environment_state = "{}" };
  final_message = some "done";
  deferred_tools = none;
  run_summary = some (valid 12 usage);
  display_messages = some "[]";
  status = SessionStatus.committed;
}

-- A root session that is committed, and its continuation, committed too.
abbrev settled : System
settled =
    run empty
      (creates root ∷ commits "s1" outcome ∷ creates continuation ∷ commits "s2" outcome ∷ [])

abbrev continued : System
continued = run empty (creates root ∷ commits "s1" outcome ∷ creates continuation ∷ [])

continued_row : (row : SessionRow) × (Dict.get "s2" continued.sessions ≡ some row)
unfolding run Lineage.step create_session commit_session after_commit Sessions.update_row
    Sessions.add_row Sessions.conversation_of Dict.get Dict.set Dict.has new_row committed_row
continued_row = (_, refl)

get_session-commit_session_example :
    (s : System) × (commit_session "s2" outcome continued ≡ ok s)
    × (get_session "s2" true s
        ≡ some (read_back outcome continued_row.0 (Dict.get "s2" continued.store.display_messages)))
    × (Registry.get "s2" s.registry ≡ none)
get_session-commit_session_example =
    get_session-commit_session "s2" outcome continued continued_row.0 refl continued_row.1

recover_orphaned_sessions-recovered_example :
    ((recover_orphaned_sessions (recover_orphaned_sessions continued).0).1 ≡ 0)
    × (Dict.get "s2" (recover_orphaned_sessions continued).0.sessions
        ≡ some (recovered continued_row.0))
recover_orphaned_sessions-recovered_example =
    recover_orphaned_sessions-recovered continued "s2" continued_row.0 continued_row.1

create_session_ok : create_session root empty ≡ ok created
unfolding create_session Sessions.add_row Sessions.conversation_of Dict.get
create_session_ok = refl

create_session-IsCreated_example : IsCreated root empty created
create_session-IsCreated_example = create_session-IsCreated root empty created create_session_ok

run-HasConversations_example :
    HasConversations (run empty (creates root ∷ fails "s1" ∷ recovers ∷ []))
run-HasConversations_example =
    run-HasConversations empty (creates root ∷ fails "s1" ∷ recovers ∷ []) tt

get_conversation_turns-limit_example :
    let all = (get_conversation_turns "s1" true none none settled).turns in
    get_conversation_turns "s1" true (some 1) none settled
    ≡ record { turns = drop (length all - 1) all; has_more = ltb 1 (length all) }
get_conversation_turns-limit_example = get_conversation_turns-limit "s1" true 1 none settled

-- The last of the two turns, and more before it.
last_turn : (get_conversation_turns "s1" true (some 1) none settled).has_more ≡ true
unfolding run Lineage.step create_session commit_session after_commit Sessions.update_row
    Sessions.add_row Sessions.conversation_of Dict.get Dict.set Dict.has new_row committed_row
    get_conversation_turns Read.page_rows Read.chronological Read.insert_row keep
last_turn = refl

latest_row : (row : SessionRow) × (find_latest_committed_session "s1" settled ≡ some row)
unfolding run Lineage.step create_session commit_session after_commit Sessions.update_row
    Sessions.add_row Sessions.conversation_of Dict.get Dict.set Dict.has new_row committed_row
    find_latest_committed_session Read.chronological Read.insert_row keep
latest_row = (_, refl)

find_latest_committed_session-latest_example :
    (is_turn "s1" latest_row.0 ≡ true)
    × All
        (λ r. is_turn "s1" r ≡ true → r.created_at ≤ latest_row.0.created_at)
        (Dict.values settled.sessions)
find_latest_committed_session-latest_example =
    find_latest_committed_session-latest "s1" settled latest_row.0 latest_row.1

conversation_usage : (u : PipelineUsage) × (get_conversation_usage "s1" settled ≡ some u)
unfolding run Lineage.step create_session commit_session after_commit Sessions.update_row
    Sessions.add_row Sessions.conversation_of Dict.get Dict.set Dict.has new_row committed_row
    get_conversation_usage Read.aggregate Read.accumulate_all Read.accumulate keep
conversation_usage = (_, refl)

total-get_conversation_usage_example :
    total conversation_usage.0 ≡ recorded_all (keep (is_turn "s1") (Dict.values settled.sessions))
total-get_conversation_usage_example =
    total-get_conversation_usage "s1" settled conversation_usage.0 conversation_usage.1

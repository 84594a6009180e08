-- ===== src/Tests/Live.antt =====
-- The registry, the SSE queue and the bridge.
use netherbrain.Prelude.{
  ℕ, ltb, keep, append-nil, sym, ◌∙◌, ◌++◌, if◌then◌else◌, Bool, String, ◌==◌, true, none, some,
  List, [], ◌∷◌, ◌≡◌, refl, arith, length, find,
}
use netherbrain.Prelude.Dict
use netherbrain.Enums.{SessionType, Transport}
use netherbrain.Registry
use netherbrain.Registry.{
  RuntimeSession, Registry, register, after_register, begin_shutdown, wait_until_drained, insert,
  is_empty, Call, registers, unregisters, shuts_down,
}
use netherbrain.Registry.Occupancy.{IsValid, run-init-IsValid}
use netherbrain.Registry.Shutdown.{wait-begin_shutdown}
use netherbrain.Events.{text_start, run_finished}
use netherbrain.Transport.Bridge
use netherbrain.Transport.Bridge.{Entry, Poll, grows, Bridge}
use netherbrain.Transport.Bridge.Order.{IsSplit, IsXread}
use netherbrain.Transport.Bridge.Following.{IsFollowed, upcoming, follow-IsFollowed}
use netherbrain.Transport.Sse
use netherbrain.Transport.Sse.{Sse, sends, closes, consumes}
use netherbrain.Transport.Sse.Delivery.{
  IsBounded, init-IsBounded, run-IsBounded, ended-reads, reads,
}

abbrev agent : RuntimeSession
agent = record {
  session_id = "s1";
  conversation_id = "c1";
  parent_session_id = none;
  preset_id = none;
  project_ids = [];
  session_type = SessionType.agent;
  transport = Transport.sse;
  sdk_context = none;
  streamer = some 7;
  subagent_name = none;
  async_subagent_registry = [];
  stream_key = none;
}

abbrev second : RuntimeSession
second = record agent { session_id = "s2" }

abbrev calls : List Call
calls = registers agent ∷ registers second ∷ []

run-init-IsValid_example : IsValid (Registry.run Registry.init calls)
run-init-IsValid_example = run-init-IsValid calls

-- The second agent of a conversation is refused.
second_refused : length (Registry.run Registry.init calls).sessions ≡ 1
unfolding Registry.run Registry.step register Registry.insert Dict.set Registry.active_agent_session
    find
second_refused = refl

wait-begin_shutdown_example :
    (wait_until_drained
      (begin_shutdown (Registry.run Registry.init calls))
      (unregisters "s1" ∷ [])).1
    ≡ is_empty
        (Registry.run
          (begin_shutdown (Registry.run Registry.init calls))
          (unregisters "s1" ∷ [])).sessions
wait-begin_shutdown_example =
    wait-begin_shutdown (Registry.run Registry.init calls) (unregisters "s1" ∷ [])
      (run-init-IsValid calls)

-- Three events into a queue of two, and a close.
abbrev stream : List Sse.Call
stream =
    sends (text_start "m" "assistant")
    ∷ sends (text_start "n" "assistant")
    ∷ sends (run_finished "c" "s")
    ∷ closes
    ∷ []

two-IsBounded : IsBounded (Sse.init 2)
two-IsBounded = init-IsBounded 2 (omega arith)

run-IsBounded_example : IsBounded (Sse.run (Sse.init 2) stream)
run-IsBounded_example = run-IsBounded stream (Sse.init 2) two-IsBounded

abbrev shut : Sse
shut = Sse.run (Sse.init 2) stream

shut_closed : shut.closed ≡ true
unfolding Sse.run Sse.step Sse.send Sse.close Sse.put_sentinel Sse.put_nowait Sse.full
    Sse.discard_first
shut_closed = refl

ended-reads_example : (Sse.run shut (reads (length shut.queue))).ended ≡ true
ended-reads_example = ended-reads shut (run-IsBounded stream (Sse.init 2) two-IsBounded) shut_closed

abbrev ends : String → Bool
ends s = s == "RUN_FINISHED"

abbrev entry : String → String → Entry
entry id name = record { stream_id = id; data_str = some name; type_str = some name }

-- The ids of the test's entries, in their order.
abbrev rank : String → ℕ
rank id =
    if id == "1-0"
    then 1
    else if id == "1-1"
    then 2
    else if id == "2-0"
    then 3
    else if id == "2-1"
    then 4
    else 0

abbrev newer : String → String → Bool
newer cursor id = ltb (rank cursor) (rank id)

-- Stands in for XREAD.
abbrev xread : String → List Entry → List Entry
xread cursor = keep (λ e. newer cursor e.stream_id)

xread-front :
    (cursor : String) (done rest : List Entry)
    → IsSplit newer cursor done rest
    → xread cursor (done ++ rest) ≡ rest
unfolding keep
xread-front cursor [] [] s = refl
xread-front cursor [] (e ∷ es) s = ground (arith, s.1.0, xread-front cursor [] es (tt, s.1.1))
xread-front cursor (d ∷ ds) rest s = ground (arith, s.0.0, xread-front cursor ds rest (s.0.1, s.1))

xread-IsXread : IsXread newer xread
xread-IsXread = record {
  front = λ cursor done rest s. ([], append-nil _ ∙ xread-front cursor done rest s);
  progress = λ cursor done rest s h. sym (xread-front cursor done rest s) ∙ h;
}

-- Two entries, a pause, and the end of the run with an entry behind it.
abbrev polls : List Poll
polls =
    grows (entry "1-0" "RUN_STARTED" ∷ entry "1-1" "CUSTOM" ∷ [])
    ∷ grows []
    ∷ grows (entry "2-0" "RUN_FINISHED" ∷ entry "2-1" "CUSTOM" ∷ [])
    ∷ []

abbrev start : Bridge
start = record { cursor = "0-0"; idle_elapsed = 0; yielded = []; stopped = none }

follow-IsFollowed_example :
    IsFollowed ends newer xread xread-IsXread 200 300000
      (upcoming polls)
      start
      (Bridge.follow ends 200 300000 xread polls [] start)
      (upcoming polls)
follow-IsFollowed_example =
    follow-IsFollowed ends newer xread xread-IsXread 200 300000 polls [] [] start refl
      (
        refl,
        ((refl, refl), ((refl, refl), ((refl, refl), tt))),
        (refl, ((refl, refl), ((refl, refl), tt)), (refl, ((refl, refl), tt), (refl, tt, tt))),
      )
      (tt, (refl, (refl, (refl, (refl, tt)))))

-- The entry behind the end is not yielded.
followed : length (Bridge.follow ends 200 300000 xread polls [] start).yielded ≡ 3
unfolding Bridge.follow Bridge.turn Bridge.handled Bridge.read_entries Bridge.is_terminal keep
followed = refl

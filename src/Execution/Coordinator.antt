-- ===== src/Execution/Coordinator.antt =====
-- `execute_session` of netherbrain/agent_runtime/execution/coordinator.py, from the end of its set-up
-- to its result. What the SDK streams, and how its context manager is left, is an argument;
-- so is which calls of the database, of the state store and of Redis raise.
pub mod Setting
pub mod Frames
pub mod Finished
pub mod Outcome
pub mod Background
pub mod Wire
pub mod Reports
use netherbrain.Prelude.{
  ℕ, String, Bool, true, false, Option, none, some, List, [], ◌∷◌, ◌++◌, ◌==◌, if◌then◌else◌, keep,
  is_some, take_chars, truthy,
}
use netherbrain.Prelude.Dict
use netherbrain.Prelude.Dict.{Dict}
use netherbrain.Enums.{SessionStatus, SessionType, Transport, MailboxSourceType, is_settled}
use netherbrain.Events.{BaseEvent}
use netherbrain.Sdk.{SdkEvent}
use netherbrain.Usage.{PipelineUsage}
use netherbrain.Registry.{Registry, RuntimeSession}
use netherbrain.Managers.Sessions.{
  System, Store, SessionState, RawSummary, Commit, commit_session, ok, err, fail_session, write,
}
use netherbrain.Managers.Mailbox.{Table, post_message, count_pending}
use netherbrain.Streaming.Agui.State.{Adapter, Emits}
use netherbrain.Streaming.Agui.{on_event, on_error}
use netherbrain.Streaming.Compress.{compress_display_messages}
use netherbrain.Notifications.{
  Notification, session_started, session_completed, session_failed, mailbox_updated, Redis,
  publish_notification,
}
use netherbrain.Execution.Streamer.{
  Streamer, DeferredToolRequests, extract_final_message, deferred_of, serialize_deferred_tools,
  export_session_state, build_pipeline_usage, build_run_summary,
}
use netherbrain.Execution.Coordinator.Setting.{
  ExecutionResult, Job, Exit, leaves, interrupts, raises, Stream, Fault, before_store,
  before_database, Surroundings, World, deliver, deliver_if, close_if, publish, session_type_str,
  source_type_of, source_value, transport_value, set_streamer,
}

module _ (env : Surroundings) (job : Job) where
  -- `_post_mailbox_if_subagent`.
  unfoldable pub post_mailbox_if_subagent : SessionStatus → World → World
  post_mailbox_if_subagent status w = elim job.subagent_name [
    | none ↦ w
    | some name ↦
        if env.is_post_refused
        then w
        else (let mailbox =
              post_message env.message_id env.posted_at job.conversation_id job.session_id
                (source_type_of status) name w.mailbox in
            publish job.redis
              (mailbox_updated job.conversation_id env.message_id job.session_id
                (source_value (source_type_of status)) name
                (count_pending job.conversation_id mailbox))
              (record w { mailbox = mailbox }))
  ]

  -- `_compress_adapter_buffer`, of an AG-UI adapter.
  unfoldable pub compress_adapter_buffer : List BaseEvent → Option String
  compress_adapter_buffer [] = none
  compress_adapter_buffer (e ∷ es) = some (env.join (compress_display_messages env.dump (e ∷ es)))

  -- `commit_session` as the coordinator meets it: none where it raises, with what is left behind.
  unfoldable pub try_commit : Commit → System → System × Bool
  try_commit c s = elim env.commit_fault [
    | some fault ↦ elim fault [
      | before_store ↦ (s, false)
      | before_database ↦ (record s { store = write job.session_id c s.store }, false)
    ]
    | none ↦ elim (commit_session job.session_id c s) [ ok s' ↦ (s', true) | err e ↦ (s, false) ]
  ]

  abbrev pub fail : World → World
  fail w = record w { system = fail_session job.session_id w.system }

  -- `_handle_interrupt`.
  unfoldable pub handle_interrupt :
      Option SessionState → Option String → RawSummary → World → World × ExecutionResult
  handle_interrupt none exported_final summary w = (
    fail w,
    record {
      session_id = job.session_id;
      status = SessionStatus.failed;
      final_message = exported_final;
      run_summary = some summary;
      deferred_requests = none;
    },
  )
  handle_interrupt (some exported_state) exported_final summary w =
      let (system, committed) =
        try_commit
          (record {
            state = exported_state;
            final_message = exported_final;
            deferred_tools = none;
            run_summary = some summary;
            display_messages = compress_adapter_buffer w.adapter.buffer;
            status = SessionStatus.committed;
          })
          w.system in
      if committed
      then (
        record w { system = system },
        record {
          session_id = job.session_id;
          status = SessionStatus.committed;
          final_message = exported_final;
          run_summary = some summary;
          deferred_requests = none;
        },
      )
      else (
        fail (record w { system = system }),
        record {
          session_id = job.session_id;
          status = SessionStatus.failed;
          final_message = none;
          run_summary = some summary;
          deferred_requests = none;
        },
      )

  abbrev pub preview : Option String → Option String
  preview none = none
  preview (some text) = if text == "" then none else some (take_chars 200 text)

  abbrev pub final_of : Option Streamer → Option String
  final_of none = none
  final_of (some s) = extract_final_message s

  abbrev pub state_of : Option Streamer → Option SessionState
  state_of none = none
  state_of (some s) = some (export_session_state s)

  abbrev pub summary_of : Option Streamer → RawSummary
  summary_of none = RawSummary.valid env.duration_ms []
  summary_of (some s) = build_run_summary job.model_id env.duration_ms s

  -- The mailbox and the notification of an interrupt.
  unfoldable pub announce_interrupt :
      Option String → World × ExecutionResult → World × ExecutionResult
  announce_interrupt final (w, result) = (
    publish job.redis
        (if is_settled result.status
          then session_completed job.conversation_id job.session_id
              (session_type_str job.subagent_name) (preview final)
          else session_failed job.conversation_id job.session_id
              (session_type_str job.subagent_name) (some "Session interrupted"))
        (post_mailbox_if_subagent result.status w),
    result,
  )

  -- The branch `except AgentInterrupted`.
  unfoldable pub interrupted : Option Streamer → World → World × ExecutionResult
  interrupted exported w = announce_interrupt (final_of exported) (
      handle_interrupt (state_of exported) (final_of exported) (summary_of exported) (
        close_if job.has_event_transport (
          deliver_if job.has_event_transport env.takes
            (on_error env.order "interrupted" "Session interrupted") w)))

  -- The branch `except Exception`.
  unfoldable pub failed : World → World × ExecutionResult
  failed w =
      let w1 = post_mailbox_if_subagent SessionStatus.failed (fail w) in
      let w2 =
        publish job.redis
          (session_failed job.conversation_id job.session_id (session_type_str job.subagent_name)
            (some "Session execution failed"))
          w1 in
      let w3 =
        deliver_if job.has_event_transport env.takes
          (on_error env.order "execution_error" "Session execution failed") w2 in
      (
        close_if job.has_event_transport w3,
        record {
          session_id = job.session_id;
          status = SessionStatus.failed;
          final_message = none;
          run_summary = some (RawSummary.valid env.duration_ms []);
          deferred_requests = none;
        },
      )

  -- The body behind the context manager, after a commit.
  unfoldable pub completed : SessionStatus → Streamer → World → World × ExecutionResult
  completed status s w =
      let final = extract_final_message s in
      let w1 = post_mailbox_if_subagent status w in
      let w2 =
        publish job.redis
          (session_completed job.conversation_id job.session_id (session_type_str job.subagent_name)
            (preview final))
          w1 in
      let w3 =
        deliver_if job.has_event_transport env.takes
          (on_event env.new_id env.order SdkEvent.pipeline_completed) w2 in
      (
        close_if job.has_event_transport w3,
        record {
          session_id = job.session_id;
          status = status;
          final_message = final;
          run_summary = some (build_run_summary job.model_id env.duration_ms s);
          deferred_requests = deferred_of s;
        },
      )

  abbrev pub status_of : Streamer → SessionStatus
  status_of s =
      if is_some (deferred_of s)
      then SessionStatus.awaiting_tool_results
      else SessionStatus.committed

  abbrev pub commit_of : Streamer → List BaseEvent → Commit
  commit_of s buffer = record {
    state = export_session_state s;
    final_message = extract_final_message s;
    deferred_tools = elim (deferred_of s) [
      | none ↦ none
      | some requests ↦ some (env.dump_tools (serialize_deferred_tools requests))
    ];
    run_summary = some (build_run_summary job.model_id env.duration_ms s);
    display_messages = compress_adapter_buffer buffer;
    status = status_of s;
  }

  -- The normal completion: the commit, and what follows it or its exception.
  unfoldable pub finish : Streamer → World → World × ExecutionResult
  finish s w =
      let (system, committed) = try_commit (commit_of s w.adapter.buffer) w.system in
      if committed
      then completed (status_of s) s (record w { system = system })
      else failed (record w { system = system })

  -- `runtime_session.streamer = streamer`, on the object that the registry holds too.
  abbrev pub with_streamer : World → World
  with_streamer w = record w {
    system = record w.system {
      registry = record w.system.registry {
        sessions = set_streamer job.session_id env.live_handle w.system.registry.sessions;
      };
    };
  }

  -- The loop over the SDK's events.
  unfoldable pub stream_events : List SdkEvent → World → World
  stream_events [] w = w
  stream_events (e ∷ es) w =
      stream_events es
        (deliver_if job.has_event_transport env.takes (on_event env.new_id env.order e) w)

  -- The two announcements.
  unfoldable pub announced : World → World
  announced w =
      publish job.redis
        (session_started job.conversation_id job.session_id (session_type_str job.subagent_name)
          (transport_value job.transport))
        (deliver_if job.has_event_transport env.takes
          (on_event env.new_id env.order
            (SdkEvent.pipeline_started job.session_id job.conversation_id))
          w)

  -- The body up to the end of the stream.
  unfoldable pub streamed : List SdkEvent → World → World
  streamed events w = stream_events events (with_streamer (announced w))

  -- `execute_session` behind its set-up, of a session that `launch_session` has registered. Leaving the context
  -- without the exports is what the assertion refuses.
  unfoldable pub execute_session : Stream → World → World × ExecutionResult
  execute_session stream w =
      let w1 = streamed stream.events w in
      elim stream.exit [
        | raises ↦ failed w1
        | interrupts ↦ interrupted stream.exported w1
        | leaves ↦ elim stream.exported [ none ↦ failed w1 | some s ↦ finish s w1 ]
      ]

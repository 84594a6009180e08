-- ===== src/Execution/Coordinator/Reports.antt =====
-- What a session reports to the mailbox of its conversation.
use netherbrain.Prelude.{
  String, Bool, true, false, Option, none, some, List, [], ◌∷◌, ◌++◌, ◌≡◌, refl, sym, ap, ◌∙◌,
  subst, Bool-cases, Option-cases, inl, inr, append-nil,
}
use netherbrain.Enums.{SessionStatus, MailboxSourceType}
use netherbrain.Sdk.{SdkEvent}
use netherbrain.Managers.Sessions.{SessionState, RawSummary}
use netherbrain.Managers.Mailbox.{MailboxMessage, Table, post_message}
use netherbrain.Streaming.Agui.{on_error}
use netherbrain.Execution.Streamer.{Streamer}
use netherbrain.Execution.Coordinator.Setting.{
  World, Surroundings, Job, Stream, Exit, ExecutionResult, deliver_if, close_if, source_type_of,
}
use netherbrain.Execution.Coordinator.{
  post_mailbox_if_subagent, try_commit, fail, handle_interrupt, interrupted, failed, completed,
  status_of, commit_of, finish, streamed, execute_session, announce_interrupt, state_of, final_of,
  summary_of, compress_adapter_buffer,
}
use netherbrain.Execution.Coordinator.Frames.{
  deliver_if-mailbox, close_if-mailbox, streamed-mailbox,
}

module _ (env : Surroundings) (job : Job) where
  -- What a report says of a session: that it has a result, or that it failed.
  abbrev pub kind_of : SessionStatus → MailboxSourceType
  kind_of SessionStatus.committed = MailboxSourceType.subagent_result
  kind_of SessionStatus.awaiting_tool_results = MailboxSourceType.subagent_result
  kind_of _ = MailboxSourceType.subagent_failed

  source_type_of-kind_of : (status : SessionStatus) → source_type_of status ≡ kind_of status
  source_type_of-kind_of SessionStatus.created = refl
  source_type_of-kind_of SessionStatus.committed = refl
  source_type_of-kind_of SessionStatus.awaiting_tool_results = refl
  source_type_of-kind_of SessionStatus.failed = refl
  source_type_of-kind_of SessionStatus.archived = refl

  -- The message of a subagent that ends with a status.
  abbrev pub report : String → SessionStatus → MailboxMessage
  report name status = record {
    message_id = env.message_id;
    conversation_id = job.conversation_id;
    source_session_id = job.session_id;
    source_type = kind_of status;
    subagent_name = name;
    created_at = env.posted_at;
    delivered_to = none;
  }

  abbrev pub reports : Option String → Bool → SessionStatus → List MailboxMessage
  reports none is_refused status = []
  reports (some name) true status = []
  reports (some name) false status = report name status ∷ []

  -- The mailbox that a result leaves.
  abbrev HasReported : Table → World × ExecutionResult → Type 0
  HasReported t p = p.0.mailbox ≡ t ++ reports job.subagent_name env.is_post_refused p.1.status

  post-mailbox :
      (status : SessionStatus) (w : World)
      → (post_mailbox_if_subagent env job status w).mailbox
        ≡ w.mailbox ++ reports job.subagent_name env.is_post_refused status
  unfolding post_mailbox_if_subagent post_message
  post-mailbox status w = elim (Option-cases job.subagent_name) [
    | inl h ↦ rw (post_mailbox_if_subagent, h) (sym (append-nil w.mailbox))
    | inr (name, h) ↦ elim (Bool-cases env.is_post_refused) [
      | inl e ↦ rw (post_mailbox_if_subagent, h, e) (sym (append-nil w.mailbox))
      | inr e ↦ rw (post_mailbox_if_subagent, h, e, source_type_of-kind_of status) refl
    ]
  ]

  failed-HasReported : (w : World) → HasReported w.mailbox (failed env job w)
  unfolding failed
  failed-HasReported w =
      close_if-mailbox job.has_event_transport _
      ∙ deliver_if-mailbox job.has_event_transport env.takes _ _
      ∙ post-mailbox SessionStatus.failed (fail env job w)

  completed-HasReported :
      (status : SessionStatus) (s : Streamer) (w : World)
      → HasReported w.mailbox (completed env job status s w)
  unfolding completed
  completed-HasReported status s w =
      close_if-mailbox job.has_event_transport _
      ∙ deliver_if-mailbox job.has_event_transport env.takes _ _
      ∙ post-mailbox status w

  finish-HasReported : (s : Streamer) (w : World) → HasReported w.mailbox (finish env job s w)
  unfolding finish
  finish-HasReported s w =
      let y = try_commit env job (commit_of env job s w.adapter.buffer) w.system in
      elim (Bool-cases y.1) [
        | inl h ↦
            rw (finish, h)
              (completed-HasReported (status_of env job s) s (record w { system = y.0 }))
        | inr h ↦ rw (finish, h) (failed-HasReported (record w { system = y.0 }))
      ]

  handle-mailbox :
      (state : Option SessionState) (final : Option String) (summary : RawSummary) (w : World)
      → (handle_interrupt env job state final summary w).0.mailbox ≡ w.mailbox
  unfolding handle_interrupt
  handle-mailbox none final summary w = refl
  handle-mailbox (some s) final summary w =
      let y =
        try_commit env job
          (record {
            state = s;
            final_message = final;
            deferred_tools = none;
            run_summary = some summary;
            display_messages = compress_adapter_buffer env job w.adapter.buffer;
            status = SessionStatus.committed;
          })
          w.system in
      elim (Bool-cases y.1) [
        | inl h ↦ rw (handle_interrupt, h) refl
        | inr h ↦ rw (handle_interrupt, h) refl
      ]

  interrupted-HasReported :
      (exported : Option Streamer) (w : World)
      → HasReported w.mailbox (interrupted env job exported w)
  unfolding interrupted announce_interrupt
  interrupted-HasReported exported w =
      let d =
        deliver_if job.has_event_transport env.takes
          (on_error env.order "interrupted" "Session interrupted") w in
      let x = close_if job.has_event_transport d in
      let p =
        handle_interrupt env job (state_of env job exported) (final_of env job exported)
          (summary_of env job exported) x in
      post-mailbox p.1.status p.0
      ∙ ap (λ t. t ++ reports job.subagent_name env.is_post_refused p.1.status)
          (handle-mailbox (state_of env job exported) (final_of env job exported)
              (summary_of env job exported) x
            ∙ close_if-mailbox job.has_event_transport d
            ∙ deliver_if-mailbox job.has_event_transport env.takes _ w)

  exit-HasReported :
      (es : List SdkEvent) (exported : Option Streamer) (exit : Exit) (w : World)
      → HasReported
          (streamed env job es w).mailbox
          (execute_session env job (record { events = es; exported = exported; exit = exit }) w)
  unfolding execute_session
  exit-HasReported es exported Exit.raises w = failed-HasReported (streamed env job es w)
  exit-HasReported es exported Exit.interrupts w =
      interrupted-HasReported exported (streamed env job es w)
  exit-HasReported es none Exit.leaves w = failed-HasReported (streamed env job es w)
  exit-HasReported es (some s) Exit.leaves w = finish-HasReported s (streamed env job es w)

  -- However a session ends once it has been set up, the mailbox gains one message at its end if the session is a subagent
  -- and the post is not refused, and none otherwise; the message goes to the session's conversation
  -- and says subagent_result where the result is committed or awaits tool results, and
  -- subagent_failed otherwise.
  pub execute_session-reports :
      (stream : Stream) (w : World)
      → let p = execute_session env job stream w in
        p.0.mailbox ≡ w.mailbox ++ reports job.subagent_name env.is_post_refused p.1.status
  execute_session-reports stream w =
      subst (λ t. HasReported t (execute_session env job stream w))
        (streamed-mailbox env job stream.events w)
        (exit-HasReported stream.events stream.exported stream.exit w)

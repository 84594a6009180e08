-- ===== src/Execution/Coordinator/Wire.antt =====
-- What the client of a session sees on the transport, from the first event to the last.
use netherbrain.Prelude.{
  String, Bool, true, false, Option, none, some, List, [], ◌∷◌, ◌++◌, ◌≡◌, refl, sym, ap, ◌∙◌,
  arith, subst, Bool-cases, Option-cases, inl, inr, ℕ, ◌+◌, suc, length, if◌then◌else◌,
}
use netherbrain.Enums.{SessionStatus}
use netherbrain.Events.{BaseEvent, is_terminal, run_error, run_finished}
use netherbrain.Sdk.{SdkEvent}
use netherbrain.Managers.Sessions.{SessionState, RawSummary}
use netherbrain.Streaming.Agui.State.{Adapter, Emits, emission}
use netherbrain.Streaming.Agui.{init, on_event, on_events, on_error}
use netherbrain.Streaming.Agui.Brackets.{closed, scan}
use netherbrain.Streaming.Agui.Delivery.{Delivers, Delivers-event, Delivers-error}
use netherbrain.Streaming.Agui.Sessions.{IsIteration, after, error_closes, completion_closes}
use netherbrain.Execution.Streamer.{Streamer}
use netherbrain.Execution.Coordinator.Setting.{
  World, Surroundings, Job, Stream, Exit, deliver, deliver_if, close_if, accepted,
}
use netherbrain.Execution.Coordinator.{
  fail, with_streamer, post_mailbox_if_subagent, try_commit, handle_interrupt, interrupted, failed,
  completed, status_of, commit_of, finish, announced, stream_events, streamed, execute_session,
  announce_interrupt, state_of, final_of, summary_of, compress_adapter_buffer,
}

-- The adapter, what the transport took, and whether it was closed.
abbrev pub Wire : Type 0
Wire = Adapter × List BaseEvent × Bool

abbrev pub wire : World → Wire
wire w = (w.adapter, w.sent, w.is_closed)

plus_zero : (n : ℕ) → n + 0 ≡ n
plus_zero n = omega arith

accepted-append :
    (takes : ℕ → BaseEvent → Bool) (n : ℕ) (xs ys : List BaseEvent)
    → accepted takes n (xs ++ ys) ≡ accepted takes n xs ++ accepted takes (length xs + n) ys
unfolding accepted
accepted-append takes n [] ys = ap (λ k. accepted takes k ys) (omega arith)
accepted-append takes n (x ∷ xs) ys =
    ground (arith, accepted-append takes (suc n) xs ys, later n (length xs))
  where
    later : (n k : ℕ) → k + suc n ≡ suc k + n
    later n k = omega arith

-- A session that has ended on its transport: nothing is left open; the last event of the history says
-- that the run is over; the transport was sent, in order, what it takes of the history, and nothing
-- behind that last event, which it was sent if it takes it; and the transport is closed.
pub record HasEnded (takes : ℕ → BaseEvent → Bool) (x : Wire) : Type 0 where
  pub nothing_open : (k : String) → scan k x.0.buffer ≡ some closed
  pub last :
      (body : List BaseEvent) × (e : BaseEvent) × (x.0.buffer ≡ body ++ (e ∷ []))
      × (is_terminal e ≡ true)
      × (x.1 ≡ accepted takes 0 body ++ (if takes (length body) e then e ∷ [] else []))
  pub relayed : x.1 ≡ accepted takes 0 x.0.buffer
  pub shut : x.2 ≡ true

deliver-relayed :
    (takes : ℕ → BaseEvent → Bool) (emits : Emits) (w : World)
    → Delivers emits
    → w.sent ≡ accepted takes 0 w.adapter.buffer
    → (deliver takes emits w).sent ≡ accepted takes 0 (deliver takes emits w).adapter.buffer
unfolding deliver
deliver-relayed takes emits w d h =
    let here = w.adapter.buffer in
    ap (λ s. s ++ accepted takes (length here) (emits w.adapter).0) h
    ∙ ap (λ n. accepted takes 0 here ++ accepted takes n (emits w.adapter).0)
        (sym (plus_zero (length here)))
    ∙ sym (accepted-append takes 0 here (emits w.adapter).0)
    ∙ ap (accepted takes 0) (sym (d.at w.adapter))

-- The end of what is sent, of a history with a last event.
sent_last :
    (takes : ℕ → BaseEvent → Bool) (body : List BaseEvent) (e : BaseEvent)
    (sent buffer : List BaseEvent)
    → sent ≡ accepted takes 0 buffer
    → buffer ≡ body ++ (e ∷ [])
    → sent ≡ accepted takes 0 body ++ (if takes (length body) e then e ∷ [] else [])
unfolding accepted
sent_last takes body e sent buffer h b =
    h
    ∙ ap (accepted takes 0) b
    ∙ accepted-append takes 0 body (e ∷ [])
    ∙ ap (λ n. accepted takes 0 body ++ (if takes n e then e ∷ [] else []))
        (plus_zero (length body))

delivered :
    (b : Bool) (takes : ℕ → BaseEvent → Bool) (emits : Emits) (w : World)
    → b ≡ true
    → deliver_if b takes emits w ≡ deliver takes emits w
delivered true takes emits w h = refl
delivered false takes emits w h = cc

-- The end of a session that has a transport.
turned :
    (b : Bool) (takes : ℕ → BaseEvent → Bool) (emits : Emits) (w : World)
    → b ≡ true
    → wire (close_if b (deliver_if b takes emits w)) ≡ wire (close_if true (deliver takes emits w))
turned true takes emits w h = refl
turned false takes emits w h = absurd (ground arith)

module _ (env : Surroundings) (job : Job) (iterates : IsIteration env.order)
    (on : job.has_event_transport ≡ true) where
  post-wire :
      (status : SessionStatus) (w : World)
      → wire (post_mailbox_if_subagent env job status w) ≡ wire w
  unfolding post_mailbox_if_subagent
  post-wire status w = elim (Option-cases job.subagent_name) [
    | inl h ↦ rw (post_mailbox_if_subagent, h) refl
    | inr (name, h) ↦ elim (Bool-cases env.is_post_refused) [
      | inl e ↦ rw (post_mailbox_if_subagent, h, e) refl
      | inr e ↦ rw (post_mailbox_if_subagent, h, e) refl
    ]
  ]

  -- A session under way: the adapter after its events, and what was relayed of them.
  record IsUnderway (es : List SdkEvent) (x : Wire) : Type 0 where
    adapter : x.0 ≡ after env.order iterates env.new_id es
    relayed : x.1 ≡ accepted env.takes 0 x.0.buffer

  error-HasEnded :
      (es : List SdkEvent) (code message : String) (w : World)
      → IsUnderway es (wire w)
      → HasEnded env.takes
          (wire (close_if true (deliver env.takes (on_error env.order code message) w)))
  unfolding deliver is_terminal
  error-HasEnded es code message w u =
      let c = λ (k : String). error_closes env.order iterates env.new_id es code message k in
      let relayed =
        deliver-relayed env.takes (on_error env.order code message) w
          (Delivers-error env.order code message) u.relayed in
      let history : (on_error env.order code message w.adapter).1.buffer
          ≡ (c "").1.0 ++ (run_error message code ∷ []) =
        rw u.adapter (c "").1.1 in
      record {
        nothing_open = λ k. rw u.adapter (c k).0;
        last = (
          (c "").1.0,
          run_error message code,
          history,
          refl,
          sent_last env.takes (c "").1.0 (run_error message code) _ _ relayed history,
        );
        relayed = relayed;
        shut = refl;
      }

  completion-HasEnded :
      (es : List SdkEvent) (w : World)
      → IsUnderway es (wire w)
      → HasEnded env.takes (
          wire (
            close_if true
              (deliver env.takes (on_event env.new_id env.order SdkEvent.pipeline_completed) w)))
  unfolding deliver is_terminal
  completion-HasEnded es w u =
      let c = λ (k : String). completion_closes env.order iterates env.new_id es k in
      let a = after env.order iterates env.new_id es in
      let finished = run_finished a.conversation_id a.session_id in
      let relayed =
        deliver-relayed env.takes (on_event env.new_id env.order SdkEvent.pipeline_completed) w
          (Delivers-event env.order env.new_id SdkEvent.pipeline_completed) u.relayed in
      let history : (on_event env.new_id env.order SdkEvent.pipeline_completed w.adapter).1.buffer
          ≡ (c "").1.0 ++ (finished ∷ []) =
        rw u.adapter (c "").1.1 in
      record {
        nothing_open = λ k. rw u.adapter (c k).0;
        last = (
          (c "").1.0,
          finished,
          history,
          refl,
          sent_last env.takes (c "").1.0 finished _ _ relayed history,
        );
        relayed = relayed;
        shut = refl;
      }

  failed-HasEnded :
      (es : List SdkEvent) (w : World)
      → IsUnderway es (wire w)
      → HasEnded env.takes (wire (failed env job w).0)
  unfolding failed
  failed-HasEnded es w u =
      subst (HasEnded env.takes) (sym (turned job.has_event_transport env.takes _ _ on)) (
        error-HasEnded es _ _ _
          (subst (IsUnderway es) (sym (post-wire SessionStatus.failed (fail env job w))) u))

  completed-HasEnded :
      (es : List SdkEvent) (status : SessionStatus) (s : Streamer) (w : World)
      → IsUnderway es (wire w)
      → HasEnded env.takes (wire (completed env job status s w).0)
  unfolding completed
  completed-HasEnded es status s w u =
      subst (HasEnded env.takes) (sym (turned job.has_event_transport env.takes _ _ on))
        (completion-HasEnded es _ (subst (IsUnderway es) (sym (post-wire status w)) u))

  finish-HasEnded :
      (es : List SdkEvent) (s : Streamer) (w : World)
      → IsUnderway es (wire w)
      → HasEnded env.takes (wire (finish env job s w).0)
  unfolding finish
  finish-HasEnded es s w u =
      let y = try_commit env job (commit_of env job s w.adapter.buffer) w.system in
      elim (Bool-cases y.1) [
        | inl h ↦
            rw (finish, h)
              (completed-HasEnded es (status_of env job s) s (record w { system = y.0 }) u)
        | inr h ↦ rw (finish, h) (failed-HasEnded es (record w { system = y.0 }) u)
      ]

  handle-wire :
      (state : Option SessionState) (final : Option String) (summary : RawSummary) (w : World)
      → wire (handle_interrupt env job state final summary w).0 ≡ wire w
  unfolding handle_interrupt
  handle-wire none final summary w = refl
  handle-wire (some s) final summary w =
      let y =
        try_commit env job
          (record {
            state = s;
            final_message = final;
            deferred_tools = none;
            run_summary = some summary;
            display_messages = compress_adapter_buffer env job w.adapter.buffer;
            status = SessionStatus.committed;
          })
          w.system in
      elim (Bool-cases y.1) [
        | inl h ↦ rw (handle_interrupt, h) refl
        | inr h ↦ rw (handle_interrupt, h) refl
      ]

  interrupted-HasEnded :
      (es : List SdkEvent) (exported : Option Streamer) (w : World)
      → IsUnderway es (wire w)
      → HasEnded env.takes (wire (interrupted env job exported w).0)
  unfolding interrupted announce_interrupt
  interrupted-HasEnded es exported w u =
      let b = job.has_event_transport in
      let x =
        close_if b
          (deliver_if b env.takes (on_error env.order "interrupted" "Session interrupted") w) in
      let p =
        handle_interrupt env job (state_of env job exported) (final_of env job exported)
          (summary_of env job exported) x in
      subst (HasEnded env.takes)
        (sym (
          post-wire p.1.status p.0
          ∙ handle-wire (state_of env job exported) (final_of env job exported)
              (summary_of env job exported) x
          ∙ turned b env.takes (on_error env.order "interrupted" "Session interrupted") w on))
        (error-HasEnded es "interrupted" "Session interrupted" w u)

  -- The events streamed from an adapter, and their relay.
  abbrev IsStreamed : List SdkEvent → Adapter → World → Type 0
  IsStreamed es a v =
      (v.adapter ≡ (on_events env.new_id env.order es a).1)
      × (v.sent ≡ accepted env.takes 0 v.adapter.buffer)

  stream-IsStreamed :
      (es : List SdkEvent) (w : World)
      → w.sent ≡ accepted env.takes 0 w.adapter.buffer
      → IsStreamed es w.adapter (stream_events env job es w)
  unfolding stream_events on_events emission deliver
  stream-IsStreamed [] w h = (refl, h)
  stream-IsStreamed (e ∷ es) w h =
      let one = on_event env.new_id env.order e in
      subst (IsStreamed (e ∷ es) w.adapter)
        (sym (ap (stream_events env job es) (delivered job.has_event_transport env.takes one w on)))
        (stream-IsStreamed es (deliver env.takes one w)
          (deliver-relayed env.takes one w (Delivers-event env.order env.new_id e) h))

  streamed-IsUnderway :
      (es : List SdkEvent) (w : World)
      → w.adapter ≡ init env.new_id env.order
      → w.sent ≡ []
      → IsUnderway
          (SdkEvent.pipeline_started job.session_id job.conversation_id ∷ es)
          (wire (streamed env job es w))
  unfolding streamed announced deliver on_events emission accepted init
  streamed-IsUnderway es w a h =
      let start =
        on_event env.new_id env.order
          (SdkEvent.pipeline_started job.session_id job.conversation_id) in
      let v = with_streamer env job (announced env job w) in
      let d = delivered job.has_event_transport env.takes start w on in
      let at_start : w.sent ≡ accepted env.takes 0 w.adapter.buffer =
        h ∙ sym (ap (λ x. accepted env.takes 0 x.buffer) a) in
      let relayed : v.sent ≡ accepted env.takes 0 v.adapter.buffer =
        subst (λ x. x.sent ≡ accepted env.takes 0 x.adapter.buffer) (sym d)
          (deliver-relayed env.takes start w
            (Delivers-event env.order env.new_id
              (SdkEvent.pipeline_started job.session_id job.conversation_id))
            at_start) in
      let s = stream-IsStreamed es v relayed in
      record {
        adapter =
            s.0
            ∙ ap (λ x. (on_events env.new_id env.order es x).1)
                (ap (λ x. x.adapter) d ∙ ap (λ x. (start x).1) a);
        relayed = s.1;
      }

  exit-HasEnded :
      (es : List SdkEvent) (es' : List SdkEvent) (exported : Option Streamer) (exit : Exit)
      (w : World)
      → IsUnderway es' (wire (streamed env job es w))
      → HasEnded env.takes (
          wire
            (execute_session env job
              (record { events = es; exported = exported; exit = exit })
              w).0)
  unfolding execute_session
  exit-HasEnded es es' exported Exit.raises w u = failed-HasEnded es' (streamed env job es w) u
  exit-HasEnded es es' exported Exit.interrupts w u =
      interrupted-HasEnded es' exported (streamed env job es w) u
  exit-HasEnded es es' none Exit.leaves w u = failed-HasEnded es' (streamed env job es w) u
  exit-HasEnded es es' (some s) Exit.leaves w u = finish-HasEnded es' s (streamed env job es w) u

  -- A session with a transport that has been set up, with a new adapter and nothing sent: however it
  -- ends, every stream of text, reasoning and tool arguments is ended in its history, of which the
  -- last event says that the run is over; the transport was sent the history in order, less the events
  -- that it refuses, and nothing behind that last event, and it is closed.
  pub execute_session-HasEnded :
      (stream : Stream) (w : World)
      → w.adapter ≡ init env.new_id env.order
      → w.sent ≡ []
      → HasEnded env.takes (wire (execute_session env job stream w).0)
  execute_session-HasEnded stream w a h =
      exit-HasEnded stream.events
        (SdkEvent.pipeline_started job.session_id job.conversation_id ∷ stream.events)
        stream.exported stream.exit w (streamed-IsUnderway stream.events w a h)

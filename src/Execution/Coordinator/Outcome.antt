-- ===== src/Execution/Coordinator/Outcome.antt =====
-- How a session ends: its row, its state in the store and its entry in the registry agree with the
-- result of `execute_session`, whatever the SDK streams and whatever raises.
use netherbrain.Prelude.{
  String, true, false, Option, none, some, List, ◌≡◌, ◌≢◌, ◌⊎◌, refl, sym, ap, ◌∙◌, arith, subst,
  Option-cases, inl, inr,
}
use netherbrain.Prelude.Dict
use netherbrain.Prelude.Dict.{Dict, get-set, get-set_self, get-pop_self}
use netherbrain.Enums.{SessionStatus, is_settled}
use netherbrain.Sdk.{SdkEvent}
use netherbrain.Managers.Sessions.{
  System, SessionRow, RawSummary, Commit, commit_session, after_commit, fail_session, write,
}
use netherbrain.Streaming.Agui.{on_error}
use netherbrain.Execution.Streamer.{Streamer, export_session_state}
use netherbrain.Execution.Coordinator.Setting.{
  World, Surroundings, Job, Stream, Exit, Fault, ExecutionResult, deliver_if, close_if,
}
use netherbrain.Execution.Coordinator.{
  try_commit, fail, handle_interrupt, interrupted, failed, completed, status_of, commit_of, finish,
  streamed, execute_session, compress_adapter_buffer, state_of, announce_interrupt,
}
use netherbrain.Execution.Coordinator.Frames.{
  deliver_if-system, close_if-system, post-system, streamed-IsFramed,
}
use netherbrain.Execution.Coordinator.Finished.{
  IsFinished, fail-IsFinished, after_commit-IsFinished,
}

module _ (env : Surroundings) (job : Job) where
  try_commit-cases :
      (c : Commit) (s : System)
      → is_settled c.status ≡ true
      → (try_commit env job c s ≡ (after_commit job.session_id c s, true))
        ⊎ ((s' : System) × (try_commit env job c s ≡ (s', false)) × (s'.sessions ≡ s.sessions))
  unfolding try_commit commit_session
  try_commit-cases c s h = elim (Option-cases env.commit_fault) [
    | inl e ↦ inl (rw (try_commit, e, commit_session, h) refl)
    | inr (Fault.before_store, e) ↦ inr (s, rw (try_commit, e) refl, refl)
    | inr (Fault.before_database, e) ↦
        inr (record s { store = write job.session_id c s.store }, rw (try_commit, e) refl, refl)
  ]

  -- The result agrees with the tables, and the store has the state of a session that is settled.
  pub record IsOutcome (exported : Option Streamer) (before : System) (p : World × ExecutionResult)
      : Type 0 where
    pub finished : IsFinished job.session_id before p.0.system p.1.status
    pub ended : (is_settled p.1.status ≡ true) ⊎ (p.1.status ≡ SessionStatus.failed)
    pub stored :
        is_settled p.1.status ≡ true
        → (s : Streamer) × (exported ≡ some s)
          × (Dict.get job.session_id p.0.system.store.states ≡ some (export_session_state s))

  failed-system : (w : World) → (failed env job w).0.system ≡ fail_session job.session_id w.system
  unfolding failed
  failed-system w =
      close_if-system job.has_event_transport _
      ∙ deliver_if-system job.has_event_transport env.takes _ _
      ∙ post-system env job SessionStatus.failed (fail env job w)

  failed-IsOutcome :
      (exported : Option Streamer) (before : System) (w : World)
      → w.system.sessions ≡ before.sessions
      → IsOutcome exported before (failed env job w)
  unfolding failed
  failed-IsOutcome exported before w e = record {
    finished =
        subst (λ s. IsFinished job.session_id before s SessionStatus.failed) (sym (failed-system w))
          (fail-IsFinished job.session_id before w.system e);
    ended = inr refl;
    stored = λ h. absurd (ground arith);
  }

  completed-IsOutcome :
      (exported : Option Streamer) (before : System) (status : SessionStatus) (s : Streamer)
      (w : World)
      → exported ≡ some s
      → is_settled status ≡ true
      → IsFinished job.session_id before w.system status
      → Dict.get job.session_id w.system.store.states ≡ some (export_session_state s)
      → IsOutcome exported before (completed env job status s w)
  unfolding completed
  completed-IsOutcome exported before status s w x t f g =
      let same : (completed env job status s w).0.system ≡ w.system =
        close_if-system job.has_event_transport _
        ∙ deliver_if-system job.has_event_transport env.takes _ _
        ∙ post-system env job status w in
      record {
        finished = subst (λ y. IsFinished job.session_id before y status) (sym same) f;
        ended = inl t;
        stored = λ h. (s, x, ap (λ y. Dict.get job.session_id y.store.states) same ∙ g);
      }

  stored_state :
      (c : Commit) (s : System)
      → Dict.get job.session_id (after_commit job.session_id c s).store.states ≡ some c.state
  unfolding after_commit write
  stored_state c s = get-set_self job.session_id c.state s.store.states

  status-settled : (s : Streamer) → is_settled (status_of env job s) ≡ true
  status-settled s = ground arith

  finish-IsOutcome :
      (before : System) (s : Streamer) (w : World)
      → w.system.sessions ≡ before.sessions
      → IsOutcome (some s) before (finish env job s w)
  unfolding finish
  finish-IsOutcome before s w e =
      let c = commit_of env job s w.adapter.buffer in
      elim (try_commit-cases c w.system (status-settled s)) [
        | inl h ↦
            rw (finish, h)
              (completed-IsOutcome (some s) before (status_of env job s) s
                (record w { system = after_commit job.session_id c w.system }) refl
                (status-settled s) (after_commit-IsFinished job.session_id c before w.system e)
                (stored_state c w.system))
        | inr (s', h, k) ↦
            rw (finish, h) (failed-IsOutcome (some s) before (record w { system = s' }) (k ∙ e))
      ]

  -- The two answers of the handler of an interrupt.
  handle-IsOutcome :
      (exported : Option Streamer) (before : System) (final : Option String) (summary : RawSummary)
      (w : World)
      → w.system.sessions ≡ before.sessions
      → IsOutcome exported before
          (handle_interrupt env job (state_of env job exported) final summary w)
  unfolding handle_interrupt
  handle-IsOutcome none before final summary w e = record {
    finished = fail-IsFinished job.session_id before w.system e;
    ended = inr refl;
    stored = λ h. absurd (ground arith);
  }
  handle-IsOutcome (some s) before final summary w e =
      let c : Commit = record {
        state = export_session_state s;
        final_message = final;
        deferred_tools = none;
        run_summary = some summary;
        display_messages = compress_adapter_buffer env job w.adapter.buffer;
        status = SessionStatus.committed;
      } in
      elim (try_commit-cases c w.system refl) [
        | inl h ↦
            rw (handle_interrupt, h)
              (record {
                finished = after_commit-IsFinished job.session_id c before w.system e;
                ended = inl refl;
                stored = λ t. (s, refl, stored_state c w.system);
              })
        | inr (s', h, k) ↦
            rw (handle_interrupt, h)
              (record {
                finished = fail-IsFinished job.session_id before s' (k ∙ e);
                ended = inr refl;
                stored = λ t. absurd (ground arith);
              })
      ]

  announce-IsOutcome :
      (exported : Option Streamer) (before : System) (final : Option String)
      (p : World × ExecutionResult)
      → IsOutcome exported before p
      → IsOutcome exported before (announce_interrupt env job final p)
  unfolding announce_interrupt
  announce-IsOutcome exported before final (w, result) o =
      let same = post-system env job result.status w in
      record {
        finished =
            subst (λ y. IsFinished job.session_id before y result.status) (sym same) o.finished;
        ended = o.ended;
        stored =
            subst
              (λ y.
                is_settled result.status ≡ true
                → (s : Streamer) × (exported ≡ some s)
                  × (Dict.get job.session_id y.store.states ≡ some (export_session_state s)))
              (sym same) o.stored;
      }

  interrupted-IsOutcome :
      (exported : Option Streamer) (before : System) (w : World)
      → w.system.sessions ≡ before.sessions
      → IsOutcome exported before (interrupted env job exported w)
  unfolding interrupted
  interrupted-IsOutcome exported before w e =
      let d =
        deliver_if job.has_event_transport env.takes
          (on_error env.order "interrupted" "Session interrupted") w in
      announce-IsOutcome exported before _ _ (
        handle-IsOutcome exported before _ _ (close_if job.has_event_transport d) (
          ap (λ y. y.sessions)
            (close_if-system job.has_event_transport d
              ∙ deliver_if-system job.has_event_transport env.takes _ w)
          ∙ e))

  exit-IsOutcome :
      (es : List SdkEvent) (exported : Option Streamer) (exit : Exit) (w : World)
      → IsOutcome exported w.system
          (execute_session env job (record { events = es; exported = exported; exit = exit }) w)
  unfolding execute_session
  exit-IsOutcome es exported Exit.raises w =
      failed-IsOutcome exported w.system (streamed env job es w)
        (streamed-IsFramed env job es w).sessions
  exit-IsOutcome es exported Exit.interrupts w =
      interrupted-IsOutcome exported w.system (streamed env job es w)
        (streamed-IsFramed env job es w).sessions
  exit-IsOutcome es none Exit.leaves w =
      failed-IsOutcome none w.system (streamed env job es w)
        (streamed-IsFramed env job es w).sessions
  exit-IsOutcome es (some s) Exit.leaves w =
      finish-IsOutcome w.system s (streamed env job es w) (streamed-IsFramed env job es w).sessions

  session-IsOutcome :
      (stream : Stream) (w : World)
      → IsOutcome stream.exported w.system (execute_session env job stream w)
  session-IsOutcome stream w = exit-IsOutcome stream.events stream.exported stream.exit w

  -- A session that has a row, whatever the SDK streams, however its context is left, and whether or
  -- not the commit, the mailbox, Redis or the transport refuse: its row ends with the status of the
  -- result, no other row changes, the registry no longer holds it, and either it can be continued
  -- and the store has the state that was exported, or it has failed.
  pub execute_session-outcome :
      (stream : Stream) (w : World) (row : SessionRow) (other : String)
      → Dict.get job.session_id w.system.sessions ≡ some row
      → other ≢ job.session_id
      → let p = execute_session env job stream w in
        let s = p.0.system in
        ((row' : SessionRow) × (Dict.get job.session_id s.sessions ≡ some row')
          × (row'.status ≡ p.1.status))
        × (Dict.get other s.sessions ≡ Dict.get other w.system.sessions)
        × (Dict.get job.session_id s.registry.sessions ≡ none)
        × (((is_settled p.1.status ≡ true)
              × ((streamer : Streamer) × (stream.exported ≡ some streamer)
                  × (Dict.get job.session_id s.store.states
                      ≡ some (export_session_state streamer))))
            ⊎ (p.1.status ≡ SessionStatus.failed))
  execute_session-outcome stream w row other g n =
      let o = session-IsOutcome stream w in
      (
        o.finished.row row g,
        o.finished.others other n,
        o.finished.gone,
        elim o.ended [ inl t ↦ inl (t, o.stored t) | inr f ↦ inr f ],
      )

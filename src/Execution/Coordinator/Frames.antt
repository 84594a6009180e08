-- ===== src/Execution/Coordinator/Frames.antt =====
-- What the parts of `execute_session` leave alone: delivery and publication write no table, and the
-- stream changes the registry only at the session's own entry.
use netherbrain.Prelude.{
  ℕ, String, Bool, true, false, some, List, [], ◌∷◌, ◌≡◌, ◌≢◌, refl, sym, ◌∙◌, arith, Bool-cases,
  Option-cases, inl, inr, eq_iff, subst,
}
use netherbrain.Prelude.Dict
use netherbrain.Prelude.Dict.{Dict, get-set}
use netherbrain.Enums.{SessionStatus}
use netherbrain.Events.{BaseEvent}
use netherbrain.Sdk.{SdkEvent}
use netherbrain.Registry.{RuntimeSession}
use netherbrain.Managers.Sessions.{System}
use netherbrain.Streaming.Agui.State.{Emits}
use netherbrain.Streaming.Agui.{on_event}
use netherbrain.Execution.Coordinator.Setting.{
  World, Surroundings, Job, deliver, deliver_if, close_if, set_streamer,
}
use netherbrain.Execution.Coordinator.{
  post_mailbox_if_subagent, stream_events, streamed, with_streamer, announced,
}

pub deliver_if-system :
    (b : Bool) (takes : ℕ → BaseEvent → Bool) (emits : Emits) (w : World)
    → (deliver_if b takes emits w).system ≡ w.system
unfolding deliver
deliver_if-system true takes emits w = refl
deliver_if-system false takes emits w = refl

pub deliver_if-mailbox :
    (b : Bool) (takes : ℕ → BaseEvent → Bool) (emits : Emits) (w : World)
    → (deliver_if b takes emits w).mailbox ≡ w.mailbox
unfolding deliver
deliver_if-mailbox true takes emits w = refl
deliver_if-mailbox false takes emits w = refl

pub close_if-system : (b : Bool) (w : World) → (close_if b w).system ≡ w.system
close_if-system true w = refl
close_if-system false w = refl

pub close_if-mailbox : (b : Bool) (w : World) → (close_if b w).mailbox ≡ w.mailbox
close_if-mailbox true w = refl
close_if-mailbox false w = refl

module _ (env : Surroundings) (job : Job) where
  pub post-system :
      (status : SessionStatus) (w : World)
      → (post_mailbox_if_subagent env job status w).system ≡ w.system
  unfolding post_mailbox_if_subagent
  post-system status w = elim (Option-cases job.subagent_name) [
    | inl h ↦ rw (post_mailbox_if_subagent, h) refl
    | inr (name, h) ↦ elim (Bool-cases env.is_post_refused) [
      | inl e ↦ rw (post_mailbox_if_subagent, h, e) refl
      | inr e ↦ rw (post_mailbox_if_subagent, h, e) refl
    ]
  ]

  pub stream_events-system :
      (es : List SdkEvent) (w : World) → (stream_events env job es w).system ≡ w.system
  unfolding stream_events
  stream_events-system [] w = refl
  stream_events-system (e ∷ es) w =
      stream_events-system es
        (deliver_if job.has_event_transport env.takes (on_event env.new_id env.order e) w)
      ∙ deliver_if-system job.has_event_transport env.takes (on_event env.new_id env.order e) w

  pub stream_events-mailbox :
      (es : List SdkEvent) (w : World) → (stream_events env job es w).mailbox ≡ w.mailbox
  unfolding stream_events
  stream_events-mailbox [] w = refl
  stream_events-mailbox (e ∷ es) w =
      stream_events-mailbox es
        (deliver_if job.has_event_transport env.takes (on_event env.new_id env.order e) w)
      ∙ deliver_if-mailbox job.has_event_transport env.takes (on_event env.new_id env.order e) w

  -- The tables and the store are as they were, and so is every other entry of the registry.
  pub record IsFramed (s s' : System) : Type 0 where
    pub sessions : s'.sessions ≡ s.sessions
    pub store : s'.store ≡ s.store
    pub live :
        (j : String)
        → j ≢ job.session_id
        → Dict.get j s'.registry.sessions ≡ Dict.get j s.registry.sessions

  set_streamer-other :
      (id j : String) (n : ℕ) (m : Dict RuntimeSession)
      → j ≢ id
      → Dict.get j (set_streamer id n m) ≡ Dict.get j m
  unfolding set_streamer
  set_streamer-other id j n m d = elim (Option-cases (Dict.get id m)) [
    | inl h ↦ rw (set_streamer, h) refl
    | inr (live, h) ↦
        rw (set_streamer, h)
          (ground (arith, get-set id j (record live { streamer = some n }) m, eq_iff id j))
  ]

  with_streamer-IsFramed : (w : World) → IsFramed w.system (with_streamer env job w).system
  with_streamer-IsFramed w = record {
    sessions = refl;
    store = refl;
    live = λ j n. set_streamer-other job.session_id j env.live_handle w.system.registry.sessions n;
  }

  announced-system : (w : World) → (announced env job w).system ≡ w.system
  unfolding announced
  announced-system w =
      deliver_if-system job.has_event_transport env.takes
        (on_event env.new_id env.order
          (SdkEvent.pipeline_started job.session_id job.conversation_id))
        w

  pub streamed-IsFramed :
      (es : List SdkEvent) (w : World) → IsFramed w.system (streamed env job es w).system
  unfolding streamed
  streamed-IsFramed es w =
      let a = announced env job w in
      subst (IsFramed w.system) (sym (stream_events-system es (with_streamer env job a))) (
        subst (λ s. IsFramed s (with_streamer env job a).system) (announced-system w)
          (with_streamer-IsFramed a))

  pub streamed-mailbox :
      (es : List SdkEvent) (w : World) → (streamed env job es w).mailbox ≡ w.mailbox
  unfolding streamed announced
  streamed-mailbox es w =
      stream_events-mailbox es (with_streamer env job (announced env job w))
      ∙ deliver_if-mailbox job.has_event_transport env.takes
          (on_event env.new_id env.order
            (SdkEvent.pipeline_started job.session_id job.conversation_id))
          w

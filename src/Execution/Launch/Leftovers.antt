-- ===== src/Execution/Launch/Leftovers.antt =====
-- What a launch leaves behind, whether it succeeds or raises.
use netherbrain.Prelude.{
  String, Bool, Option, none, some, ◌≡◌, refl, sym, subst, not, ◌&&◌, Bool-cases, Option-cases, inl,
  inr,
}
use netherbrain.Prelude.Dict
use netherbrain.Prelude.Dict.{Dict, get-set_self}
use netherbrain.Prelude.Results
use netherbrain.Prelude.Results.{Result, ok, err}
use netherbrain.Prelude.Actions.{next}
use netherbrain.Enums.{is_agent_type}
use netherbrain.Registry
use netherbrain.Registry.{Registry, RuntimeSession, register, insert, active_agent_session}
use netherbrain.Managers.Sessions
use netherbrain.Managers.Sessions.{
  System, SessionRow, Creation, create_session, add_row, add_both, new_row, is_parent_known,
  is_member, conversation_of,
}
use netherbrain.Execution.Launch.{
  Launch, LaunchError, LaunchResult, redis_required, no_session, not_registered, launch_session,
  creation_of, registered, created, start, with_row, runtime_session, result_of, is_stream,
}

-- The new row stands in a conversation.
abbrev pub HasNewRow : Launch → String → System → Type 0
HasNewRow l conversation_id s =
    Dict.get l.session_id s.sessions ≡ some (new_row (creation_of l) conversation_id)

-- What is there after a launch, by its result.
abbrev pub Leaves : Launch → System → System → Result LaunchError LaunchResult → Type 0
Leaves l s s' (ok x) =
    HasNewRow l x.conversation_id s'
    × (Dict.get l.session_id s'.registry.sessions ≡ some (runtime_session l x.conversation_id))
Leaves l s s' (err redis_required) = s' ≡ s
Leaves l s s' (err (no_session e)) = s' ≡ s
Leaves l s s' (err (not_registered e)) =
    (s'.registry ≡ s.registry) × ((conversation_id : String) × HasNewRow l conversation_id s')

-- What `create_session` leaves.
abbrev Creates : Creation → System → Sessions.Result → Type 0
Creates c s (Sessions.ok s') =
    (s'.registry ≡ s.registry)
    × ((conversation_id : String) × (Dict.get c.session_id s'.sessions
          ≡ some (new_row c conversation_id)))
Creates c s (Sessions.err e) = Unit

add_row-Creates :
    (c : Creation) (conversation_id : String) (s : System)
    → Creates c s (add_row c conversation_id s)
unfolding add_row
add_row-Creates c conversation_id s = elim (Bool-cases (is_parent_known c.parent_session_id s)) [
  | inl h ↦
      rw (add_row, h)
        (refl, (conversation_id, get-set_self c.session_id (new_row c conversation_id) s.sessions))
  | inr h ↦ rw (add_row, h) tt
]

add_both-Creates :
    (c : Creation) (conversation_id : String) (user_id : Option String) (s : System)
    → Creates c s (add_both c conversation_id user_id s)
add_both-Creates c conversation_id none s = tt
add_both-Creates c conversation_id (some user_id) s =
    elim (Bool-cases (is_member user_id s.users)) [
      | inl h ↦ rw h (add_row-Creates c conversation_id _)
      | inr h ↦ rw h tt
    ]

create_session-Creates : (c : Creation) (s : System) → Creates c s (create_session c s)
unfolding create_session
create_session-Creates c s = elim (Option-cases (conversation_of c s)) [
  | inl h ↦ rw (create_session, h) tt
  | inr (conversation_id, h) ↦ elim (Option-cases (Dict.get conversation_id s.conversations)) [
    | inl g ↦ rw (create_session, h, g) (add_both-Creates c conversation_id c.user_id s)
    | inr (row, g) ↦ rw (create_session, h, g) (add_row-Creates c conversation_id s)
  ]
]

-- What `register` leaves.
abbrev Registers : RuntimeSession → Registry → Registry.Result → Type 0
Registers x r (Registry.ok r') = Dict.get x.session_id r'.sessions ≡ some x
Registers x r (Registry.err e) = Unit

register-Registers : (x : RuntimeSession) (r : Registry) → Registers x r (register x r)
unfolding register insert active_agent_session
register-Registers x r = elim (Bool-cases r.shutting_down) [
  | inl h ↦ rw (register, h) tt
  | inr h ↦ elim (Bool-cases (is_agent_type x.session_type)) [
    | inr g ↦ rw (register, h, g) (get-set_self x.session_id x r.sessions)
    | inl g ↦ elim (Option-cases (active_agent_session x.conversation_id r)) [
      | inl f ↦ rw (register, h, g, f) (get-set_self x.session_id x r.sessions)
      | inr (y, f) ↦ rw (register, h, g, f) tt
    ]
  ]
]

registered-Leaves :
    (l : Launch) (s s' : System) (conversation_id : String) (r : Registry.Result)
    → s'.registry ≡ s.registry
    → HasNewRow l conversation_id s'
    → Registers (runtime_session l conversation_id) s'.registry r
    → let p = next (λ _ t. (t, ok (result_of l conversation_id))) (registered s' r) in
      Leaves l s p.0 p.1
registered-Leaves l s s' conversation_id (Registry.ok r) e h g = (h, g)
registered-Leaves l s s' conversation_id (Registry.err x) e h g = (e, (conversation_id, h))

start-Leaves :
    (l : Launch) (s s' : System) (conversation_id : String)
    → s'.registry ≡ s.registry
    → HasNewRow l conversation_id s'
    → Leaves l s (start l s').0 (start l s').1
unfolding new_row
start-Leaves l s s' conversation_id e h =
    subst
      (λ o.
        let p = next (with_row l) (s', Results.or_raise o (no_session Sessions.not_found)) in
        Leaves l s p.0 p.1)
      (sym h)
      (registered-Leaves l s s' conversation_id _ e h
        (register-Registers (runtime_session l conversation_id) s'.registry))

created-Leaves :
    (l : Launch) (s : System) (r : Sessions.Result)
    → Creates (creation_of l) s r
    → let p = next (λ _. start l) (created s r) in Leaves l s p.0 p.1
created-Leaves l s (Sessions.ok s') (e, (conversation_id, h)) =
    start-Leaves l s s' conversation_id e h
created-Leaves l s (Sessions.err x) tt = refl

-- A launch that succeeds has made the session's row, still to be executed, and has registered the
-- session. One that raises for want of Redis or because the row cannot be made leaves everything as
-- it was; one whose registration is refused leaves the registry as it was, and the row behind.
pub launch_session-Leaves :
    (has_redis : Bool) (l : Launch) (s : System)
    → let p = launch_session has_redis l s in Leaves l s p.0 p.1
unfolding launch_session
launch_session-Leaves has_redis l s = elim (Bool-cases (is_stream l.transport && not has_redis)) [
  | inl h ↦ rw (launch_session, h) refl
  | inr h ↦ rw (launch_session, h) (created-Leaves l s _ (create_session-Creates (creation_of l) s))
]

-- ===== src/Registry/Occupancy.antt =====
-- The registry's invariant: the drain flag, the keys, and one agent to a conversation.
use netherbrain.Prelude.{
  String, Bool, true, false, none, some, List, [], ◌∷◌, ◌≡◌, refl, sym, arith, eq_iff, ◌&&◌, ◌||◌,
  not, is_some, if◌then◌else◌, Option-cases, inl, inr, find, ◌⊎◌,
}
use netherbrain.Prelude.Dict
use netherbrain.Prelude.Dict.{Dict, get-set, get-pop}
use netherbrain.Enums.{is_agent_type}
use netherbrain.Registry.{
  RuntimeSession, Registry, init, is_empty, is_agent_of, active_agent_session, insert, register,
  unregister, begin_shutdown, Call, registers, unregisters, shuts_down, step, run, after_register,
}

-- Two sessions that are registered as agents of one conversation have the same key.
abbrev pub OneAgent : Dict RuntimeSession → Type 0
OneAgent m =
    (j k : String) (s t : RuntimeSession)
    → Dict.get j m ≡ some s
    → Dict.get k m ≡ some t
    → is_agent_type s.session_type ≡ true
    → is_agent_type t.session_type ≡ true
    → s.conversation_id ≡ t.conversation_id
    → j ≡ k

pub record IsValid (r : Registry) : Type 0 where
  pub drain : r.drained ≡ is_empty r.sessions
  pub own_key :
      (k : String) (s : RuntimeSession) → Dict.get k r.sessions ≡ some s → s.session_id ≡ k
  pub one_agent : OneAgent r.sessions

pub find-none :
    (p : RuntimeSession → Bool) (m : Dict RuntimeSession) (k : String) (s : RuntimeSession)
    → find p (Dict.values m) ≡ none
    → Dict.get k m ≡ some s
    → p s ≡ false
unfolding find Dict.get
find-none p [] k s h g = absurd (cc)
find-none p ((j, t) ∷ m) k s h g = ground (arith, find-none p m k s)

is_empty-set :
    (k : String) (s : RuntimeSession) (m : Dict RuntimeSession) → is_empty (Dict.set k s m) ≡ false
unfolding Dict.set
is_empty-set k s [] = refl
is_empty-set k s ((j, t) ∷ m) = ground arith

-- No agent of the session's conversation is registered, unless the session is no agent.
abbrev Vacant : RuntimeSession → Registry → Type 0
Vacant s r =
    (is_agent_type s.session_type ≡ false) ⊎ (active_agent_session s.conversation_id r ≡ none)

insert-OneAgent :
    (s : RuntimeSession) (r : Registry) → IsValid r → Vacant s r → OneAgent (insert s r).sessions
unfolding insert active_agent_session
insert-OneAgent s r v free j k t u gj gk at au same = ground (
  arith,
  free,
  get-set s.session_id j s r.sessions,
  get-set s.session_id k s r.sessions,
  eq_iff s.session_id j,
  eq_iff s.session_id k,
  eq_iff u.conversation_id s.conversation_id,
  eq_iff t.conversation_id s.conversation_id,
  find-none (is_agent_of s.conversation_id) r.sessions j t,
  find-none (is_agent_of s.conversation_id) r.sessions k u,
  v.one_agent j k t u,
)

insert-IsValid : (s : RuntimeSession) (r : Registry) → IsValid r → Vacant s r → IsValid (insert s r)
unfolding insert
insert-IsValid s r v free = record {
  drain = sym (is_empty-set s.session_id s r.sessions);
  own_key = λ k t g.
      ground (arith, get-set s.session_id k s r.sessions, eq_iff s.session_id k, v.own_key k t);
  one_agent = insert-OneAgent s r v free;
}

-- `register` accepts a session unless the registry shuts down or its conversation has an agent and
-- the session is one.
unfoldable pub accepts : RuntimeSession → Registry → Bool
accepts s r =
    not r.shutting_down
    && (not (is_agent_type s.session_type)
        || not (is_some (active_agent_session s.conversation_id r)))

-- A registration changes the registry exactly where it is accepted: shutdown has not begun, and an
-- agent's conversation has no agent yet; otherwise the registry is left as it was.
pub after_register-accepts :
    (s : RuntimeSession) (r : Registry)
    → after_register r (register s r) ≡ (if accepts s r then insert s r else r)
unfolding register accepts
after_register-accepts s r = ground arith

accepts-Vacant : (s : RuntimeSession) (r : Registry) → accepts s r ≡ true → Vacant s r
unfolding accepts
accepts-Vacant s r h = elim (Option-cases (active_agent_session s.conversation_id r)) [
  | inl n ↦ inr n
  | inr (x, n) ↦ inl (ground arith)
]

choose {ℓ} :
    (P : Registry → Type ℓ) (b : Bool) (x y : Registry)
    → (b ≡ true → P x)
    → P y
    → P (if b then x else y)
choose P true x y hx hy = hx refl
choose P false x y hx hy = hy

register-IsValid :
    (s : RuntimeSession) (r : Registry) → IsValid r → IsValid (after_register r (register s r))
register-IsValid s r v = rw after_register-accepts (
    choose IsValid (accepts s r) (insert s r) r (λ h. insert-IsValid s r v (accepts-Vacant s r h))
      v)

is_empty-pop :
    (k : String) (m : Dict RuntimeSession) → is_empty m ≡ true → is_empty (Dict.pop k m) ≡ true
unfolding Dict.pop
is_empty-pop k [] h = refl
is_empty-pop k (e ∷ m) h = absurd (cc)

unregister-IsValid : (k : String) (r : Registry) → IsValid r → IsValid (unregister k r).0
unfolding unregister
unregister-IsValid k r v = record {
  drain = ground (arith, v.drain, is_empty-pop k r.sessions);
  own_key = λ j t g. ground (arith, get-pop k j r.sessions, v.own_key j t);
  one_agent = λ i j s t gi gj.
      ground (arith, get-pop k i r.sessions, get-pop k j r.sessions, v.one_agent i j s t);
}

pub begin_shutdown-IsValid : (r : Registry) → IsValid r → IsValid (begin_shutdown r)
unfolding begin_shutdown
begin_shutdown-IsValid r v = record {
  drain = ground arith;
  own_key = v.own_key;
  one_agent = v.one_agent;
}

pub step-IsValid : (r : Registry) (c : Call) → IsValid r → IsValid (step r c)
unfolding step
step-IsValid r (registers s) v = register-IsValid s r v
step-IsValid r (unregisters k) v = unregister-IsValid k r v
step-IsValid r shuts_down v = begin_shutdown-IsValid r v

pub run-IsValid : (r : Registry) (cs : List Call) → IsValid r → IsValid (run r cs)
unfolding run
run-IsValid r [] v = v
run-IsValid r (c ∷ cs) v = run-IsValid (step r c) cs (step-IsValid r c v)

init-IsValid : IsValid init
unfolding Dict.get
init-IsValid = record {
  drain = refl;
  own_key = λ k s g. cc;
  one_agent = λ j k s t gj gk a b same. cc;
}

-- After any calls on a new registry: the drain event is set exactly when no session is left, each
-- session is under its own id, and of two registered agents of one conversation both are the same
-- entry, so a conversation never has two.
pub run-init-IsValid : (cs : List Call) → IsValid (run init cs)
run-init-IsValid cs = run-IsValid init cs init-IsValid

-- ===== src/Registry.antt =====
-- netherbrain/agent_runtime/registry.py, with `RuntimeSession` of
-- netherbrain/agent_runtime/context.py. The asyncio event of the drain is its flag.
pub mod Occupancy
pub mod Shutdown
use netherbrain.Prelude.{
  ℕ, suc, String, Bool, true, false, Option, none, some, List, [], ◌∷◌, ◌==◌, ◌&&◌, if◌then◌else◌,
  length, keep, find,
}
use netherbrain.Prelude.Dict
use netherbrain.Prelude.Dict.{Dict}
use netherbrain.Enums.{SessionType, Transport, is_agent_type, same_transport}

-- `RuntimeSession`. `sdk_context` and `streamer` are handles of live SDK objects.
pub record RuntimeSession : Type 0 where
  pub session_id : String
  pub conversation_id : String
  pub parent_session_id : Option String
  pub preset_id : Option String
  pub project_ids : List String
  pub session_type : SessionType
  pub transport : Transport
  pub sdk_context : Option ℕ
  pub streamer : Option ℕ
  pub subagent_name : Option String
  pub async_subagent_registry : Dict String
  pub stream_key : Option String

-- The fields of `SessionRegistry.__init__`.
pub record Registry : Type 0 where
  pub sessions : Dict RuntimeSession
  pub drained : Bool
  pub shutting_down : Bool

abbrev pub init : Registry
init = record { sessions = []; drained = true; shutting_down = false }

-- The exceptions that `register` raises.
pub data Error : Type 0 where
  shutting_down : Error
  conversation_occupied : (existing_session_id conversation_id : String) → Error

pub data Result : Type 0 where
  ok : Registry → Result
  err : Error → Result

abbrev pub is_empty {ℓ} : {A : Type ℓ} → List A → Bool
is_empty [] = true
is_empty (x ∷ xs) = false

abbrev pub is_agent_of : String → RuntimeSession → Bool
is_agent_of conversation_id s = s.conversation_id == conversation_id && is_agent_type s.session_type

-- `active_agent_session`.
unfoldable pub active_agent_session : String → Registry → Option RuntimeSession
active_agent_session conversation_id r = find (is_agent_of conversation_id) (Dict.values r.sessions)

-- The insertion at the end of `register`.
unfoldable pub insert : RuntimeSession → Registry → Registry
insert s r = record r { sessions = Dict.set s.session_id s r.sessions; drained = false }

occupied : RuntimeSession → Option RuntimeSession → Registry → Result
occupied s none r = ok (insert s r)
occupied s (some existing) r = err (conversation_occupied existing.session_id s.conversation_id)

-- `register`.
unfoldable pub register : RuntimeSession → Registry → Result
unfolding occupied
register s r =
    if r.shutting_down
    then err Error.shutting_down
    else if is_agent_type s.session_type
    then occupied s (active_agent_session s.conversation_id r) r
    else ok (insert s r)

-- `unregister`: what is left, and the session that was there.
unfoldable pub unregister : String → Registry → Registry × Option RuntimeSession
unregister session_id r =
    let rest = Dict.pop session_id r.sessions in
    (
      record r { sessions = rest; drained = if is_empty rest then true else r.drained },
      Dict.get session_id r.sessions,
    )

-- `get`.
unfoldable pub get : String → Registry → Option RuntimeSession
get session_id r = Dict.get session_id r.sessions

-- `get_by_conversation`.
unfoldable pub get_by_conversation : String → Registry → List RuntimeSession
get_by_conversation conversation_id r =
    keep (λ s. s.conversation_id == conversation_id) (Dict.values r.sessions)

-- `all_sessions`.
unfoldable pub all_sessions : Registry → List RuntimeSession
all_sessions r = Dict.values r.sessions

-- `by_transport`.
unfoldable pub by_transport : Transport → Registry → List RuntimeSession
by_transport transport r = keep (λ s. same_transport s.transport transport) (Dict.values r.sessions)

-- `active_count`.
unfoldable pub active_count : Registry → ℕ
active_count r = length r.sessions

-- `begin_shutdown`.
unfoldable pub begin_shutdown : Registry → Registry
begin_shutdown r = record r {
  shutting_down = true;
  drained = if is_empty r.sessions then true else r.drained;
}

-- The streamers on which a loop over sessions calls `interrupt()`, in their order.
unfoldable pub interrupted : List RuntimeSession → List ℕ
interrupted [] = []
interrupted (s ∷ ss) = elim s.streamer [
  | none ↦ interrupted ss
  | some streamer ↦ streamer ∷ interrupted ss
]

-- `interrupt_all`: the streamers interrupted, and their number.
unfoldable pub interrupt_all : Registry → List ℕ × ℕ
interrupt_all r =
    (interrupted (Dict.values r.sessions), length (interrupted (Dict.values r.sessions)))

-- What other tasks do to the registry.
pub data Call : Type 0 where
  registers : RuntimeSession → Call
  unregisters : String → Call
  shuts_down : Call

-- A `register` that raises leaves the registry as it was.
abbrev pub after_register : Registry → Result → Registry
after_register r (ok r') = r'
after_register r (err e) = r

unfoldable pub step : Registry → Call → Registry
step r (registers s) = after_register r (register s r)
step r (unregisters session_id) = (unregister session_id r).0
step r shuts_down = begin_shutdown r

unfoldable pub run : Registry → List Call → Registry
run r [] = r
run r (c ∷ cs) = run (step r c) cs

-- `wait_until_drained`, while the calls that are listed happen before the timeout: it returns as
-- soon as the event is set, with the registry of that moment.
unfoldable pub wait_on_event : Registry → List Call → Registry × Bool
wait_on_event r [] = (r, r.drained)
wait_on_event r (c ∷ cs) =
    let rest = wait_on_event (step r c) cs in if r.drained then (r, true) else rest

unfoldable pub wait_until_drained : Registry → List Call → Registry × Bool
wait_until_drained r cs = if is_empty r.sessions then (r, true) else wait_on_event r cs

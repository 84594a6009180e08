-- ===== src/Managers/Execution/Control.antt =====
-- The control of live sessions by `ExecutionManager`: interrupts, steering and status.
use netherbrain.Prelude.{ℕ, String, Option, none, some, List, ◌==◌, length}
use netherbrain.Prelude.Dict
use netherbrain.Prelude.Results.{Result, ok, err, ◌>>=◌, ◌>>◌, raise_if, or_raise}
use netherbrain.Enums.{SessionStatus, Transport}
use netherbrain.Registry
use netherbrain.Registry.{
  Registry, RuntimeSession, active_agent_session, get_by_conversation, interrupted,
}
use netherbrain.Managers.Sessions.{System}
use netherbrain.Managers.Execution.{
  Error, no_active_session, context_not_ready, steering_text_required, session_not_found,
}

-- `interrupt_conversation`: the streamers interrupted, and their number.
unfoldable pub interrupt_conversation : (conversation_id : String) → Registry → List ℕ × ℕ
interrupt_conversation conversation_id r = (
  interrupted (get_by_conversation conversation_id r),
  length (interrupted (get_by_conversation conversation_id r)),
)

-- `get_active_session`.
unfoldable pub get_active_session :
    (conversation_id : String) → Registry → Result Error RuntimeSession
get_active_session conversation_id r =
    or_raise (active_agent_session conversation_id r) (no_active_session conversation_id)

-- A message on the bus of a session's context.
pub record BusMessage : Type 0 where
  pub context : ℕ
  pub content : String
  pub source : String

-- `_send_steering`: the message that is sent.
unfoldable pub send_steering : RuntimeSession → String → Result Error BusMessage
send_steering session text = do
  raise_if (text == "") steering_text_required
  context ← or_raise session.sdk_context (context_not_ready session.session_id)
  ok (record { context = context; content = text; source = "user" })

-- `steer_conversation`: the message, and the session's id.
unfoldable pub steer_conversation :
    (conversation_id text : String) → Registry → Result Error (BusMessage × String)
steer_conversation conversation_id text r = do
  active ← or_raise (active_agent_session conversation_id r) (no_active_session conversation_id)
  message ← send_steering active text
  ok (message, active.session_id)

-- `interrupt_session`: the streamer that is interrupted, if there is one.
unfoldable pub interrupt_session : (session_id : String) → Registry → Result Error (Option ℕ)
interrupt_session session_id r = do
  live ← or_raise (Registry.get session_id r) (no_active_session session_id)
  ok live.streamer

-- `steer_session`.
unfoldable pub steer_session : (session_id text : String) → Registry → Result Error BusMessage
steer_session session_id text r = do
  live ← or_raise (Registry.get session_id r) (no_active_session session_id)
  send_steering live text

abbrev pub Status : Type 0
Status = SessionStatus × Transport × Option String

abbrev pub live_status : RuntimeSession → Status
live_status live = (SessionStatus.created, live.transport, live.stream_key)

-- `get_session_status`.
unfoldable pub get_session_status : (session_id : String) → Registry → Option Status
get_session_status session_id r = elim (Registry.get session_id r) [
  | none ↦ none
  | some live ↦ some (live_status live)
]

-- `get_session_status_full`.
unfoldable pub get_session_status_full : (session_id : String) → System → Result Error Status
get_session_status_full session_id s = elim (get_session_status session_id s.registry) [
  | some status ↦ ok status
  | none ↦ elim (Dict.get session_id s.sessions) [
    | none ↦ err (session_not_found session_id)
    | some row ↦ ok (row.status, row.transport, none)
  ]
]

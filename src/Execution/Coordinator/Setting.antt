-- ===== src/Execution/Coordinator/Setting.antt =====
-- What `execute_session` of netherbrain/agent_runtime/execution/coordinator.py works on: its arguments and
-- result, what it meets outside of this program's code, and the delivery of events.
use netherbrain.Prelude.{
  suc, length, [], ◌∷◌, ℕ, String, Bool, true, false, Option, none, some, List, ◌++◌, if◌then◌else◌,
  truthy,
}
use netherbrain.Prelude.Dict
use netherbrain.Prelude.Dict.{Dict}
use netherbrain.Enums.{SessionStatus, Transport, MailboxSourceType, is_settled}
use netherbrain.Events.{BaseEvent}
use netherbrain.Sdk.{SdkEvent}
use netherbrain.Registry.{RuntimeSession}
use netherbrain.Managers.Sessions.{System, RawSummary}
use netherbrain.Managers.Mailbox.{Table}
use netherbrain.Streaming.Agui.State.{Adapter, Emits}
use netherbrain.Notifications.{Notification, Redis, publish_notification}
use netherbrain.Execution.Streamer.{Streamer, DeferredToolRequests}

-- `ExecutionResult`.
pub record ExecutionResult : Type 0 where
  pub session_id : String
  pub status : SessionStatus
  pub final_message : Option String
  pub run_summary : Option RawSummary
  pub deferred_requests : Option DeferredToolRequests

-- The arguments of `execute_session` that decide what it writes.
pub record Job : Type 0 where
  pub session_id : String
  pub conversation_id : String
  pub subagent_name : Option String
  pub transport : Transport
  pub has_event_transport : Bool
  pub model_id : String
  pub redis : Option Redis

-- How `async with stream_agent` is left.
pub data Exit : Type 0 where
  leaves interrupts raises : Exit

-- The SDK's side of a session: the events, the streamer where the code behind the loop has run to
-- its end, and the exit.
pub record Stream : Type 0 where
  pub events : List SdkEvent
  pub exported : Option Streamer
  pub exit : Exit

-- A commit that raises, before its writes or between the store and the database.
pub data Fault : Type 0 where
  before_store before_database : Fault

-- What the session meets outside of this program's code.
pub record Surroundings : Type 0 where
  pub new_id : ℕ → String
  pub order : List String → List String
  pub dump : BaseEvent → String
  pub join : List String → String
  pub dump_tools : List (String × String × String) × List (String × String × String) → String
  pub takes : ℕ → BaseEvent → Bool
  pub commit_fault : Option Fault
  pub is_post_refused : Bool
  pub message_id : String
  pub posted_at : ℕ
  pub duration_ms : ℕ
  pub live_handle : ℕ

pub record World : Type 0 where
  pub system : System
  pub mailbox : Table
  pub published : List Notification
  pub adapter : Adapter
  pub sent : List BaseEvent
  pub is_closed : Bool

-- What the transport takes of events, the first of which has a number in the session: whether it
-- takes an event depends on the number, as a stand-in for the time, and on the event.
unfoldable pub accepted : (ℕ → BaseEvent → Bool) → ℕ → List BaseEvent → List BaseEvent
accepted takes n [] = []
accepted takes n (e ∷ es) =
    let rest = accepted takes (suc n) es in if takes n e then e ∷ rest else rest

-- The protocol events reach the transport in order; one that the transport refuses is skipped
-- (`_deliver`).
unfoldable pub deliver : (ℕ → BaseEvent → Bool) → Emits → World → World
deliver takes emits w =
    let (events, adapter) = emits w.adapter in
    record w { adapter = adapter; sent = w.sent ++ accepted takes (length w.adapter.buffer) events }

abbrev pub deliver_if : Bool → (ℕ → BaseEvent → Bool) → Emits → World → World
deliver_if true takes emits w = deliver takes emits w
deliver_if false takes emits w = w

abbrev pub close_if : Bool → World → World
close_if true w = record w { is_closed = true }
close_if false w = w

abbrev pub publish : Option Redis → Notification → World → World
publish redis event w = record w { published = publish_notification redis event w.published }

-- `_session_type_str`.
abbrev pub session_type_str : Option String → String
session_type_str subagent_name = if truthy subagent_name then "async_subagent" else "agent"

abbrev pub source_type_of : SessionStatus → MailboxSourceType
source_type_of status =
    if is_settled status
    then MailboxSourceType.subagent_result
    else MailboxSourceType.subagent_failed

abbrev pub source_value : MailboxSourceType → String
source_value MailboxSourceType.subagent_result = "subagent_result"
source_value MailboxSourceType.subagent_failed = "subagent_failed"

abbrev pub transport_value : Transport → String
transport_value Transport.sse = "sse"
transport_value Transport.stream = "stream"

unfoldable pub set_streamer : String → ℕ → Dict RuntimeSession → Dict RuntimeSession
set_streamer session_id streamer sessions = elim (Dict.get session_id sessions) [
  | none ↦ sessions
  | some live ↦ Dict.set session_id (record live { streamer = some streamer }) sessions
]

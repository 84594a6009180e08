-- ===== src/Notifications.antt =====
-- netherbrain/agent_runtime/notifications: the events, and their publication on Redis.
use netherbrain.Prelude.{ℕ, String, Bool, Option, none, some, List, [], ◌∷◌, ◌++◌, if◌then◌else◌}

-- The event classes, without their timestamps.
pub data Notification : Type 0 where
  session_started : (conversation_id session_id session_type transport : String) → Notification
  session_completed :
      (conversation_id session_id session_type : String) (final_message_preview : Option String)
      → Notification
  session_failed :
      (conversation_id session_id session_type : String) (error : Option String) → Notification
  mailbox_updated :
      (conversation_id message_id source_session_id source_type subagent_name : String)
      (pending_count : ℕ)
      → Notification
  conversation_updated : (conversation_id : String) (changes : List String) → Notification

-- A client of Redis, by the notifications whose publication raises nothing.
abbrev pub Redis : Type 0
Redis = Notification → Bool

-- `publish_notification`, on what the channel has carried.
unfoldable pub publish_notification :
    Option Redis → Notification → List Notification → List Notification
publish_notification none event published = published
publish_notification (some accepts) event published =
    if accepts event then published ++ (event ∷ []) else published

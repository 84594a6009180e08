-- ===== src/Managers/Mailbox.antt =====
-- netherbrain/agent_runtime/managers/mailbox.py. The table of messages is a list in the order of
-- insertion; a message's id and time are drawn by the caller's environment.
pub mod Delivery
use netherbrain.Prelude.{
  ℕ, String, Bool, Option, none, some, List, [], ◌∷◌, ◌++◌, map, ◌==◌, ◌&&◌, not, if◌then◌else◌,
  is_some, keep, count_if, take, drop, leb,
}
use netherbrain.Enums.{MailboxSourceType}

-- `MailboxMessage`, of netherbrain/agent_runtime/models/session.py and db/tables.py.
pub record MailboxMessage : Type 0 where
  pub message_id : String
  pub conversation_id : String
  pub source_session_id : String
  pub source_type : MailboxSourceType
  pub subagent_name : String
  pub created_at : ℕ
  pub delivered_to : Option String

abbrev pub Table : Type 0
Table = List MailboxMessage

-- `post_message`, with the id and the time that the row gets.
unfoldable pub post_message :
    (message_id : String) (created_at : ℕ) (conversation_id source_session_id : String)
    (source_type : MailboxSourceType) (subagent_name : String)
    → Table
    → Table
post_message message_id created_at conversation_id source_session_id source_type subagent_name t =
    t
    ++ (record {
      message_id = message_id;
      conversation_id = conversation_id;
      source_session_id = source_session_id;
      source_type = source_type;
      subagent_name = subagent_name;
      created_at = created_at;
      delivered_to = none;
    }
        ∷ [])

-- The WHERE clause of `drain_undelivered` and `count_pending`.
unfoldable pub is_pending : String → MailboxMessage → Bool
is_pending conversation_id m = m.conversation_id == conversation_id && not (is_some m.delivered_to)

abbrev pub mark : String → MailboxMessage → MailboxMessage
mark session_id m = record m { delivered_to = some session_id }

-- `drain_undelivered`: UPDATE ... RETURNING, the table after it and the rows claimed.
unfoldable pub drain_undelivered :
    (conversation_id delivered_to : String) → Table → Table × List MailboxMessage
unfolding is_pending
drain_undelivered conversation_id delivered_to t = (
  map (λ m. if is_pending conversation_id m then mark delivered_to m else m) t,
  map (mark delivered_to) (keep (is_pending conversation_id) t),
)

-- ORDER BY created_at ASC, rows of equal times in the table's order.
unfoldable pub insert_by_time : MailboxMessage → Table → Table
insert_by_time m [] = m ∷ []
insert_by_time m (n ∷ t) =
    let rest = insert_by_time m t in if leb m.created_at n.created_at then m ∷ n ∷ t else n ∷ rest

unfoldable pub by_time : Table → Table
by_time [] = []
by_time (m ∷ t) = insert_by_time m (by_time t)

-- The filters of `query_mailbox`.
abbrev pub is_asked : String → Bool → MailboxMessage → Bool
is_asked conversation_id pending_only m =
    m.conversation_id == conversation_id
    && (if pending_only then not (is_some m.delivered_to) else Bool.true)

-- `query_mailbox`.
unfoldable pub query_mailbox :
    (conversation_id : String) (pending_only : Bool) (limit offset : ℕ) → Table → Table
query_mailbox conversation_id pending_only limit offset t =
    take limit (drop offset (by_time (keep (is_asked conversation_id pending_only) t)))

-- `count_pending`.
unfoldable pub count_pending : String → Table → ℕ
count_pending conversation_id t = count_if (is_pending conversation_id) t

-- A post or a drain.
pub data Call : Type 0 where
  posts :
      (message_id : String) (created_at : ℕ) (conversation_id source_session_id : String)
      (source_type : MailboxSourceType) (subagent_name : String)
      → Call
  drains : (conversation_id delivered_to : String) → Call

-- The table after a call, and the messages that the call hands over.
unfoldable pub step : Table → Call → Table × List MailboxMessage
step t (posts id time conversation source type name) =
    (post_message id time conversation source type name t, [])
step t (drains conversation session) = drain_undelivered conversation session t

unfoldable pub run : Table → List Call → Table × List MailboxMessage
run t [] = (t, [])
run t (c ∷ cs) = let now = step t c in let rest = run now.0 cs in (rest.0, now.1 ++ rest.1)

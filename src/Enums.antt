-- ===== src/Enums.antt =====
-- netherbrain/agent_runtime/models/enums.py.
use netherbrain.Prelude.{Bool, true, false}

pub data SessionStatus : Type 0 where
  created committed awaiting_tool_results failed archived : SessionStatus

pub data SessionType : Type 0 where
  agent async_subagent : SessionType

pub data Transport : Type 0 where
  sse stream : Transport

pub data ConversationStatus : Type 0 where
  active archived : ConversationStatus

pub data EnvironmentMode : Type 0 where
  local sandbox : EnvironmentMode

pub data MailboxSourceType : Type 0 where
  subagent_result subagent_failed : MailboxSourceType

pub data UserRole : Type 0 where
  admin user : UserRole

-- `session_type == SessionType.AGENT`.
abbrev pub is_agent_type : SessionType → Bool
is_agent_type SessionType.agent = true
is_agent_type SessionType.async_subagent = false

-- `transport == other`.
abbrev pub same_transport : Transport → Transport → Bool
same_transport Transport.sse Transport.sse = true
same_transport Transport.stream Transport.stream = true
same_transport _ _ = false

-- `status in (COMMITTED, AWAITING_TOOL_RESULTS)`: the session can be continued.
abbrev pub is_settled : SessionStatus → Bool
is_settled SessionStatus.committed = true
is_settled SessionStatus.awaiting_tool_results = true
is_settled _ = false

-- `status == SessionStatus.CREATED`.
abbrev pub is_created : SessionStatus → Bool
is_created SessionStatus.created = true
is_created _ = false

-- ===== src/Lib.antt =====
-- Verification of Netherbrain's agent runtime (netherbrain/agent_runtime), the service that runs
-- agents in sessions, streams their events to clients and keeps their history.
--
-- A request names a preset, which is resolved to a configuration (execution/resolver.py); the
-- execution manager (managers/execution.py) finds the session to continue and launches a new one
-- (execution/launch.py), which the coordinator (execution/coordinator.py) runs to its end. A session
-- is registered in memory (registry.py) while it runs. The events of the agent SDK go
-- through the AG-UI adapter (streaming/protocols/agui.py), which yields protocol events to a
-- transport (transport/sse.py) and keeps them in a buffer. At the end the buffer is compressed
-- (streaming/compress.py) into the display messages that the session manager
-- (managers/sessions.py) commits with the session's state. Results of asynchronous subagents wait
-- in a mailbox (managers/mailbox.py) for the next session of their conversation. Requests pass the
-- authentication of middleware.py first.
--
--   Prelude       names shared by all modules: Boolean tests, lists, texts, dictionaries
--   Tables        the users and API keys of db/tables.py
--   Enums         netherbrain/agent_runtime/models/enums.py
--   Usage         ModelUsage and PipelineUsage of netherbrain/agent_runtime/execution/events.py
--   Events, Sdk   the AG-UI events, the names of models/events.py, and the SDK's events as far as
--                 the adapter inspects them
--   Streaming     Agui is streaming/protocols/agui.py, one function for each handler; a handler
--                 takes the adapter's state and returns the events yielded and the state left.
--                 Compress is streaming/compress.py
--   Registry      registry.py and the RuntimeSession of context.py; calls of other tasks are steps
--   Transport     Sse is transport/sse.py, with the asyncio.Queue it holds and its generator;
--                 Bridge is the loop of transport/bridge.py, over a growing Redis stream
--   Managers      Mailbox is managers/mailbox.py, Sessions is managers/sessions.py, over tables as
--                 lists or dicts by primary key; an UPDATE with a WHERE clause is one step.
--                 Users is managers/users.py, Conversations is managers/conversations.py,
--                 Presets is managers/presets.py, over the resolver's table; Files is
--                 managers/files.py, over what the operating system answers;
--                 Execution is managers/execution.py: Fire is fire_conversation, Runs the other
--                 launches, Control the interrupts, steering and status
--   Notifications notifications/__init__.py and publish.py
--   Execution     Specs is models/preset.py, Resolver is execution/resolver.py and the settings of
--                 execution/mcp.py, Launch is execution/launch.py, Coordinator is execute_session of
--                 execution/coordinator.py, Deferred and Streamer are its helpers for deferred tools
--                 and for what it reads of the SDK, Hooks is execution/hooks.py, MailboxPrompt is
--                 execution/mailbox_prompt.py
--   Middleware    middleware.py and auth.py
--   Tests         runs at fixed inputs
--
-- No fuel is used: the loops run over lists. A client's or another task's behaviour is a list of
-- calls, of any length. Numbers are natural numbers: Python's integers are unbounded, and times and
-- token counts are not negative. The iteration order of Python's sets is a parameter, of which it
-- is assumed that each member comes as often as it is in the set; ids drawn at random, SHA-256 and
-- the JWT library are parameters without any assumption. JSON documents are texts.
--
-- XREAD is a parameter, of which it is assumed that it gives entries behind its cursor from the front,
-- and none only where there are none. The stream is not trimmed while it is followed (the publisher's
-- maxlen), and its ids grow.
--
-- What the SDK streams in a session, how its context is left, and whether the commit, the mailbox or
-- Redis refuse a call, are arguments of the coordinator's model. It is assumed there that
-- fail_session does not raise, and that nobody cancels the task. A call that raises is a value of
-- Result; where it has written before it raised, the new state stands beside the exception (Action).
-- bcrypt, random texts and new ids are parameters or arguments.
--
-- The set-up of a session, before its first event, is one step that may raise (Background is the task
-- of execution/launch.py around it). The fields of a request's environment are taken with their
-- defaults filled in.
--
-- Not modelled: the assembly of the SDK's runtime, environment and toolsets, the mapping of input
-- parts to a prompt, the publishing Redis transport, directory listings, the shell manager, the CRUD
-- of workspaces, the listing of presets, the listing and search of conversations, the HTTP routers,
-- and the database's and the state store's own I/O.
mod Prelude
pub mod Usage
pub mod Events
pub mod Sdk
pub mod Streaming
pub mod Enums
pub mod Tables
pub mod Registry
pub mod Transport
pub mod Managers
pub mod Notifications
pub mod Execution
pub mod Middleware
pub mod Tests

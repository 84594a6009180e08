-- ===== src/Streaming/Agui/State.antt =====
-- The state of `AGUIProtocol`, its `_emit`, and the set of open tool calls
-- (netherbrain/agent_runtime/streaming/protocols/agui.py).
use netherbrain.Prelude.{ℕ, String, Bool, true, false, List, [], ◌∷◌, ◌++◌, ◌==◌, if◌then◌else◌}
use netherbrain.Events.{BaseEvent}

-- The fields of `__init__`; `fresh` counts the ids drawn.
pub record Adapter : Type 0 where
  pub session_id : String
  pub conversation_id : String
  pub message_id : String
  pub reasoning_id : String
  pub text_open : Bool
  pub reasoning_open : Bool
  pub reasoning_msg_open : Bool
  pub tool_call_ids : List String
  pub buffer : List BaseEvent
  pub fresh : ℕ

-- A method that yields events and updates the adapter.
abbrev pub Emits : Type 0
Emits = Adapter → List BaseEvent × Adapter

-- No event.
unfoldable pub nothing : Emits
nothing a = ([], a)

-- One event, by `_emit`.
unfoldable pub emit : BaseEvent → Emits
emit e a = (e ∷ [], record a { buffer = a.buffer ++ (e ∷ []) })

-- The events of two steps, in their order.
unfoldable pub seq : Emits → Emits → Emits
seq m n a = let (xs, b) = m a in let (ys, c) = n b in (xs ++ ys, c)

unfoldable pub when : Bool → Emits → Emits
when b m a = if b then m a else ([], a)

-- Assignments to fields, then a step.
unfoldable pub assign : (Adapter → Adapter) → Emits → Emits
assign f m a = m (f a)

-- A step that reads the adapter's fields first.
unfoldable pub reading : (Adapter → Emits) → Emits
reading f a = f a a

-- Opens the six above.
unfoldable pub emission : Unit {0}
unfolding nothing emit seq when assign reading
emission = tt

-- A set of ids: membership, `add`, `discard`.
unfoldable pub member : String → List String → Bool
member k [] = false
member k (j ∷ s) = if j == k then true else member k s

unfoldable pub include : String → List String → List String
include k s = if member k s then s else s ++ (k ∷ [])

unfoldable pub discard : String → List String → List String
discard k [] = []
discard k (j ∷ s) = let rest = discard k s in if j == k then rest else j ∷ rest

-- ===== src/Transport/Sse.antt =====
-- netherbrain/agent_runtime/transport/sse.py: `SSETransport`, with the `asyncio.Queue` it holds. The
-- producer's calls and the consumer's reads are steps that interleave.
pub mod Delivery
use netherbrain.Prelude.{
  ℕ, Bool, true, false, Option, none, some, List, [], ◌∷◌, ◌++◌, ◌&&◌, not, if◌then◌else◌, length,
  leb, eqb,
}
use netherbrain.Events.{BaseEvent, is_terminal}

-- What the queue holds: events, and `_SENTINEL`.
pub data Item : Type 0 where
  event : BaseEvent → Item
  sentinel : Item

-- The transport, with the generator that reads from it: what it has yielded, and whether it has
-- ended.
pub record Sse : Type 0 where
  pub max_queue_size : ℕ
  pub queue : List Item
  pub closed : Bool
  pub yielded : List BaseEvent
  pub ended : Bool

-- `__init__`.
abbrev pub init : ℕ → Sse
init max_queue_size = record {
  max_queue_size = max_queue_size;
  queue = [];
  closed = false;
  yielded = [];
  ended = false;
}

-- `asyncio.Queue.full`: a maximum of 0 means no bound.
unfoldable pub full : Sse → Bool
full t = not (eqb t.max_queue_size 0) && leb t.max_queue_size (length t.queue)

-- `put_nowait`; none stands for `QueueFull`.
unfoldable pub put_nowait : Item → Sse → Option Sse
unfolding full
put_nowait item t = if full t then none else some (record t { queue = t.queue ++ (item ∷ []) })

-- `get_nowait` with `QueueEmpty` suppressed: the first item is discarded.
unfoldable pub discard_first : Sse → Sse
discard_first t = elim t.queue [ [] ↦ t | item ∷ rest ↦ record t { queue = rest } ]

abbrev pub or_unchanged : Option Sse → Sse → Sse
or_unchanged none t = t
or_unchanged (some t') t = t'

-- `send`: an event is dropped when the transport is closed or its queue full.
unfoldable pub send : BaseEvent → Sse → Sse
unfolding put_nowait
send e t = if t.closed then t else or_unchanged (put_nowait (event e) t) t

-- The body of `close` behind its first test.
unfoldable pub put_sentinel : Sse → Sse
unfolding put_nowait discard_first
put_sentinel t = elim (put_nowait sentinel t) [
  | some t' ↦ t'
  | none ↦ or_unchanged (put_nowait sentinel (discard_first t)) (discard_first t)
]

-- `close`.
unfoldable pub close : Sse → Sse
unfolding put_sentinel
close t = if t.closed then t else put_sentinel (record t { closed = true })

-- One turn of `event_generator`'s loop with the item that `get` returned.
unfoldable pub receive : Item → Sse → Sse
receive sentinel t = record t { ended = true }
receive (event e) t = record t { yielded = t.yielded ++ (e ∷ []); ended = is_terminal e }

-- One turn of the generator: it has ended, waits on an empty queue, or takes the first item.
unfoldable pub consume : Sse → Sse
unfolding receive
consume t =
    if t.ended
    then t
    else elim t.queue [ [] ↦ t | item ∷ rest ↦ receive item (record t { queue = rest }) ]

pub data Call : Type 0 where
  sends : BaseEvent → Call
  closes consumes : Call

unfoldable pub step : Sse → Call → Sse
unfolding send close consume
step t (sends e) = send e t
step t closes = close t
step t consumes = consume t

unfoldable pub run : Sse → List Call → Sse
run t [] = t
run t (c ∷ cs) = run (step t c) cs

-- ===== src/Events/Queue.antt =====
-- What the operations of the queue promise: `schedule_event` adds one event, `event_pop` takes a
-- first one, `dspic33_reorder_events` puts any array in order.
pub mod Uniform
pub mod Insert
pub mod Pop
pub mod Reorder
use dspic33e_sim.Prelude.{ℕ, ◌≤◌, Bool}
use dspic33e_sim.Device.State.{EventQueue}
use dspic33e_sim.Events.Heap.{IsHeap, AllUniform}

-- A queue in order: a heap within its array, of events among which no cycle has both DMA events and
-- others, and no DMA event a source from 30 on. `kind` says which cycles have DMA events.
pub record IsQueue (kind : ℕ → Bool) (q : EventQueue) : Type 0 where
  pub heap : IsHeap q.count q.items
  pub uniform : AllUniform kind q.count q.items
  pub fits : q.count ≤ q.capacity

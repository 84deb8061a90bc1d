-- ===== src/Tests/Events.antt =====
-- The event queue on concrete events.
use dspic33e_sim.Prelude.{ℕ, zero, suc, ◌+◌, ◌≡◌, ◌⊎◌, Bool, true, false, refl, arith, to_nat, leb}
use dspic33e_sim.Device.State.{Event, EventQueue, EventType, StopReason, update, blank, blank_event}
use dspic33e_sim.Events.{
  schedule_event, event_reserve, event_source_valid, event_pop, reorder_events, event_less,
}
use dspic33e_sim.Events.Order.{NotAfter, event_less_cyclic}
use dspic33e_sim.Events.Heap.{IsHeap, AllUniform}
use dspic33e_sim.Events.Held.{held}
use dspic33e_sim.Events.Queue.{IsQueue}
use dspic33e_sim.Events.Queue.Insert.{schedule_event_adds, schedule_event_refused, scheduled}
use dspic33e_sim.Events.Queue.Pop.{event_pop_first, event_pop_keeps}
use dspic33e_sim.Events.Queue.Reorder.{reorder_events_sorts}

abbrev any_memory : ℕ → Bool
any_memory n = true

abbrev no_memory : ℕ → Bool
no_memory n = false

-- No cycle has DMA events.
abbrev no_dma : ℕ → Bool
no_dma cycle = false

abbrev is_late : Event → Bool
is_late e = leb 3 e.cycle

empty-IsQueue : IsQueue no_dma blank.events
empty-IsQueue = record {
  heap = λ j pos lt. absurd (omega arith);
  uniform = λ j lt. absurd (omega arith);
  fits = omega arith;
}

schedule_event_adds_example :
    IsQueue no_dma (schedule_event any_memory blank EventType.crc 65535 0 5 false).1.events
    × ((schedule_event any_memory blank EventType.crc 65535 0 5 false).1.events.count
        ≡ blank.events.count + 1)
    × (held is_late
          (schedule_event any_memory blank EventType.crc 65535 0 5 false).1.events.items
          (schedule_event any_memory blank EventType.crc 65535 0 5 false).1.events.count
        ≡ held is_late blank.events.items blank.events.count
          + to_nat (is_late (scheduled blank EventType.crc 65535 0 5 false)))
unfolding schedule_event event_reserve event_source_valid
schedule_event_adds_example =
    schedule_event_adds any_memory blank EventType.crc 65535 0 5 false no_dma is_late empty-IsQueue
      (omega arith) (record { kind_of_cycle = refl; source-lt = λ dma. ground (arith, dma) }) refl

schedule_event_refused_example :
    ((schedule_event no_memory blank EventType.timer 1 0 5 false).1 ≡ blank)
    ⊎ (((event_reserve no_memory blank.events).0 ≡ false)
        × ((schedule_event no_memory blank EventType.timer 1 0 5 false).1
            ≡ record blank { stop_reason = StopReason.event_queue_error }))
unfolding schedule_event event_reserve event_source_valid
schedule_event_refused_example =
    schedule_event_refused no_memory blank EventType.timer 1 0 5 false refl

-- Two events, out of order and in order.
abbrev event_at : ℕ → Event
event_at cycle = record blank_event { cycle = cycle; sequence = cycle }

abbrev two_events : ℕ → ℕ → EventQueue
two_events a b = record {
  items = update (update (λ i. blank_event) 0 (event_at a)) 1 (event_at b);
  count = 2;
  capacity = 64;
  sequence = 9;
}

two_events-uniform : (a b : ℕ) → AllUniform no_dma 2 (two_events a b).items
two_events-uniform a b zero lt = record {
  kind_of_cycle = refl;
  source-lt = λ dma. ground (arith, dma);
}
two_events-uniform a b (suc zero) lt = record {
  kind_of_cycle = refl;
  source-lt = λ dma. ground (arith, dma);
}
two_events-uniform a b (suc (suc j)) lt = absurd (omega arith)

in_order-IsQueue : IsQueue no_dma (two_events 3 7)
unfolding event_less
in_order-IsQueue = record { heap = in_order; uniform = two_events-uniform 3 7; fits = omega arith }
  where
    in_order : IsHeap 2 (two_events 3 7).items
    in_order zero pos lt = absurd (omega arith)
    in_order (suc zero) pos lt = refl
    in_order (suc (suc j)) pos lt = absurd (omega arith)

event_pop_first_example : NotAfter (event_pop (two_events 3 7)).0 (event_at 7)
event_pop_first_example = event_pop_first no_dma (two_events 3 7) in_order-IsQueue 1 (omega arith)

event_pop_keeps_example :
    IsQueue no_dma (event_pop (two_events 3 7)).1
    × ((event_pop (two_events 3 7)).1.count + 1 ≡ (two_events 3 7).count)
    × (held is_late (event_pop (two_events 3 7)).1.items (event_pop (two_events 3 7)).1.count
          + to_nat (is_late (event_pop (two_events 3 7)).0)
        ≡ held is_late (two_events 3 7).items (two_events 3 7).count)
event_pop_keeps_example =
    event_pop_keeps no_dma (two_events 3 7) is_late in_order-IsQueue (omega arith)

reorder_events_sorts_example :
    IsQueue no_dma (reorder_events (two_events 7 3))
    × ((reorder_events (two_events 7 3)).count ≡ (two_events 7 3).count)
    × (held is_late (reorder_events (two_events 7 3)).items (two_events 7 3).count
        ≡ held is_late (two_events 7 3).items (two_events 7 3).count)
reorder_events_sorts_example =
    reorder_events_sorts no_dma (two_events 7 3) is_late (two_events-uniform 7 3) (omega arith)

-- After a reordering the earlier event comes out first.
reordered_first : (event_pop (reorder_events (two_events 7 3))).0.cycle ≡ 3
unfolding reorder_events event_pop event_less
reordered_first = refl

-- Three events of one cycle: channel 2, a timer, channel 1.
abbrev dma_event : ℕ → ℕ → Event
dma_event channel sequence = record blank_event {
  kind = EventType.dma;
  source = channel;
  sequence = sequence;
}

event_less_cyclic_example :
    (event_less (dma_event 2 1) (record blank_event { kind = EventType.timer; sequence = 2 })
      ≡ true)
    × (event_less (record blank_event { kind = EventType.timer; sequence = 2 }) (dma_event 1 3)
        ≡ true)
    × (event_less (dma_event 1 3) (dma_event 2 1) ≡ true)
event_less_cyclic_example =
    event_less_cyclic (dma_event 2 1) (record blank_event { kind = EventType.timer; sequence = 2 })
      (dma_event 1 3) (refl, refl) (refl, refl) (refl, refl, refl) (omega arith, omega arith)
      (omega arith, omega arith)

-- ===== src/Events/Queue/Insert.antt =====
-- `schedule_event` on a queue in order.
use dspic33e_sim.Prelude.{ℕ, suc, ◌+◌, ◌-◌, ◌^◌, ◌≤◌, ◌<◌, ◌≡◌, Bool, arith}
use dspic33e_sim.Prelude.{
  true, false, ◌⊎◌, inl, inr, sym, ap, Bool-cases, not, ltb, ◌||◌, true≢false, refl, to_nat,
  uint64_max, ◌∙◌,
}
use dspic33e_sim.Device.State.{Dspic33, Event, EventQueue, EventType, StopReason, update}
use dspic33e_sim.Events.{event_reserve, insert_event, schedule_event, event_source_valid}
use dspic33e_sim.Events.Order.{IsUniform}
use dspic33e_sim.Events.Heap.{IsHeap, AllUniform}
use dspic33e_sim.Events.Heap.Up.{sift_up-IsHeap}
use dspic33e_sim.Events.Held.{held, held-suc, held-update_out, held-sift_up}
use dspic33e_sim.Events.Queue.{IsQueue}
use dspic33e_sim.Events.Queue.Uniform.{odd_one, IsUniform-odd_one, held-uniform, uniform-held}

-- Every test counts the events of the queue and the new one.
held-insert_event :
    (test : Event → Bool) (e : Event) (q : EventQueue)
    → held test (insert_event e q).items (q.count + 1) ≡ held test q.items q.count + to_nat (test e)
unfolding insert_event
held-insert_event test e q =
    let one_more : q.count + 1 ≡ suc q.count = omega arith in
    rw one_more (
      held-sift_up test (suc q.count) e q.count q.count q.items (omega arith)
      ∙ ground (
        arith,
        held-suc test (update q.items q.count e) q.count,
        held-update_out test q.items q.count q.count e,
      ))

insert_event-IsHeap :
    (kind : ℕ → Bool) (e : Event) (q : EventQueue)
    → IsUniform kind e
    → IsHeap q.count q.items
    → AllUniform kind q.count q.items
    → IsHeap (q.count + 1) (insert_event e q).items
unfolding insert_event
insert_event-IsHeap kind e q ue heap uniform =
    sift_up-IsHeap kind (q.count + 1) e ue q.count q.count q.items (omega arith) (record {
      inside = omega arith;
      apart = λ j a b c d. heap j a (omega arith);
      below = λ j a b c. absurd (omega arith);
      around = λ p j a b c. absurd (omega arith);
      uniform = λ j a b. uniform j (omega arith);
    })

insert_event-uniform :
    (kind : ℕ → Bool) (e : Event) (q : EventQueue)
    → IsUniform kind e
    → AllUniform kind q.count q.items
    → AllUniform kind (q.count + 1) (insert_event e q).items
insert_event-uniform kind e q ue uniform =
    uniform-held kind (insert_event e q).items (q.count + 1) (
      ground (
        arith,
        held-insert_event (odd_one kind) e q,
        held-uniform kind q.items q.count uniform,
        IsUniform-odd_one kind e ue,
      ))

count-insert_event :
    (e : Event) (q : EventQueue)
    → ((insert_event e q).count ≡ q.count + 1) × ((insert_event e q).capacity ≡ q.capacity)
unfolding insert_event
count-insert_event e q = (refl, refl)

-- The event that a call of `schedule_event` makes.
abbrev pub scheduled : Dspic33 → EventType → ℕ → ℕ → ℕ → Bool → Event
scheduled cpu kind source value delay external = record {
  cycle = cpu.device_cycles + delay;
  sequence = cpu.events.sequence;
  paused_remaining = 0;
  value = value;
  source = source;
  kind = kind;
  paused = false;
  external = external;
}

module _ (realloc : ℕ → Bool) where
  reserve_lem :
      (q : EventQueue)
      → q.capacity < 2 ^ 63
      → q.count ≤ q.capacity
      → (event_reserve realloc q).0 ≡ true
      → ((event_reserve realloc q).1.items ≡ q.items)
        × ((event_reserve realloc q).1.count ≡ q.count)
        × ((event_reserve realloc q).1.sequence ≡ q.sequence)
        × (q.count < (event_reserve realloc q).1.capacity)
  unfolding event_reserve
  reserve_lem q small fits ok = ground arith

  reserve-IsQueue :
      (kind_at : ℕ → Bool) (q : EventQueue)
      → IsQueue kind_at q
      → q.capacity < 2 ^ 63
      → (event_reserve realloc q).0 ≡ true
      → IsQueue kind_at (event_reserve realloc q).1
  reserve-IsQueue kind_at q valid small ok =
      let (items, count, sequence, room) = reserve_lem q small valid.fits ok in
      record {
        heap = rw (items, count) valid.heap;
        uniform = rw (items, count) valid.uniform;
        fits = omega (arith, room, count);
      }

  insert_event-IsQueue :
      (kind_at : ℕ → Bool) (e : Event) (q : EventQueue)
      → IsUniform kind_at e
      → IsQueue kind_at q
      → q.count < q.capacity
      → IsQueue kind_at (insert_event e q)
  insert_event-IsQueue kind_at e q ue valid room =
      let (count, capacity) = count-insert_event e q in
      record {
        heap = rw count (insert_event-IsHeap kind_at e q ue valid.heap valid.uniform);
        uniform = rw count (insert_event-uniform kind_at e q ue valid.uniform);
        fits = omega (arith, count, capacity);
      }

  module _ (cpu : Dspic33) (kind : EventType) (source value delay : ℕ) (external : Bool) where
    -- Whether `schedule_event` refuses the event itself.
    abbrev refused : Bool
    refused =
        not (event_source_valid cpu kind source value) || ltb (uint64_max - cpu.device_cycles) delay

    schedule_event-ok :
        (schedule_event realloc cpu kind source value delay external).0 ≡ true
        → ((event_reserve realloc cpu.events).0 ≡ true)
          × ((schedule_event realloc cpu kind source value delay external).1.events
              ≡ insert_event
                  (record (scheduled cpu kind source value delay external) {
                    sequence = (event_reserve realloc cpu.events).1.sequence;
                  })
                  (event_reserve realloc cpu.events).1)
    unfolding schedule_event
    schedule_event-ok ok = elim (Bool-cases refused) [
      | inl bad ↦ absurd (true≢false (sym (rw bad at ok)))
      | inr valid ↦ elim (Bool-cases (event_reserve realloc cpu.events).0) [
        | inl room ↦ (room, rw (valid, room))
        | inr full ↦ absurd (true≢false (sym (rw (valid, full) at ok)))
      ]
    ]

    -- An event that `schedule_event` takes is added to the queue, with the queue's next sequence
    -- number: the queue stays a heap that fits its array, and for every test it holds the events
    -- that it held and the new one. The queue must be such a heap, with a capacity below 2^63; and
    -- with the new event no cycle may have both DMA events and others, and no DMA event a source
    -- from 30 on.
    pub schedule_event_adds :
        (kind_at : ℕ → Bool) (test : Event → Bool)
        → IsQueue kind_at cpu.events
        → cpu.events.capacity < 2 ^ 63
        → IsUniform kind_at (scheduled cpu kind source value delay external)
        → (schedule_event realloc cpu kind source value delay external).0 ≡ true
        → IsQueue kind_at (schedule_event realloc cpu kind source value delay external).1.events
          × ((schedule_event realloc cpu kind source value delay external).1.events.count
              ≡ cpu.events.count + 1)
          × (held test
                (schedule_event realloc cpu kind source value delay external).1.events.items
                (schedule_event realloc cpu kind source value delay external).1.events.count
              ≡ held test cpu.events.items cpu.events.count
                + to_nat (test (scheduled cpu kind source value delay external)))
    schedule_event_adds kind_at test valid small ue ok =
        let q = (event_reserve realloc cpu.events).1 in
        let (room, same) = schedule_event-ok ok in
        let (items, count, sequence, free) = reserve_lem cpu.events small valid.fits room in
        let e = scheduled cpu kind source value delay external in
        let counted = (count-insert_event e q).0 in
        rw (same, sequence)
          (
            insert_event-IsQueue kind_at e q ue
                (reserve-IsQueue kind_at cpu.events valid small room) (rw count free),
            counted ∙ ap (λ n. n + 1) count,
            rw counted
                (held-insert_event test e q ∙ ap (λ n. n + to_nat (test e)) (rw (items, count))),
          )

    -- An event that `schedule_event` does not take changes nothing in the queue: the state is as
    -- before, or the queue could not grow and the machine stops with that error.
    pub schedule_event_refused :
        (schedule_event realloc cpu kind source value delay external).0 ≡ false
        → ((schedule_event realloc cpu kind source value delay external).1 ≡ cpu)
          ⊎ (((event_reserve realloc cpu.events).0 ≡ false)
              × ((schedule_event realloc cpu kind source value delay external).1
                  ≡ record cpu { stop_reason = StopReason.event_queue_error }))
    unfolding schedule_event
    schedule_event_refused fails = elim (Bool-cases refused) [
      | inl refuse ↦ inl (rw refuse)
      | inr valid ↦ elim (Bool-cases (event_reserve realloc cpu.events).0) [
        | inl room ↦ absurd (true≢false (rw (valid, room) at fails))
        | inr full ↦ inr (full, rw (valid, full))
      ]
    ]

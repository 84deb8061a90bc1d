-- ===== src/Events/Queue/Pop.antt =====
-- `dspic33e_device_internal_event_pop` on a queue in order.
use dspic33e_sim.Prelude.{ℕ, zero, suc, ◌+◌, ◌-◌, ◌≤◌, ◌<◌, ◌≡◌, Bool, true, arith}
use dspic33e_sim.Prelude.{refl, sym, ap, ◌∙◌, inl, inr, Bool-cases, to_nat, ◌==◌, ◌!=◌, ==_iff}
use dspic33e_sim.Device.State.{Event, EventQueue, update}
use dspic33e_sim.Events.Loops.{event_pop, sift_down, event_less}
use dspic33e_sim.Events.Order.{NotAfter, IsUniform-trans, event_less_asym}
use dspic33e_sim.Events.Heap.{IsHeap, AllUniform, parent}
use dspic33e_sim.Events.Heap.Down.{sift_down-IsHeapFrom}
use dspic33e_sim.Events.Held.{held, held-suc, held-update, held-sift_down}
use dspic33e_sim.Events.Queue.{IsQueue}
use dspic33e_sim.Events.Queue.Uniform.{odd_one, held-uniform, uniform-held}

NotAfter-refl : (e : Event) → NotAfter e e
NotAfter-refl e = elim (Bool-cases (event_less e e)) [
  | inl less ↦ event_less_asym e e less
  | inr not_less ↦ not_less
]

-- Nothing in a heap comes before its root.
pub root-first :
    (kind : ℕ → Bool) (n : ℕ) (items : ℕ → Event)
    → IsHeap n items
    → AllUniform kind n items
    → (fuel j : ℕ) → j ≤ fuel
    → j < n
    → NotAfter (items 0) (items j)
root-first kind n items heap uniform zero j le lt =
    let root : j ≡ 0 = omega arith in rw root (NotAfter-refl (items 0))
root-first kind n items heap uniform (suc fuel) j le lt = elim (Bool-cases (j == 0)) [
  | inl root ↦ rw ((==_iff j 0).0 root) (NotAfter-refl (items 0))
  | inr inner ↦
      IsUniform-trans kind (items 0) (items (parent j)) (items j) (uniform 0 (omega arith))
        (uniform (parent j) (ground arith)) (uniform j lt)
        (root-first kind n items heap uniform fuel (parent j) (ground arith) (ground arith))
        (heap j (ground arith) lt)
]

-- With the root taken out and the last event set down, the array is a heap again.
moved-IsHeap :
    (kind : ℕ → Bool) (n : ℕ) (items : ℕ → Event)
    → 0 < n
    → IsHeap (n + 1) items
    → AllUniform kind (n + 1) items
    → let s = sift_down n (items n) n 0 items in IsHeap n (update s.1 s.0 (items n))
moved-IsHeap kind n items pos heap uniform j jpos lt =
    sift_down-IsHeapFrom kind 0 n (items n) (uniform n (omega arith)) n 0 items (omega arith)
      (record {
        inside = omega arith;
        apart = λ i a b c d f. heap i a (omega arith);
        above = λ a b. absurd (omega arith);
        around = λ a b. absurd (omega arith);
        uniform = λ i b c. uniform i (omega arith);
      })
      j jpos lt (omega arith)

-- Counted by any test, the events that stay and the root are those that were there.
held-moved :
    (test : Event → Bool) (n : ℕ) (items : ℕ → Event)
    → 0 < n
    → let s = sift_down n (items n) n 0 items in
      held test (update s.1 s.0 (items n)) n + to_nat (test (items 0)) ≡ held test items (n + 1)
held-moved test n items pos =
    let one_more : n + 1 ≡ suc n = omega arith in
    rw one_more (
      omega (
        arith,
        held-sift_down test n (items n) n 0 items pos,
        held-update test items n 0 (items n) pos,
        held-suc test items n,
      ))

moved-uniform :
    (kind : ℕ → Bool) (n : ℕ) (items : ℕ → Event)
    → 0 < n
    → AllUniform kind (n + 1) items
    → let s = sift_down n (items n) n 0 items in AllUniform kind n (update s.1 s.0 (items n))
moved-uniform kind n items pos uniform =
    let s = sift_down n (items n) n 0 items in
    uniform-held kind (update s.1 s.0 (items n)) n (
      omega (arith, held-moved (odd_one kind) n items pos, held-uniform kind items (n + 1) uniform))

module _ (q : EventQueue) (n : ℕ) (more : q.count ≡ n + 1) where
  count-event_pop : (event_pop q).1.count ≡ n
  unfolding event_pop
  count-event_pop = omega (arith, more)

  items-event_pop :
      0 < n
      → let s = sift_down n (q.items n) n 0 q.items in
        (event_pop q).1.items ≡ update s.1 s.0 (q.items n)
  unfolding event_pop
  items-event_pop pos =
      let less : q.count - 1 ≡ n = omega (arith, more) in
      let test : (n != 0) ≡ true = ground arith in rw (less, test)

  first-event_pop : (event_pop q).0 ≡ q.items 0
  unfolding event_pop
  first-event_pop = refl

  capacity-event_pop : (event_pop q).1.capacity ≡ q.capacity
  unfolding event_pop
  capacity-event_pop = refl

  event_pop-IsQueue : (kind : ℕ → Bool) → IsQueue kind q → IsQueue kind (event_pop q).1
  event_pop-IsQueue kind valid =
      let heap : IsHeap (n + 1) q.items = rw more at valid.heap in
      let uniform : AllUniform kind (n + 1) q.items = rw more at valid.uniform in
      record {
        heap = rw count-event_pop (λ j pos lt.
            rw (items-event_pop (omega arith))
              (moved-IsHeap kind n q.items (omega arith) heap uniform j pos lt));
        uniform = rw count-event_pop (λ j lt.
            rw (items-event_pop (omega arith))
              (moved-uniform kind n q.items (omega arith) uniform j lt));
        fits = omega (arith, count-event_pop, capacity-event_pop, valid.fits, more);
      }

  items-event_pop_last : n ≡ 0 → (event_pop q).1.items ≡ q.items
  unfolding event_pop
  items-event_pop_last last =
      let none_left : q.count - 1 ≡ 0 = omega (arith, more, last) in rw none_left

  held-event_pop :
      (test : Event → Bool)
      → held test (event_pop q).1.items n + to_nat (test (event_pop q).0)
        ≡ held test q.items (n + 1)
  held-event_pop test = elim (Bool-cases (n == 0)) [
    | inl last ↦
        let zero_left = (==_iff n 0).0 last in
        rw (items-event_pop_last zero_left, first-event_pop, zero_left)
          (omega (arith, held-suc test q.items 0))
    | inr more_left ↦
        let pos : 0 < n = ground arith in
        rw (items-event_pop pos, first-event_pop) (held-moved test n q.items pos)
  ]

-- Of a heap that is not empty and fits its array, in which no cycle has both DMA events and others
-- and no DMA event has a source from 30 on, the event that comes out comes after none of the queue.
pub event_pop_first :
    (kind : ℕ → Bool) (q : EventQueue)
    → IsQueue kind q
    → (j : ℕ) → j < q.count
    → NotAfter (event_pop q).0 (q.items j)
unfolding event_pop
event_pop_first kind q valid j lt =
    root-first kind q.count q.items valid.heap valid.uniform j j (omega arith) lt

-- Of a heap that is not empty and fits its array, in which no cycle has both DMA events and others
-- and no DMA event has a source from 30 on, what stays behind is such a heap with one event less,
-- and for every test it holds, with the event that came out, the events that were there.
pub event_pop_keeps :
    (kind : ℕ → Bool) (q : EventQueue) (test : Event → Bool)
    → IsQueue kind q
    → 0 < q.count
    → IsQueue kind (event_pop q).1
      × ((event_pop q).1.count + 1 ≡ q.count)
      × (held test (event_pop q).1.items (event_pop q).1.count + to_nat (test (event_pop q).0)
          ≡ held test q.items q.count)
event_pop_keeps kind q test valid pos =
    let more : q.count ≡ (q.count - 1) + 1 = omega arith in
    let count = count-event_pop q (q.count - 1) more in
    (
      event_pop-IsQueue q (q.count - 1) more kind valid,
      omega (arith, count),
      rw count (held-event_pop q (q.count - 1) more test ∙ ap (held test q.items) (sym more)),
    )

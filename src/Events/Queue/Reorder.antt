-- ===== src/Events/Queue/Reorder.antt =====
-- `dspic33_reorder_events` on an array in any order.
use dspic33e_sim.Prelude.{ℕ, zero, suc, ◌+◌, ◌/◌, ◌≤◌, ◌<◌, ◌≡◌, Bool, arith}
use dspic33e_sim.Prelude.{refl, ◌∙◌, inl, inr, Bool-cases, ltb}
use dspic33e_sim.Device.State.{Event, EventQueue}
use dspic33e_sim.Events.Loops.{settle, settle_all, reorder_events}
use dspic33e_sim.Events.Heap.{IsHeap, IsHeapFrom, AllUniform}
use dspic33e_sim.Events.Heap.Down.{sift_down-IsHeapFrom}
use dspic33e_sim.Events.Held.{held, held-update, held-sift_down}
use dspic33e_sim.Events.Queue.{IsQueue}
use dspic33e_sim.Events.Queue.Uniform.{odd_one, held-uniform, uniform-held}

-- A round leaves the events that were there.
held-settle :
    (test : Event → Bool) (n index : ℕ) (items : ℕ → Event)
    → index < n
    → held test (settle n index items) n ≡ held test items n
unfolding settle
held-settle test n index items lt = omega (
  arith,
  held-sift_down test n (items index) n index items lt,
  held-update test items n index (items index) lt,
)

held-settle_all :
    (test : Event → Bool) (n k : ℕ) (items : ℕ → Event)
    → k ≤ n
    → held test (settle_all n k items) n ≡ held test items n
unfolding settle_all
held-settle_all test n zero items le = refl
held-settle_all test n (suc k) items le =
    held-settle_all test n k (settle n k items) (omega arith)
    ∙ held-settle test n k items (omega arith)

module _ (kind : ℕ → Bool) (n : ℕ) where
  settle-uniform :
      (index : ℕ) (items : ℕ → Event)
      → index < n
      → AllUniform kind n items
      → AllUniform kind n (settle n index items)
  settle-uniform index items lt uniform =
      uniform-held kind (settle n index items) n
        (held-settle (odd_one kind) n index items lt ∙ held-uniform kind items n uniform)

  -- A round at `index` extends the heap down to it.
  settle-IsHeapFrom :
      (index : ℕ) (items : ℕ → Event)
      → index < n
      → AllUniform kind n items
      → IsHeapFrom (index + 1) n items
      → IsHeapFrom index n (settle n index items)
  unfolding settle
  settle-IsHeapFrom index items lt uniform heap =
      sift_down-IsHeapFrom kind index n (items index) (uniform index lt) n index items (omega arith)
        (record {
          inside = omega arith;
          apart = λ i a b c d f. heap i a b (omega arith);
          above = λ a b. absurd (ground arith);
          around = λ a b. absurd (ground arith);
          uniform = λ i b c. uniform i b;
        })

  settle_all-IsHeap :
      (k : ℕ) (items : ℕ → Event)
      → k ≤ n
      → AllUniform kind n items
      → IsHeapFrom k n items
      → IsHeap n (settle_all n k items)
  unfolding settle_all
  settle_all-IsHeap zero items le uniform heap = λ j a b. heap j a b (omega arith)
  settle_all-IsHeap (suc k) items le uniform heap =
      settle_all-IsHeap k (settle n k items) (omega arith)
        (settle-uniform k items (omega arith) uniform)
        (settle-IsHeapFrom k items (omega arith) uniform (λ j a b c. heap j a b (omega arith)))

-- `dspic33_reorder_events` makes a heap of any events that fit the array of the queue, of which no
-- cycle has both DMA events and others and no DMA event has a source from 30 on, and the heap holds,
-- for every test, the events that were there.
pub reorder_events_sorts :
    (kind : ℕ → Bool) (q : EventQueue) (test : Event → Bool)
    → AllUniform kind q.count q.items
    → q.count ≤ q.capacity
    → IsQueue kind (reorder_events q)
      × ((reorder_events q).count ≡ q.count)
      × (held test (reorder_events q).items q.count ≡ held test q.items q.count)
unfolding reorder_events
reorder_events_sorts kind q test uniform fits = elim (Bool-cases (ltb q.count 2)) [
  | inl few ↦
      rw few (
        record { heap = λ j a b. absurd (ground arith); uniform = uniform; fits = fits },
        refl,
        refl,
      )
  | inr many ↦
      let half = q.count / 2 in
      let same = λ (t : Event → Bool). held-settle_all t q.count half q.items (omega arith) in
      rw many (
        record {
          heap =
              settle_all-IsHeap kind q.count half q.items (omega arith) uniform
                (λ j a b c. absurd (omega arith));
          uniform =
              uniform-held kind (settle_all q.count half q.items) q.count
                (same (odd_one kind) ∙ held-uniform kind q.items q.count uniform);
          fits = fits;
        },
        refl,
        same test,
      )
]

-- ===== src/Events/Heap/Up.antt =====
-- The loop of `schedule_event`: moving a hole up the heap.
use dspic33e_sim.Prelude.{ℕ, zero, suc, ◌≤◌, ◌<◌, ◌≡◌, ◌≢◌, Bool, arith}
use dspic33e_sim.Prelude.{true, ◌==◌, Bool-cases, inl, inr}
use dspic33e_sim.Device.State.{Event, update}
use dspic33e_sim.Events.Loops.{event_less, sift_up}
use dspic33e_sim.Events.Order.{NotAfter, IsUniform, IsUniform-trans, event_less_asym}
use dspic33e_sim.Events.Heap.{parent, IsHeap}

-- A heap of `n` events but for the hole `h`, into which `e` fits as far as the part below goes.
pub record UpHole (kind : ℕ → Bool) (n h : ℕ) (e : Event) (items : ℕ → Event) : Type 0 where
  pub inside : h < n
  pub apart : (j : ℕ) → 0 < j → j < n → j ≢ h → parent j ≢ h → NotAfter (items (parent j)) (items j)
  pub below : (j : ℕ) → 0 < j → j < n → parent j ≡ h → NotAfter e (items j)
  pub around :
      0 < h → (j : ℕ) → 0 < j → j < n → parent j ≡ h → NotAfter (items (parent h)) (items j)
  pub uniform : (j : ℕ) → j < n → j ≢ h → IsUniform kind (items j)

module _ (kind : ℕ → Bool) (n : ℕ) (e : Event) (ue : IsUniform kind e) where
  -- The hole filled where `e` does not come before the parent.
  fill :
      (h : ℕ) (items : ℕ → Event)
      → UpHole kind n h e items
      → (0 < h → NotAfter (items (parent h)) e)
      → IsHeap n (update items h e)
  fill h items hole top j pos lt = ground (arith, hole.apart j pos lt, hole.below j pos lt)

  -- One move up.
  rise :
      (h : ℕ) (items : ℕ → Event)
      → 0 < h
      → UpHole kind n h e items
      → event_less e (items (parent h)) ≡ true
      → UpHole kind n (parent h) e (update items h (items (parent h)))
  rise h items pos hole less =
      let p = parent h in
      let before : NotAfter e (items p) = event_less_asym e (items p) less in
      record {
        inside = omega (arith, hole.inside);
        apart = λ j a b c d. ground (arith, hole.apart j a b, hole.around pos j a b);
        below = λ j a b c. ground (
          arith,
          hole.apart j a b,
          IsUniform-trans kind e (items p) (items j) ue
              (hole.uniform p (omega (arith, hole.inside)) (omega arith)),
          hole.uniform j b,
        );
        around = λ q j a b c. ground (
          arith,
          hole.apart j a b,
          hole.apart p q,
          hole.inside,
          IsUniform-trans kind (items (parent p)) (items p) (items j)
              (hole.uniform (parent p) (omega (arith, hole.inside)) (omega arith))
              (hole.uniform p (omega (arith, hole.inside)) (omega arith)),
          hole.uniform j b,
        );
        uniform = λ j a b. elim (Bool-cases (h == j)) [
          | inl same ↦ rw same (hole.uniform p (omega (arith, hole.inside)) (omega arith))
          | inr other ↦ rw other (hole.uniform j a (ground arith))
        ];
      }

  pub sift_up-IsHeap :
      (fuel h : ℕ) (items : ℕ → Event)
      → h ≤ fuel
      → UpHole kind n h e items
      → IsHeap n (update (sift_up fuel e h items).1 (sift_up fuel e h items).0 e)
  unfolding sift_up
  sift_up-IsHeap zero h items le hole = fill h items hole (λ p. absurd (omega arith))
  sift_up-IsHeap (suc fuel) h items le hole = elim (Bool-cases (h == 0)) [
    | inl root ↦ rw root (fill h items hole (λ pos. ground arith))
    | inr inner ↦ elim (Bool-cases (event_less e (items (parent h)))) [
      | inl less ↦
          rw (inner, less)
            (sift_up-IsHeap fuel (parent h) (update items h (items (parent h))) (ground arith)
              (rise h items (ground arith) hole less))
      | inr stays ↦ rw (inner, stays) (fill h items hole (λ pos. stays))
    ]
  ]

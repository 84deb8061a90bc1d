-- ===== src/Events/Held.antt =====
-- Which events an array holds, as often: for every test, the number of events that pass it.
use dspic33e_sim.Prelude.{ℕ, zero, suc, ◌+◌, ◌*◌, ◌≤◌, ◌<◌, ◌≡◌, ◌≢◌, Bool, arith, refl}
use dspic33e_sim.Prelude.{◌==◌, ltb, to_nat, Bool-cases, inl, inr, ◌∙◌}
use dspic33e_sim.Device.State.{Event, update}
use dspic33e_sim.Events.Loops.{event_less, first_child, sift_up, sift_down}
use dspic33e_sim.Events.Heap.{parent}

module _ (test : Event → Bool) where
  unfoldable pub held : (ℕ → Event) → ℕ → ℕ
  held items zero = 0
  held items (suc n) = to_nat (test (items n)) + held items n

  pub held-suc :
      (items : ℕ → Event) (n : ℕ) → held items (suc n) ≡ to_nat (test (items n)) + held items n
  unfolding held
  held-suc items n = refl

  pub held-update_out :
      (items : ℕ → Event) (n i : ℕ) (e : Event) → n ≤ i → held (update items i e) n ≡ held items n
  unfolding held
  held-update_out items zero i e le = refl
  held-update_out items (suc n) i e le = ground (arith, held-update_out items n i e)

  -- A write trades the old event for the new one.
  pub held-update :
      (items : ℕ → Event) (n i : ℕ) (e : Event)
      → i < n
      → held (update items i e) n + to_nat (test (items i)) ≡ held items n + to_nat (test e)
  held-update items zero i e lt = absurd (omega arith)
  held-update items (suc n) i e lt = elim (Bool-cases (i == n)) [
    | inl top ↦
        ground (arith, held-suc items n, held-suc (update items i e) n, held-update_out items n i e)
    | inr lower ↦
        ground (arith, held-suc items n, held-suc (update items i e) n, held-update items n i e)
  ]

  -- Moving the event at `p` into the hole `h` moves the hole to `p`.
  held-move :
      (items : ℕ → Event) (n h p : ℕ) (e : Event)
      → h < n
      → p < n
      → h ≢ p
      → held (update (update items h (items p)) p e) n ≡ held (update items h e) n
  held-move items n h p e lh lp ne = ground (
    arith,
    held-update (update items h (items p)) n p e,
    held-update items n h (items p),
    held-update items n h e,
  )

  pub held-sift_up :
      (n : ℕ) (e : Event) (fuel h : ℕ) (items : ℕ → Event)
      → h < n
      → held (update (sift_up fuel e h items).1 (sift_up fuel e h items).0 e) n
        ≡ held (update items h e) n
  unfolding sift_up
  held-sift_up n e zero h items lt = refl
  held-sift_up n e (suc fuel) h items lt = elim (Bool-cases (h == 0)) [
    | inl root ↦ rw root
    | inr inner ↦ elim (Bool-cases (event_less e (items (parent h)))) [
      | inl less ↦
          rw (inner, less)
            (held-sift_up n e fuel (parent h) (update items h (items (parent h))) (ground arith)
              ∙ held-move items n h (parent h) e lt (ground arith) (ground arith))
      | inr stays ↦ rw (inner, stays)
    ]
  ]

  first_child-lt :
      (n h : ℕ) (items : ℕ → Event)
      → h * 2 + 1 < n
      → (first_child n h items < n) × (h < first_child n h items)
  unfolding first_child
  first_child-lt n h items lt = ground arith

  pub held-sift_down :
      (n : ℕ) (e : Event) (fuel h : ℕ) (items : ℕ → Event)
      → h < n
      → held (update (sift_down fuel e n h items).1 (sift_down fuel e n h items).0 e) n
        ≡ held (update items h e) n
  unfolding sift_down
  held-sift_down n e zero h items lt = refl
  held-sift_down n e (suc fuel) h items lt =
      let c = first_child n h items in
      elim (Bool-cases (ltb (h * 2 + 1) n)) [
        | inr leaf ↦ rw leaf
        | inl inner ↦ elim (Bool-cases (event_less (items c) e)) [
          | inl less ↦
              let child = first_child-lt n h items (ground arith) in
              rw (inner, less)
                (held-sift_down n e fuel c (update items h (items c)) child.0
                  ∙ held-move items n h c e lt child.0 (omega (arith, child.1)))
          | inr stays ↦ rw (inner, stays)
        ]
      ]

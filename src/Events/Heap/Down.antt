-- ===== src/Events/Heap/Down.antt =====
-- The loop of `dspic33_reorder_events` and `event_pop`: moving a hole down the heap.
use dspic33e_sim.Prelude.{ℕ, zero, suc, ◌+◌, ◌*◌, ◌≤◌, ◌<◌, ◌≡◌, ◌≢◌, Bool, arith}
use dspic33e_sim.Prelude.{true, ◌==◌, ltb, Bool-cases, inl, inr, ◌&&◌, ==_iff}
use dspic33e_sim.Device.State.{Event, update}
use dspic33e_sim.Events.Loops.{event_less, first_child, sift_down}
use dspic33e_sim.Events.Order.{NotAfter, IsUniform, IsUniform-trans, event_less_asym}
use dspic33e_sim.Events.Heap.{parent, IsHeapFrom}

-- From `low` on a heap of `n` events but for the hole `h`, into which `e` fits as far as the part
-- above goes.
pub record DownHole (kind : ℕ → Bool) (low n h : ℕ) (e : Event) (items : ℕ → Event) : Type 0 where
  pub inside : low ≤ h
  pub apart :
      (j : ℕ)
      → 0 < j
      → j < n
      → low ≤ parent j
      → j ≢ h
      → parent j ≢ h
      → NotAfter (items (parent j)) (items j)
  pub above : 0 < h → low ≤ parent h → NotAfter (items (parent h)) e
  pub around :
      0 < h
      → low ≤ parent h
      → (j : ℕ) → 0 < j
      → j < n
      → parent j ≡ h
      → NotAfter (items (parent h)) (items j)
  pub uniform : (j : ℕ) → j < n → j ≢ h → IsUniform kind (items j)

-- A child of `h` that the other one does not come before.
record IsFirstChild (n h : ℕ) (items : ℕ → Event) (c : ℕ) : Type 0 where
  pos : 0 < c
  inside : c < n
  of_hole : parent c ≡ h
  first : (j : ℕ) → 0 < j → j < n → parent j ≡ h → j ≢ c → NotAfter (items c) (items j)

first_child-IsFirstChild :
    (n h : ℕ) (items : ℕ → Event) → h * 2 + 1 < n → IsFirstChild n h items (first_child n h items)
unfolding first_child
first_child-IsFirstChild n h items lt = elim (Bool-cases right) [
  | inl yes_right ↦ rw yes_right (record {
    pos = omega arith;
    inside = ground arith;
    of_hole = omega arith;
    first = λ j a b c d.
        let left : j ≡ h * 2 + 1 = omega arith in rw left (event_less_asym _ _ (ground arith));
  })
  | inr not_right ↦ rw not_right (record {
    pos = omega arith;
    inside = lt;
    of_hole = omega arith;
    first =
        λ j a b c d. let on_right : j ≡ h * 2 + 1 + 1 = omega arith in rw on_right (ground arith);
  })
]
  where
    right : Bool
    right = ltb (h * 2 + 1 + 1) n && event_less (items (h * 2 + 1 + 1)) (items (h * 2 + 1))

module _ (kind : ℕ → Bool) (low n : ℕ) (e : Event) (ue : IsUniform kind e) where
  -- The hole filled where `e` does not come after a child.
  fill :
      (h : ℕ) (items : ℕ → Event)
      → DownHole kind low n h e items
      → ((j : ℕ) → 0 < j → j < n → parent j ≡ h → NotAfter e (items j))
      → IsHeapFrom low n (update items h e)
  fill h items hole children j pos lt from =
      ground (arith, hole.apart j pos lt from, hole.above, children j pos lt)

  -- Where `e` does not come after the first child it does not come after the other.
  below :
      (h c : ℕ) (items : ℕ → Event)
      → DownHole kind low n h e items
      → IsFirstChild n h items c
      → NotAfter e (items c)
      → (j : ℕ) → 0 < j
      → j < n
      → parent j ≡ h
      → NotAfter e (items j)
  below h c items hole child stays j a b q = elim (Bool-cases (c == j)) [
    | inl same ↦ rw (← (==_iff c j).0 same) stays
    | inr other ↦
        IsUniform-trans kind e (items c) (items j) ue
          (hole.uniform c child.inside (omega (arith, child.of_hole, child.pos)))
          (hole.uniform j b (omega arith)) stays (child.first j a b q (ground arith))
  ]

  -- One move down.
  sink :
      (h c : ℕ) (items : ℕ → Event)
      → DownHole kind low n h e items
      → IsFirstChild n h items c
      → event_less (items c) e ≡ true
      → DownHole kind low n c e (update items h (items c))
  sink h c items hole child less = record {
    inside = omega (arith, hole.inside, child.of_hole);
    apart = λ j a b l d q. ground (
      arith,
      hole.inside,
      child.of_hole,
      hole.apart j a b l,
      λ (p : 0 < h) (q : low ≤ parent h). hole.around p q c child.pos child.inside child.of_hole,
      child.first j a b,
      child.pos,
      child.inside,
    );
    above = λ a l. ground (arith, child.of_hole, event_less_asym (items c) e less);
    around = λ a l j p b q. ground (arith, hole.inside, child.of_hole, child.pos, hole.apart j p b);
    uniform = λ j a b. elim (Bool-cases (h == j)) [
      | inl same ↦ rw same (hole.uniform c child.inside (omega (arith, child.of_hole, child.pos)))
      | inr other ↦ rw other (hole.uniform j a (ground arith))
    ];
  }

  pub sift_down-IsHeapFrom :
      (fuel h : ℕ) (items : ℕ → Event)
      → n ≤ h + fuel
      → DownHole kind low n h e items
      → IsHeapFrom low n (update (sift_down fuel e n h items).1 (sift_down fuel e n h items).0 e)
  unfolding sift_down
  sift_down-IsHeapFrom zero h items le hole = fill h items hole (λ j a b c. absurd (omega arith))
  sift_down-IsHeapFrom (suc fuel) h items le hole = elim (Bool-cases (ltb (h * 2 + 1) n)) [
    | inr leaf ↦ rw leaf (fill h items hole (λ j a b c. absurd (ground arith)))
    | inl inner ↦
        let c = first_child n h items in
        let child : IsFirstChild n h items c = first_child-IsFirstChild n h items (ground arith) in
        elim (Bool-cases (event_less (items c) e)) [
          | inl less ↦
              rw (inner, less)
                (sift_down-IsHeapFrom fuel c (update items h (items c))
                  (omega (arith, child.of_hole, child.pos)) (sink h c items hole child less))
          | inr stays ↦ rw (inner, stays) (fill h items hole (below h c items hole child stays))
        ]
  ]

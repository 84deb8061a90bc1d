-- ===== src/Interrupts/Select.antt =====
-- `select_interrupt` finds the best request, and its first loop hides none.
use native.Mathlib.Nat.{pow-le-pow_right}
use dspic33e_sim.Prelude.{
  ℕ, zero, suc, ◌+◌, ◌*◌, ◌/◌, ◌%◌, ◌^◌, ◌≤◌, ◌<◌, ◌≡◌, ◌≢◌, Bool, true, false, arith,
}
use dspic33e_sim.Prelude.{◌⊎◌, inl, inr, refl, sym, Bool-cases, ltb, ◌==◌, ◌&&◌, bit_and}
use dspic33e_sim.Prelude.{some, u16, ==_iff, ap}
use dspic33e_sim.Bits.{common_bit}
use dspic33e_sim.Device.State.{Dspic33}
use dspic33e_sim.Device.Memory.{raw_word}
use dspic33e_sim.Interrupts.{
  Best, best_of, candidate, interrupt_priority, current_priority, irq_count,
}
use dspic33e_sim.Interrupts.{
  interrupt_pending, select_interrupt, served, requested, interrupt_enabled, interrupt_mask,
}
use dspic33e_sim.Interrupts.{enable_address, status_address}

module _ (cpu : Dspic33) where
  -- Whether round `n` changes the best so far.
  better : ℕ → Bool
  better n = candidate cpu n && ltb (best_of cpu n).priority (interrupt_priority cpu n)

  best_of-better :
      (n : ℕ)
      → better n ≡ true
      → best_of cpu (suc n) ≡ record { interrupt = n; priority = interrupt_priority cpu n }
  unfolding best_of better
  best_of-better n h = rw h

  best_of-worse : (n : ℕ) → better n ≡ false → best_of cpu (suc n) ≡ best_of cpu n
  unfolding best_of better
  best_of-worse n h = rw h

  -- What the rounds before `n` guarantee of the best so far.
  record IsBestOf (n : ℕ) (best : Best) : Type 0 where
    found :
        ((best.interrupt ≡ irq_count) × (best.priority ≡ current_priority cpu))
        ⊎ ((best.interrupt < n)
            × (candidate cpu best.interrupt ≡ true)
            × (best.priority ≡ interrupt_priority cpu best.interrupt)
            × (current_priority cpu < best.priority))
    at_most :
        (j : ℕ)
        → j < n
        → candidate cpu j ≡ true
        → (interrupt_priority cpu j < best.priority)
          ⊎ ((interrupt_priority cpu j ≡ best.priority) × (best.interrupt ≤ j))
          ⊎ (interrupt_priority cpu j ≤ current_priority cpu)

  found_better :
      (n : ℕ)
      → IsBestOf n (best_of cpu n)
      → better n ≡ true
      → IsBestOf (suc n) (record { interrupt = n; priority = interrupt_priority cpu n })
  unfolding better
  found_better n before improves = record {
    found = inr (ground (arith, before.found));
    at_most = λ j lt c. elim (Bool-cases (j == n)) [
      | inl last ↦
          let same = (==_iff j n).0 last in
          inr (inl (ap (interrupt_priority cpu) same, omega (arith, same)))
      | inr earlier ↦ ground (arith, before.at_most j (ground arith) c)
    ];
  }

  kept : (n : ℕ) → IsBestOf n (best_of cpu n) → better n ≡ false → IsBestOf (suc n) (best_of cpu n)
  unfolding better
  kept n before stays = record {
    found = ground (arith, before.found);
    at_most = λ j lt c. elim (Bool-cases (j == n)) [
      | inl last ↦
          let same = (==_iff j n).0 last in
          let now : candidate cpu n ≡ true = rw same at c in rw same (ground (arith, before.found))
      | inr earlier ↦ before.at_most j (ground arith) c
    ];
  }

  best_of-IsBestOf : (n : ℕ) → IsBestOf n (best_of cpu n)
  unfolding best_of
  best_of-IsBestOf zero = record {
    found = inl (refl, refl);
    at_most = λ j lt. absurd (omega arith);
  }
  best_of-IsBestOf (suc n) = elim (Bool-cases (better n)) [
    | inl improves ↦ rw (best_of-better n improves) (found_better n (best_of-IsBestOf n) improves)
    | inr stays ↦ rw (best_of-worse n stays) (kept n (best_of-IsBestOf n) stays)
  ]

  candidate-enabled : (j : ℕ) → candidate cpu j ≡ true → interrupt_enabled cpu j ≡ true
  unfolding candidate
  candidate-enabled j h = ground arith

  mask_lem : (j : ℕ) → interrupt_mask j ≡ 2 ^ (j % 16)
  mask_lem j =
      omega (arith, pow-le-pow_right {n = 2} (omega arith) {i = j % 16} {j = 15} (omega arith))

  enabled-words :
      (j : ℕ)
      → interrupt_enabled cpu j ≡ true
      → bit_and (raw_word cpu (status_address j)) (raw_word cpu (enable_address j)) ≢ 0
  unfolding interrupt_enabled
  enabled-words j h =
      common_bit (j % 16) (raw_word cpu (status_address j)) (raw_word cpu (enable_address j))
        (rw (sym (mask_lem j)) (ground arith)) (rw (sym (mask_lem j)) (ground arith))

  -- A request that is enabled makes its group count.
  group_requested :
      (n j : ℕ) → j < n * 16 → n ≤ 9 → interrupt_enabled cpu j ≡ true → requested cpu n ≡ true
  unfolding requested
  group_requested zero j lt le h = absurd (omega arith)
  group_requested (suc n) j lt le h = elim (Bool-cases (j / 16 == n)) [
    | inl last ↦
        let group = (==_iff (j / 16) n).0 last in
        let status : status_address j ≡ u16 (0x0800 + u16 (n * 2)) = omega (arith, group) in
        let enable : enable_address j ≡ u16 (0x0820 + u16 (n * 2)) = omega (arith, group) in
        let words = rw (status, enable) at (enabled-words j h) in ground (arith, words)
    | inr earlier ↦ ground (arith, group_requested n j (ground arith) (omega arith) h)
  ]

  chosen :
      (best : Best)
      → select_interrupt cpu ≡ some best
      → (best.interrupt < irq_count)
        × (candidate cpu best.interrupt ≡ true)
        × (best.priority ≡ interrupt_priority cpu best.interrupt)
        × (current_priority cpu < best.priority)
  unfolding select_interrupt
  chosen best selected = let all = best_of-IsBestOf irq_count in ground (arith, selected, all.found)

  -- If `select_interrupt` chooses an interrupt, that is a candidate above the processor's priority.
  -- Any number `j` is none of an interrupt, or of one that is no candidate, or of one with a lower
  -- priority than the chosen one, or of one with the same priority and no lower number.
  pub select_interrupt_best :
      (best : Best) (j : ℕ)
      → select_interrupt cpu ≡ some best
      → (best.interrupt < irq_count)
        × (candidate cpu best.interrupt ≡ true)
        × (best.priority ≡ interrupt_priority cpu best.interrupt)
        × (current_priority cpu < best.priority)
        × ((irq_count ≤ j)
            ⊎ (candidate cpu j ≡ false)
            ⊎ (interrupt_priority cpu j < best.priority)
            ⊎ ((interrupt_priority cpu j ≡ best.priority) × (best.interrupt ≤ j)))
  unfolding select_interrupt
  select_interrupt_best best j selected =
      let all = best_of-IsBestOf irq_count in
      let (lt, c, same, above) = chosen best selected in
      (
        lt,
        c,
        same,
        above,
        elim (Bool-cases (ltb j irq_count && candidate cpu j)) [
          | inl rival ↦
              ground (arith, selected, all.found, all.at_most j (ground arith) (ground arith))
          | inr other ↦ ground (arith, other)
        ],
      )

  select_interrupt-some :
      served cpu ≡ true
      → requested cpu 9 ≡ true
      → ((best_of cpu irq_count).interrupt == irq_count) ≡ false
      → select_interrupt cpu ≡ some (best_of cpu irq_count)
  unfolding select_interrupt
  select_interrupt-some gates seen chosen = rw (gates, seen, chosen)

  -- With interrupts served, a candidate above the processor's priority makes `select_interrupt`
  -- choose one.
  pub select_interrupt_total :
      (j : ℕ)
      → served cpu ≡ true
      → j < irq_count
      → candidate cpu j ≡ true
      → current_priority cpu < interrupt_priority cpu j
      → interrupt_pending cpu ≡ true
  unfolding interrupt_pending
  select_interrupt_total j gates lt c above =
      let all = best_of-IsBestOf irq_count in
      let seen = group_requested 9 j (omega arith) (omega arith) (candidate-enabled j c) in
      let chosen : ((best_of cpu irq_count).interrupt == irq_count) ≡ false =
        ground (arith, all.found, all.at_most j lt c) in
      rw (interrupt_pending, select_interrupt-some gates seen chosen)

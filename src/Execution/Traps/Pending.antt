-- ===== src/Execution/Traps/Pending.antt =====
-- A soft trap waits in one slot at most.
use dspic33e_sim.Prelude.{ℕ, zero, suc, ◌+◌, ◌≤◌, ◌<◌, ◌≡◌, ◌≢◌, refl, sym, ◌∙◌, arith}
use dspic33e_sim.Prelude.{Bool, true, false, Bool-cases, inl, inr}
use dspic33e_sim.Prelude.{Option, none, some, ◌==◌, ◌&&◌}
use dspic33e_sim.Device.State.{Dspic33, PendingSoftTrap, update}
use dspic33e_sim.Execution.Traps.{
  PendingTraps, slot_of, free_slot, hasten_trap, schedule_soft_trap, set_trap_source,
  advance_pending_soft_traps, without_trap, with_trap,
}

-- Two active slots are for different traps.
pub record IsDistinct (traps : PendingTraps) : Type 0 where
  pub same_slot :
      (i j : ℕ)
      → i < 4
      → j < 4
      → (traps i).is_active ≡ true
      → (traps j).is_active ≡ true
      → (traps i).trap ≡ (traps j).trap
      → i ≡ j

slot_of-some :
    (traps : PendingTraps) (trap i n k : ℕ)
    → slot_of traps trap i n ≡ some k
    → (k < i + n) × ((traps k).is_active ≡ true) × ((traps k).trap ≡ trap)
unfolding slot_of
slot_of-some traps trap i zero k h = cc
slot_of-some traps trap i (suc n) k h =
    elim (Bool-cases ((traps i).is_active && (traps i).trap == trap)) [
      | inl here ↦ let found : k ≡ i = ground (arith, h) in rw found (ground (arith, here))
      | inr elsewhere ↦
          let later : slot_of traps trap (i + 1) n ≡ some k = ground (arith, h) in
          let (lt, on, same) = slot_of-some traps trap (i + 1) n k later in (omega arith, on, same)
    ]

slot_of-none :
    (traps : PendingTraps) (trap i n k : ℕ)
    → slot_of traps trap i n ≡ none
    → i ≤ k
    → k < i + n
    → (traps k).is_active ≡ true
    → (traps k).trap ≢ trap
unfolding slot_of
slot_of-none traps trap i zero k h ge lt on = absurd (omega arith)
slot_of-none traps trap i (suc n) k h ge lt on = elim (Bool-cases (k == i)) [
  | inl here ↦ let found : k ≡ i = ground arith in λ same. ground arith
  | inr elsewhere ↦
      let later : slot_of traps trap (i + 1) n ≡ none = ground (arith, h) in
      slot_of-none traps trap (i + 1) n k later (ground arith) (omega arith) on
]

free_slot-some :
    (traps : PendingTraps) (i n k : ℕ)
    → free_slot traps i n ≡ some k
    → (k < i + n) × ((traps k).is_active ≡ false)
unfolding free_slot
free_slot-some traps i zero k h = cc
free_slot-some traps i (suc n) k h = elim (Bool-cases (traps i).is_active) [
  | inl taken ↦
      let later : free_slot traps (i + 1) n ≡ some k = ground (arith, h) in
      let (lt, off) = free_slot-some traps (i + 1) n k later in (omega arith, off)
  | inr free ↦ let found : k ≡ i = ground (arith, h) in rw found (ground (arith, free))
]

-- A change that starts no trap and moves none keeps the slots distinct.
fewer-IsDistinct :
    (old new : PendingTraps)
    → IsDistinct old
    → ((i : ℕ) → i < 4 → (new i).is_active ≡ true → (old i).is_active ≡ true)
    → ((i : ℕ) → i < 4 → (new i).trap ≡ (old i).trap)
    → IsDistinct new
fewer-IsDistinct old new d on same = record {
  same_slot = λ i j i-lt j-lt i-on j-on traps.
      d.same_slot i j i-lt j-lt (on i i-lt i-on) (on j j-lt j-on)
        (sym (same i i-lt) ∙ traps ∙ same j j-lt);
}

-- A trap that no slot waits for is put into a slot.
added-IsDistinct :
    (old : PendingTraps) (k : ℕ) (added : PendingSoftTrap)
    → IsDistinct old
    → ((i : ℕ) → i < 4 → (old i).is_active ≡ true → (old i).trap ≢ added.trap)
    → IsDistinct (update old k added)
added-IsDistinct old k added d fresh = record {
  same_slot = λ i j i-lt j-lt i-on j-on traps. elim (Bool-cases (k == i)) [
    | inl ki ↦ elim (Bool-cases (k == j)) [
      | inl kj ↦ ground arith
      | inr other ↦
          let on : (old j).is_active ≡ true = ground arith in
          absurd (fresh j j-lt on (ground arith))
    ]
    | inr other ↦
        let on : (old i).is_active ≡ true = ground arith in
        elim (Bool-cases (k == j)) [
          | inl kj ↦ absurd (fresh i i-lt on (ground arith))
          | inr apart ↦ d.same_slot i j i-lt j-lt on (ground arith) (ground arith)
        ]
  ];
}

hasten_trap-same :
    (cpu : Dspic33) (index delay : ℕ)
    → ((hasten_trap cpu index delay).is_active ≡ (cpu.pending_soft_traps index).is_active)
      × ((hasten_trap cpu index delay).trap ≡ (cpu.pending_soft_traps index).trap)
hasten_trap-same cpu index delay = ground arith

with_trap-IsDistinct :
    (cpu : Dspic33) (added : PendingSoftTrap) (slot available : Option ℕ)
    → IsDistinct cpu.pending_soft_traps
    → slot_of cpu.pending_soft_traps added.trap 0 4 ≡ slot
    → IsDistinct (with_trap cpu added slot available)
unfolding with_trap
with_trap-IsDistinct cpu added (some k) available d waits =
    let (same_on, same_trap) = hasten_trap-same cpu k added.delay in
    fewer-IsDistinct cpu.pending_soft_traps
      (update cpu.pending_soft_traps k (hasten_trap cpu k added.delay)) d
      (λ i lt on. elim (Bool-cases (k == i)) [
        | inl here ↦ ground (arith, same_on)
        | inr other ↦ ground arith
      ])
      (λ i lt. elim (Bool-cases (k == i)) [
        | inl here ↦ ground (arith, same_trap)
        | inr other ↦ ground arith
      ])
with_trap-IsDistinct cpu added none none d new = d
with_trap-IsDistinct cpu added none (some k) d new =
    added-IsDistinct cpu.pending_soft_traps k added d
      (λ i lt on. slot_of-none cpu.pending_soft_traps added.trap 0 4 i new (omega arith) lt on)

-- Scheduling a soft trap keeps the traps that wait distinct.
pub schedule_soft_trap-IsDistinct :
    (cpu : Dspic33) (trap vector priority delay : ℕ)
    → IsDistinct cpu.pending_soft_traps
    → IsDistinct (schedule_soft_trap cpu trap vector priority delay).pending_soft_traps
unfolding schedule_soft_trap
schedule_soft_trap-IsDistinct cpu trap vector priority delay d =
    with_trap-IsDistinct cpu _ _ _ d refl

-- Switching a source on or off keeps them distinct, and so does the passing of cycles.
pub set_trap_source-IsDistinct :
    (cpu : Dspic33) (trap vector priority delay : ℕ) (is_on : Bool)
    → IsDistinct cpu.pending_soft_traps
    → IsDistinct (set_trap_source cpu trap vector priority delay is_on).pending_soft_traps
unfolding set_trap_source
set_trap_source-IsDistinct cpu trap vector priority delay true d =
    schedule_soft_trap-IsDistinct cpu trap vector priority delay d
set_trap_source-IsDistinct cpu trap vector priority delay false d =
    fewer-IsDistinct cpu.pending_soft_traps (without_trap cpu.pending_soft_traps trap) d
      (λ i lt on. ground arith) (λ i lt. ground arith)

pub advance_pending_soft_traps-IsDistinct :
    (cpu : Dspic33) (cycles : ℕ)
    → IsDistinct cpu.pending_soft_traps
    → IsDistinct (advance_pending_soft_traps cpu cycles).pending_soft_traps
unfolding advance_pending_soft_traps
advance_pending_soft_traps-IsDistinct cpu cycles d =
    fewer-IsDistinct cpu.pending_soft_traps
      (advance_pending_soft_traps cpu cycles).pending_soft_traps d (λ i lt on. ground arith)
      (λ i lt. ground arith)

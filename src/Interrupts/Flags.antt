-- ===== src/Interrupts/Flags.antt =====
-- What `dspic33_raise_interrupt` does to the flags, and to the state of nested DO loops.
use native.Mathlib.Nat.{one-le-pow, pow-le-pow_right, le-div_iff_mul-le}
use dspic33e_sim.Prelude.{ℕ, ◌-◌, ◌*◌, ◌/◌, ◌%◌, ◌^◌, ◌<◌, ◌≡◌, ◌≢◌, Bool, true, false, arith}
use dspic33e_sim.Prelude.{
  ◌>>>◌, true≢false, inl, inr, sym, Bool-cases, ltb, leb, ◌==◌, ◌!=◌, if◌then◌else◌, ◌||◌,
}
use dspic33e_sim.Prelude.{bit_and, bit_or, u16, uint64_max, ==_iff, ◌∙◌, min}
use dspic33e_sim.Bits.{set_bit_same, set_bit_other, bit_or-lt}
use dspic33e_sim.Device.State.{Dspic33}
use dspic33e_sim.Device.Memory.{
  raw_word, raw_write_word, raw_word-lt, raw_word-raw_write_word, raw_word-raw_write_word_ne,
}
use dspic33e_sim.Interrupts.{
  raise_interrupt, update_nested_do_interrupt_request, arm_nested_do, disarm_nested_do,
}
use dspic33e_sim.Interrupts.{
  interrupt_mask, status_address, irq_count, instruction_cycles, doze_ratio, main_clock_divisor,
}

-- The flag of an interrupt.
abbrev pub flagged : Dspic33 → ℕ → Bool
flagged cpu interrupt_number =
    bit_and (raw_word cpu (status_address interrupt_number)) (interrupt_mask interrupt_number) != 0

mask_lem : (j : ℕ) → interrupt_mask j ≡ 2 ^ (j % 16)
mask_lem j =
    omega (arith, pow-le-pow_right {n = 2} (omega arith) {i = j % 16} {j = 15} (omega arith))

-- Noting or forgetting a request at the end of a DO loop leaves the memory alone.
update_nested-data :
    (cpu : Dspic33) (n : ℕ) → (update_nested_do_interrupt_request cpu n).data_bytes ≡ cpu.data_bytes
unfolding update_nested_do_interrupt_request arm_nested_do disarm_nested_do
update_nested-data cpu n = ground arith

-- The word written by `dspic33_raise_interrupt`.
written : Dspic33 → ℕ → Dspic33
written cpu n =
    raw_write_word cpu (status_address n)
      (u16 (bit_or (raw_word cpu (status_address n)) (interrupt_mask n)))

raise-data :
    (cpu : Dspic33) (n : ℕ)
    → n < irq_count
    → (raise_interrupt cpu n).data_bytes ≡ (written cpu n).data_bytes
unfolding raise_interrupt written
raise-data cpu n lt = ground (arith, update_nested-data (written cpu n) n)

word_of_data : (c d : Dspic33) → c.data_bytes ≡ d.data_bytes → (a : ℕ) → raw_word c a ≡ raw_word d a
unfolding raw_word
word_of_data c d same a = rw same

same_group :
    (cpu : Dspic33) (n j : ℕ)
    → n < irq_count
    → j < irq_count
    → j / 16 ≡ n / 16
    → flagged (written cpu n) j ≡ (j == n || flagged cpu j)
unfolding written
same_group cpu n j ln lj same =
    let w = raw_word cpu (status_address n) in
    let address : status_address j ≡ status_address n = omega (arith, same) in
    let set = bit_or w (2 ^ (n % 16)) in
    let small : set < 65536 =
      bit_or-lt 16 w (2 ^ (n % 16)) (raw_word-lt cpu (status_address n))
        (ground (arith, mask_lem n)) in
    let stored : raw_word (raw_write_word cpu (status_address n) (u16 set)) (status_address n)
        ≡ set =
      raw_word-raw_write_word cpu (status_address n) (u16 set) (omega arith) ∙ omega arith in
    rw (address, mask_lem n, mask_lem j, stored)
      (elim (Bool-cases (j == n)) [
        | inl it ↦
            let same_bit = (==_iff j n).0 it in
            rw same_bit (ground (arith, set_bit_same w (n % 16)))
        | inr not_it ↦ rw (not_it, set_bit_other w (n % 16) (j % 16) (ground arith))
      ])

other_group :
    (cpu : Dspic33) (n j : ℕ)
    → n < irq_count
    → j < irq_count
    → j / 16 ≢ n / 16
    → flagged (written cpu n) j ≡ (j == n || flagged cpu j)
unfolding written
other_group cpu n j ln lj apart =
    let different : (j == n) ≡ false = ground arith in
    rw (
      raw_word-raw_write_word_ne cpu (status_address n) (status_address j) _ (omega arith)
          (omega arith) (omega arith) (omega arith) (omega arith),
      different,
    )

-- Of the interrupts below 143, `dspic33_raise_interrupt` sets the flag of the one and no other.
pub raise_interrupt_flags :
    (cpu : Dspic33) (n j : ℕ)
    → n < irq_count
    → j < irq_count
    → flagged (raise_interrupt cpu n) j ≡ (j == n || flagged cpu j)
raise_interrupt_flags cpu n j ln lj =
    rw
      (word_of_data (raise_interrupt cpu n) (written cpu n) (raise-data cpu n ln)
        (status_address j))
      (elim (Bool-cases (j / 16 == n / 16)) [
        | inl same ↦ same_group cpu n j ln lj ((==_iff (j / 16) (n / 16)).0 same)
        | inr apart ↦ other_group cpu n j ln lj (ground arith)
      ])

update_arms :
    (cpu : Dspic33) (n : ℕ)
    → cpu.nested_do_interrupt_armed ≡ false
    → (update_nested_do_interrupt_request cpu n).nested_do_interrupt_armed ≡ true
    → (cpu.do_depth ≢ 0)
      × ((update_nested_do_interrupt_request cpu n).nested_do_interrupt_depth ≡ cpu.do_depth)
      × ((update_nested_do_interrupt_request cpu n).nested_do_interrupt_end
          ≡ cpu.do_end (cpu.do_depth - 1))
      × ((update_nested_do_interrupt_request cpu n).nested_do_interrupt_cycle ≡ cpu.device_cycles)
unfolding update_nested_do_interrupt_request arm_nested_do disarm_nested_do
update_arms cpu n idle armed = ground arith

raise-updates :
    (cpu : Dspic33) (n : ℕ)
    → (leb irq_count n || flagged cpu n) ≡ false
    → raise_interrupt cpu n ≡ update_nested_do_interrupt_request (written cpu n) n
unfolding raise_interrupt written
raise-updates cpu n h =
    let inside : leb irq_count n ≡ false = ground arith in
    let clear : (bit_and (raw_word cpu (status_address n)) (interrupt_mask n) == 0) ≡ true =
      ground arith in
    rw (inside, clear)

raise-clear :
    (cpu : Dspic33) (n : ℕ) → (leb irq_count n || flagged cpu n) ≡ false → flagged cpu n ≡ false
raise-clear cpu n h = ground arith

raise-skips :
    (cpu : Dspic33) (n : ℕ)
    → (leb irq_count n || flagged cpu n) ≡ true
    → (raise_interrupt cpu n).nested_do_interrupt_armed ≡ cpu.nested_do_interrupt_armed
unfolding raise_interrupt raw_write_word
raise-skips cpu n h = elim (Bool-cases (leb irq_count n)) [
  | inl outside ↦ rw outside
  | inr inside ↦
      let set : (bit_and (raw_word cpu (status_address n)) (interrupt_mask n) == 0) ≡ false =
        ground arith in
      rw (inside, set)
]

-- Where `dspic33_raise_interrupt` arms the watch on a nested DO loop, the interrupt's flag was
-- clear, a loop runs, and the watch notes the innermost loop, its end, and the time.
pub raise_interrupt_arms :
    (cpu : Dspic33) (n : ℕ)
    → cpu.nested_do_interrupt_armed ≡ false
    → (raise_interrupt cpu n).nested_do_interrupt_armed ≡ true
    → (flagged cpu n ≡ false)
      × (cpu.do_depth ≢ 0)
      × ((raise_interrupt cpu n).nested_do_interrupt_depth ≡ cpu.do_depth)
      × ((raise_interrupt cpu n).nested_do_interrupt_end ≡ cpu.do_end (cpu.do_depth - 1))
      × ((raise_interrupt cpu n).nested_do_interrupt_cycle ≡ cpu.device_cycles)
unfolding written raw_write_word
raise_interrupt_arms cpu n idle armed = elim (Bool-cases (leb irq_count n || flagged cpu n)) [
  | inl skipped ↦ absurd (true≢false (sym armed ∙ raise-skips cpu n skipped ∙ idle))
  | inr raised ↦
      let same = raise-updates cpu n raised in
      let (running, depth, end, cycle) = update_arms (written cpu n) n idle (rw same at armed) in
      rw same (raise-clear cpu n raised, running, depth, end, cycle)
]

saturated :
    (ratio cycles : ℕ)
    → 0 < ratio
    → (if ltb (uint64_max / ratio) cycles then uint64_max else cycles * ratio)
      ≡ min uint64_max (cycles * ratio)
saturated ratio cycles pos = elim (Bool-cases (ltb (uint64_max / ratio) cycles)) [
  | inl much ↦
      rw much (ground (arith, (le-div_iff_mul-le {k = ratio} {x = cycles} {y = uint64_max} pos).1))
  | inr fits ↦
      rw fits (ground (arith, (le-div_iff_mul-le {k = ratio} {x = cycles} {y = uint64_max} pos).0))
]

doze_ratio-pos : (cpu : Dspic33) → 0 < doze_ratio cpu
unfolding doze_ratio
doze_ratio-pos cpu = elim (Bool-cases (bit_and (raw_word cpu main_clock_divisor) 0x0800 != 0)) [
  | inl dozes ↦ rw dozes (
      omega
        (arith, one-le-pow (bit_and (raw_word cpu main_clock_divisor >>> 12) 7) 2 (omega arith)))
  | inr awake ↦ rw awake (omega arith)
]

-- In doze mode an instruction takes 2^DOZE cycles for each of its own, and a product that does not
-- fit stops at the greatest 64-bit number.
pub instruction_cycles_saturates :
    (cpu : Dspic33) (cycles : ℕ)
    → instruction_cycles cpu cycles ≡ min uint64_max (cycles * doze_ratio cpu)
unfolding instruction_cycles
instruction_cycles_saturates cpu cycles = saturated (doze_ratio cpu) cycles (doze_ratio-pos cpu)

-- ===== src/Crc/Run.antt =====
-- A run of the CRC module comes nearer to its end.
use dspic33e_sim.Prelude.{ℕ, zero, suc, ◌+◌, ◌-◌, ◌*◌, ◌<◌, ◌≡◌, ◌⊎◌, refl, ap, ◌∙◌, arith}
use dspic33e_sim.Prelude.{
  Bool, true, false, ◌==◌, ◌!=◌, ◌&&◌, ◌||◌, not, Bool-cases, inl, inr, u8, bit_and, bit_or,
}
use dspic33e_sim.Device.State.{Dspic33, Crc}
use dspic33e_sim.Device.Memory.{raw_word}
use dspic33e_sim.Crc.{run_crc, crc_run_shift, crc_load_shift_data, crc_shift_bits, crc_paused}
use dspic33e_sim.Crc.{
  crc_finish, crc_schedule, crc_data_width, shift_loop, shift_bit, bit_done, crc_control,
}
use dspic33e_sim.Crc.{crc_enable, crc_go}
use dspic33e_sim.Crc.Frame.{crc_load_shift_data-crc, crc_finish-crc, crc_schedule-crc}
use dspic33e_sim.Crc.Fifo.{IsBuffer}
use dspic33e_sim.Crc.Load.{crc_data_width-le, crc_take_word-fields}
use dspic33e_sim.Crc.Cycle.{crc_shift_bits-crc, crc_remainder}

-- The bits that are left, with 32 for each word that waits.
unfoldable pub pending : Crc → ℕ
pending crc = crc.bits_remaining + 32 * crc.count

shift_loop-crc :
    (n : ℕ) (crc : Crc) (r : ℕ)
    → crc.bits_remaining < 256
    → (shift_loop n crc r).0 ≡ record crc { bits_remaining = crc.bits_remaining - n }
unfolding shift_loop
shift_loop-crc zero crc r lt = ap (λ k. record crc { bits_remaining = k }) (omega arith)
shift_loop-crc (suc n) crc r lt = elim (Bool-cases (crc.bits_remaining == 0)) [
  | inl stops ↦ rw stops (ap (λ k. record crc { bits_remaining = k }) (ground arith))
  | inr goes_on ↦
      let less : u8 (crc.bits_remaining + 255) ≡ crc.bits_remaining - 1 = ground arith in
      rw goes_on (
        shift_loop-crc n (bit_done crc) (shift_bit crc r) (omega arith)
        ∙ ap (λ k. record crc { bits_remaining = k }) (omega (arith, less)))
]

-- What a cycle does to the module, as far as its clock goes.
cycle-crc :
    (cpu : Dspic33)
    → cpu.io.crc.bits_remaining < 256
    → (crc_shift_bits cpu).io.crc
      ≡ record cpu.io.crc { bits_remaining = cpu.io.crc.bits_remaining - 2 }
cycle-crc cpu lt = crc_shift_bits-crc cpu ∙ shift_loop-crc 2 cpu.io.crc (crc_remainder cpu) lt

pending-cycle :
    (cpu : Dspic33)
    → cpu.io.crc.bits_remaining < 256
    → pending (crc_shift_bits cpu).io.crc ≡ cpu.io.crc.bits_remaining - 2 + 32 * cpu.io.crc.count
unfolding pending
pending-cycle cpu lt = rw (cycle-crc cpu lt)

-- `dspic33_device_internal_run_crc` ignores the event.
abbrev ignored : Dspic33 → ℕ → Bool
ignored cpu event_generation =
    event_generation != cpu.io.crc.generation
    || not cpu.io.crc.active
    || bit_and (raw_word cpu crc_control) (bit_or crc_enable crc_go) != bit_or crc_enable crc_go

-- The event is the module's present one, and the module is switched on and its clock running.
abbrev pub running : Dspic33 → ℕ → Bool
running cpu event_generation =
    not (ignored cpu event_generation) && not (crc_paused cpu (raw_word cpu crc_control))

both_clear : (a b : Bool) → (not a && not b) ≡ true → (a ≡ false) × (b ≡ false)
both_clear a b h = ground arith

pending-lem : (crc : Crc) → pending crc ≡ crc.bits_remaining + 32 * crc.count
unfolding pending
pending-lem crc = refl

module _ (realloc : ℕ → Bool) where
  finish-inactive : (cpu : Dspic33) (control : ℕ) → (crc_finish cpu control).io.crc.active ≡ false
  finish-inactive cpu control = ap (λ (crc : Crc). crc.active) (crc_finish-crc cpu control)

  schedule-progress :
      (cpu : Dspic33)
      → ((crc_schedule realloc cpu).io.crc.active ≡ false)
        ⊎ (pending (crc_schedule realloc cpu).io.crc ≡ pending cpu.io.crc)
  unfolding pending
  schedule-progress cpu = elim (crc_schedule-crc realloc cpu) [
    | inl goes_on ↦ inr (rw goes_on)
    | inr aborted ↦ inl (rw aborted)
  ]

  run_shift-progress :
      (cpu : Dspic33)
      → cpu.io.crc.bits_remaining < 256
      → ((crc_run_shift realloc cpu).io.crc.active ≡ false)
        ⊎ (pending (crc_run_shift realloc cpu).io.crc
            ≡ cpu.io.crc.bits_remaining - 2 + 32 * cpu.io.crc.count)
  unfolding crc_run_shift
  run_shift-progress cpu lt =
      let shifted = crc_shift_bits cpu in
      elim (Bool-cases (shifted.io.crc.bits_remaining == 0 && shifted.io.crc.count == 0)) [
        | inl over ↦ inl (rw over (finish-inactive shifted (raw_word shifted crc_control)))
        | inr more ↦ rw more (elim (schedule-progress shifted) [
          | inl aborted ↦ inl aborted
          | inr same ↦ inr (same ∙ pending-cycle cpu lt)
        ])
      ]

  module _ (cpu : Dspic33) (event_generation : ℕ) (runs : running cpu event_generation ≡ true) where
    run_crc-shifts :
        (cpu.io.crc.bits_remaining != 0) ≡ true
        → run_crc realloc cpu event_generation ≡ crc_run_shift realloc cpu
    unfolding run_crc
    run_crc-shifts some_bits =
        let (heard, clocked) = both_clear (ignored cpu event_generation) _ runs in
        rw (heard, clocked, some_bits)

    run_crc-ends :
        (cpu.io.crc.bits_remaining != 0) ≡ false
        → (cpu.io.crc.count == 0) ≡ true
        → run_crc realloc cpu event_generation ≡ crc_finish cpu (raw_word cpu crc_control)
    unfolding run_crc
    run_crc-ends no_bits no_words =
        let (heard, clocked) = both_clear (ignored cpu event_generation) _ runs in
        rw (heard, clocked, no_bits, no_words)

    run_crc-loads :
        (cpu.io.crc.bits_remaining != 0) ≡ false
        → (cpu.io.crc.count == 0) ≡ false
        → run_crc realloc cpu event_generation ≡ crc_run_shift realloc (crc_load_shift_data cpu)
    unfolding run_crc
    run_crc-loads no_bits some_words =
        let (heard, clocked) = both_clear (ignored cpu event_generation) _ runs in
        rw (heard, clocked, no_bits, some_words)

  load-progress :
      (cpu : Dspic33)
      → IsBuffer cpu.io.crc
      → (cpu.io.crc.count == 0) ≡ false
      → ((crc_run_shift realloc (crc_load_shift_data cpu)).io.crc.active ≡ false)
        ⊎ (pending (crc_run_shift realloc (crc_load_shift_data cpu)).io.crc < 32 * cpu.io.crc.count)
  load-progress cpu buffer some_words =
      let (shift_data, words, head, count, bits) = crc_take_word-fields cpu in
      let loaded = crc_load_shift_data-crc cpu in
      let bits' : (crc_load_shift_data cpu).io.crc.bits_remaining ≡ crc_data_width cpu =
        rw loaded bits in
      let count' : (crc_load_shift_data cpu).io.crc.count ≡ u8 (cpu.io.crc.count + 255) =
        rw loaded count in
      let width = crc_data_width-le cpu in
      let in_bounds = buffer.count-le in
      elim (run_shift-progress (crc_load_shift_data cpu) (omega (arith, bits', width))) [
        | inl over ↦ inl over
        | inr less ↦ inr (ground (arith, less, bits', count', width))
      ]

  shift-less :
      (cpu : Dspic33)
      → (cpu.io.crc.bits_remaining != 0) ≡ true
      → pending (crc_run_shift realloc cpu).io.crc
        ≡ cpu.io.crc.bits_remaining - 2 + 32 * cpu.io.crc.count
      → pending (crc_run_shift realloc cpu).io.crc
        < cpu.io.crc.bits_remaining + 32 * cpu.io.crc.count
  shift-less cpu some_bits less = ground (arith, less)

  -- An event of the module's present generation, with the module switched on and its clock
  -- running, ends the message or leaves less of it to shift.
  pub run_crc_progress :
      (cpu : Dspic33) (event_generation : ℕ)
      → IsBuffer cpu.io.crc
      → cpu.io.crc.bits_remaining < 256
      → running cpu event_generation ≡ true
      → ((run_crc realloc cpu event_generation).io.crc.active ≡ false)
        ⊎ (pending (run_crc realloc cpu event_generation).io.crc < pending cpu.io.crc)
  run_crc_progress cpu event_generation buffer lt runs =
      elim (Bool-cases (cpu.io.crc.bits_remaining != 0)) [
        | inl some_bits ↦ elim (run_shift-progress cpu lt) [
          | inl over ↦ inl (rw (run_crc-shifts cpu event_generation runs some_bits) over)
          | inr less ↦ inr (
              rw (run_crc-shifts cpu event_generation runs some_bits)
                (rw (pending-lem cpu.io.crc) (shift-less cpu some_bits less)))
        ]
        | inr no_bits ↦ elim (Bool-cases (cpu.io.crc.count == 0)) [
          | inl no_words ↦ inl (
              rw (run_crc-ends cpu event_generation runs no_bits no_words)
                (finish-inactive cpu (raw_word cpu crc_control)))
          | inr some_words ↦
              let same = run_crc-loads cpu event_generation runs no_bits some_words in
              elim (load-progress cpu buffer some_words) [
                | inl over ↦ inl (rw same over)
                | inr less ↦ inr (rw same (omega (arith, less, pending-lem cpu.io.crc)))
              ]
        ]
      ]

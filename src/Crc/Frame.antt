-- ===== src/Crc/Frame.antt =====
-- What the operations of crc.c leave alone.
use dspic33e_sim.Prelude.{
  ℕ, ◌+◌, ◌≡◌, Bool, true, false, arith, refl, ap, ◌⊎◌, ◌&&◌, not, Bool-cases, inl, inr,
}
use dspic33e_sim.Prelude.{bit_and, bit_or, ◌==◌, ◌!=◌, u16}
use dspic33e_sim.Device.State.{Dspic33, Crc, Io, EventType}
use dspic33e_sim.Device.Memory.{raw_word, raw_write_word}
use dspic33e_sim.Events.{schedule}
use dspic33e_sim.Interrupts.Frame.{raise_interrupt-io}
use dspic33e_sim.Events.Frame.{schedule-io}
use dspic33e_sim.Crc.{
  crc_refresh_status, crc_load_shift_data, crc_take_word, with_crc, crc_clear_go,
}
use dspic33e_sim.Crc.{
  crc_abort, crc_schedule, crc_start_if_ready, crc_finish, crc_control, crc_irq, crc_enable, crc_go,
}

pub crc_refresh_status-io : (cpu : Dspic33) → (crc_refresh_status cpu).io ≡ cpu.io
unfolding crc_refresh_status raw_write_word
crc_refresh_status-io cpu = refl

pub crc_load_shift_data-crc : (cpu : Dspic33) → (crc_load_shift_data cpu).io.crc ≡ crc_take_word cpu
unfolding crc_load_shift_data
crc_load_shift_data-crc cpu =
    let loaded = crc_refresh_status (with_crc cpu (crc_take_word cpu)) in
    ground (
      arith,
      raise_interrupt-io loaded crc_irq,
      crc_refresh_status-io (with_crc cpu (crc_take_word cpu)),
    )

pub crc_finish-crc :
    (cpu : Dspic33) (control : ℕ)
    → (crc_finish cpu control).io.crc ≡ record cpu.io.crc { active = false }
unfolding crc_finish crc_clear_go raw_write_word
crc_finish-crc cpu control =
    let stopped = crc_clear_go (with_crc cpu (record cpu.io.crc { active = false })) control in
    ground (arith, raise_interrupt-io stopped crc_irq)

module _ (realloc : ℕ → Bool) where
  -- Scheduling the next cycle leaves the module active with its settings, or aborts it.
  pub crc_schedule-crc :
      (cpu : Dspic33)
      → ((crc_schedule realloc cpu).io.crc ≡ record cpu.io.crc { active = true })
        ⊎ ((crc_schedule realloc cpu).io.crc ≡ record cpu.io.crc {
          generation = u16 (cpu.io.crc.generation + 1);
          active = false;
          bits_remaining = 0;
        })
  unfolding crc_schedule crc_abort crc_clear_go raw_write_word
  crc_schedule-crc cpu =
      let call = schedule realloc cpu EventType.crc 0 cpu.io.crc.generation 1 in
      let same =
        ap (λ (io : Io). io.crc)
          (schedule-io realloc cpu EventType.crc 0 cpu.io.crc.generation 1) in
      elim (Bool-cases call.0) [
        | inl queued ↦
            inl (rw queued (ap {B = Crc} (λ (crc : Crc). record crc { active = true }) same))
        | inr refused ↦ inr (
            rw refused (
              ap {B = Crc}
                (λ (crc : Crc). record crc {
                  generation = u16 (crc.generation + 1);
                  active = false;
                  bits_remaining = 0;
                })
                same))
      ]

  crc_schedule-buffer :
      (cpu : Dspic33)
      → ((crc_schedule realloc cpu).io.crc.words ≡ cpu.io.crc.words)
        × ((crc_schedule realloc cpu).io.crc.head ≡ cpu.io.crc.head)
        × ((crc_schedule realloc cpu).io.crc.count ≡ cpu.io.crc.count)
  crc_schedule-buffer cpu = elim (crc_schedule-crc cpu) [
    | inl active ↦ rw active (refl, refl, refl)
    | inr aborted ↦ rw aborted (refl, refl, refl)
  ]

  -- Starting the module keeps the words that wait.
  pub crc_start_if_ready-buffer :
      (cpu : Dspic33)
      → ((crc_start_if_ready realloc cpu).io.crc.words ≡ cpu.io.crc.words)
        × ((crc_start_if_ready realloc cpu).io.crc.head ≡ cpu.io.crc.head)
        × ((crc_start_if_ready realloc cpu).io.crc.count ≡ cpu.io.crc.count)
  unfolding crc_start_if_ready
  crc_start_if_ready-buffer cpu =
      elim (Bool-cases (
        bit_and (raw_word cpu crc_control) (bit_or crc_enable crc_go) == bit_or crc_enable crc_go
        && not cpu.io.crc.active
        && cpu.io.crc.count != 0)) [
          | inl ready ↦ rw ready (crc_schedule-buffer cpu)
          | inr not_ready ↦ rw not_ready (refl, refl, refl)
        ]

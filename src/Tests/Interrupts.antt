-- ===== src/Tests/Interrupts.antt =====
-- Interrupt requests at concrete registers.
use dspic33e_sim.Prelude.{◌≤◌, ◌<◌, ◌≡◌, ◌⊎◌, true, false, refl, arith, ◌==◌, ◌||◌, some}
use dspic33e_sim.Device.State.{Dspic33, blank}
use dspic33e_sim.Device.Memory.{raw_word, raw_write_word}
use dspic33e_sim.Interrupts.{
  select_interrupt, candidate, interrupt_priority, interrupt_pending, current_priority, best_of,
}
use dspic33e_sim.Interrupts.{
  served, requested, interrupt_enabled, interrupt_deferred, raise_interrupt, irq_count,
}
use dspic33e_sim.Interrupts.{update_nested_do_interrupt_request, arm_nested_do}
use dspic33e_sim.Interrupts.Select.{select_interrupt_best, select_interrupt_total}
use dspic33e_sim.Interrupts.Flags.{flagged, raise_interrupt_flags}

-- Interrupts 3 and 7 are enabled and requested, at priorities 4 and 2, and interrupts are served.
abbrev two_requests : Dspic33
two_requests =
    raw_write_word
      (raw_write_word
        (raw_write_word (raw_write_word (raw_write_word blank 0x0800 0x0088) 0x0820 0x0088) 0x0840
          0x4000)
        0x0842 0x2000)
      0x08c2 0x8000

selected : select_interrupt two_requests ≡ some (record { interrupt = 3; priority = 4 })
unfolding select_interrupt best_of candidate interrupt_priority interrupt_enabled interrupt_deferred
    served requested current_priority raw_word raw_write_word
selected = refl

select_interrupt_best_example :
    (3 < irq_count)
    × (candidate two_requests 3 ≡ true)
    × (4 ≡ interrupt_priority two_requests 3)
    × (current_priority two_requests < 4)
    × ((irq_count ≤ 7)
        ⊎ (candidate two_requests 7 ≡ false)
        ⊎ (interrupt_priority two_requests 7 < 4)
        ⊎ ((interrupt_priority two_requests 7 ≡ 4) × (3 ≤ 7)))
select_interrupt_best_example =
    select_interrupt_best two_requests (record { interrupt = 3; priority = 4 }) 7 selected

select_interrupt_total_example : interrupt_pending two_requests ≡ true
unfolding candidate interrupt_priority interrupt_enabled interrupt_deferred served current_priority
    raw_word raw_write_word
select_interrupt_total_example =
    select_interrupt_total two_requests 7 refl (omega arith) refl (omega arith)

raise_interrupt_flags_example :
    flagged (raise_interrupt two_requests 20) 21 ≡ (21 == 20 || flagged two_requests 21)
raise_interrupt_flags_example = raise_interrupt_flags two_requests 20 21 (omega arith) (omega arith)

-- The same requests at the end of a DO loop, before interrupt 3 was raised.
abbrev in_loop : Dspic33
in_loop = record (raw_write_word two_requests 0x0800 0x0080) {
  do_depth = 1;
  do_end = λ i. 0x0200;
  pc = 0x0200;
}

armed : (raise_interrupt in_loop 3).nested_do_interrupt_armed ≡ true
unfolding raise_interrupt update_nested_do_interrupt_request arm_nested_do select_interrupt best_of
    candidate interrupt_priority interrupt_enabled interrupt_deferred served requested
    current_priority raw_word raw_write_word
armed = refl

-- ===== src/Interrupts/Frame.antt =====
-- What raising an interrupt leaves alone.
use dspic33e_sim.Prelude.{ℕ, ◌≡◌, arith, refl, bit_or, u16}
use dspic33e_sim.Device.State.{Dspic33}
use dspic33e_sim.Device.Memory.{raw_word, raw_write_word}
use dspic33e_sim.Interrupts.{
  raise_interrupt, update_nested_do_interrupt_request, arm_nested_do, disarm_nested_do,
}
use dspic33e_sim.Interrupts.{status_address, interrupt_mask}

pub raw_write_word-io : (cpu : Dspic33) (a v : ℕ) → (raw_write_word cpu a v).io ≡ cpu.io
unfolding raw_write_word
raw_write_word-io cpu a v = refl

update_nested-io : (cpu : Dspic33) (n : ℕ) → (update_nested_do_interrupt_request cpu n).io ≡ cpu.io
unfolding update_nested_do_interrupt_request arm_nested_do disarm_nested_do
update_nested-io cpu n = ground arith

pub raise_interrupt-io : (cpu : Dspic33) (n : ℕ) → (raise_interrupt cpu n).io ≡ cpu.io
unfolding raise_interrupt
raise_interrupt-io cpu n =
    let raised =
      raw_write_word cpu (status_address n)
        (u16 (bit_or (raw_word cpu (status_address n)) (interrupt_mask n))) in
    ground (
      arith,
      update_nested-io raised n,
      raw_write_word-io cpu (status_address n)
          (u16 (bit_or (raw_word cpu (status_address n)) (interrupt_mask n))),
    )

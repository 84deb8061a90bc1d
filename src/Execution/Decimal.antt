-- ===== src/Execution/Decimal.antt =====
-- Decimal adjustment, `dspic33_internal_execute_decimal_adjust` of
-- src/architecture/dspic33/execution/instructions.c.
pub mod Sum
use dspic33e_sim.Prelude.{ℕ, ◌+◌, Bool, true, false, ◌||◌}
use dspic33e_sim.Prelude.{bit_and, bit_or, ltb, ◌!=◌, if◌then◌else◌, u8, u16}
use dspic33e_sim.Device.State.{Dspic33}
use dspic33e_sim.Execution.Registers.{write_working_register_byte}

-- `adjusted`, of the low byte, the digit carry and the carry.
unfoldable pub adjusted_byte : ℕ → Bool → Bool → ℕ
adjusted_byte low digit_carry carry =
    let first = if ltb 9 (bit_and low 0x0f) || digit_carry then low + 6 else low in
    if ltb 0x9f first || carry then first + 0x60 else first

-- `dspic33_internal_execute_decimal_adjust`
unfoldable pub execute_decimal_adjust : Dspic33 → ℕ → Dspic33
execute_decimal_adjust cpu opcode =
    let destination = bit_and opcode 0x0f in
    let carry = bit_and cpu.sr 0x0001 != 0 in
    let digit_carry = bit_and cpu.sr 0x0100 != 0 in
    let adjusted = adjusted_byte (u8 (cpu.w destination)) digit_carry carry in
    record (write_working_register_byte cpu destination false (u8 adjusted)) {
      sr = u16 (bit_or (bit_and cpu.sr 0xfffe) (if carry || ltb 0x00ff adjusted then 1 else 0));
    }

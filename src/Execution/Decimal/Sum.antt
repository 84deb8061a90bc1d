-- ===== src/Execution/Decimal/Sum.antt =====
-- A byte addition and a decimal adjustment add two decimal numbers of two digits.
use dspic33e_sim.Prelude.{ℕ, ◌+◌, ◌*◌, ◌/◌, ◌%◌, ◌^◌, ◌<◌, ◌≡◌, ◌≢◌, refl, sym, ◌∙◌, arith}
use dspic33e_sim.Prelude.{
  Bool, true, false, ltb, leb, ◌||◌, if◌then◌else◌, bit_and, bit_or, u8, u16,
}
use dspic33e_sim.Bits.{
  bit_and_mask, bit_and_one, bit_or-parity, bit_and-parity, bit_and_assoc, bit_and-zero,
  bit_and-bit_or, zero-bit_or,
}
use dspic33e_sim.Device.State.{Dspic33}
use dspic33e_sim.Execution.Registers.{write_working_register_byte}
use dspic33e_sim.Execution.Alu.{update_add_flags, flag_carry, flag_digit_carry}
use dspic33e_sim.Execution.Alu.Flags.{flag, carry_flag, digit_flag}
use dspic33e_sim.Execution.Decimal.{adjusted_byte, execute_decimal_adjust}

-- The number with two decimal digits.
pub record IsDecimal (tens ones : ℕ) : Type 0 where
  pub tens_lt : tens < 10
  pub ones_lt : ones < 10

-- The byte that holds it.
abbrev pub decimal : ℕ → ℕ → ℕ
decimal tens ones = tens * 16 + ones

-- What is adjusted after an addition holds the last two digits of the sum.
adjusted_sum :
    (a b c d : ℕ)
    → IsDecimal a b
    → IsDecimal c d
    → let sum = decimal a b + decimal c d in
      let total = (a + c) * 10 + (b + d) in
      let adjusted = adjusted_byte (sum % 0x100) (ltb 0x0f (b + d)) (ltb 0xff sum) in
      (adjusted % 0x100 ≡ decimal (total / 10 % 10) (total % 10))
      × ((ltb 0xff sum || ltb 0xff adjusted) ≡ leb 100 total)
unfolding adjusted_byte
adjusted_sum a b c d first second =
    let low = bit_and_mask 4 ((decimal a b + decimal c d) % 0x100) in
    ground (arith, low, first, second)

-- The low byte of a register but the stack pointer, after it is written.
low_byte :
    (cpu : Dspic33) (reg value : ℕ)
    → reg ≢ 15
    → (write_working_register_byte cpu reg false value).w reg % 0x100 ≡ value % 0x100
unfolding write_working_register_byte
low_byte cpu reg value ne =
    let merged = bit_or (bit_and (cpu.w reg) 0xff00) (value * 2 ^ 0) in
    let high : bit_and (bit_and (cpu.w reg) 0xff00) 0xff ≡ 0 =
      bit_and_assoc (cpu.w reg) 0xff00 0xff ∙ bit_and-zero (cpu.w reg) in
    let part : bit_and merged 0xff ≡ value % 0x100 =
      bit_and-bit_or (bit_and (cpu.w reg) 0xff00) (value * 2 ^ 0) 0xff
      ∙ rw high (zero-bit_or _ ∙ bit_and_mask 8 (value * 2 ^ 0) ∙ omega arith) in
    let low : merged % 0x100 ≡ value % 0x100 = sym (bit_and_mask 8 merged) ∙ part in
    ground (arith, ne, low)

-- The carry of the status register after it is written.
set_carry :
    (sr : ℕ) (test : Bool)
    → flag (u16 (bit_or (bit_and sr 0xfffe) (if test then 1 else 0))) flag_carry ≡ test
set_carry sr test =
    let bit : ℕ = if test then 1 else 0 in
    let merged = bit_or (bit_and sr 0xfffe) bit in
    let low : merged % 2 ≡ bit % 2 =
      bit_or-parity (bit_and sr 0xfffe) bit ∙ rw (bit_and-parity sr 0xfffe) (ground arith) in
    ground (arith, low, bit_and_one (u16 merged))

-- The sum of two decimal numbers in a register, before the adjustment.
abbrev pub added : Dspic33 → ℕ → ℕ → ℕ → Dspic33
added cpu reg left right =
    write_working_register_byte (update_add_flags cpu left right 0 (left + right) true false) reg
      false (u8 (left + right))

added-flags :
    (cpu : Dspic33) (reg a b c d : ℕ)
    → IsDecimal a b
    → IsDecimal c d
    → (flag (added cpu reg (decimal a b) (decimal c d)).sr flag_carry
        ≡ ltb 0xff (decimal a b + decimal c d))
      × (flag (added cpu reg (decimal a b) (decimal c d)).sr flag_digit_carry ≡ ltb 0x0f (b + d))
unfolding write_working_register_byte update_add_flags
added-flags cpu reg a b c d first second =
    let left = bit_and_mask 4 (decimal a b) in
    let right = bit_and_mask 4 (decimal c d) in
    let ones : decimal a b % 16 ≡ b = ground (arith, first) in
    let other_ones : decimal c d % 16 ≡ d = ground (arith, second) in
    (
      carry_flag _ _ _ _ _ cpu.sr,
      digit_flag _ _ _ _ _ cpu.sr ∙ rw (left ∙ ones, right ∙ other_ones) (ground arith),
    )

-- A byte addition of two decimal numbers of two digits into a register other than the stack
-- pointer, and the decimal adjustment of that register: the register's low byte holds the last two
-- digits of the sum, and the carry is set if the sum has a third.
pub execute_decimal_adjust_adds :
    (cpu : Dspic33) (opcode a b c d : ℕ)
    → bit_and opcode 0x0f ≢ 15
    → IsDecimal a b
    → IsDecimal c d
    → let reg = bit_and opcode 0x0f in
      let total = (a + c) * 10 + (b + d) in
      let after = execute_decimal_adjust (added cpu reg (decimal a b) (decimal c d)) opcode in
      (after.w reg % 0x100 ≡ decimal (total / 10 % 10) (total % 10))
      × (flag after.sr flag_carry ≡ leb 100 total)
unfolding execute_decimal_adjust
execute_decimal_adjust_adds cpu opcode a b c d ne first second =
    let reg = bit_and opcode 0x0f in
    let sum = decimal a b + decimal c d in
    let before = added cpu reg (decimal a b) (decimal c d) in
    let (carry, digit) = added-flags cpu reg a b c d first second in
    let low : before.w reg % 0x100 ≡ sum % 0x100 = low_byte _ reg (u8 sum) ne ∙ omega arith in
    let same : adjusted_byte (u8 (before.w reg)) (flag before.sr flag_digit_carry)
          (flag before.sr flag_carry)
        ≡ adjusted_byte (sum % 0x100) (ltb 0x0f (b + d)) (ltb 0xff sum) =
      rw (low, digit, carry) refl in
    let (digits, third) = adjusted_sum a b c d first second in
    let last : u8 (
            adjusted_byte (u8 (before.w reg)) (flag before.sr flag_digit_carry)
              (flag before.sr flag_carry))
          % 0x100
        ≡ decimal (((a + c) * 10 + (b + d)) / 10 % 10) (((a + c) * 10 + (b + d)) % 10) =
      rw same (rw digits (omega (arith, digits))) in
    (low_byte before reg _ ne ∙ last, set_carry before.sr _ ∙ rw (same, carry) third)

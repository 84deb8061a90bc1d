-- ===== src/Execution/Divide/Unsigned.antt =====
-- The unsigned division.
use native.Mathlib.Nat.{div-add-mod, mod-lt, mod-eq_of_lt}
use dspic33e_sim.Prelude.{ℕ, ◌+◌, ◌*◌, ◌/◌, ◌%◌, ◌<◌, ◌≡◌, ◌∙◌, arith}
use dspic33e_sim.Prelude.{Bool, true, false, ◌!=◌, bit_and}
use dspic33e_sim.Device.State.{Dspic33}
use dspic33e_sim.Execution.Registers.{write_working_register}
use dspic33e_sim.Execution.Divide.{
  execute_divide, store_division, update_divide_flags, divisor_of, dividend_of, before_last_round,
  divide_unsigned,
}

-- The registers 0 and 1 after a division.
pub store_division-w :
    (cpu : Dspic33) (quotient remainder : ℕ) (overflow : Bool)
    → ((store_division cpu quotient remainder overflow).w 0 ≡ quotient % 0x10000)
      × ((store_division cpu quotient remainder overflow).w 1 ≡ remainder % 0x10000)
unfolding store_division update_divide_flags write_working_register
store_division-w cpu quotient remainder overflow = ground arith

-- The division is done in this round, and not one by 0.
pub record IsDividing (cpu : Dspic33) (opcode : ℕ) : Type 0 where
  pub divisor_pos : 0 < divisor_of cpu opcode
  pub divisor_lt : divisor_of cpu opcode < 0x10000
  pub last_round : before_last_round cpu ≡ false

-- A division that is done and unsigned is `divide_unsigned`.
execute_divide-unsigned :
    (cpu : Dspic33) (opcode : ℕ)
    → IsDividing cpu opcode
    → (bit_and opcode 0x008000 != 0) ≡ true
    → execute_divide cpu opcode ≡ divide_unsigned cpu opcode
unfolding execute_divide
execute_divide-unsigned cpu opcode is unsigned =
    let pos = is.divisor_pos in let last = is.last_round in ground (arith, pos, last, unsigned)

-- Quotient and remainder below 2 ^ 16 are what the registers keep.
divided :
    (cpu : Dspic33) (dividend divisor : ℕ) (overflow : Bool)
    → 0 < divisor
    → divisor < 0x10000
    → dividend / divisor < 0x10000
    → let after = store_division cpu (dividend / divisor) (dividend % divisor) overflow in
      (divisor * after.w 0 + after.w 1 ≡ dividend) × (after.w 1 < divisor)
divided cpu dividend divisor overflow pos small fits =
    let registers = store_division-w cpu (dividend / divisor) (dividend % divisor) overflow in
    let first = registers.0 in
    let second = registers.1 in
    let parts = div-add-mod dividend divisor in
    let small_remainder = mod-lt dividend pos in
    let exact : dividend / divisor % 0x10000 ≡ dividend / divisor = mod-eq_of_lt fits in
    let exact_remainder : dividend % divisor % 0x10000 ≡ dividend % divisor =
      mod-eq_of_lt (omega arith) in
    rw (first ∙ exact, second ∙ exact_remainder) (parts, small_remainder)

-- The unsigned division leaves the quotient and the remainder of the dividend by the divisor, where
-- the quotient fits a word.
pub execute_divide_unsigned :
    (cpu : Dspic33) (opcode : ℕ)
    → IsDividing cpu opcode
    → (bit_and opcode 0x008000 != 0) ≡ true
    → dividend_of cpu opcode / divisor_of cpu opcode < 0x10000
    → (divisor_of cpu opcode * (execute_divide cpu opcode).w 0 + (execute_divide cpu opcode).w 1
        ≡ dividend_of cpu opcode)
      × ((execute_divide cpu opcode).w 1 < divisor_of cpu opcode)
execute_divide_unsigned cpu opcode is unsigned fits =
    rw (execute_divide-unsigned cpu opcode is unsigned)
      (divided cpu _ _ _ is.divisor_pos is.divisor_lt fits)

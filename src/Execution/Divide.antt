-- ===== src/Execution/Divide.antt =====
-- Division, `execute_divide` and `execute_fractional_divide` of traps.c and
-- `dspic33_internal_update_divide_flags` of instructions.c, in src/architecture/dspic33/execution.
pub mod Unsigned
use dspic33e_sim.Prelude.{ℕ, ◌+◌, ◌-◌, ◌*◌, ◌/◌, ◌%◌, Bool, true, false, ◌&&◌, ◌||◌, not, bool_eq}
use dspic33e_sim.Prelude.{bit_and, bit_or, ltb, leb, ◌==◌, ◌!=◌, if◌then◌else◌, u16, u32, u64}
use dspic33e_sim.Prelude.{◌<<<◌, ◌>>>◌}
use dspic33e_sim.Device.State.{Dspic33}
use dspic33e_sim.Execution.Alu.{set_if, i16}
use dspic33e_sim.Execution.Accumulator.{i64_lt, i64_neg}
use dspic33e_sim.Execution.Traps.{latch_math_error}
use dspic33e_sim.Execution.Registers.{write_working_register}

-- `(int64_t)n` of an `int32_t`.
abbrev pub i64_of_i32 : ℕ → ℕ
i64_of_i32 n = if ltb n 0x80000000 then n else n + 0xffffffff00000000

abbrev pub is_negative : ℕ → Bool
is_negative n = leb 0x8000000000000000 n

abbrev pub magnitude : ℕ → ℕ
magnitude n = if is_negative n then i64_neg n else n

-- `a / b` and `a % b` on `int64_t`: C rounds towards 0.
abbrev pub i64_div : ℕ → ℕ → ℕ
i64_div a b =
    if bool_eq (is_negative a) (is_negative b)
    then magnitude a / magnitude b
    else i64_neg (magnitude a / magnitude b)

abbrev pub i64_mod : ℕ → ℕ → ℕ
i64_mod a b =
    if is_negative a then i64_neg (magnitude a % magnitude b) else magnitude a % magnitude b

-- `dspic33_internal_update_divide_flags`
unfoldable pub update_divide_flags : Dspic33 → ℕ → Bool → Dspic33
update_divide_flags cpu remainder overflow = record cpu {
  sr =
      set_if overflow 0x0004 (
        set_if (i64_lt remainder 0) 0x0008
          (set_if (remainder == 0) 0x0002 (bit_and cpu.sr 0xfff0)));
}

-- What both divisions do with a quotient and a remainder.
unfoldable pub store_division : Dspic33 → ℕ → ℕ → Bool → Dspic33
store_division cpu quotient remainder overflow =
    update_divide_flags
      (write_working_register (write_working_register cpu 0 (u16 quotient)) 1 (u16 remainder))
      remainder overflow

-- The division by 0 and the rounds of a REPEAT before the last.
abbrev pub divide_by_zero : Dspic33 → Dspic33
divide_by_zero cpu =
    if cpu.repeat_active == 0 || cpu.rcount == 17 then latch_math_error cpu 0x0040 else cpu

abbrev pub before_last_round : Dspic33 → Bool
before_last_round cpu = cpu.repeat_active != 0 && cpu.rcount != 0

-- The operands of a division.
abbrev pub divisor_of : Dspic33 → ℕ → ℕ
divisor_of cpu opcode = cpu.w (bit_and opcode 0x0f)

abbrev pub dividend_of : Dspic33 → ℕ → ℕ
dividend_of cpu opcode =
    let high = cpu.w (bit_and (opcode >>> 11) 0x0f) in
    let low = cpu.w (bit_and (opcode >>> 7) 0x0f) in
    if bit_and opcode 0x000040 != 0 then bit_or (u32 (high <<< 16)) low else low

abbrev pub divide_unsigned : Dspic33 → ℕ → Dspic33
divide_unsigned cpu opcode =
    let dividend = dividend_of cpu opcode in
    let divisor = divisor_of cpu opcode in
    store_division cpu (dividend / divisor) (dividend % divisor) (ltb 0xffff (dividend / divisor))

-- The signed dividend, as an `int64_t`.
abbrev pub signed_dividend : Dspic33 → ℕ → ℕ
signed_dividend cpu opcode =
    if bit_and opcode 0x000040 != 0
    then i64_of_i32 (dividend_of cpu opcode)
    else i64_of_i32 (i16 (dividend_of cpu opcode))

abbrev pub exceeds_i16 : ℕ → Bool
exceeds_i16 value = i64_lt value 0xffffffffffff8000 || i64_lt 0x7fff value

abbrev pub divide_signed : Dspic33 → ℕ → Dspic33
divide_signed cpu opcode =
    let double_word = bit_and opcode 0x000040 != 0 in
    let dividend = signed_dividend cpu opcode in
    let divisor = i64_of_i32 (i16 (divisor_of cpu opcode)) in
    let quotient = i64_div dividend divisor in
    let silent =
      not (bool_eq (is_negative dividend) (is_negative divisor))
      || i64_lt 0x3fffffff dividend
      || not (i64_lt 0xffffffffc0000000 dividend) in
    store_division cpu quotient (i64_mod dividend divisor)
      (exceeds_i16 quotient && (not double_word || not silent))

-- `execute_divide`
unfoldable pub execute_divide : Dspic33 → ℕ → Dspic33
execute_divide cpu opcode =
    if divisor_of cpu opcode == 0
    then divide_by_zero cpu
    else if before_last_round cpu
    then cpu
    else if bit_and opcode 0x008000 != 0
    then divide_unsigned cpu opcode
    else divide_signed cpu opcode

-- `execute_fractional_divide`
unfoldable pub execute_fractional_divide : Dspic33 → ℕ → Dspic33
execute_fractional_divide cpu opcode =
    let divisor = i64_of_i32 (i16 (divisor_of cpu opcode)) in
    let dividend = u64 (i64_of_i32 (i16 (cpu.w (bit_and (opcode >>> 11) 0x0f))) * 32768) in
    let quotient = i64_div dividend divisor in
    if divisor == 0
    then divide_by_zero cpu
    else if before_last_round cpu
    then cpu
    else store_division cpu quotient (i64_mod dividend divisor) (exceeds_i16 quotient)

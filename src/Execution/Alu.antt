-- ===== src/Execution/Alu.antt =====
-- The flags of the status register, the `update_*_flags` functions of addressing.c and
-- instructions.c in src/architecture/dspic33/execution. A signed number is in two's complement.
pub mod Flags
pub mod Compare
use dspic33e_sim.Prelude.{ℕ, ◌+◌, ◌-◌, ◌*◌, ◌/◌, ◌%◌, Bool, true, false, ◌&&◌, ◌||◌, not}
use dspic33e_sim.Prelude.{bit_and, bit_or, ltb, leb, ◌==◌, ◌!=◌, if◌then◌else◌, u8, u16, u32}
use dspic33e_sim.Device.State.{Dspic33}

-- `(int32_t)(int8_t)n` and `(int32_t)(int16_t)n`.
abbrev pub i8 : ℕ → ℕ
i8 n = if ltb (u8 n) 0x80 then u8 n else u8 n + 0xffffff00

abbrev pub i16 : ℕ → ℕ
i16 n = if ltb (u16 n) 0x8000 then u16 n else u16 n + 0xffff0000

-- `a < b` on `int32_t`.
abbrev pub i32_lt : ℕ → ℕ → Bool
i32_lt a b = ltb (u32 (a + 0x80000000)) (u32 (b + 0x80000000))

-- `if (test) { sr |= bit; }`
abbrev pub set_if : Bool → ℕ → ℕ → ℕ
set_if test bit sr = if test then bit_or sr bit else sr

abbrev pub flag_carry : ℕ
flag_carry = 0x0001

abbrev pub flag_zero : ℕ
flag_zero = 0x0002

abbrev pub flag_overflow : ℕ
flag_overflow = 0x0004

abbrev pub flag_negative : ℕ
flag_negative = 0x0008

abbrev pub flag_digit_carry : ℕ
flag_digit_carry = 0x0100

-- The status register with the five flags of an arithmetic result set by tests.
unfoldable pub five_flags : Bool → Bool → Bool → Bool → Bool → ℕ → ℕ
five_flags overflow digit carry negative empty sr = set_if overflow flag_overflow (
    set_if digit flag_digit_carry (
      set_if carry flag_carry
        (set_if negative flag_negative (set_if empty flag_zero (bit_and sr 0xfef0)))))

abbrev pub width_mask : Bool → ℕ
width_mask byte_mode = if byte_mode then 0xff else 0xffff

abbrev pub sign_mask : Bool → ℕ
sign_mask byte_mode = if byte_mode then 0x80 else 0x8000

abbrev pub digit_mask : Bool → ℕ
digit_mask byte_mode = if byte_mode then 0x0f else 0xff

abbrev pub signed : Bool → ℕ → ℕ
signed byte_mode n = if byte_mode then i8 n else i16 n

-- The tests on the signed result of `update_add_flags` and `update_subtract_flags`.
abbrev pub signed_overflow : Bool → ℕ → Bool
signed_overflow byte_mode signed_result =
    i32_lt signed_result (if byte_mode then 0xffffff80 else 0xffff8000)
    || i32_lt (if byte_mode then 0x7f else 0x7fff) signed_result

-- `dspic33_internal_update_logic_flags`
unfoldable pub update_logic_flags : Dspic33 → ℕ → Bool → Dspic33
update_logic_flags cpu operand byte_mode =
    let value = bit_and operand (width_mask byte_mode) in
    record cpu {
      sr =
          set_if (bit_and value (sign_mask byte_mode) != 0) flag_negative
            (set_if (value == 0) flag_zero (bit_and cpu.sr 0xfff5));
    }

-- The zero flag of an operation with carry stays clear once it is clear.
abbrev pub zero_result : Dspic33 → ℕ → Bool → Bool
zero_result cpu value sticky_zero = value == 0 && (not sticky_zero || bit_and cpu.sr flag_zero != 0)

-- `update_add_flags`
unfoldable pub update_add_flags : Dspic33 → ℕ → ℕ → ℕ → ℕ → Bool → Bool → Dspic33
update_add_flags cpu left right carry_in result byte_mode sticky_zero =
    let value = u16 (bit_and result (width_mask byte_mode)) in
    let digit = digit_mask byte_mode in
    let signed_result = u32 (signed byte_mode left + signed byte_mode right + carry_in) in
    record cpu {
      sr =
          five_flags (signed_overflow byte_mode signed_result)
            (ltb digit (bit_and left digit + bit_and right digit + carry_in))
            (ltb (width_mask byte_mode) result) (bit_and value (sign_mask byte_mode) != 0)
            (zero_result cpu value sticky_zero) cpu.sr;
    }

-- `update_subtract_flags`
unfoldable pub update_subtract_flags : Dspic33 → ℕ → ℕ → ℕ → ℕ → Bool → Bool → Dspic33
update_subtract_flags cpu left_operand right borrow difference byte_mode sticky_zero =
    let mask = width_mask byte_mode in
    let digit = digit_mask byte_mode in
    let subtraction = bit_and right mask + borrow in
    let signed_result = u32 (
      signed byte_mode left_operand
      + (0x100000000 - signed byte_mode right)
      + (0x100000000 - borrow)) in
    let left = bit_and left_operand mask in
    let value = bit_and difference mask in
    record cpu {
      sr =
          five_flags (signed_overflow byte_mode signed_result)
            (leb (bit_and right digit + borrow) (bit_and left digit)) (leb subtraction left)
            (bit_and value (sign_mask byte_mode) != 0) (zero_result cpu value sticky_zero) cpu.sr;
    }

-- `update_binary_flags`
unfoldable pub update_binary_flags : Dspic33 → ℕ → ℕ → ℕ → ℕ → ℕ → ℕ → ℕ → Bool → Bool → Dspic33
update_binary_flags cpu operation left right borrow carry result value byte_mode with_carry =
    if operation == 0x400000 || operation == 0x480000
    then update_add_flags cpu left right (if operation == 0x480000 then carry else 0) result
        byte_mode (operation == 0x480000)
    else if operation == 0x500000
        || operation == 0x580000
        || operation == 0x100000
        || operation == 0x180000
    then update_subtract_flags cpu left right borrow value byte_mode with_carry
    else update_logic_flags cpu value byte_mode

-- `update_unary_flags`
unfoldable pub update_unary_flags : Dspic33 → ℕ → Bool → ℕ → ℕ → Bool → Bool → Dspic33
update_unary_flags cpu family alternate source value byte_mode arithmetic =
    let step : ℕ = if alternate then 2 else 1 in
    if family == 0xe8
    then update_add_flags cpu source step 0 (source + step) byte_mode false
    else if family == 0xe9
    then update_subtract_flags cpu source step 0 value byte_mode false
    else if family == 0xea && arithmetic
    then update_subtract_flags cpu 0 source 0 value byte_mode false
    else if family == 0xea
    then update_logic_flags cpu value byte_mode
    else cpu

-- ===== src/Execution/Accumulator.antt =====
-- The accumulators: their bytes, status and saturation, `dspic33_internal_accumulator_value` to
-- `dspic33_internal_write_accumulator_byte` of state.c, and the shifts and the rounding of
-- instructions.c, both in src/architecture/dspic33/execution. An `int64_t` is in two's complement.
pub mod Instructions
pub mod Saturation
pub mod Rounding
use dspic33e_sim.Prelude.{ℕ, ◌+◌, ◌-◌, ◌*◌, ◌/◌, ◌%◌, ◌^◌, Bool, true, false, ◌&&◌, ◌||◌, not}
use dspic33e_sim.Prelude.{Option, none, some, bit_and, bit_or, bit_xor, ltb, leb, ◌==◌, ◌!=◌}
use dspic33e_sim.Prelude.{if◌then◌else◌, u8, u16, u64, ◌<<<◌, ◌>>>◌, not16}
use dspic33e_sim.Device.State.{Dspic33, update}
use dspic33e_sim.Execution.Alu.{set_if}
use dspic33e_sim.Execution.Address.{stored_word}
use dspic33e_sim.Execution.Traps.{latch_math_error}

abbrev pub accumulator_mask : ℕ
accumulator_mask = 0xffffffffff

-- `a < b` and `-a` on `int64_t`.
abbrev pub i64_lt : ℕ → ℕ → Bool
i64_lt a b = ltb (u64 (a + 0x8000000000000000)) (u64 (b + 0x8000000000000000))

abbrev pub i64_neg : ℕ → ℕ
i64_neg a = u64 (0x10000000000000000 - a)

abbrev pub int32_min : ℕ
int32_min = 0xffffffff80000000

abbrev pub int32_max : ℕ
int32_max = 0x7fffffff

-- -0x8000000000 and 0x7fffffffff, the bounds of 40 bits.
abbrev pub int40_min : ℕ
int40_min = 0xffffff8000000000

abbrev pub int40_max : ℕ
int40_max = 0x7fffffffff

-- `dspic33_internal_accumulator_byte_location`: the accumulator and the byte at an address.
abbrev pub accumulator_byte_location : ℕ → Option (ℕ × ℕ)
accumulator_byte_location address =
    if leb 0x0022 address && leb address 0x0027
    then some (0, address - 0x0022)
    else if leb 0x0028 address && leb address 0x002d
    then some (1, address - 0x0028)
    else none

-- `dspic33_internal_accumulator_value`
unfoldable pub accumulator_value : ℕ → ℕ
accumulator_value word =
    let bits = bit_and word accumulator_mask in
    u64 (bits + (if bit_and bits 0x8000000000 != 0 then 0xffffff0000000000 else 0))

-- `update_accumulator_combined_status`, on the status register.
unfoldable pub combined_status : ℕ → ℕ
combined_status status =
    let sr = bit_and status 0xf3ff in
    set_if (bit_and sr 0x3000 != 0) 0x0400 (set_if (bit_and sr 0xc000 != 0) 0x0800 sr)

-- `dspic33_internal_write_status_byte`
unfoldable pub write_status_byte : Dspic33 → Bool → ℕ → Dspic33
write_status_byte cpu high_byte value =
    let previous = cpu.sr in
    let low = bit_and value 0xef in
    let nested =
      if bit_and (cpu.data_bytes 0x08c1) 0x80 != 0
      then bit_or (bit_and low (not16 0x00e0)) (bit_and previous 0x00e0)
      else low in
    let requested = u16 (value <<< 8) in
    let own = bit_and requested 0xf000 in
    let overflows = if bit_and requested 0x0800 == 0 then bit_and own 0x3fff else own in
    let saturations =
      if bit_and requested 0x0400 == 0 then bit_and overflows 0xcfff else overflows in
    if not high_byte
    then record cpu { sr = u16 (bit_or (bit_and previous 0xff10) nested) }
    else record cpu {
      sr =
          combined_status (
            u16 (bit_or (bit_or (bit_and previous 0x02ff) (bit_and requested 0x0100)) saturations));
    }

-- `dspic33_internal_write_disicnt_byte`
unfoldable pub write_disicnt_byte : Dspic33 → Bool → ℕ → Dspic33
write_disicnt_byte cpu high_byte value =
    let requested =
      if high_byte
      then u16 (bit_or (bit_and cpu.disicnt 0x00ff) (value <<< 8))
      else u16 (bit_or (bit_and cpu.disicnt 0xff00) value) in
    if cpu.disicnt == 0 then cpu else record cpu { disicnt = bit_and requested 0x3fff }

abbrev pub saturation_enabled : Dspic33 → ℕ → Bool
saturation_enabled cpu accumulator =
    bit_and cpu.corcon (if accumulator == 0 then 0x0080 else 0x0040) != 0

-- The bounds of saturation: of 40 bits in super saturation, of 32 otherwise.
abbrev pub super_saturation : Dspic33 → Bool
super_saturation cpu = bit_and cpu.corcon 0x0010 != 0

abbrev pub saturation_minimum : Dspic33 → ℕ
saturation_minimum cpu = if super_saturation cpu then int40_min else int32_min

abbrev pub saturation_maximum : Dspic33 → ℕ
saturation_maximum cpu = if super_saturation cpu then int40_max else int32_max

-- `result` after saturation.
abbrev pub saturated : Dspic33 → ℕ → ℕ → ℕ
saturated cpu accumulator result =
    if saturation_enabled cpu accumulator
    then (if i64_lt result (saturation_minimum cpu)
        then saturation_minimum cpu
        else if i64_lt (saturation_maximum cpu) result
        then saturation_maximum cpu
        else result)
    else result

abbrev pub exceeds_accumulator : ℕ → Bool
exceeds_accumulator result = i64_lt result int40_min || i64_lt int40_max result

abbrev pub saturation_status : Dspic33 → ℕ → ℕ → Bool
saturation_status cpu accumulator result =
    exceeds_accumulator result
    || (saturation_enabled cpu accumulator
        && (i64_lt result (saturation_minimum cpu) || i64_lt (saturation_maximum cpu) result))

-- The accumulator's value does not fit 32 bits.
abbrev pub exceeds_word : ℕ → Bool
exceeds_word value = i64_lt value int32_min || i64_lt int32_max value

-- `error_flags`: the math error traps that the result asks for.
abbrev pub math_error_flags : Dspic33 → ℕ → ℕ → Bool → ℕ
math_error_flags cpu accumulator result overflow =
    let interrupt_control = stored_word cpu 0x08c0 in
    let overflow_enable : ℕ = if accumulator == 0 then 0x0400 else 0x0200 in
    let overflow_error : ℕ = if accumulator == 0 then 0x4000 else 0x2000 in
    let catastrophic_error : ℕ = if accumulator == 0 then 0x1000 else 0x0800 in
    set_if
      (exceeds_accumulator result
        && not (saturation_enabled cpu accumulator)
        && bit_and interrupt_control 0x0100 != 0)
      catastrophic_error
      (set_if (overflow && bit_and interrupt_control overflow_enable != 0) overflow_error 0)

-- `dspic33_internal_apply_accumulator_result` up to the math error traps.
unfoldable pub store_accumulator_result : Dspic33 → ℕ → ℕ → Dspic33
store_accumulator_result cpu accumulator result =
    let overflow_flag : ℕ = if accumulator == 0 then 0x8000 else 0x4000 in
    let saturation_flag : ℕ = if accumulator == 0 then 0x2000 else 0x1000 in
    let stored = accumulator_value (saturated cpu accumulator result) in
    record cpu {
      accumulator = update cpu.accumulator accumulator stored;
      sr = combined_status (
          set_if (saturation_status cpu accumulator result) saturation_flag
            (set_if (exceeds_word stored) overflow_flag (bit_and cpu.sr (not16 overflow_flag))));
    }

-- `dspic33_internal_apply_accumulator_result`
unfoldable pub apply_accumulator_result : Dspic33 → ℕ → ℕ → Dspic33
apply_accumulator_result cpu accumulator result =
    let stored = store_accumulator_result cpu accumulator result in
    let error_flags =
      math_error_flags stored accumulator result (exceeds_word (stored.accumulator accumulator)) in
    if error_flags != 0 then latch_math_error stored error_flags else stored

-- `dspic33_internal_clear_accumulator_status`
unfoldable pub clear_accumulator_status : Dspic33 → ℕ → Dspic33
clear_accumulator_status cpu accumulator = record cpu {
  sr = combined_status (bit_and cpu.sr (if accumulator == 0 then 0x5fff else 0xafff));
}

-- `dspic33_internal_read_accumulator_byte`
unfoldable pub read_accumulator_byte : Dspic33 → ℕ → ℕ → ℕ
read_accumulator_byte cpu accumulator byte =
    if byte == 5
    then if bit_and (cpu.accumulator accumulator) 0x8000000000 != 0 then 0xff else 0
    else u8 (cpu.accumulator accumulator >>> (byte * 8))

-- `dspic33_internal_write_accumulator_byte`
unfoldable pub write_accumulator_byte : Dspic33 → ℕ → ℕ → ℕ → Dspic33
write_accumulator_byte cpu accumulator byte value =
    let bits = bit_and (cpu.accumulator accumulator) accumulator_mask in
    let mask = 0xff <<< (byte * 8) in
    let merged = bit_or (bit_and bits (0xffffffffffffffff - mask)) (value <<< (byte * 8)) in
    if leb 5 byte
    then cpu
    else record cpu { accumulator = update cpu.accumulator accumulator (accumulator_value merged) }

-- `shift_accumulator_value`; `amount` is an `int8_t`, and `up` tells that it is negative.
abbrev pub shift_accumulator_value : ℕ → ℕ → Bool → ℕ
shift_accumulator_value value amount up =
    if up
    then u64 (value * 2 ^ amount)
    else if amount == 0 || ltb value 0x8000000000000000
    then value / 2 ^ amount
    else i64_neg ((i64_neg value + (2 ^ amount - 1)) / 2 ^ amount)

-- A 4-bit shift count, and whether it is negative: then the magnitude is given.
abbrev pub shift_magnitude : ℕ → ℕ
shift_magnitude encoded = if leb 8 encoded then 16 - encoded else encoded

-- `accumulator_store_value_with_rounding`
unfoldable pub accumulator_store_value_with_rounding : Dspic33 → ℕ → Bool → Bool → ℕ
accumulator_store_value_with_rounding cpu value rounded conventional =
    let bits = bit_and value accumulator_mask in
    let high = u16 (bits >>> 16) in
    let low = u16 bits in
    let up =
      rounded && (conventional || ltb 0x8000 low || (low == 0x8000 && bit_and high 1 != 0)) in
    let sum = if up then u64 (value + 0x8000) else value in
    if bit_and cpu.corcon 0x0020 != 0
    then (if i64_lt int32_max sum
        then 0x7fff
        else if i64_lt sum int32_min
        then 0x8000
        else u16 (sum >>> 16))
    else u16 (sum >>> 16)

-- `accumulator_store_value`
unfoldable pub accumulator_store_value : Dspic33 → ℕ → Bool → ℕ
accumulator_store_value cpu value rounded =
    accumulator_store_value_with_rounding cpu value rounded (bit_and cpu.corcon 0x0002 != 0)

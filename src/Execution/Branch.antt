-- ===== src/Execution/Branch.antt =====
-- The branches of src/architecture/dspic33/execution/addressing.c: their conditions, the
-- instructions that compare and skip, and which instructions change the program's flow.
pub mod Complement
pub mod Control
use dspic33e_sim.Prelude.{ℕ, ◌+◌, ◌-◌, ◌*◌, ◌/◌, Bool, true, false, ◌&&◌, ◌||◌, not, bool_eq}
use dspic33e_sim.Prelude.{Option, none, some, bit_and, bit_or, ltb, leb, ◌==◌, ◌!=◌, if◌then◌else◌}
use dspic33e_sim.Prelude.{u8, u16, u32, ◌<<<◌, ◌>>>◌}
use dspic33e_sim.Device.State.{Dspic33}
use dspic33e_sim.Device.Profile.{profile}
use dspic33e_sim.Program.{
  device_program_range_implemented, program_target_requires_address_error, read_program_word,
  auxiliary_program_limit,
}
use dspic33e_sim.Execution.Registers.{raise_program_target_error}
use dspic33e_sim.Execution.Alu.{flag_carry, flag_zero, flag_overflow, flag_negative, i32_lt}

-- `branch_condition`, with `none` for a condition that there is not.
unfoldable pub branch_condition : Dspic33 → ℕ → Option Bool
branch_condition cpu condition =
    let carry = bit_and cpu.sr flag_carry != 0 in
    let zero = bit_and cpu.sr flag_zero != 0 in
    let overflow = bit_and cpu.sr flag_overflow != 0 in
    let negative = bit_and cpu.sr flag_negative != 0 in
    if condition == 0x00
    then some overflow
    else if condition == 0x01
    then some carry
    else if condition == 0x02
    then some zero
    else if condition == 0x03
    then some negative
    else if condition == 0x04
    then some (zero || not (bool_eq negative overflow))
    else if condition == 0x05
    then some (not (bool_eq negative overflow))
    else if condition == 0x06
    then some (not carry || zero)
    else if condition == 0x07
    then some true
    else if condition == 0x08
    then some (not overflow)
    else if condition == 0x09
    then some (not carry)
    else if condition == 0x0a
    then some (not zero)
    else if condition == 0x0b
    then some (not negative)
    else if condition == 0x0c
    then some (not zero && bool_eq negative overflow)
    else if condition == 0x0d
    then some (bool_eq negative overflow)
    else if condition == 0x0e
    then some (carry && not zero)
    else none

-- `dspic33_internal_relative_branch_condition`
unfoldable pub relative_branch_condition : Dspic33 → ℕ → Option Bool
relative_branch_condition cpu opcode =
    let family = u8 (opcode >>> 16) in
    if leb 0x0c family && leb family 0x0f
    then some (bit_and cpu.sr (0x8000 >>> (family - 0x0c)) != 0)
    else if bit_and opcode 0xf00000 == 0x300000
    then branch_condition cpu (bit_and family 0x0f)
    else none

-- `CompareControlKind`; its first constant is `none` of an option here.
pub data CompareControlKind : Type 0 where
  equal not_equal greater_than less_than : CompareControlKind

-- `dspic33_internal_compare_control_kind`
unfoldable pub compare_control_kind : ℕ → Option CompareControlKind
compare_control_kind opcode =
    let encoding = bit_and opcode 0xff8000 in
    if encoding == 0xe78000
    then some equal
    else if encoding == 0xe70000
    then some not_equal
    else if encoding == 0xe60000
    then some greater_than
    else if encoding == 0xe68000
    then some less_than
    else none

-- `dspic33_internal_compare_control_displacement`, in words, as an `int32_t`.
unfoldable pub compare_control_displacement : ℕ → ℕ
compare_control_displacement opcode =
    let encoded = bit_and (opcode >>> 4) 0x3f in
    if bit_and encoded 0x20 != 0 then bit_or encoded 0xc0 + 0xffffff00 else encoded

-- `signed_compare_operand`
abbrev pub signed_compare_operand : ℕ → Bool → ℕ
signed_compare_operand value byte_mode =
    let mask : ℕ = if byte_mode then 0x00ff else 0xffff in
    let sign : ℕ = if byte_mode then 0x0080 else 0x8000 in
    let masked = bit_and value mask in
    if bit_and masked sign != 0 then masked + (0x100000000 - (mask + 1)) else masked

-- `dspic33_internal_compare_control_taken`
unfoldable pub compare_control_taken : Dspic33 → ℕ → CompareControlKind → Bool
compare_control_taken cpu opcode kind =
    let byte_mode = bit_and opcode 0x000400 != 0 in
    let left_word = cpu.w (bit_and (opcode >>> 11) 0x0f) in
    let right_word = cpu.w (bit_and opcode 0x0f) in
    let left = if byte_mode then bit_and left_word 0x00ff else left_word in
    let right = if byte_mode then bit_and right_word 0x00ff else right_word in
    elim kind [
      | equal ↦ left == right
      | not_equal ↦ left != right
      | greater_than ↦
          i32_lt (signed_compare_operand right byte_mode) (signed_compare_operand left byte_mode)
      | less_than ↦
          i32_lt (signed_compare_operand left byte_mode) (signed_compare_operand right byte_mode)
    ]

-- `dspic33_internal_program_address_add`; the offset is an `int32_t`.
unfoldable pub program_address_add : ℕ → ℕ → ℕ
program_address_add address offset = bit_and (u32 (address + offset)) 0x007ffffe

-- `dspic33_internal_instruction_length`
unfoldable pub instruction_length : ℕ → ℕ
instruction_length opcode =
    if bit_and opcode 0xff0000 == 0x020000
      || bit_and opcode 0xff0000 == 0x040000
      || bit_and opcode 0xff0000 == 0x080000
    then 4
    else 2

-- `SkipReturn`
pub data SkipReturn : Type 0 where
  return_target return_sequential : SkipReturn

abbrev pub device_program_limit : Dspic33 → ℕ
device_program_limit cpu = (profile cpu.device).program_limit

-- `skip_instruction`
unfoldable pub skip_instruction : Dspic33 → SkipReturn → Dspic33
skip_instruction cpu return_kind =
    let sequential = cpu.pc in
    let length = instruction_length (read_program_word cpu sequential) in
    let raw_target = u32 (sequential + length) in
    let target =
      if leb auxiliary_program_limit raw_target
      then bit_and raw_target 0x007ffffe
      else raw_target in
    let skipped : Dspic33 = record cpu { pc = target } in
    if not (device_program_range_implemented cpu sequential 2)
    then raise_program_target_error cpu sequential
    else if length == 2 && raw_target == device_program_limit cpu
    then raise_program_target_error skipped
        (elim return_kind [ return_target ↦ raw_target | return_sequential ↦ sequential ])
    else if length == 4 && raw_target == device_program_limit cpu
    then record skipped { sequential_program_hole_pc = raw_target }
    else skipped

-- `dspic33_internal_execute_compare_control` from the test of the displacement on: a taken branch.
unfoldable pub take_compare_control : Dspic33 → ℕ → Dspic33
take_compare_control cpu opcode =
    let displacement = compare_control_displacement opcode in
    let target = program_address_add cpu.pc (u32 (displacement * 2)) in
    if displacement == 1
    then skip_instruction cpu return_sequential
    else if program_target_requires_address_error cpu target
    then raise_program_target_error cpu cpu.pc
    else record cpu { pc = target }

-- `dspic33_internal_long_control_transfer`, with its source and whether it is a call.
unfoldable pub long_control_transfer : ℕ → Option (ℕ × Bool)
long_control_transfer opcode =
    let encoded_source = bit_and opcode 0x0f in
    let base = bit_or (bit_or 0x018000 ((encoded_source + 1) <<< 11)) encoded_source in
    if bit_and encoded_source 1 != 0 || ltb 12 encoded_source
    then none
    else if opcode == base
    then some (encoded_source, true)
    else if opcode == bit_or base 0x000400
    then some (encoded_source, false)
    else none

abbrev pub is_some {ℓ} : {A : Type ℓ} → Option A → Bool
is_some none = false
is_some (some a) = true

-- `dspic33_internal_computed_control_transfer_encoding`
unfoldable pub computed_control_transfer_encoding : ℕ → Bool
computed_control_transfer_encoding opcode =
    bit_and opcode 0xfffff0 == 0x010000
    || bit_and opcode 0xfffff0 == 0x010200
    || bit_and opcode 0xfffff0 == 0x010400
    || bit_and opcode 0xfffff0 == 0x010600
    || is_some (long_control_transfer opcode)

-- `dspic33_internal_instruction_changes_program_flow`
unfoldable pub instruction_changes_program_flow : Dspic33 → ℕ → ℕ → Bool
instruction_changes_program_flow cpu opcode instruction_pc =
    let family = u8 (opcode >>> 16) in
    let by_encoding =
      family == 0x02
      || family == 0x04
      || family == 0x05
      || family == 0x07
      || computed_control_transfer_encoding opcode in
    if cpu.pc != program_address_add instruction_pc (instruction_length opcode)
    then true
    else elim (compare_control_kind opcode) [
      | some kind ↦ compare_control_taken cpu opcode kind
      | none ↦ elim (relative_branch_condition cpu opcode) [
        | some taken ↦ taken
        | none ↦ by_encoding
      ]
    ]

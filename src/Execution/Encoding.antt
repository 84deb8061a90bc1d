-- ===== src/Execution/Encoding.antt =====
-- Which encodings are instructions, `dspic33_internal_reserved_return_encoding` to
-- `dspic33_internal_multiply_encoding_valid` of
-- src/architecture/dspic33/execution/instructions.c.
pub mod Pairs
use dspic33e_sim.Prelude.{ℕ, ◌+◌, Bool, true, false, ◌&&◌, ◌||◌, not}
use dspic33e_sim.Prelude.{bit_and, leb, ltb, ◌==◌, ◌!=◌, if◌then◌else◌, u8, ◌>>>◌}

-- `dspic33_internal_reserved_return_encoding`
unfoldable pub reserved_return_encoding : ℕ → Bool
reserved_return_encoding opcode =
    if bit_and opcode 0xff0000 == 0x050000
    then bit_and opcode 0x008000 != 0
    else bit_and opcode 0xff0000 == 0x060000 && opcode != 0x060000 && opcode != 0x064000

-- `dspic33_internal_literal_control_extension_valid`
unfoldable pub literal_control_extension_valid : ℕ → Bool
literal_control_extension_valid extension = bit_and extension 0xffff80 == 0

-- `dspic33_internal_literal_control_first_word_valid`
unfoldable pub literal_control_first_word_valid : ℕ → Bool
literal_control_first_word_valid opcode = bit_and opcode 1 == 0

-- `dspic33_internal_byte_extension_encoding_valid`
unfoldable pub byte_extension_encoding_valid : ℕ → Bool
byte_extension_encoding_valid opcode =
    bit_and opcode 0x007800 == 0 && ltb (bit_and (opcode >>> 4) 0x07) 6

-- `dspic33_internal_stack_encoding_valid`
unfoldable pub stack_encoding_valid : ℕ → Bool
stack_encoding_valid opcode =
    if bit_and opcode 0xff0000 == 0xf80000 || bit_and opcode 0xff0000 == 0xf90000
    then bit_and opcode 1 == 0
    else if bit_and opcode 0xff0000 == 0xfa0000
    then opcode == 0xfa8000 || bit_and opcode 0xffc001 == 0xfa0000
    else true

-- `dspic33_internal_bit_encoding_valid`
unfoldable pub bit_encoding_valid : ℕ → Bool
bit_encoding_valid opcode =
    let instruction_kind = bit_and (opcode >>> 16) 0x07 in
    let is_file_access = bit_and opcode 0x080000 != 0 in
    let addressing_mode = bit_and (opcode >>> 4) 0x07 in
    let is_byte_mode = bit_and opcode 0x000400 != 0 in
    let bit_index = bit_and (opcode >>> 12) 0x0f in
    if is_file_access
    then instruction_kind != 5 && (instruction_kind != 4 || bit_and opcode 0x001ffe != 0x000042)
    else if leb 6 addressing_mode
    then false
    else if leb instruction_kind 2
    then bit_and opcode 0x000b80 == 0 && (not is_byte_mode || ltb bit_index 8)
    else if leb instruction_kind 5
    then bit_and opcode 0x000780 == 0
    else bit_and opcode 0x000f80 == 0

-- `dspic33_internal_table_encoding_valid`
unfoldable pub table_encoding_valid : ℕ → Bool
table_encoding_valid opcode =
    let is_write = bit_and opcode 0x010000 != 0 in
    let source_mode = bit_and (opcode >>> 4) 0x07 in
    let destination_mode = bit_and (opcode >>> 11) 0x07 in
    if is_write
    then ltb source_mode 6 && leb 1 destination_mode && ltb destination_mode 6
    else leb 1 source_mode && ltb source_mode 6 && ltb destination_mode 6

-- `dspic33_internal_system_encoding_valid`
unfoldable pub system_encoding_valid : ℕ → Bool
system_encoding_valid opcode =
    let opcode_family = u8 (opcode >>> 16) in
    if opcode_family == 0xfc
    then bit_and opcode 0x00c000 == 0
    else if opcode_family != 0xfe
    then true
    else if opcode == 0xfe0000
        || opcode == 0xfe2000
        || bit_and opcode 0xfffffe == 0xfe4000
        || opcode == 0xfe6000
        || opcode == 0xfe8000
        || opcode == 0xfea000
    then true
    else if bit_and opcode 0xfff000 == 0xfec000
    then bit_and (opcode >>> 10) 3 != 3
    else bit_and opcode 0xfff000 == 0xfed000
      && bit_and opcode 0x0003f0 == 0
      && bit_and (opcode >>> 10) 3 != 3

-- `dspic33_internal_divide_encoding_valid`
unfoldable pub divide_encoding_valid : ℕ → Bool
divide_encoding_valid opcode =
    let opcode_family = u8 (opcode >>> 16) in
    let divisor_code = bit_and opcode 0x0f in
    let high = bit_and (opcode >>> 11) 0x0f in
    let low = bit_and (opcode >>> 7) 0x0f in
    if opcode_family == 0xd9
    then bit_and opcode 0x0087f0 == 0
    else if ltb divisor_code 2
    then false
    else if opcode_family != 0xd8 || bit_and opcode 0x000030 != 0
    then false
    else if bit_and opcode 0x000040 == 0
    then high == 0
    else bit_and low 1 == 0 && high == low + 1

-- `dspic33_internal_single_shift_encoding_valid`
unfoldable pub single_shift_encoding_valid : ℕ → Bool
single_shift_encoding_valid opcode =
    let family = bit_and (opcode >>> 16) 0x03 in
    (family != 0 || bit_and opcode 0x008000 == 0)
    && ltb (bit_and (opcode >>> 4) 0x07) 6
    && ltb (bit_and (opcode >>> 11) 0x07) 6

-- `dspic33_internal_file_shift_encoding_valid`
unfoldable pub file_shift_encoding_valid : ℕ → Bool
file_shift_encoding_valid opcode = bit_and (opcode >>> 16) 0x03 != 0 || bit_and opcode 0x008000 == 0

-- `dspic33_internal_multiple_shift_encoding_valid`
unfoldable pub multiple_shift_encoding_valid : ℕ → Bool → Bool
multiple_shift_encoding_valid opcode left =
    bit_and opcode 0x0030 == 0 && (not left || bit_and opcode 0x008000 == 0)

-- `dspic33_internal_find_first_encoding_valid`
unfoldable pub find_first_encoding_valid : ℕ → Bool → Bool
find_first_encoding_valid opcode sign_change =
    bit_and opcode (if sign_change then 0x00f800 else 0x007800) == 0
    && ltb (bit_and (opcode >>> 4) 0x07) 6

-- `dspic33_internal_accumulator_shift_encoding_valid`
unfoldable pub accumulator_shift_encoding_valid : ℕ → Bool
accumulator_shift_encoding_valid opcode =
    bit_and opcode 0x0080 == 0 && (bit_and opcode 0x0040 != 0 || bit_and opcode 0x0030 == 0)

-- `dspic33_internal_multiply_encoding_valid`
unfoldable pub multiply_encoding_valid : ℕ → Bool
multiply_encoding_valid opcode =
    not (bit_and opcode 0x008000 != 0) || not (bit_and opcode 0x000060 == 0x000060)

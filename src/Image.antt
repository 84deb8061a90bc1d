-- ===== src/Image.antt =====
-- ELF images, src/image/elf_image.c: the header, the tables and their entries. The loader, the
-- symbols, the coverage and src/image/dspic33_firmware_image.c are in the children. `bytes` is the
-- file in memory, a byte at each offset; an error is the message that is shown.
pub mod Load
pub mod Symbol
pub mod Define
pub mod Binary
pub mod Within
pub mod Decode
pub mod Fuel
use dspic33e_sim.Prelude.{ℕ, ◌+◌, ◌-◌, ◌*◌, Bool, true, false, ◌&&◌, ◌||◌, not}
use dspic33e_sim.Prelude.{Option, none, some, bit_or, ltb, leb, ◌==◌, ◌!=◌, if◌then◌else◌}
use dspic33e_sim.Prelude.{u16, ◌<<<◌}

abbrev pub elf_header_size : ℕ
elf_header_size = 52

abbrev pub elf_program_size : ℕ
elf_program_size = 32

abbrev pub elf_section_size : ℕ
elf_section_size = 40

abbrev pub elf_symbol_size : ℕ
elf_symbol_size = 16

abbrev pub elf_segment_load : ℕ
elf_segment_load = 1

abbrev pub elf_section_symtab : ℕ
elf_section_symtab = 2

abbrev pub elf_section_strtab : ℕ
elf_section_strtab = 3

abbrev pub elf_executable : ℕ
elf_executable = 2

abbrev pub elf_machine_dspic : ℕ
elf_machine_dspic = 118

abbrev pub elf_version_current : ℕ
elf_version_current = 1

abbrev pub elf_section_undefined : ℕ
elf_section_undefined = 0

abbrev pub elf_segment_execute : ℕ
elf_segment_execute = 1

abbrev pub elf_segment_write : ℕ
elf_segment_write = 2

-- `ElfImage`
pub record ElfImage : Type 0 where
  pub bytes : ℕ → ℕ
  pub size : ℕ

-- `ElfSection`; `kind` is the field `type`.
pub record ElfSection : Type 0 where
  pub kind : ℕ
  pub flags : ℕ
  pub address : ℕ
  pub file_offset : ℕ
  pub byte_size : ℕ
  pub linked_section : ℕ
  pub entry_size : ℕ

-- `ElfSegment`; `kind` is the field `type`.
pub record ElfSegment : Type 0 where
  pub kind : ℕ
  pub file_offset : ℕ
  pub physical_address : ℕ
  pub file_size : ℕ
  pub memory_size : ℕ
  pub flags : ℕ

-- The messages of `set_error`.
pub data ImageError : Type 0 where
  not_elf not_little_endian not_dspic : ImageError
  section_table_invalid program_table_invalid program_segment_invalid : ImageError
  program_address_invalid configuration_exceeds program_exceeds nothing_loadable : ImageError
  symbol_not_found no_executable_content coverage_range_invalid : ImageError
  executable_section_invalid image_empty : ImageError

-- A result, or the message of a failure.
pub data Checked {ℓ} (A : Type ℓ) : Type ℓ where
  invalid : ImageError → Checked A
  valid : A → Checked A

-- `read_u16` and `read_u32`, of the bytes from an offset on.
unfoldable pub read_u16 : (ℕ → ℕ) → ℕ → ℕ
read_u16 bytes offset = u16 (bit_or (bytes offset) (bytes (offset + 1) <<< 8))

unfoldable pub read_u32 : (ℕ → ℕ) → ℕ → ℕ
read_u32 bytes offset =
    bit_or (bit_or (bit_or (bytes offset) (bytes (offset + 1) <<< 8)) (bytes (offset + 2) <<< 16))
      (bytes (offset + 3) <<< 24)

-- `range_valid`
unfoldable pub range_valid : ℕ → ℕ → ℕ → Bool
range_valid image_size file_offset byte_count =
    leb file_offset image_size && leb byte_count (image_size - file_offset)

-- `header_valid`, with `none` for true.
unfoldable pub header_valid : ElfImage → Option ImageError
header_valid image =
    let bytes = image.bytes in
    if ltb image.size elf_header_size
      || bytes 0 != 0x7f
      || bytes 1 != 0x45
      || bytes 2 != 0x4c
      || bytes 3 != 0x46
    then some not_elf
    else if bytes 4 != 1
        || bytes 5 != 1
        || bytes 6 != elf_version_current
        || read_u32 bytes 20 != elf_version_current
        || read_u16 bytes 40 != elf_header_size
    then some not_little_endian
    else if read_u16 bytes 16 != elf_executable || read_u16 bytes 18 != elf_machine_dspic
    then some not_dspic
    else none

-- `section_table`: the offset of the table and the number of its sections.
unfoldable pub section_table : ElfImage → Checked (ℕ × ℕ)
section_table image =
    let table_offset = read_u32 image.bytes 32 in
    let section_entry_size = read_u16 image.bytes 46 in
    let section_count = read_u16 image.bytes 48 in
    elim (header_valid image) [
      | some message ↦ invalid message
      | none ↦
          if table_offset == 0
            && section_count == 0
            && read_u16 image.bytes 50 == elf_section_undefined
          then valid (table_offset, section_count)
          else if section_entry_size != elf_section_size
              || not (range_valid image.size table_offset (section_count * section_entry_size))
          then invalid section_table_invalid
          else valid (table_offset, section_count)
    ]

-- `program_table`: the offset of the table and the number of its segments.
unfoldable pub program_table : ElfImage → Checked (ℕ × ℕ)
program_table image =
    let table_offset = read_u32 image.bytes 28 in
    let program_entry_size = read_u16 image.bytes 42 in
    let segment_count = read_u16 image.bytes 44 in
    elim (header_valid image) [
      | some message ↦ invalid message
      | none ↦
          if segment_count != 0
            && (program_entry_size != elf_program_size
                || not (range_valid image.size table_offset (segment_count * program_entry_size)))
          then invalid program_table_invalid
          else valid (table_offset, segment_count)
    ]

-- `read_section`
unfoldable pub read_section : ElfImage → ℕ → ℕ → ElfSection
read_section image table_offset section_index =
    let start = table_offset + section_index * elf_section_size in
    record {
      kind = read_u32 image.bytes (start + 4);
      flags = read_u32 image.bytes (start + 8);
      address = read_u32 image.bytes (start + 12);
      file_offset = read_u32 image.bytes (start + 16);
      byte_size = read_u32 image.bytes (start + 20);
      linked_section = read_u32 image.bytes (start + 24);
      entry_size = read_u32 image.bytes (start + 36);
    }

-- `read_segment`
unfoldable pub read_segment : ElfImage → ℕ → ℕ → ElfSegment
read_segment image table_offset segment_index =
    let start = table_offset + segment_index * elf_program_size in
    record {
      kind = read_u32 image.bytes start;
      file_offset = read_u32 image.bytes (start + 4);
      physical_address = read_u32 image.bytes (start + 12);
      file_size = read_u32 image.bytes (start + 16);
      memory_size = read_u32 image.bytes (start + 20);
      flags = read_u32 image.bytes (start + 24);
    }

-- `elf_image_open_data`, of data that is there and has memory.
unfoldable pub elf_image_open_data : (ℕ → ℕ) → ℕ → Checked ElfImage
elf_image_open_data image_data image_size =
    let image : ElfImage = record { bytes = image_data; size = image_size } in
    if image_size == 0
    then invalid image_empty
    else elim (header_valid image) [ some message ↦ invalid message | none ↦ valid image ]

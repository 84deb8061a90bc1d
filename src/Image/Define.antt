-- ===== src/Image/Define.antt =====
-- The coverage of an ELF image, `elf_image_create_coverage` of src/image/elf_image.c: the
-- instructions of its executable sections are defined in a coverage over all of them.
use dspic33e_sim.Prelude.{ℕ, zero, suc, ◌+◌, ◌-◌, ◌*◌, ◌/◌, Bool, false, ◌&&◌, ◌||◌}
use dspic33e_sim.Prelude.{Option, none, some, bit_and, ltb, leb, ◌==◌, ◌!=◌, if◌then◌else◌}
use dspic33e_sim.Prelude.{u8, uint32_max, uint64_max, ◌>>>◌}
use dspic33e_sim.Coverage.{Coverage, coverage_create, coverage_define_instruction}
use dspic33e_sim.Program.{configuration_base}
use dspic33e_sim.Image.{
  ElfImage, ElfSection, Checked, invalid, valid, no_executable_content, coverage_range_invalid,
  executable_section_invalid, read_u32, range_valid, section_table, program_table, read_section,
  read_segment, elf_segment_load, elf_segment_write,
}

-- The segment holds the section.
abbrev pub holds_section : ElfImage → ElfSection → ℕ → ℕ → Bool
holds_section image section program_table_offset segment_index =
    let segment = read_segment image program_table_offset segment_index in
    segment.kind == elf_segment_load
    && bit_and segment.flags elf_segment_write == 0
    && leb segment.file_offset section.file_offset
    && leb (section.file_offset + section.byte_size) (segment.file_offset + segment.file_size)
    && leb segment.physical_address section.address
    && leb (section.address + section.byte_size / 2)
        (segment.physical_address + segment.memory_size / 2)

-- The loop of `coverage_section_loaded`, with `segments` segments left from `segment_index` on.
unfoldable pub some_segment_holds : ElfImage → ElfSection → ℕ → ℕ → ℕ → Bool
some_segment_holds image section program_table_offset segment_index zero = false
some_segment_holds image section program_table_offset segment_index (suc segments) =
    holds_section image section program_table_offset segment_index
    || some_segment_holds image section program_table_offset (segment_index + 1) segments

-- `coverage_section_loaded`
unfoldable pub coverage_section_loaded : ElfImage → ElfSection → ℕ → ℕ → Bool
coverage_section_loaded image section program_table_offset segment_count =
    segment_count == 0 || some_segment_holds image section program_table_offset 0 segment_count

-- `coverage_section`
unfoldable pub coverage_section : ElfImage → ElfSection → ℕ → ℕ → Bool
coverage_section image section program_table_offset segment_count =
    section.kind == 1
    && bit_and section.flags 4 != 0
    && section.byte_size != 0
    && ltb section.address configuration_base
    && bit_and section.address 1 == 0
    && bit_and section.byte_size 3 == 0
    && leb (section.address + section.byte_size / 2) 0x100000000
    && range_valid image.size section.file_offset section.byte_size
    && coverage_section_loaded image section program_table_offset segment_count

-- `conditional_branch`
unfoldable pub conditional_branch : ℕ → Bool
conditional_branch opcode =
    let compare = bit_and opcode 0xff8000 in
    let family = u8 (opcode >>> 16) in
    let relative =
      (leb 0x0c family && leb family 0x0f)
      || (bit_and opcode 0xf00000 == 0x300000
          && bit_and family 15 != 7
          && leb (bit_and family 15) 14) in
    let compare_control =
      compare == 0xe78000 || compare == 0xe70000 || compare == 0xe60000 || compare == 0xe68000 in
    let bit_skip = bit_and opcode 0xf00000 == 0xa00000 && leb 6 (bit_and family 7) in
    relative || compare_control || bit_skip

-- `instruction_length`
unfoldable pub instruction_length : ℕ → ℕ
instruction_length opcode =
    let family = bit_and opcode 0xff0000 in
    if family == 0x020000 || family == 0x040000 || family == 0x080000 then 4 else 2

-- An instruction is defined, unless it is the word of erased memory.
unfoldable pub define_word : Coverage → ℕ → ℕ → Option Coverage
define_word coverage address opcode =
    if opcode == 0x00ffffff
    then some coverage
    else let (defined, after) =
        coverage_define_instruction coverage address (conditional_branch opcode) in
      if defined then some after else none

abbrev pub opcode_at : ElfImage → ElfSection → ℕ → ℕ
opcode_at image section byte_offset =
    bit_and (read_u32 image.bytes (section.file_offset + byte_offset)) 0x00ffffff

-- What became of a section: `section_defined` is true, `section_refused` is false, and `out_of_fuel`
-- is that the loop of the model was cut short.
pub data Definition : Type 0 where
  out_of_fuel section_refused : Definition
  section_defined : Coverage → Definition

-- The loop of `define_coverage_section`, on fuel.
unfoldable pub define_words : ElfImage → ElfSection → ℕ → ℕ → Coverage → Definition
define_words image section byte_offset zero coverage = out_of_fuel
define_words image section byte_offset (suc fuel) coverage =
    let opcode = opcode_at image section byte_offset in
    let storage_size = instruction_length opcode * 2 in
    if leb section.byte_size byte_offset
    then section_defined coverage
    else if ltb (section.byte_size - byte_offset) storage_size
    then section_refused
    else elim (define_word coverage (section.address + byte_offset / 2) opcode) [
      | none ↦ section_refused
      | some after ↦ define_words image section (byte_offset + storage_size) fuel after
    ]

-- `define_coverage_section`
unfoldable pub define_coverage_section : ElfImage → ElfSection → Coverage → Definition
define_coverage_section image section coverage =
    define_words image section 0 (section.byte_size / 4 + 1) coverage

-- The first loop of `elf_image_create_coverage`: the range of the sections so far.
unfoldable pub covered_range : ElfImage → ℕ → ℕ → ℕ → ℕ → ℕ → ℕ × ℕ → ℕ × ℕ
covered_range image table_offset program_table_offset segment_count section_index zero range = range
covered_range image table_offset program_table_offset segment_count section_index (suc sections)
      (first_address, end_address) =
    let section = read_section image table_offset section_index in
    let section_end = section.address + section.byte_size / 2 in
    covered_range image table_offset program_table_offset segment_count (section_index + 1) sections
      (if coverage_section image section program_table_offset segment_count
        then (
          if ltb section.address first_address then section.address else first_address,
          if ltb end_address section_end then section_end else end_address,
        )
        else (first_address, end_address))

-- The second one; a section that is not defined is refused.
abbrev pub accepted : Definition → Option Coverage
accepted out_of_fuel = none
accepted section_refused = none
accepted (section_defined coverage) = some coverage

unfoldable pub define_sections : ElfImage → ℕ → ℕ → ℕ → ℕ → ℕ → Coverage → Option Coverage
define_sections image table_offset program_table_offset segment_count section_index zero coverage =
    some coverage
define_sections image table_offset program_table_offset segment_count section_index (suc sections)
      coverage =
    let section = read_section image table_offset section_index in
    elim (if coverage_section image section program_table_offset segment_count
      then accepted (define_coverage_section image section coverage)
      else some coverage) [
        | none ↦ none
        | some after ↦
            define_sections image table_offset program_table_offset segment_count
              (section_index + 1) sections after
      ]

-- The coverage that was created, with the instructions of the image.
unfoldable pub define_image : ElfImage → ℕ → ℕ → ℕ → ℕ → Option Coverage → Checked Coverage
define_image image table_offset section_count program_table_offset segment_count none =
    invalid coverage_range_invalid
define_image image table_offset section_count program_table_offset segment_count (some coverage) =
    elim (define_sections image table_offset program_table_offset segment_count 0 section_count
      coverage) [ none ↦ invalid executable_section_invalid | some after ↦ valid after ]

-- What follows the tables in `elf_image_create_coverage`; the host's `calloc n` is whether `n`
-- bytes can be had.
unfoldable pub create_coverage : (ℕ → Bool) → ElfImage → ℕ → ℕ → ℕ → ℕ → Checked Coverage
create_coverage calloc image table_offset section_count program_table_offset segment_count =
    let (first_address, end_address) =
      covered_range image table_offset program_table_offset segment_count 0 section_count
        (uint32_max, 0) in
    if first_address == uint32_max || ltb uint64_max (end_address - first_address)
    then invalid no_executable_content
    else define_image image table_offset section_count program_table_offset segment_count
        (coverage_create calloc first_address (end_address - first_address))

-- `elf_image_create_coverage`, of an image that is there.
unfoldable pub elf_image_create_coverage : (ℕ → Bool) → ElfImage → Checked Coverage
elf_image_create_coverage calloc image = elim (section_table image) [
  | invalid message ↦ invalid message
  | valid (table_offset, section_count) ↦ elim (program_table image) [
    | invalid message ↦ invalid message
    | valid (program_table_offset, segment_count) ↦
        create_coverage calloc image table_offset section_count program_table_offset segment_count
  ]
]

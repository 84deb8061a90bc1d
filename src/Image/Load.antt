-- ===== src/Image/Load.antt =====
-- Loading the program of an ELF image, `elf_image_load_program` of src/image/elf_image.c.
use dspic33e_sim.Prelude.{ℕ, zero, suc, ◌+◌, ◌-◌, ◌/◌, Bool, true, false, ◌&&◌, ◌||◌, not}
use dspic33e_sim.Prelude.{Option, none, some, bit_and, bit_or, ltb, leb, ◌==◌, ◌!=◌, if◌then◌else◌}
use dspic33e_sim.Prelude.{uint32_max}
use dspic33e_sim.Device.State.{Dspic33}
use dspic33e_sim.Program.{
  configuration_base, configuration_size, device_program_range_implemented, load_program_word,
  load_configuration_word,
}
use dspic33e_sim.Image.{
  ElfImage, ElfSegment, ImageError, configuration_exceeds, program_exceeds, program_address_invalid,
  program_segment_invalid, nothing_loadable, invalid, valid, read_u32, range_valid, program_table,
  read_segment, elf_segment_load, elf_segment_execute, elf_segment_write,
}

-- The machine after loading, and the message of a failure, if there is one: words that were loaded
-- before it stay.
pub record Loaded : Type 0 where
  pub machine : Dspic33
  pub failure : Option ImageError

abbrev pub succeeded : Dspic33 → Loaded
succeeded cpu = record { machine = cpu; failure = none }

abbrev pub failed : Dspic33 → ImageError → Loaded
failed cpu message = record { machine = cpu; failure = some message }

unfoldable pub and_then : Loaded → (Dspic33 → Loaded) → Loaded
and_then loaded next = elim loaded.failure [ some message ↦ loaded | none ↦ next loaded.machine ]

unfoldable pub loaded_or : Dspic33 → ImageError → Option Dspic33 → Loaded
loaded_or cpu message none = failed cpu message
loaded_or cpu message (some after) = succeeded after

abbrev pub is_configuration : ℕ → Bool
is_configuration address =
    leb configuration_base address && ltb address (configuration_base + configuration_size)

-- What the loop of `load_program_bytes` does with a word.
unfoldable pub load_word : Dspic33 → ℕ → ℕ → Loaded
load_word cpu program_address program_word =
    if is_configuration program_address
    then loaded_or cpu configuration_exceeds
        (load_configuration_word cpu program_address program_word)
    else if not (device_program_range_implemented cpu program_address 2)
    then if bit_and program_word 0x00ffffff != 0x00ffffff
      then failed cpu program_exceeds
      else succeeded cpu
    else loaded_or cpu program_exceeds (load_program_word cpu program_address program_word)

-- The loop, with `words` words to load from `byte_offset` on.
unfoldable pub load_words : ElfImage → ℕ → ℕ → ℕ → ℕ → Dspic33 → Loaded
load_words image file_offset load_address byte_offset zero cpu = succeeded cpu
load_words image file_offset load_address byte_offset (suc words) cpu =
    if ltb (uint32_max - load_address) (byte_offset / 2)
    then failed cpu program_address_invalid
    else and_then
        (load_word cpu (load_address + byte_offset / 2)
          (read_u32 image.bytes (file_offset + byte_offset)))
        (load_words image file_offset load_address (byte_offset + 4) words)

-- `load_program_bytes`
unfoldable pub load_program_bytes : ElfImage → ℕ → ℕ → ℕ → Dspic33 → Loaded
load_program_bytes image file_offset byte_size load_address cpu =
    if bit_and byte_size 3 != 0 || not (range_valid image.size file_offset byte_size)
    then failed cpu program_segment_invalid
    else load_words image file_offset load_address 0 (byte_size / 4) cpu

-- The segments that `load_program_segments` passes over.
abbrev pub passed_over : ElfSegment → Bool
passed_over segment =
    segment.kind != elf_segment_load
    || segment.file_size == 0
    || bit_and segment.flags (bit_or elf_segment_execute elf_segment_write) == elf_segment_write

-- `load_program_segments`, with `segments` segments left from `segment_index` on.
unfoldable pub load_program_segments : ElfImage → ℕ → ℕ → ℕ → Bool → Dspic33 → Loaded
load_program_segments image table_offset segment_index zero is_loaded cpu =
    if is_loaded then succeeded cpu else failed cpu nothing_loadable
load_program_segments image table_offset segment_index (suc segments) is_loaded cpu =
    let segment = read_segment image table_offset segment_index in
    let after : Bool → Dspic33 → Loaded =
      load_program_segments image table_offset (segment_index + 1) segments in
    if passed_over segment
    then after is_loaded cpu
    else if ltb segment.memory_size segment.file_size
    then failed cpu program_segment_invalid
    else and_then
        (load_program_bytes image segment.file_offset segment.file_size segment.physical_address
          cpu)
        (after true)

-- `elf_image_load_program`
unfoldable pub elf_image_load_program : ElfImage → Dspic33 → Loaded
elf_image_load_program image cpu = elim (program_table image) [
  | invalid message ↦ failed cpu message
  | valid (table_offset, segment_count) ↦
      load_program_segments image table_offset 0 segment_count false cpu
]

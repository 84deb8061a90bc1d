-- ===== src/Tests/Image.antt =====
-- A small ELF image and a small binary one.
use dspic33e_sim.Prelude.{ℕ, ◌≡◌, ◌≢◌, refl, arith, true, ltb, lt→ltb}
use dspic33e_sim.Prelude.{◌||◌, ◌&&◌, not}
use dspic33e_sim.Prelude.{none, some, List, [], ◌∷◌, get_or, if◌then◌else◌}
use dspic33e_sim.Device.State.{blank}
use dspic33e_sim.Coverage.{Coverage}
use dspic33e_sim.Program.{read_program_word, writable_program_word, load_program_word}
use dspic33e_sim.Execution.Branch.{relative_branch_condition, compare_control_kind}
use dspic33e_sim.Execution.BitSkip.{bit_skip}
use dspic33e_sim.Execution.Encoding.{bit_encoding_valid}
use dspic33e_sim.Image.{
  ElfImage, ElfSection, valid, read_u16, read_u32, range_valid, header_valid, section_table,
  program_table, read_section, read_segment,
}
use dspic33e_sim.Image.Load.{
  elf_image_load_program, load_program_segments, load_program_bytes, load_words, load_word,
  loaded_or, and_then,
}
use dspic33e_sim.Image.Symbol.{
  elf_image_symbol, find_symbol, find_in_section, find_entry, entry_matches, has_nul, name_at,
  symbol_name_matches,
}
use dspic33e_sim.Image.Define.{
  elf_image_create_coverage, conditional_branch, define_coverage_section, out_of_fuel,
}
use dspic33e_sim.Image.Binary.{binary_word, load_binary_data, load_binary_words, load_binary_word}
use dspic33e_sim.Image.Within.{with_bytes, SameBelow}
use dspic33e_sim.Image.Within.Load.{elf_image_load_program-within}
use dspic33e_sim.Image.Within.Symbol.{IsText, ended, more, elf_image_symbol-within}
use dspic33e_sim.Image.Within.Define.{elf_image_create_coverage-within}
use dspic33e_sim.Image.Fuel.{define_coverage_section_ends}
use dspic33e_sim.Image.Decode.{is_there, is_unconditional, conditional_branch_agrees}
use dspic33e_sim.Image.Binary.Loads.{loaded_word, load_binary_data_reads}

-- An executable of two words at 0x200, a branch on zero and an erased word, with the symbol `_f`.
abbrev tiny_bytes : List ℕ
tiny_bytes =
    127 ∷ 69 ∷ 76 ∷ 70 ∷ 1 ∷ 1 ∷ 1 ∷ 0 ∷ 0 ∷ 0 ∷ 0 ∷ 0 ∷ 0 ∷ 0 ∷ 0 ∷ 0 ∷ 2 ∷ 0 ∷ 118 ∷ 0 ∷ 1 ∷ 0 ∷ 0
    ∷ 0 ∷ 0 ∷ 2 ∷ 0 ∷ 0 ∷ 52 ∷ 0 ∷ 0 ∷ 0 ∷ 84 ∷ 0 ∷ 0 ∷ 0 ∷ 0 ∷ 0 ∷ 0 ∷ 0 ∷ 52 ∷ 0 ∷ 32 ∷ 0 ∷ 1 ∷ 0
    ∷ 40 ∷ 0 ∷ 3 ∷ 0 ∷ 1 ∷ 0 ∷ 1 ∷ 0 ∷ 0 ∷ 0 ∷ 204 ∷ 0 ∷ 0 ∷ 0 ∷ 0 ∷ 2 ∷ 0 ∷ 0 ∷ 0 ∷ 2 ∷ 0 ∷ 0 ∷ 8
    ∷ 0 ∷ 0 ∷ 0 ∷ 8 ∷ 0 ∷ 0 ∷ 0 ∷ 5 ∷ 0 ∷ 0 ∷ 0 ∷ 0 ∷ 0 ∷ 0 ∷ 0 ∷ 0 ∷ 0 ∷ 0 ∷ 0 ∷ 2 ∷ 0 ∷ 0 ∷ 0 ∷ 0
    ∷ 0 ∷ 0 ∷ 0 ∷ 0 ∷ 0 ∷ 0 ∷ 0 ∷ 212 ∷ 0 ∷ 0 ∷ 0 ∷ 16 ∷ 0 ∷ 0 ∷ 0 ∷ 1 ∷ 0 ∷ 0 ∷ 0 ∷ 0 ∷ 0 ∷ 0 ∷ 0
    ∷ 0 ∷ 0 ∷ 0 ∷ 0 ∷ 16 ∷ 0 ∷ 0 ∷ 0 ∷ 0 ∷ 0 ∷ 0 ∷ 0 ∷ 3 ∷ 0 ∷ 0 ∷ 0 ∷ 0 ∷ 0 ∷ 0 ∷ 0 ∷ 0 ∷ 0 ∷ 0 ∷ 0
    ∷ 228 ∷ 0 ∷ 0 ∷ 0 ∷ 4 ∷ 0 ∷ 0 ∷ 0 ∷ 0 ∷ 0 ∷ 0 ∷ 0 ∷ 0 ∷ 0 ∷ 0 ∷ 0 ∷ 0 ∷ 0 ∷ 0 ∷ 0 ∷ 0 ∷ 0 ∷ 0
    ∷ 0 ∷ 0 ∷ 0 ∷ 0 ∷ 0 ∷ 1 ∷ 0 ∷ 0 ∷ 0 ∷ 4 ∷ 0 ∷ 0 ∷ 0 ∷ 0 ∷ 2 ∷ 0 ∷ 0 ∷ 204 ∷ 0 ∷ 0 ∷ 0 ∷ 8 ∷ 0
    ∷ 0 ∷ 0 ∷ 0 ∷ 0 ∷ 0 ∷ 0 ∷ 0 ∷ 0 ∷ 0 ∷ 0 ∷ 0 ∷ 0 ∷ 0 ∷ 0 ∷ 0 ∷ 0 ∷ 0 ∷ 0 ∷ 1 ∷ 0 ∷ 50 ∷ 0 ∷ 255
    ∷ 255 ∷ 255 ∷ 0 ∷ 1 ∷ 0 ∷ 0 ∷ 0 ∷ 0 ∷ 2 ∷ 0 ∷ 0 ∷ 0 ∷ 0 ∷ 0 ∷ 0 ∷ 0 ∷ 0 ∷ 3 ∷ 0 ∷ 0 ∷ 95 ∷ 102
    ∷ 0 ∷ []

abbrev tiny_elf : ElfImage
tiny_elf = record { bytes = λ i. get_or tiny_bytes i 0; size = 232 }

-- The same bytes, and others after them.
abbrev tiny_other : ℕ → ℕ
tiny_other i = if ltb i 232 then get_or tiny_bytes i 0 else 0xff

tiny_other-SameBelow : SameBelow 232 tiny_other tiny_elf.bytes
tiny_other-SameBelow i lt = rw (lt→ltb i 232 lt) refl

-- The name `f`.
abbrev name_f : List ℕ
name_f = 0x66 ∷ []

name_f-IsText : IsText name_f
name_f-IsText = more (omega arith) ended

elf_image_load_program-within_example :
    elf_image_load_program (with_bytes tiny_elf tiny_other) blank
    ≡ elf_image_load_program tiny_elf blank
elf_image_load_program-within_example =
    elf_image_load_program-within tiny_elf tiny_other blank tiny_other-SameBelow

elf_image_symbol-within_example :
    elf_image_symbol (with_bytes tiny_elf tiny_other) name_f ≡ elf_image_symbol tiny_elf name_f
elf_image_symbol-within_example =
    elf_image_symbol-within tiny_elf tiny_other name_f tiny_other-SameBelow name_f-IsText

elf_image_create_coverage-within_example :
    elf_image_create_coverage (λ n. true) (with_bytes tiny_elf tiny_other)
    ≡ elf_image_create_coverage (λ n. true) tiny_elf
elf_image_create_coverage-within_example =
    elf_image_create_coverage-within (λ n. true) tiny_elf tiny_other tiny_other-SameBelow

-- The image that is read is a valid one.
found : elf_image_symbol tiny_elf name_f ≡ valid 0x0200
unfolding elf_image_symbol section_table header_valid read_u32 read_u16 range_valid find_symbol
    find_in_section read_section find_entry entry_matches has_nul symbol_name_matches name_at
found = refl

loads : (elf_image_load_program tiny_elf blank).failure ≡ none
unfolding elf_image_load_program program_table header_valid read_u32 read_u16 range_valid
    load_program_segments read_segment load_program_bytes load_words load_word loaded_or and_then
    load_program_word writable_program_word
loads = refl

-- The section of the two words.
abbrev tiny_section : ElfSection
tiny_section = record {
  kind = 1;
  flags = 4;
  address = 0x0200;
  file_offset = 204;
  byte_size = 8;
  linked_section = 0;
  entry_size = 0;
}

abbrev tiny_coverage : Coverage
tiny_coverage = record {
  address = 0x0200;
  size = 4;
  instructions = 0;
  outside_range = 0;
  branches_taken = 0;
  branches_not_taken = 0;
  unique_instructions = 0;
  observed_branch_sites = 0;
  observed_branch_outcomes = 0;
  branch_sites_with_both_outcomes = 0;
  covered_instructions = 0;
  total_instructions = 0;
  covered_branch_sites = 0;
  total_branch_sites = 0;
  slots = λ i. 0;
}

define_coverage_section_ends_example :
    define_coverage_section tiny_elf tiny_section tiny_coverage ≢ out_of_fuel
define_coverage_section_ends_example =
    define_coverage_section_ends tiny_elf tiny_section tiny_coverage

-- BTSS, of bit 3 of register 2.
conditional_branch_agrees_example : conditional_branch 0xa63002 ≡ (
    (is_there (relative_branch_condition blank 0xa63002) && not (is_unconditional 0xa63002))
    || is_there (compare_control_kind 0xa63002)
    || is_there (bit_skip 0xa63002 0x0008))
unfolding bit_encoding_valid
conditional_branch_agrees_example = conditional_branch_agrees blank 0xa63002 0x0008 (λ e. refl)

-- A RETURN and an erased word, for the address 0x200.
abbrev two_words : ℕ → ℕ
two_words i = get_or (0 ∷ 0 ∷ 6 ∷ 0 ∷ 0xff ∷ 0xff ∷ 0xff ∷ 0 ∷ []) i 0

accepted : (load_binary_data blank two_words 8 0x0400).entry ≡ some 0x0200
unfolding load_binary_data load_binary_words load_binary_word binary_word load_program_word
    writable_program_word
accepted = refl

load_binary_data_reads_example :
    read_program_word (load_binary_data blank two_words 8 0x0400).machine 0x0200
    ≡ loaded_word blank 0x0200 (binary_word two_words 0)
load_binary_data_reads_example =
    load_binary_data_reads blank two_words 8 0x0400 0 0x0200 accepted (omega arith) refl refl

-- ===== src/Image/Within/Sections.antt =====
-- The sections of an image that are covered, and the instructions in them, lie within the file.
use dspic33e_sim.Prelude.{ℕ, zero, suc, ◌+◌, ◌-◌, ◌*◌, ◌/◌, ◌%◌, ◌≤◌, ◌≡◌, refl, sym, ◌∙◌, arith}
use dspic33e_sim.Prelude.{true, Bool-cases, inl, inr, leb, ltb}
use dspic33e_sim.Prelude.{Option-cases, bit_and}
use dspic33e_sim.Bits.{bit_and_mask}
use dspic33e_sim.Coverage.{Coverage}
use dspic33e_sim.Image.{ElfImage, ElfSection, valid, range_valid, program_table}
use dspic33e_sim.Image.Define.{
  some_segment_holds, coverage_section_loaded, coverage_section, instruction_length, define_word,
  opcode_at, define_words,
}
use dspic33e_sim.Image.Within.{
  with_bytes, SameBelow, read_u32-within, range_valid-inside, read_segment-within,
}

storage_aligned : (opcode : ℕ) → instruction_length opcode * 2 % 4 ≡ 0
unfolding instruction_length
storage_aligned opcode = ground arith

-- A section's end is in the file, and so is each word of it, as long as its size is a multiple of
-- four bytes.
pub define_words-within :
    (image : ElfImage) (other : ℕ → ℕ) (section : ElfSection) (byte_offset fuel : ℕ)
    → SameBelow image.size other image.bytes
    → section.file_offset + section.byte_size ≤ image.size
    → section.byte_size % 4 ≡ 0
    → byte_offset % 4 ≡ 0
    → (coverage : Coverage)
    → define_words (with_bytes image other) section byte_offset fuel coverage
      ≡ define_words image section byte_offset fuel coverage
unfolding define_words
define_words-within image other section byte_offset zero same inside whole aligned coverage = refl
define_words-within image other section byte_offset (suc fuel) same inside whole aligned coverage =
    elim (Bool-cases (leb section.byte_size byte_offset)) [
      | inl past ↦ rw past refl
      | inr before ↦
          let lt : byte_offset + 4 ≤ section.byte_size = ground (arith, before) in
          let word =
            read_u32-within image.size other image.bytes (section.file_offset + byte_offset) same
              (omega arith) in
          let storage = instruction_length (opcode_at image section byte_offset) * 2 in
          let opcode = opcode_at image section byte_offset in
          let storage = instruction_length opcode * 2 in
          let aligned_storage = storage_aligned opcode in
          let rest =
            define_words-within image other section (byte_offset + storage) fuel same inside whole
              (omega arith) in
          elim (Bool-cases (ltb (section.byte_size - byte_offset) storage)) [
            | inl long ↦ rw (word, before, long) refl
            | inr short ↦
                elim (Option-cases
                  (define_word coverage (section.address + byte_offset / 2) opcode)) [
                    | inl outside ↦ rw (word, before, short, outside) refl
                    | inr (after, defined) ↦ rw (word, before, short, defined, word) (rest after)
                  ]
          ]
    ]

-- The range that a section must have to be covered.
pub coverage_section-range :
    (image : ElfImage) (section : ElfSection) (table count : ℕ)
    → coverage_section image section table count ≡ true
    → (section.file_offset + section.byte_size ≤ image.size) × (section.byte_size % 4 ≡ 0)
unfolding coverage_section
coverage_section-range image section table count h =
    let valid_range : range_valid image.size section.file_offset section.byte_size ≡ true =
      ground (arith, h) in
    let whole : bit_and section.byte_size 3 ≡ 0 = ground (arith, h) in
    (
      range_valid-inside image.size section.file_offset section.byte_size valid_range,
      sym (bit_and_mask 2 section.byte_size) ∙ whole,
    )

some_segment_holds-within :
    (image : ElfImage) (other : ℕ → ℕ) (section : ElfSection) (table count index segments : ℕ)
    → SameBelow image.size other image.bytes
    → program_table image ≡ valid (table, count)
    → index + segments ≡ count
    → some_segment_holds (with_bytes image other) section table index segments
      ≡ some_segment_holds image section table index segments
unfolding some_segment_holds
some_segment_holds-within image other section table count index zero same h total = refl
some_segment_holds-within image other section table count index (suc segments) same h total =
    rw
      (
        read_segment-within image other table count index same h (omega arith),
        some_segment_holds-within image other section table count (index + 1) segments same h
            (omega arith),
      )
      refl

pub coverage_section-within :
    (image : ElfImage) (other : ℕ → ℕ) (section : ElfSection) (table count : ℕ)
    → SameBelow image.size other image.bytes
    → program_table image ≡ valid (table, count)
    → coverage_section (with_bytes image other) section table count
      ≡ coverage_section image section table count
unfolding coverage_section coverage_section_loaded
coverage_section-within image other section table count same h =
    let held =
      some_segment_holds-within image other section table count 0 count same h (omega arith) in
    rw held refl

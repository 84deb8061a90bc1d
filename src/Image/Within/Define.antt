-- ===== src/Image/Within/Define.antt =====
-- Creating the coverage reads nothing past the end of the file.
use mathlib.Core.Path.{fun_ext}
use dspic33e_sim.Prelude.{ℕ, zero, suc, ◌+◌, ◌/◌, ◌≡◌, refl, arith}
use dspic33e_sim.Prelude.{Bool, true, Bool-cases, inl, inr}
use dspic33e_sim.Prelude.{Option, none, some, Option-cases, uint32_max}
use dspic33e_sim.Coverage.{Coverage}
use dspic33e_sim.Image.{
  ElfImage, ElfSection, Checked, invalid, valid, section_table, program_table, read_section,
}
use dspic33e_sim.Image.Define.{
  accepted, coverage_section, define_coverage_section, covered_range, define_sections, define_image,
  create_coverage, elf_image_create_coverage,
}
use dspic33e_sim.Image.Within.{
  with_bytes, SameBelow, section_table-within, program_table-within, read_section-within,
}
use dspic33e_sim.Image.Within.Sections.{
  define_words-within, coverage_section-range, coverage_section-within,
}

-- A valid pair of tables.
record Tables (image : ElfImage) (table sections program segments : ℕ) : Type 0 where
  section_entries : section_table image ≡ valid (table, sections)
  program_entries : program_table image ≡ valid (program, segments)

covered_range-within :
    (image : ElfImage) (other : ℕ → ℕ) (table count program segments index sections : ℕ)
    → SameBelow image.size other image.bytes
    → Tables image table count program segments
    → index + sections ≡ count
    → (range : ℕ × ℕ)
    → covered_range (with_bytes image other) table program segments index sections range
      ≡ covered_range image table program segments index sections range
unfolding covered_range
covered_range-within image other table count program segments index zero same is total range = refl
covered_range-within image other table count program segments index (suc sections) same is total
      (first_address, end_address) =
    let section = read_section image table index in
    let entry =
      read_section-within image other table count index same is.section_entries (omega arith) in
    let covers =
      coverage_section-within image other section program segments same is.program_entries in
    let rest : covered_range (with_bytes image other) table program segments (index + 1) sections
        ≡ covered_range image table program segments (index + 1) sections =
      fun_ext (
        covered_range-within image other table count program segments (index + 1) sections same is
          (omega arith)) in
    rw (entry, covers, rest) refl

define_section-within :
    (image : ElfImage) (other : ℕ → ℕ) (section : ElfSection) (program segments : ℕ)
    (coverage : Coverage)
    → SameBelow image.size other image.bytes
    → coverage_section image section program segments ≡ true
    → define_coverage_section (with_bytes image other) section coverage
      ≡ define_coverage_section image section coverage
unfolding define_coverage_section
define_section-within image other section program segments coverage same covers =
    let (inside, whole) = coverage_section-range image section program segments covers in
    define_words-within image other section 0 (section.byte_size / 4 + 1) same inside whole
      (omega arith) coverage

define_sections-within :
    (image : ElfImage) (other : ℕ → ℕ) (table count program segments index sections : ℕ)
    → SameBelow image.size other image.bytes
    → Tables image table count program segments
    → index + sections ≡ count
    → (coverage : Coverage)
    → define_sections (with_bytes image other) table program segments index sections coverage
      ≡ define_sections image table program segments index sections coverage
unfolding define_sections
define_sections-within image other table count program segments index zero same is total coverage =
    refl
define_sections-within image other table count program segments index (suc sections) same is total
      coverage =
    let section = read_section image table index in
    let entry =
      read_section-within image other table count index same is.section_entries (omega arith) in
    let covers =
      coverage_section-within image other section program segments same is.program_entries in
    let rest =
      define_sections-within image other table count program segments (index + 1) sections same is
        (omega arith) in
    elim (Bool-cases (coverage_section image section program segments)) [
      | inr not_covered ↦
          rw (define_sections, entry, covers, define_sections, not_covered) (rest coverage)
      | inl covered ↦
          let defined =
            define_section-within image other section program segments coverage same covered in
          elim (Option-cases (accepted (define_coverage_section image section coverage))) [
            | inl stopped ↦
                rw (define_sections, entry, covers, define_sections, covered, defined, stopped) refl
            | inr (after, went_on) ↦
                rw (define_sections, entry, covers, define_sections, covered, defined, went_on)
                  (rest after)
          ]
    ]

define_image-within :
    (image : ElfImage) (other : ℕ → ℕ) (table count program segments : ℕ)
    → SameBelow image.size other image.bytes
    → Tables image table count program segments
    → (coverage : Option Coverage)
    → define_image (with_bytes image other) table count program segments coverage
      ≡ define_image image table count program segments coverage
unfolding define_image
define_image-within image other table count program segments same is none = refl
define_image-within image other table count program segments same is (some coverage) =
    let defined =
      define_sections-within image other table count program segments 0 count same is (omega arith)
        coverage in
    rw (define_image, defined) refl

create_coverage-within :
    (calloc : ℕ → Bool) (image : ElfImage) (other : ℕ → ℕ) (table count program segments : ℕ)
    → SameBelow image.size other image.bytes
    → Tables image table count program segments
    → create_coverage calloc (with_bytes image other) table count program segments
      ≡ create_coverage calloc image table count program segments
unfolding create_coverage
create_coverage-within calloc image other table count program segments same is =
    let range =
      covered_range-within image other table count program segments 0 count same is (omega arith) in
    let defined : define_image (with_bytes image other) table count program segments
        ≡ define_image image table count program segments =
      fun_ext (define_image-within image other table count program segments same is) in
    rw (range (uint32_max, 0), defined) refl

created-within :
    (calloc : ℕ → Bool) (image : ElfImage) (other : ℕ → ℕ) (sections program : Checked (ℕ × ℕ))
    → SameBelow image.size other image.bytes
    → section_table image ≡ sections
    → program_table image ≡ program
    → elf_image_create_coverage calloc (with_bytes image other)
      ≡ elf_image_create_coverage calloc image
unfolding elf_image_create_coverage
created-within calloc image other (invalid message) program same hs hp =
    rw
      (
        elf_image_create_coverage,
        section_table-within image other same,
        elf_image_create_coverage,
        hs,
      )
      refl
created-within calloc image other (valid (table, count)) (invalid message) same hs hp =
    rw
      (
        elf_image_create_coverage,
        section_table-within image other same,
        elf_image_create_coverage,
        hs,
        program_table-within image other same,
        hp,
      )
      refl
created-within calloc image other (valid (table, count)) (valid (program, segments)) same hs hp =
    rw
      (
        elf_image_create_coverage,
        section_table-within image other same,
        elf_image_create_coverage,
        hs,
        program_table-within image other same,
        hp,
      )
      (create_coverage-within calloc image other table count program segments same
        (record { section_entries = hs; program_entries = hp }))

-- The coverage of an ELF image, or the message that there is none, depends on no byte past the end
-- of the image, of a malformed image too.
pub elf_image_create_coverage-within :
    (calloc : ℕ → Bool) (image : ElfImage) (other : ℕ → ℕ)
    → SameBelow image.size other image.bytes
    → elf_image_create_coverage calloc (with_bytes image other)
      ≡ elf_image_create_coverage calloc image
elf_image_create_coverage-within calloc image other same =
    created-within calloc image other (section_table image) (program_table image) same refl refl

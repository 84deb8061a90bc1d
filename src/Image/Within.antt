-- ===== src/Image/Within.antt =====
-- What is read of an ELF image lies within the file: another array with the same bytes below the
-- size of the file gives the same header, tables and entries.
pub mod Load
pub mod Symbol
pub mod Sections
pub mod Define
use native.Mathlib.Nat.{mul-le-mul_right}
use dspic33e_sim.Prelude.{ℕ, suc, ◌+◌, ◌-◌, ◌*◌, ◌≤◌, ◌<◌, ◌≡◌, refl, sym, ap, ◌∙◌, arith}
use dspic33e_sim.Prelude.{Bool, true, false, Bool-cases, ◌⊎◌, inl, inr, ltb, ◌&&◌}
use dspic33e_sim.Prelude.{Option, none, some, Option-cases}
use dspic33e_sim.Image.{
  ElfImage, Checked, invalid, valid, read_u16, read_u32, range_valid, header_valid, section_table,
  program_table, read_section, read_segment, elf_section_size, elf_program_size,
}

-- The image with another array behind it.
abbrev pub with_bytes : ElfImage → (ℕ → ℕ) → ElfImage
with_bytes image other = record { bytes = other; size = image.size }

abbrev pub SameBelow : ℕ → (ℕ → ℕ) → (ℕ → ℕ) → Type 0
SameBelow size other bytes = (i : ℕ) → i < size → other i ≡ bytes i

pub read_u16-within :
    (size : ℕ) (other bytes : ℕ → ℕ) (offset : ℕ)
    → SameBelow size other bytes
    → offset + 2 ≤ size
    → read_u16 other offset ≡ read_u16 bytes offset
unfolding read_u16
read_u16-within size other bytes offset same inside =
    rw (same offset (omega arith), same (offset + 1) (omega arith)) refl

pub read_u32-within :
    (size : ℕ) (other bytes : ℕ → ℕ) (offset : ℕ)
    → SameBelow size other bytes
    → offset + 4 ≤ size
    → read_u32 other offset ≡ read_u32 bytes offset
unfolding read_u32
read_u32-within size other bytes offset same inside =
    rw
      (
        same offset (omega arith),
        same (offset + 1) (omega arith),
        same (offset + 2) (omega arith),
        same (offset + 3) (omega arith),
      )
      refl

pub range_valid-inside :
    (size offset count : ℕ) → range_valid size offset count ≡ true → offset + count ≤ size
unfolding range_valid
range_valid-inside size offset count h = ground arith

-- A header is looked at only where there is one.
header_valid-within :
    (image : ElfImage) (other : ℕ → ℕ)
    → SameBelow image.size other image.bytes
    → header_valid (with_bytes image other) ≡ header_valid image
unfolding header_valid
header_valid-within image other same = elim (Bool-cases (ltb image.size 52)) [
  | inl short ↦ rw short refl
  | inr long ↦
      let size_le : 52 ≤ image.size = ground (arith, long) in
      let byte : (i : ℕ) → i < 52 → other i ≡ image.bytes i = λ i lt. same i (omega arith) in
      let half : (i : ℕ) → i + 2 ≤ 52 → read_u16 other i ≡ read_u16 image.bytes i =
        λ i lt. read_u16-within image.size other image.bytes i same (omega arith) in
      let word : (i : ℕ) → i + 4 ≤ 52 → read_u32 other i ≡ read_u32 image.bytes i =
        λ i lt. read_u32-within image.size other image.bytes i same (omega arith) in
      rw
        (
          byte 0 (omega arith),
          byte 1 (omega arith),
          byte 2 (omega arith),
          byte 3 (omega arith),
          byte 4 (omega arith),
          byte 5 (omega arith),
          byte 6 (omega arith),
          word 20 (omega arith),
          half 40 (omega arith),
          half 16 (omega arith),
          half 18 (omega arith),
        )
        refl
]

header_valid-size : (image : ElfImage) → header_valid image ≡ none → 52 ≤ image.size
unfolding header_valid
header_valid-size image h = ground (arith, h)

-- The tables.
pub section_table-within :
    (image : ElfImage) (other : ℕ → ℕ)
    → SameBelow image.size other image.bytes
    → section_table (with_bytes image other) ≡ section_table image
unfolding section_table
section_table-within image other same =
    let moved = header_valid-within image other same in
    elim (Option-cases (header_valid image)) [
      | inl valid_header ↦
          let size_le = header_valid-size image valid_header in
          let half : (i : ℕ) → i + 2 ≤ 52 → read_u16 other i ≡ read_u16 image.bytes i =
            λ i lt. read_u16-within image.size other image.bytes i same (omega arith) in
          let word = read_u32-within image.size other image.bytes 32 same (omega arith) in
          rw
            (
              section_table,
              moved,
              section_table,
              valid_header,
              half 46 (omega arith),
              half 48 (omega arith),
              half 50 (omega arith),
              word,
            )
            refl
      | inr (message, h) ↦ rw (section_table, moved, section_table, h) refl
    ]

pub program_table-within :
    (image : ElfImage) (other : ℕ → ℕ)
    → SameBelow image.size other image.bytes
    → program_table (with_bytes image other) ≡ program_table image
unfolding program_table
program_table-within image other same =
    let moved = header_valid-within image other same in
    elim (Option-cases (header_valid image)) [
      | inl valid_header ↦
          let size_le = header_valid-size image valid_header in
          let half : (i : ℕ) → i + 2 ≤ 52 → read_u16 other i ≡ read_u16 image.bytes i =
            λ i lt. read_u16-within image.size other image.bytes i same (omega arith) in
          let word = read_u32-within image.size other image.bytes 28 same (omega arith) in
          rw
            (
              program_table,
              moved,
              program_table,
              valid_header,
              half 42 (omega arith),
              half 44 (omega arith),
              word,
            )
            refl
      | inr (message, h) ↦ rw (program_table, moved, program_table, h) refl
    ]

-- The entries of a table that is valid lie within the file.
table_entry :
    (size table count width index : ℕ)
    → range_valid size table (count * width) ≡ true
    → index < count
    → table + index * width + width ≤ size
table_entry size table count width index h lt =
    let inside = range_valid-inside size table (count * width) h in
    let scaled : suc index * width ≤ count * width = mul-le-mul_right width lt in
    let step : suc index * width ≡ index * width + width = omega arith in omega arith

pub section_table-inside :
    (image : ElfImage) (table count index : ℕ)
    → section_table image ≡ valid (table, count)
    → index < count
    → table + index * 40 + 40 ≤ image.size
unfolding section_table
section_table-inside image table count index h lt = elim (Option-cases (header_valid image)) [
  | inl valid_header ↦
      ground (
        arith,
        valid_header,
        h,
        table_entry image.size table count 40 index,
        read_u16 image.bytes 48,
      )
  | inr (message, bad) ↦ ground (arith, h, bad)
]

pub program_table-inside :
    (image : ElfImage) (table count index : ℕ)
    → program_table image ≡ valid (table, count)
    → index < count
    → table + index * 32 + 32 ≤ image.size
unfolding program_table
program_table-inside image table count index h lt = elim (Option-cases (header_valid image)) [
  | inl valid_header ↦
      ground (
        arith,
        valid_header,
        h,
        table_entry image.size table count 32 index,
        read_u16 image.bytes 44,
      )
  | inr (message, bad) ↦ ground (arith, h, bad)
]

pub read_section-within :
    (image : ElfImage) (other : ℕ → ℕ) (table count index : ℕ)
    → SameBelow image.size other image.bytes
    → section_table image ≡ valid (table, count)
    → index < count
    → read_section (with_bytes image other) table index ≡ read_section image table index
unfolding read_section
read_section-within image other table count index same h lt =
    let inside = section_table-inside image table count index h lt in
    let word : (k : ℕ)
        → k ≤ 36
        → read_u32 other (table + index * 40 + k) ≡ read_u32 image.bytes (table + index * 40 + k) =
      λ k le.
        read_u32-within image.size other image.bytes (table + index * 40 + k) same (omega arith) in
    rw
      (
        word 4 (omega arith),
        word 8 (omega arith),
        word 12 (omega arith),
        word 16 (omega arith),
        word 20 (omega arith),
        word 24 (omega arith),
        word 36 (omega arith),
      )
      refl

pub read_segment-within :
    (image : ElfImage) (other : ℕ → ℕ) (table count index : ℕ)
    → SameBelow image.size other image.bytes
    → program_table image ≡ valid (table, count)
    → index < count
    → read_segment (with_bytes image other) table index ≡ read_segment image table index
unfolding read_segment
read_segment-within image other table count index same h lt =
    let inside = program_table-inside image table count index h lt in
    let first =
      read_u32-within image.size other image.bytes (table + index * 32) same (omega arith) in
    let word : (k : ℕ)
        → k ≤ 28
        → read_u32 other (table + index * 32 + k) ≡ read_u32 image.bytes (table + index * 32 + k) =
      λ k le.
        read_u32-within image.size other image.bytes (table + index * 32 + k) same (omega arith) in
    rw
      (
        first,
        word 4 (omega arith),
        word 12 (omega arith),
        word 16 (omega arith),
        word 20 (omega arith),
        word 24 (omega arith),
      )
      refl

-- ===== src/Image/Within/Load.antt =====
-- Loading reads nothing past the end of the file.
use mathlib.Core.Path.{fun_ext}
use dspic33e_sim.Prelude.{ℕ, zero, suc, ◌+◌, ◌*◌, ◌/◌, ◌≤◌, ◌≡◌, refl, arith}
use dspic33e_sim.Prelude.{Bool, false, Bool-cases, inl, inr, bit_and, ◌!=◌}
use dspic33e_sim.Device.State.{Dspic33}
use dspic33e_sim.Image.{ElfImage, Checked, invalid, valid, range_valid, program_table, read_segment}
use dspic33e_sim.Image.Load.{
  load_words, load_program_bytes, load_program_segments, elf_image_load_program,
}
use dspic33e_sim.Image.Within.{
  with_bytes, SameBelow, read_u32-within, range_valid-inside, program_table-within,
  read_segment-within,
}

load_words-within :
    (image : ElfImage) (other : ℕ → ℕ) (file_offset load_address byte_offset words : ℕ)
    → SameBelow image.size other image.bytes
    → file_offset + byte_offset + words * 4 ≤ image.size
    → (cpu : Dspic33)
    → load_words (with_bytes image other) file_offset load_address byte_offset words cpu
      ≡ load_words image file_offset load_address byte_offset words cpu
unfolding load_words
load_words-within image other file_offset load_address byte_offset zero same inside cpu = refl
load_words-within image other file_offset load_address byte_offset (suc words) same inside cpu =
    let word =
      read_u32-within image.size other image.bytes (file_offset + byte_offset) same (omega arith) in
    let rest : load_words (with_bytes image other) file_offset load_address (byte_offset + 4) words
        ≡ load_words image file_offset load_address (byte_offset + 4) words =
      fun_ext (
        load_words-within image other file_offset load_address (byte_offset + 4) words same
          (omega arith)) in
    rw (word, rest) refl

load_program_bytes-within :
    (image : ElfImage) (other : ℕ → ℕ) (file_offset byte_size load_address : ℕ) (cpu : Dspic33)
    → SameBelow image.size other image.bytes
    → load_program_bytes (with_bytes image other) file_offset byte_size load_address cpu
      ≡ load_program_bytes image file_offset byte_size load_address cpu
unfolding load_program_bytes
load_program_bytes-within image other file_offset byte_size load_address cpu same =
    elim (Bool-cases (range_valid image.size file_offset byte_size)) [
      | inl is_inside ↦
          let inside = range_valid-inside image.size file_offset byte_size is_inside in
          let words =
            load_words-within image other file_offset load_address 0 (byte_size / 4) same
              (omega arith) cpu in
          rw words refl
      | inr outside ↦ elim (Bool-cases (bit_and byte_size 3 != 0)) [
        | inl odd ↦ rw (odd) refl
        | inr whole ↦ rw (whole, outside) refl
      ]
    ]

load_program_segments-within :
    (image : ElfImage) (other : ℕ → ℕ) (table count index segments : ℕ)
    → SameBelow image.size other image.bytes
    → program_table image ≡ valid (table, count)
    → index + segments ≡ count
    → (is_loaded : Bool) (cpu : Dspic33)
    → load_program_segments (with_bytes image other) table index segments is_loaded cpu
      ≡ load_program_segments image table index segments is_loaded cpu
unfolding load_program_segments
load_program_segments-within image other table count index zero same h total is_loaded cpu = refl
load_program_segments-within image other table count index (suc segments) same h total is_loaded
      cpu =
    let entry = read_segment-within image other table count index same h (omega arith) in
    let segment = read_segment image table index in
    let rest : load_program_segments (with_bytes image other) table (index + 1) segments
        ≡ load_program_segments image table (index + 1) segments =
      fun_ext (λ b. fun_ext (
        load_program_segments-within image other table count (index + 1) segments same h
          (omega arith) b)) in
    let body =
      load_program_bytes-within image other segment.file_offset segment.file_size
        segment.physical_address cpu same in
    rw (entry, rest, body) refl

load_program-within :
    (image : ElfImage) (other : ℕ → ℕ) (cpu : Dspic33) (table : Checked (ℕ × ℕ))
    → SameBelow image.size other image.bytes
    → program_table image ≡ table
    → elf_image_load_program (with_bytes image other) cpu ≡ elf_image_load_program image cpu
unfolding elf_image_load_program
load_program-within image other cpu (invalid message) same h =
    rw (elf_image_load_program, program_table-within image other same, elf_image_load_program, h)
      refl
load_program-within image other cpu (valid (table, count)) same h =
    rw (elf_image_load_program, program_table-within image other same, elf_image_load_program, h)
      (load_program_segments-within image other table count 0 count same h (omega arith) false cpu)

-- Loading an ELF image looks at no byte past its end: whatever stands there, the machine and the
-- message after it are the same, of a malformed image too.
pub elf_image_load_program-within :
    (image : ElfImage) (other : ℕ → ℕ) (cpu : Dspic33)
    → SameBelow image.size other image.bytes
    → elf_image_load_program (with_bytes image other) cpu ≡ elf_image_load_program image cpu
elf_image_load_program-within image other cpu same =
    load_program-within image other cpu (program_table image) same refl

-- ===== src/Image/Fuel.antt =====
-- The loop over the instructions of a section ends.
use dspic33e_sim.Prelude.{ℕ, zero, suc, ◌+◌, ◌-◌, ◌*◌, ◌/◌, ◌≤◌, ◌<◌, ◌≢◌, sym, ap, arith}
use dspic33e_sim.Prelude.{
  Bool, true, false, true≢false, Bool-cases, inl, inr, leb, ltb, Option-cases,
}
use dspic33e_sim.Coverage.{Coverage}
use dspic33e_sim.Image.{ElfImage, ElfSection}
use dspic33e_sim.Image.Define.{
  instruction_length, define_word, opcode_at, define_words, define_coverage_section, Definition,
  out_of_fuel, section_refused, section_defined,
}

unfoldable is_out_of_fuel : Definition → Bool
is_out_of_fuel out_of_fuel = true
is_out_of_fuel section_refused = false
is_out_of_fuel (section_defined coverage) = false

refused≢out_of_fuel : section_refused ≢ out_of_fuel
unfolding is_out_of_fuel
refused≢out_of_fuel e = true≢false (sym (ap is_out_of_fuel e))

defined≢out_of_fuel : (coverage : Coverage) → section_defined coverage ≢ out_of_fuel
unfolding is_out_of_fuel
defined≢out_of_fuel coverage e = true≢false (sym (ap is_out_of_fuel e))

instruction_length-pos : (opcode : ℕ) → 4 ≤ instruction_length opcode * 2
unfolding instruction_length
instruction_length-pos opcode = ground arith

-- A round for each four bytes that are left, and one more, are enough.
define_words-ends :
    (image : ElfImage) (section : ElfSection) (byte_offset fuel : ℕ) (coverage : Coverage)
    → section.byte_size < byte_offset + fuel * 4
    → 0 < fuel
    → define_words image section byte_offset fuel coverage ≢ out_of_fuel
unfolding define_words
define_words-ends image section byte_offset zero coverage enough some_left = absurd (omega arith)
define_words-ends image section byte_offset (suc fuel) coverage enough some_left =
    let opcode = opcode_at image section byte_offset in
    let storage = instruction_length opcode * 2 in
    let long = instruction_length-pos opcode in
    elim (Bool-cases (leb section.byte_size byte_offset)) [
      | inl past ↦ rw past (λ e. defined≢out_of_fuel coverage e)
      | inr before ↦ elim (Bool-cases (ltb (section.byte_size - byte_offset) storage)) [
        | inl short ↦ rw (before, short) refused≢out_of_fuel
        | inr fits ↦
            elim (Option-cases (define_word coverage (section.address + byte_offset / 2) opcode)) [
              | inl outside ↦ rw (before, fits, outside) refused≢out_of_fuel
              | inr (after, defined) ↦
                  rw (before, fits, defined)
                    (define_words-ends image section (byte_offset + storage) fuel after
                      (ground arith) (ground arith))
            ]
      ]
    ]

-- The loop of `define_coverage_section` ends, of any section of any file: each round takes the
-- offset on by an instruction, until the section is refused or its end is reached.
pub define_coverage_section_ends :
    (image : ElfImage) (section : ElfSection) (coverage : Coverage)
    → define_coverage_section image section coverage ≢ out_of_fuel
unfolding define_coverage_section
define_coverage_section_ends image section coverage =
    define_words-ends image section 0 (section.byte_size / 4 + 1) coverage (omega arith)
      (omega arith)

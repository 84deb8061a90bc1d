-- ===== src/Coverage.antt =====
-- Instruction and branch coverage, src/architecture/dspic33/coverage.c: a byte of flags for each
-- instruction address, and counters of what the flags say.
pub mod Counts
pub mod Range
pub mod Branch
pub mod Kept
use dspic33e_sim.Prelude.{ℕ, ◌+◌, ◌-◌, ◌*◌, ◌/◌, ◌<◌, Bool, true, false, ◌&&◌, ◌||◌, not}
use dspic33e_sim.Prelude.{Option, none, some, bit_and, bit_or, ltb, leb, ◌==◌, ◌!=◌, if◌then◌else◌}
use dspic33e_sim.Prelude.{u64, uint64_max, uint32_max, to_nat}
use dspic33e_sim.Device.State.{update}

abbrev pub coverage_executed : ℕ
coverage_executed = 1

abbrev pub coverage_branch_taken : ℕ
coverage_branch_taken = 2

abbrev pub coverage_branch_not_taken : ℕ
coverage_branch_not_taken = 4

abbrev pub coverage_defined : ℕ
coverage_defined = 8

abbrev pub coverage_conditional_branch : ℕ
coverage_conditional_branch = 16

abbrev pub coverage_definition_mask : ℕ
coverage_definition_mask = 24

-- `struct Dspic33Coverage`; `slots` is an array of `size / 2` bytes.
pub record Coverage : Type 0 where
  pub address : ℕ
  pub size : ℕ
  pub instructions : ℕ
  pub outside_range : ℕ
  pub branches_taken : ℕ
  pub branches_not_taken : ℕ
  pub unique_instructions : ℕ
  pub observed_branch_sites : ℕ
  pub observed_branch_outcomes : ℕ
  pub branch_sites_with_both_outcomes : ℕ
  pub covered_instructions : ℕ
  pub total_instructions : ℕ
  pub covered_branch_sites : ℕ
  pub total_branch_sites : ℕ
  pub slots : ℕ → ℕ

-- `sizeof(Dspic33Coverage)` with 64-bit sizes.
abbrev coverage_header_size : ℕ
coverage_header_size = 112

-- `coverage_slot`, with `none` for SIZE_MAX.
unfoldable pub coverage_slot : Coverage → ℕ → Option ℕ
coverage_slot coverage address =
    if bit_and address 1 != 0
      || ltb address coverage.address
      || leb coverage.size (address - coverage.address)
    then none
    else some ((address - coverage.address) / 2)

-- `dspic33_coverage_create`; the host's `calloc n` is whether `n` bytes can be had.
unfoldable pub coverage_create : (ℕ → Bool) → ℕ → ℕ → Option Coverage
coverage_create calloc address size =
    if bit_and address 1 != 0
      || size == 0
      || bit_and size 1 != 0
      || ltb uint32_max size
      || ltb 0x100000000 (u64 (address + size))
    then none
    else if ltb (uint64_max - coverage_header_size) (size / 2)
    then none
    else if not (calloc (u64 (coverage_header_size + size / 2)))
    then none
    else some (record {
      address = address;
      size = size;
      instructions = 0;
      outside_range = 0;
      branches_taken = 0;
      branches_not_taken = 0;
      unique_instructions = 0;
      observed_branch_sites = 0;
      observed_branch_outcomes = 0;
      branch_sites_with_both_outcomes = 0;
      covered_instructions = 0;
      total_instructions = 0;
      covered_branch_sites = 0;
      total_branch_sites = 0;
      slots = λ i. 0;
    })

-- `dspic33_coverage_clear`, of a coverage that is there.
unfoldable pub coverage_clear : Coverage → Coverage
coverage_clear coverage = record coverage {
  instructions = 0;
  outside_range = 0;
  branches_taken = 0;
  branches_not_taken = 0;
  unique_instructions = 0;
  observed_branch_sites = 0;
  observed_branch_outcomes = 0;
  branch_sites_with_both_outcomes = 0;
  covered_instructions = 0;
  covered_branch_sites = 0;
  slots = λ slot.
      if ltb slot (coverage.size / 2)
      then bit_and (coverage.slots slot) coverage_definition_mask
      else coverage.slots slot;
}

-- A flag of a slot, or one of several.
abbrev pub has : ℕ → ℕ → Bool
has flags mask = bit_and flags mask != 0

-- `size_t` counters.
abbrev pub plus_flag : ℕ → Bool → ℕ
plus_flag n b = u64 (n + to_nat b)

-- The first half of `dspic33_coverage_define_instruction`.
unfoldable pub coverage_define : Coverage → ℕ → Coverage
coverage_define coverage slot =
    let flags = coverage.slots slot in
    if has flags coverage_defined then coverage else record coverage {
      slots = update coverage.slots slot (bit_or flags coverage_defined);
      total_instructions = u64 (coverage.total_instructions + 1);
      covered_instructions =
          plus_flag coverage.covered_instructions
            (has (bit_or flags coverage_defined) coverage_executed);
    }

-- The second half, for a conditional branch.
unfoldable pub coverage_define_branch : Coverage → ℕ → Coverage
coverage_define_branch coverage slot =
    let flags = coverage.slots slot in
    if has flags coverage_conditional_branch then coverage else record coverage {
      slots = update coverage.slots slot (bit_or flags coverage_conditional_branch);
      total_branch_sites = u64 (coverage.total_branch_sites + 1);
      covered_branch_sites = plus_flag coverage.covered_branch_sites (
          has (bit_or flags coverage_conditional_branch)
            (bit_or coverage_branch_taken coverage_branch_not_taken));
    }

-- `dspic33_coverage_define_instruction`, of a coverage that is there.
unfoldable pub coverage_define_instruction : Coverage → ℕ → Bool → Bool × Coverage
unfolding coverage_define coverage_define_branch
coverage_define_instruction coverage address conditional_branch =
    elim (coverage_slot coverage address) [
      | none ↦ (false, coverage)
      | some slot ↦
          let defined = coverage_define coverage slot in
          (true, if conditional_branch then coverage_define_branch defined slot else defined)
    ]

-- `dspic33_coverage_record` at a slot.
unfoldable pub coverage_execute : Coverage → ℕ → Coverage
coverage_execute coverage slot =
    let flags = coverage.slots slot in
    if has flags coverage_executed then coverage else record coverage {
      slots = update coverage.slots slot (bit_or flags coverage_executed);
      unique_instructions = u64 (coverage.unique_instructions + 1);
      covered_instructions =
          plus_flag coverage.covered_instructions
            (has (bit_or flags coverage_executed) coverage_defined);
    }

-- `dspic33_coverage_record`.
unfoldable pub coverage_record : Coverage → ℕ → Coverage
unfolding coverage_execute
coverage_record coverage address =
    let recorded : Coverage = elim (coverage_slot coverage address) [
      | none ↦ record coverage { outside_range = u64 (coverage.outside_range + 1) }
      | some slot ↦ coverage_execute coverage slot
    ] in
    record recorded { instructions = u64 (recorded.instructions + 1) }

-- The first test of `dspic33_coverage_record_branch`: a site that no outcome was seen of.
unfoldable pub coverage_observe_site : Coverage → ℕ → Coverage
coverage_observe_site coverage slot =
    let flags = coverage.slots slot in
    if has flags (bit_or coverage_branch_taken coverage_branch_not_taken)
    then coverage
    else record coverage {
      observed_branch_sites = u64 (coverage.observed_branch_sites + 1);
      covered_branch_sites =
          plus_flag coverage.covered_branch_sites (has flags coverage_conditional_branch);
    }

-- The second test: an outcome that was not seen of the site.
unfoldable pub coverage_observe_outcome : Coverage → ℕ → ℕ → ℕ → Coverage
coverage_observe_outcome coverage slot outcome opposite =
    let flags = coverage.slots slot in
    if has flags outcome then coverage else record coverage {
      slots = update coverage.slots slot (bit_or flags outcome);
      observed_branch_outcomes = u64 (coverage.observed_branch_outcomes + 1);
      branch_sites_with_both_outcomes =
          plus_flag coverage.branch_sites_with_both_outcomes (has (bit_or flags outcome) opposite);
    }

-- `dspic33_coverage_record_branch`.
unfoldable pub coverage_record_branch : Coverage → ℕ → Bool → Coverage
unfolding coverage_observe_site coverage_observe_outcome
coverage_record_branch coverage address taken =
    let outcome = if taken then coverage_branch_taken else coverage_branch_not_taken in
    let opposite = if taken then coverage_branch_not_taken else coverage_branch_taken in
    elim (coverage_slot coverage address) [
      | none ↦ coverage
      | some slot ↦
          let observed =
            coverage_observe_outcome (coverage_observe_site coverage slot) slot outcome opposite in
          record observed {
            branches_taken = plus_flag observed.branches_taken taken;
            branches_not_taken = plus_flag observed.branches_not_taken (not taken);
          }
    ]

-- `dspic33_coverage_flags`, of a coverage that is there.
unfoldable pub coverage_flags : Coverage → ℕ → ℕ
coverage_flags coverage address = elim (coverage_slot coverage address) [
  | none ↦ 0
  | some slot ↦ bit_and (coverage.slots slot) 0x07
]

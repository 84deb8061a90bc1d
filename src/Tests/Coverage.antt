-- ===== src/Tests/Coverage.antt =====
-- Coverage of four instruction addresses.
use dspic33e_sim.Prelude.{◌≡◌, refl, arith}
use dspic33e_sim.Coverage.{Coverage, coverage_slot, coverage_record}
use dspic33e_sim.Coverage.{coverage_execute}
use dspic33e_sim.Coverage.Counts.{IsCounted, counted}
use dspic33e_sim.Coverage.Kept.{coverage_record_counts}

abbrev four_slots : Coverage
four_slots = record {
  address = 0x0200;
  size = 8;
  instructions = 0;
  outside_range = 0;
  branches_taken = 0;
  branches_not_taken = 0;
  unique_instructions = 0;
  observed_branch_sites = 0;
  observed_branch_outcomes = 0;
  branch_sites_with_both_outcomes = 0;
  covered_instructions = 0;
  total_instructions = 0;
  covered_branch_sites = 0;
  total_branch_sites = 0;
  slots = λ i. 0;
}

four_slots-IsCounted : IsCounted four_slots
unfolding counted
four_slots-IsCounted = record {
  size-le = omega arith;
  unique = refl;
  total = refl;
  covered = refl;
  sites = refl;
  outcomes = refl;
  both = refl;
  total_sites = refl;
  covered_sites = refl;
}

-- The second execution of an address is not a new instruction.
executed_twice :
    (coverage_record (coverage_record four_slots 0x0204) 0x0204).unique_instructions ≡ 1
unfolding coverage_record coverage_slot coverage_execute
executed_twice = refl

coverage_record_counts_example : IsCounted (coverage_record four_slots 0x0204)
coverage_record_counts_example =
    coverage_record_counts four_slots 0x0204 four_slots-IsCounted refl refl

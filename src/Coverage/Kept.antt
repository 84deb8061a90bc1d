-- ===== src/Coverage/Kept.antt =====
-- Every operation of coverage.c keeps the counters right.
use mathlib.Core.Path.{ap₂}
use dspic33e_sim.Prelude.{◌%◌, ℕ, ◌+◌, ◌/◌, ◌<◌, ◌≡◌, refl, ◌∙◌, arith, Bool, true, false}
use dspic33e_sim.Prelude.{◌&&◌, Bool-cases, inl, inr, bit_or, Option, none, some}
use dspic33e_sim.Coverage.{Coverage, has, coverage_execute}
use dspic33e_sim.Coverage.{
  coverage_define, coverage_define_branch, coverage_record, coverage_record_branch,
}
use dspic33e_sim.Coverage.{coverage_define_instruction, coverage_slot}
use dspic33e_sim.Coverage.Counts.{IsCounted, same_count, new_count, has-bit_or}
use dspic33e_sim.Coverage.Counts.{executed, taken, not_taken, observed, defined, conditional}
use dspic33e_sim.Coverage.Range.{slot-lt}
use dspic33e_sim.Coverage.Branch.{branch_taken-IsCounted, branch_not_taken-IsCounted}

module _ (c : Coverage) (slot : ℕ) (ok : IsCounted c) (lt : slot < c.size / 2) where
  abbrev x : ℕ
  x = c.slots slot

  execute-IsCounted : IsCounted (coverage_execute c slot)
  unfolding coverage_execute
  execute-IsCounted = elim (Bool-cases (has x 1)) [
    | inl before ↦ rw before ok
    | inr first ↦ rw first (record {
      size-le = ok.size-le;
      unique =
          rw ok.unique
            (new_count c slot ok lt executed 1 true first (ground (arith, has-bit_or x 1 1)));
      total = ok.total ∙ same_count c slot ok lt defined 1 (ground (arith, has-bit_or x 1 8));
      covered = rw ok.covered (
          new_count c slot ok lt (λ f. executed f && defined f) 1 (has (bit_or x 1) 8)
            (ground (arith, first)) (ground (arith, has-bit_or x 1 1)));
      sites = ok.sites ∙ same_count c slot ok lt observed 1 (ground (arith, has-bit_or x 1 6));
      outcomes =
          ok.outcomes
          ∙ ap₂ ◌+◌ (same_count c slot ok lt taken 1 (ground (arith, has-bit_or x 1 2)))
              (same_count c slot ok lt not_taken 1 (ground (arith, has-bit_or x 1 4)));
      both =
          ok.both
          ∙ same_count c slot ok lt (λ f. taken f && not_taken f) 1
              (ground (arith, has-bit_or x 1 2, has-bit_or x 1 4));
      total_sites =
          ok.total_sites
          ∙ same_count c slot ok lt conditional 1 (ground (arith, has-bit_or x 1 16));
      covered_sites =
          ok.covered_sites
          ∙ same_count c slot ok lt (λ f. observed f && conditional f) 1
              (ground (arith, has-bit_or x 1 6, has-bit_or x 1 16));
    })
  ]

  define-IsCounted : IsCounted (coverage_define c slot)
  unfolding coverage_define
  define-IsCounted = elim (Bool-cases (has x 8)) [
    | inl before ↦ rw before ok
    | inr first ↦ rw first (record {
      size-le = ok.size-le;
      unique = ok.unique ∙ same_count c slot ok lt executed 8 (ground (arith, has-bit_or x 8 1));
      total =
          rw ok.total
            (new_count c slot ok lt defined 8 true first (ground (arith, has-bit_or x 8 8)));
      covered = rw ok.covered (
          new_count c slot ok lt (λ f. executed f && defined f) 8 (has (bit_or x 8) 1)
            (ground (arith, first)) (ground (arith, has-bit_or x 8 8)));
      sites = ok.sites ∙ same_count c slot ok lt observed 8 (ground (arith, has-bit_or x 8 6));
      outcomes =
          ok.outcomes
          ∙ ap₂ ◌+◌ (same_count c slot ok lt taken 8 (ground (arith, has-bit_or x 8 2)))
              (same_count c slot ok lt not_taken 8 (ground (arith, has-bit_or x 8 4)));
      both =
          ok.both
          ∙ same_count c slot ok lt (λ f. taken f && not_taken f) 8
              (ground (arith, has-bit_or x 8 2, has-bit_or x 8 4));
      total_sites =
          ok.total_sites
          ∙ same_count c slot ok lt conditional 8 (ground (arith, has-bit_or x 8 16));
      covered_sites =
          ok.covered_sites
          ∙ same_count c slot ok lt (λ f. observed f && conditional f) 8
              (ground (arith, has-bit_or x 8 6, has-bit_or x 8 16));
    })
  ]

  define_branch-IsCounted : IsCounted (coverage_define_branch c slot)
  unfolding coverage_define_branch
  define_branch-IsCounted = elim (Bool-cases (has x 16)) [
    | inl before ↦ rw before ok
    | inr first ↦ rw first (record {
      size-le = ok.size-le;
      unique = ok.unique ∙ same_count c slot ok lt executed 16 (ground (arith, has-bit_or x 16 1));
      total = ok.total ∙ same_count c slot ok lt defined 16 (ground (arith, has-bit_or x 16 8));
      covered =
          ok.covered
          ∙ same_count c slot ok lt (λ f. executed f && defined f) 16
              (ground (arith, has-bit_or x 16 1, has-bit_or x 16 8));
      sites = ok.sites ∙ same_count c slot ok lt observed 16 (ground (arith, has-bit_or x 16 6));
      outcomes =
          ok.outcomes
          ∙ ap₂ ◌+◌ (same_count c slot ok lt taken 16 (ground (arith, has-bit_or x 16 2)))
              (same_count c slot ok lt not_taken 16 (ground (arith, has-bit_or x 16 4)));
      both =
          ok.both
          ∙ same_count c slot ok lt (λ f. taken f && not_taken f) 16
              (ground (arith, has-bit_or x 16 2, has-bit_or x 16 4));
      total_sites =
          rw ok.total_sites
            (new_count c slot ok lt conditional 16 true first (ground (arith, has-bit_or x 16 16)));
      covered_sites = rw ok.covered_sites (
          new_count c slot ok lt (λ f. observed f && conditional f) 16 (has (bit_or x 16) 6)
            (ground (arith, first)) (ground (arith, has-bit_or x 16 16)));
    })
  ]

-- The counters of runs are not among those that count flags.
abbrev with_runs : Coverage → ℕ → ℕ → ℕ → ℕ → Coverage
with_runs c i o t u = record c {
  instructions = i;
  outside_range = o;
  branches_taken = t;
  branches_not_taken = u;
}

runs-IsCounted : (c : Coverage) (i o t u : ℕ) → IsCounted c → IsCounted (with_runs c i o t u)
runs-IsCounted c i o t u ok = record {
  size-le = ok.size-le;
  unique = ok.unique;
  total = ok.total;
  covered = ok.covered;
  sites = ok.sites;
  outcomes = ok.outcomes;
  both = ok.both;
  total_sites = ok.total_sites;
  covered_sites = ok.covered_sites;
}

define-size : (c : Coverage) (slot : ℕ) → (coverage_define c slot).size ≡ c.size
unfolding coverage_define
define-size c slot = ground arith

module _ (c : Coverage) (address : ℕ) (ok : IsCounted c) where
  -- An execution that is recorded keeps the counters equal to the numbers of slots with the flags,
  -- whatever the address is. The range must start and end at even addresses.
  pub coverage_record_counts :
      c.address % 2 ≡ 0 → c.size % 2 ≡ 0 → IsCounted (coverage_record c address)
  unfolding coverage_record
  coverage_record_counts start size = go (coverage_slot c address) refl
    where
      go : (o : Option ℕ) → coverage_slot c address ≡ o → IsCounted (coverage_record c address)
      go none outside = rw outside (runs-IsCounted c _ _ _ _ ok)
      go (some slot) found = rw found (
          runs-IsCounted (coverage_execute c slot) _ _ _ _
            (execute-IsCounted c slot ok (slot-lt c address slot start size found)))

  -- A branch that is recorded keeps the counters equal to the numbers of slots with the flags,
  -- whatever the address is and whichever way the branch went. The range must start and end at
  -- even addresses.
  pub coverage_record_branch_counts :
      (taken : Bool)
      → c.address % 2 ≡ 0
      → c.size % 2 ≡ 0
      → IsCounted (coverage_record_branch c address taken)
  unfolding coverage_record_branch
  coverage_record_branch_counts taken start size = go taken (coverage_slot c address) refl
    where
      go :
          (taken : Bool) (o : Option ℕ)
          → coverage_slot c address ≡ o
          → IsCounted (coverage_record_branch c address taken)
      go taken none outside = rw (coverage_record_branch, outside) ok
      go true (some slot) found =
          rw (coverage_record_branch, found)
            (runs-IsCounted _ _ _ _ _
              (branch_taken-IsCounted c slot ok (slot-lt c address slot start size found)))
      go false (some slot) found =
          rw (coverage_record_branch, found)
            (runs-IsCounted _ _ _ _ _
              (branch_not_taken-IsCounted c slot ok (slot-lt c address slot start size found)))

  -- An instruction that is defined keeps the counters equal to the numbers of slots with the flags,
  -- whatever the address is and whether it is a branch or not. The range must start and end at even
  -- addresses.
  pub coverage_define_instruction_counts :
      (branch : Bool)
      → c.address % 2 ≡ 0
      → c.size % 2 ≡ 0
      → IsCounted (coverage_define_instruction c address branch).1
  unfolding coverage_define_instruction
  coverage_define_instruction_counts branch start size = go branch (coverage_slot c address) refl
    where
      go :
          (branch : Bool) (o : Option ℕ)
          → coverage_slot c address ≡ o
          → IsCounted (coverage_define_instruction c address branch).1
      go branch none outside = rw (coverage_define_instruction, outside) ok
      go false (some slot) found =
          rw (coverage_define_instruction, found)
            (define-IsCounted c slot ok (slot-lt c address slot start size found))
      go true (some slot) found =
          let lt = slot-lt c address slot start size found in
          rw (coverage_define_instruction, found)
            (define_branch-IsCounted (coverage_define c slot) slot (define-IsCounted c slot ok lt)
              (rw (define-size c slot) lt))

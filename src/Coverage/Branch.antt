-- ===== src/Coverage/Branch.antt =====
-- Recording the outcome of a branch keeps the counters of coverage.c right.
use dspic33e_sim.Prelude.{ℕ, ◌+◌, ◌/◌, ◌<◌, ◌≡◌, ◌∙◌, arith, true, false}
use dspic33e_sim.Prelude.{◌&&◌, ◌||◌, Bool-cases, inl, inr, bit_and, bit_or, u64}
use dspic33e_sim.Bits.{bit_and_comm, bit_and-bit_or, bit_or-ge, bit_or-zero, zero-bit_or}
use dspic33e_sim.Device.State.{update}
use dspic33e_sim.Coverage.{Coverage, has, coverage_observe_site, coverage_observe_outcome}
use dspic33e_sim.Coverage.Counts.{IsCounted, counted, counted-le, same_count, new_count, has-bit_or}
use dspic33e_sim.Coverage.Counts.{executed, taken, not_taken, observed, defined, conditional}

-- A branch was observed if it went one way or the other.
has-six : (y : ℕ) → has y 6 ≡ (has y 2 || has y 4)
has-six y = ground (
  arith,
  bit_and_comm y 6,
  bit_and-bit_or 2 4 y,
  bit_and_comm y 2,
  bit_and_comm y 4,
  bit_or-ge (bit_and 2 y) (bit_and 4 y),
  bit_or-zero (bit_and 2 y),
  zero-bit_or (bit_and 4 y),
)

module _ (c : Coverage) (slot : ℕ) (ok : IsCounted c) (lt : slot < c.size / 2) where
  abbrev x : ℕ
  x = c.slots slot

  added_taken :
      has x 2 ≡ false
      → u64 (counted taken c.slots (c.size / 2) + counted not_taken c.slots (c.size / 2) + 1)
        ≡ counted taken (update c.slots slot (bit_or x 2)) (c.size / 2)
          + counted not_taken (update c.slots slot (bit_or x 2)) (c.size / 2)
  added_taken new =
      let size_le = ok.size-le in
      let mine = new_count c slot ok lt taken 2 true new (ground (arith, has-bit_or x 2 2)) in
      let others = same_count c slot ok lt not_taken 2 (ground (arith, has-bit_or x 2 4)) in
      let bound = counted-le taken c.slots (c.size / 2) in
      let bound' = counted-le not_taken c.slots (c.size / 2) in
      omega (arith, mine, others, bound, bound')

  pub branch_taken-IsCounted :
      IsCounted (coverage_observe_outcome (coverage_observe_site c slot) slot 2 4)
  unfolding coverage_observe_outcome coverage_observe_site
  branch_taken-IsCounted = elim (Bool-cases (has x 2)) [
    | inl seen ↦ let site : has x 6 ≡ true = ground (arith, has-six x) in rw (site, seen) ok
    | inr new ↦
        let added = added_taken new in
        elim (Bool-cases (has x 6)) [
          | inl site ↦
              rw (site, new)
                (record {
                  size-le = ok.size-le;
                  unique =
                      ok.unique
                      ∙ same_count c slot ok lt executed 2 (ground (arith, has-bit_or x 2 1));
                  total =
                      ok.total
                      ∙ same_count c slot ok lt defined 2 (ground (arith, has-bit_or x 2 8));
                  covered =
                      ok.covered
                      ∙ same_count c slot ok lt (λ f. executed f && defined f) 2
                          (ground (arith, has-bit_or x 2 1, has-bit_or x 2 8));
                  sites =
                      ok.sites
                      ∙ same_count c slot ok lt observed 2 (ground (arith, site, has-bit_or x 2 6));
                  outcomes = rw ok.outcomes added;
                  both = rw ok.both (
                      new_count c slot ok lt (λ f. taken f && not_taken f) 2 (has (bit_or x 2) 4)
                        (ground (arith, new)) (ground (arith, has-bit_or x 2 2)));
                  total_sites =
                      ok.total_sites
                      ∙ same_count c slot ok lt conditional 2 (ground (arith, has-bit_or x 2 16));
                  covered_sites =
                      ok.covered_sites
                      ∙ same_count c slot ok lt (λ f. observed f && conditional f) 2
                          (ground (arith, site, has-bit_or x 2 6, has-bit_or x 2 16));
                })
          | inr no_site ↦
              rw (no_site, new)
                (record {
                  size-le = ok.size-le;
                  unique =
                      ok.unique
                      ∙ same_count c slot ok lt executed 2 (ground (arith, has-bit_or x 2 1));
                  total =
                      ok.total
                      ∙ same_count c slot ok lt defined 2 (ground (arith, has-bit_or x 2 8));
                  covered =
                      ok.covered
                      ∙ same_count c slot ok lt (λ f. executed f && defined f) 2
                          (ground (arith, has-bit_or x 2 1, has-bit_or x 2 8));
                  sites = rw ok.sites (
                      new_count c slot ok lt observed 2 true no_site
                        (ground (arith, has-bit_or x 2 6)));
                  outcomes = rw ok.outcomes added;
                  both = rw ok.both (
                      new_count c slot ok lt (λ f. taken f && not_taken f) 2 (has (bit_or x 2) 4)
                        (ground (arith, new)) (ground (arith, has-bit_or x 2 2)));
                  total_sites =
                      ok.total_sites
                      ∙ same_count c slot ok lt conditional 2 (ground (arith, has-bit_or x 2 16));
                  covered_sites = rw ok.covered_sites (
                      new_count c slot ok lt (λ f. observed f && conditional f) 2 (has x 16)
                        (ground (arith, no_site))
                        (ground (arith, has-bit_or x 2 6, has-bit_or x 2 16)));
                })
        ]
  ]

  added_not_taken :
      has x 4 ≡ false
      → u64 (counted taken c.slots (c.size / 2) + counted not_taken c.slots (c.size / 2) + 1)
        ≡ counted taken (update c.slots slot (bit_or x 4)) (c.size / 2)
          + counted not_taken (update c.slots slot (bit_or x 4)) (c.size / 2)
  added_not_taken new =
      let size_le = ok.size-le in
      let mine = new_count c slot ok lt not_taken 4 true new (ground (arith, has-bit_or x 4 4)) in
      let others = same_count c slot ok lt taken 4 (ground (arith, has-bit_or x 4 2)) in
      let bound = counted-le not_taken c.slots (c.size / 2) in
      let bound' = counted-le taken c.slots (c.size / 2) in
      omega (arith, mine, others, bound, bound')

  pub branch_not_taken-IsCounted :
      IsCounted (coverage_observe_outcome (coverage_observe_site c slot) slot 4 2)
  unfolding coverage_observe_outcome coverage_observe_site
  branch_not_taken-IsCounted = elim (Bool-cases (has x 4)) [
    | inl seen ↦ let site : has x 6 ≡ true = ground (arith, has-six x) in rw (site, seen) ok
    | inr new ↦
        let added = added_not_taken new in
        elim (Bool-cases (has x 6)) [
          | inl site ↦
              rw (site, new)
                (record {
                  size-le = ok.size-le;
                  unique =
                      ok.unique
                      ∙ same_count c slot ok lt executed 4 (ground (arith, has-bit_or x 4 1));
                  total =
                      ok.total
                      ∙ same_count c slot ok lt defined 4 (ground (arith, has-bit_or x 4 8));
                  covered =
                      ok.covered
                      ∙ same_count c slot ok lt (λ f. executed f && defined f) 4
                          (ground (arith, has-bit_or x 4 1, has-bit_or x 4 8));
                  sites =
                      ok.sites
                      ∙ same_count c slot ok lt observed 4 (ground (arith, site, has-bit_or x 4 6));
                  outcomes = rw ok.outcomes added;
                  both = rw ok.both (
                      new_count c slot ok lt (λ f. taken f && not_taken f) 4 (has (bit_or x 4) 2)
                        (ground (arith, new)) (ground (arith, has-bit_or x 4 4)));
                  total_sites =
                      ok.total_sites
                      ∙ same_count c slot ok lt conditional 4 (ground (arith, has-bit_or x 4 16));
                  covered_sites =
                      ok.covered_sites
                      ∙ same_count c slot ok lt (λ f. observed f && conditional f) 4
                          (ground (arith, site, has-bit_or x 4 6, has-bit_or x 4 16));
                })
          | inr no_site ↦
              rw (no_site, new)
                (record {
                  size-le = ok.size-le;
                  unique =
                      ok.unique
                      ∙ same_count c slot ok lt executed 4 (ground (arith, has-bit_or x 4 1));
                  total =
                      ok.total
                      ∙ same_count c slot ok lt defined 4 (ground (arith, has-bit_or x 4 8));
                  covered =
                      ok.covered
                      ∙ same_count c slot ok lt (λ f. executed f && defined f) 4
                          (ground (arith, has-bit_or x 4 1, has-bit_or x 4 8));
                  sites = rw ok.sites (
                      new_count c slot ok lt observed 4 true no_site
                        (ground (arith, has-bit_or x 4 6)));
                  outcomes = rw ok.outcomes added;
                  both = rw ok.both (
                      new_count c slot ok lt (λ f. taken f && not_taken f) 4 (has (bit_or x 4) 2)
                        (ground (arith, new)) (ground (arith, has-bit_or x 4 4)));
                  total_sites =
                      ok.total_sites
                      ∙ same_count c slot ok lt conditional 4 (ground (arith, has-bit_or x 4 16));
                  covered_sites = rw ok.covered_sites (
                      new_count c slot ok lt (λ f. observed f && conditional f) 4 (has x 16)
                        (ground (arith, no_site))
                        (ground (arith, has-bit_or x 4 6, has-bit_or x 4 16)));
                })
        ]
  ]

-- ===== src/Coverage/Counts.antt =====
-- The counters of coverage.c count what the flags say.
use dspic33e_sim.Prelude.{ℕ, zero, suc, ◌+◌, ◌/◌, ◌≤◌, ◌<◌, ◌≡◌, refl, ap, arith, Bool, false}
use dspic33e_sim.Prelude.{◌&&◌, ◌||◌, ◌==◌, Bool-cases, inl, inr, to_nat, bit_and, bit_or, u64}
use dspic33e_sim.Bits.{bit_and-bit_or, bit_or-ge, bit_or-zero, zero-bit_or}
use dspic33e_sim.Device.State.{update}
use dspic33e_sim.Coverage.{Coverage, has}

-- The number of the first `n` slots whose flags pass a test.
unfoldable pub counted : (ℕ → Bool) → (ℕ → ℕ) → ℕ → ℕ
counted test slots zero = 0
counted test slots (suc n) = to_nat (test (slots n)) + counted test slots n

module _ (test : ℕ → Bool) where
  pub counted-suc :
      (slots : ℕ → ℕ) (n : ℕ)
      → counted test slots (suc n) ≡ to_nat (test (slots n)) + counted test slots n
  unfolding counted
  counted-suc slots n = refl

  pub counted-le : (slots : ℕ → ℕ) (n : ℕ) → counted test slots n ≤ n
  unfolding counted
  counted-le slots zero = omega arith
  counted-le slots (suc n) = ground (arith, counted-le slots n, counted-suc slots n)

  counted-update_out :
      (slots : ℕ → ℕ) (n i v : ℕ) → n ≤ i → counted test (update slots i v) n ≡ counted test slots n
  unfolding counted
  counted-update_out slots zero i v le = refl
  counted-update_out slots (suc n) i v le = ground (arith, counted-update_out slots n i v)

  -- A write trades the old flags for the new ones.
  counted-update :
      (slots : ℕ → ℕ) (n i v : ℕ)
      → i < n
      → counted test (update slots i v) n + to_nat (test (slots i))
        ≡ counted test slots n + to_nat (test v)
  counted-update slots zero i v lt = absurd (omega arith)
  counted-update slots (suc n) i v lt = elim (Bool-cases (i == n)) [
    | inl top ↦ ground (
      arith,
      counted-suc slots n,
      counted-suc (update slots i v) n,
      counted-update_out slots n i v,
    )
    | inr lower ↦
        ground
          (arith, counted-suc slots n, counted-suc (update slots i v) n, counted-update slots n i v)
  ]

-- Setting a flag sets the tests that look at it.
pub has-bit_or : (x b m : ℕ) → has (bit_or x b) m ≡ (has x m || has b m)
has-bit_or x b m = ground (
  arith,
  bit_and-bit_or x b m,
  bit_or-ge (bit_and x m) (bit_and b m),
  bit_or-zero (bit_and x m),
  zero-bit_or (bit_and b m),
)

-- The flags of an instruction that was executed, is defined, is a conditional branch, and of a
-- branch that went one way, or both.
abbrev pub executed : ℕ → Bool
executed flags = has flags 1

abbrev pub taken : ℕ → Bool
taken flags = has flags 2

abbrev pub not_taken : ℕ → Bool
not_taken flags = has flags 4

abbrev pub observed : ℕ → Bool
observed flags = has flags 6

abbrev pub defined : ℕ → Bool
defined flags = has flags 8

abbrev pub conditional : ℕ → Bool
conditional flags = has flags 16

-- The counters are the numbers of slots with the flags.
pub record IsCounted (c : Coverage) : Type 0 where
  pub size-le : c.size ≤ 4294967296
  pub unique : c.unique_instructions ≡ counted executed c.slots (c.size / 2)
  pub total : c.total_instructions ≡ counted defined c.slots (c.size / 2)
  pub covered : c.covered_instructions ≡ counted (λ f. executed f && defined f) c.slots (c.size / 2)
  pub sites : c.observed_branch_sites ≡ counted observed c.slots (c.size / 2)
  pub outcomes :
      c.observed_branch_outcomes
      ≡ counted taken c.slots (c.size / 2) + counted not_taken c.slots (c.size / 2)
  pub both :
      c.branch_sites_with_both_outcomes ≡ counted (λ f. taken f && not_taken f) c.slots (c.size / 2)
  pub total_sites : c.total_branch_sites ≡ counted conditional c.slots (c.size / 2)
  pub covered_sites :
      c.covered_branch_sites ≡ counted (λ f. observed f && conditional f) c.slots (c.size / 2)

module _ (c : Coverage) (slot : ℕ) (ok : IsCounted c) (lt : slot < c.size / 2) where
  abbrev pub n : ℕ
  n = c.size / 2

  abbrev pub x : ℕ
  x = c.slots slot

  -- A flag that a test does not look at leaves its count, and one that makes it true adds one.
  pub same_count :
      (test : ℕ → Bool) (b : ℕ)
      → test (bit_or x b) ≡ test x
      → counted test c.slots n ≡ counted test (update c.slots slot (bit_or x b)) n
  same_count test b same =
      omega (arith, counted-update test c.slots n slot (bit_or x b) lt, ap to_nat same)

  pub new_count :
      (test : ℕ → Bool) (b : ℕ) (more : Bool)
      → test x ≡ false
      → test (bit_or x b) ≡ more
      → u64 (counted test c.slots n + to_nat more)
        ≡ counted test (update c.slots slot (bit_or x b)) n
  new_count test b more before after =
      let size_le = ok.size-le in
      let written = counted-update test c.slots n slot (bit_or x b) lt in
      let bound = counted-le test c.slots n in
      ground (arith, written, bound, ap to_nat before, ap to_nat after)

-- ===== src/Bits/OneBit.antt =====
-- Masks of one bit, `1 << k`.
use dspic33e_sim.Prelude.{
  ℕ, zero, suc, ◌*◌, ◌/◌, ◌%◌, ◌^◌, ◌≡◌, ◌≢◌, ◌⊎◌, arith, refl, sym, ap, ◌∙◌,
}
use dspic33e_sim.Prelude.{bit_and, bit_or}
use dspic33e_sim.Bits.Digits.{bit_and_digit}
use dspic33e_sim.Bits.Laws.{
  bit_and_self, bit_or-ge, bit_and_comm, bit_and_assoc, bit_and-bit_or, zero-bit_and, bit_or-zero,
}
use dspic33e_sim.Bits.Masks.{bit_and_mask}
use native.Mathlib.Nat.{pow-suc, one-le-pow}
use mathlib.Core.Path.{ap₂}

pub bit_and_one : (a : ℕ) → bit_and a 1 ≡ a % 2
bit_and_one a = bit_and_mask 1 a

pub bit_and_bit : (k a : ℕ) → (bit_and a (2 ^ k) ≡ 0) ⊎ (bit_and a (2 ^ k) ≡ 2 ^ k)
bit_and_bit zero a = ground (arith, bit_and_one a)
bit_and_bit (suc k) a =
    let twice : 2 ^ suc k ≡ 2 * 2 ^ k = omega (arith, pow-suc 2 k) in
    let half : 2 ^ suc k / 2 ≡ 2 ^ k = omega arith in
    let digit = bit_and_digit a (2 ^ suc k) in
    let rest : bit_and a (2 ^ suc k) ≡ bit_and (a / 2) (2 ^ k) * 2 =
      omega (arith, digit, ap (bit_and (a / 2)) half) in
    rw rest (ground (arith, bit_and_bit k (a / 2)))

-- Two numbers that have a bit have it in common.
pub common_bit : (k a b : ℕ) → bit_and a (2 ^ k) ≢ 0 → bit_and b (2 ^ k) ≢ 0 → bit_and a b ≢ 0
common_bit k a b ha hb none_common =
    let bit_a : bit_and a (2 ^ k) ≡ 2 ^ k = ground (arith, bit_and_bit k a, ha) in
    let bit_b : bit_and b (2 ^ k) ≡ 2 ^ k = ground (arith, bit_and_bit k b, hb) in
    ha (
      sym (ap (bit_and a) bit_b)
      ∙ sym (bit_and_assoc a b (2 ^ k))
      ∙ ap (λ t. bit_and t (2 ^ k)) none_common
      ∙ zero-bit_and (2 ^ k))

-- Two different bits have nothing in common.
pub other_bit : (j k : ℕ) → j ≢ k → bit_and (2 ^ j) (2 ^ k) ≡ 0
other_bit zero zero ne = absurd (ne refl)
other_bit zero (suc k) ne =
    omega (arith, pow-suc 2 k, bit_and_comm 1 (2 ^ suc k), bit_and_one (2 ^ suc k))
other_bit (suc j) zero ne = omega (arith, pow-suc 2 j, bit_and_one (2 ^ suc j))
other_bit (suc j) (suc k) ne =
    let twice_j : 2 ^ suc j ≡ 2 * 2 ^ j = omega (arith, pow-suc 2 j) in
    let twice_k : 2 ^ suc k ≡ 2 * 2 ^ k = omega (arith, pow-suc 2 k) in
    let half_j : 2 ^ suc j / 2 ≡ 2 ^ j = omega arith in
    let half_k : 2 ^ suc k / 2 ≡ 2 ^ k = omega arith in
    omega (
      arith,
      bit_and_digit (2 ^ suc j) (2 ^ suc k),
      ap₂ bit_and half_j half_k,
      other_bit j k (λ same. ne (ap suc same)),
    )

-- The bit that was set is there, and the others are as they were.
pub set_bit_same : (a k : ℕ) → bit_and (bit_or a (2 ^ k)) (2 ^ k) ≢ 0
set_bit_same a k h = omega (
  arith,
  ap (λ t. t) (sym (bit_and-bit_or a (2 ^ k) (2 ^ k)) ∙ h),
  bit_or-ge (bit_and a (2 ^ k)) (bit_and (2 ^ k) (2 ^ k)),
  bit_and_self (2 ^ k),
  one-le-pow k 2 (omega arith),
)

pub set_bit_other : (a j k : ℕ) → j ≢ k → bit_and (bit_or a (2 ^ j)) (2 ^ k) ≡ bit_and a (2 ^ k)
set_bit_other a j k ne = rw (bit_and-bit_or, other_bit j k ne, bit_or-zero)

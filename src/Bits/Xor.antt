-- ===== src/Bits/Xor.antt =====
-- Laws of `^`, with those of shifted operands.
use native.Mathlib.Nat.{pow-suc}
use mathlib.Core.Path.{ap₂}
use dspic33e_sim.Prelude.{ℕ, zero, suc, ◌+◌, ◌*◌, ◌/◌, ◌^◌, ◌<◌, ◌≡◌, sym, ap, ◌∙◌, arith}
use dspic33e_sim.Prelude.{bit_xor}
use dspic33e_sim.Bits.Digits.{bit_xor_digit}
use dspic33e_sim.Bits.Laws.{
  digit_induction, eq_of_digits, bit_xor-half, bit_xor-parity, zero-bit_xor,
}
use dspic33e_sim.Bits.Laws.{bit_xor-add-bit_and}
use dspic33e_sim.Bits.Masks.{bit_and_fields}

pub bit_xor-zero : (a : ℕ) → bit_xor a 0 ≡ a
bit_xor-zero = digit_induction _ (zero-bit_xor 0) (λ a ih. omega (arith, bit_xor_digit a 0))

pub bit_xor_comm : (a b : ℕ) → bit_xor a b ≡ bit_xor b a
bit_xor_comm =
    digit_induction _ (λ b. rw (zero-bit_xor, bit_xor-zero))
      (λ a ih b. omega (arith, bit_xor_digit a b, bit_xor_digit b a, ih (b / 2)))

pub bit_xor_self : (a : ℕ) → bit_xor a a ≡ 0
bit_xor_self = digit_induction _ (zero-bit_xor 0) (λ a ih. omega (arith, bit_xor_digit a a))

pub bit_xor_assoc : (a b c : ℕ) → bit_xor (bit_xor a b) c ≡ bit_xor a (bit_xor b c)
bit_xor_assoc =
    digit_induction _ (λ b c. rw (zero-bit_xor, zero-bit_xor))
      (λ a ih b c.
        eq_of_digits
          (rw (bit_xor-half, bit_xor-half, bit_xor-half, bit_xor-half) (ih (b / 2) (c / 2)))
          (omega (
            arith,
            bit_xor-parity (bit_xor a b) c,
            bit_xor-parity a b,
            bit_xor-parity a (bit_xor b c),
            bit_xor-parity b c,
          )))

-- Both pairs of operands of four may change places.
pub bit_xor_swap :
    (a b c d : ℕ) → bit_xor (bit_xor a b) (bit_xor c d) ≡ bit_xor (bit_xor a c) (bit_xor b d)
bit_xor_swap a b c d =
    bit_xor_assoc a b (bit_xor c d)
    ∙ ap (bit_xor a)
        (sym (bit_xor_assoc b c d) ∙ ap (λ t. bit_xor t d) (bit_xor_comm b c) ∙ bit_xor_assoc c b d)
    ∙ sym (bit_xor_assoc a c (bit_xor b d))

pub bit_xor_double : (a b : ℕ) → bit_xor (a * 2) (b * 2) ≡ bit_xor a b * 2
bit_xor_double a b =
    let half_a : a * 2 / 2 ≡ a = omega arith in
    let half_b : b * 2 / 2 ≡ b = omega arith in
    omega (arith, bit_xor_digit (a * 2) (b * 2), ap₂ bit_xor half_a half_b)

mul-two-pow : (q k : ℕ) → q * 2 ^ suc k ≡ q * 2 ^ k * 2
mul-two-pow q k = omega (arith, ap (λ (t : ℕ). q * t) (pow-suc 2 k))

pub bit_xor_shift : (k a b : ℕ) → bit_xor (a * 2 ^ k) (b * 2 ^ k) ≡ bit_xor a b * 2 ^ k
bit_xor_shift zero a b =
    let same_a : a * 2 ^ 0 ≡ a = omega arith in
    let same_b : b * 2 ^ 0 ≡ b = omega arith in ap₂ bit_xor same_a same_b ∙ omega arith
bit_xor_shift (suc k) a b =
    ap₂ bit_xor (mul-two-pow a k) (mul-two-pow b k)
    ∙ bit_xor_double (a * 2 ^ k) (b * 2 ^ k)
    ∙ ap (λ (t : ℕ). t * 2) (bit_xor_shift k a b)
    ∙ sym (mul-two-pow (bit_xor a b) k)

-- Parts with no common digit add up.
pub bit_xor_fields : (k q r : ℕ) → r < 2 ^ k → bit_xor (q * 2 ^ k) r ≡ q * 2 ^ k + r
bit_xor_fields k q r h = omega (arith, bit_xor-add-bit_and (q * 2 ^ k) r, bit_and_fields k q r h)

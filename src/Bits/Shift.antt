-- ===== src/Bits/Shift.antt =====
-- `&` of operands that were shifted.
use native.Mathlib.Nat.{pow-suc}
use mathlib.Core.Path.{ap₂}
use dspic33e_sim.Prelude.{ℕ, zero, suc, ◌*◌, ◌/◌, ◌^◌, ◌≡◌, sym, ap, ◌∙◌, arith, bit_and}
use dspic33e_sim.Bits.Digits.{bit_and_digit}

bit_and_double : (a b : ℕ) → bit_and (a * 2) (b * 2) ≡ bit_and a b * 2
bit_and_double a b =
    let half_a : a * 2 / 2 ≡ a = omega arith in
    let half_b : b * 2 / 2 ≡ b = omega arith in
    omega (arith, bit_and_digit (a * 2) (b * 2), ap₂ bit_and half_a half_b)

mul-two-pow : (q k : ℕ) → q * 2 ^ suc k ≡ q * 2 ^ k * 2
mul-two-pow q k = omega (arith, ap (λ (t : ℕ). q * t) (pow-suc 2 k))

pub bit_and_shift : (k a b : ℕ) → bit_and (a * 2 ^ k) (b * 2 ^ k) ≡ bit_and a b * 2 ^ k
bit_and_shift zero a b =
    let same_a : a * 2 ^ 0 ≡ a = omega arith in
    let same_b : b * 2 ^ 0 ≡ b = omega arith in ap₂ bit_and same_a same_b ∙ omega arith
bit_and_shift (suc k) a b =
    ap₂ bit_and (mul-two-pow a k) (mul-two-pow b k)
    ∙ bit_and_double (a * 2 ^ k) (b * 2 ^ k)
    ∙ ap (λ (t : ℕ). t * 2) (bit_and_shift k a b)
    ∙ sym (mul-two-pow (bit_and a b) k)

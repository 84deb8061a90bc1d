-- ===== src/Bits/Digits.antt =====
-- One equation for the lowest binary digit of `&`, `|` and `^`.
use Prim.Native.Nat.{digits, bitwise, bit_and-bitwise, bit_or-bitwise, bit_xor-bitwise, differ}
use dspic33e_sim.Prelude.{ℕ, zero, suc, ◌+◌, ◌*◌, ◌/◌, ◌%◌, ◌≤◌, ◌<◌, ◌≡◌, refl, arith}
use dspic33e_sim.Prelude.{bit_and, bit_or, bit_xor, min, max}

-- `n` and `m` are fuel: any that reaches the first number gives the same digits.
module _ (z : ℕ → ℕ) (f : ℕ → ℕ → ℕ) where
  same_digits : (n m a b : ℕ) → a ≤ n → a ≤ m → digits z f n a b ≡ digits z f m a b
  same_digits n m zero b p q = both n m
    where
      both : (n m : ℕ) → digits z f n 0 b ≡ digits z f m 0 b
      both zero zero = refl
      both zero (suc m) = refl
      both (suc n) zero = refl
      both (suc n) (suc m) = refl
  same_digits zero m (suc a) b p q = absurd (omega arith)
  same_digits (suc n) zero (suc a) b p q = absurd (omega arith)
  same_digits (suc n) (suc m) (suc a) b p q =
      rw (same_digits n m (suc a / 2) (b / 2) (omega arith) (omega arith))

  one_digit :
      (a b : ℕ)
      → bitwise z f (suc a) b ≡ bitwise z f (suc a / 2) (b / 2) * 2 + f (suc a % 2) (b % 2)
  one_digit a b =
      omega (arith, same_digits a (suc a / 2) (suc a / 2) (b / 2) (omega arith) (omega arith))

pub bit_and_digit : (a b : ℕ) → bit_and a b ≡ bit_and (a / 2) (b / 2) * 2 + min (a % 2) (b % 2)
bit_and_digit zero b = simp bit_and-bitwise (omega arith)
bit_and_digit (suc a) b = simp bit_and-bitwise (one_digit (λ y. 0) min a b)

pub bit_or_digit : (a b : ℕ) → bit_or a b ≡ bit_or (a / 2) (b / 2) * 2 + max (a % 2) (b % 2)
bit_or_digit zero b = simp bit_or-bitwise (omega arith)
bit_or_digit (suc a) b = simp bit_or-bitwise (one_digit (λ y. y) max a b)

differ_digit : (a b : ℕ) → differ (a % 2) (b % 2) ≡ (a % 2 + b % 2) % 2
differ_digit a b = by_digit (a % 2) (b % 2) (omega arith) (omega arith)
  where
    by_digit : (x y : ℕ) → x < 2 → y < 2 → differ x y ≡ (x + y) % 2
    by_digit zero zero hx hy = refl
    by_digit zero (suc zero) hx hy = refl
    by_digit (suc zero) zero hx hy = refl
    by_digit (suc zero) (suc zero) hx hy = refl
    by_digit zero (suc (suc y)) hx hy = absurd (omega arith)
    by_digit (suc zero) (suc (suc y)) hx hy = absurd (omega arith)
    by_digit (suc (suc x)) y hx hy = absurd (omega arith)

pub bit_xor_digit : (a b : ℕ) → bit_xor a b ≡ bit_xor (a / 2) (b / 2) * 2 + (a % 2 + b % 2) % 2
bit_xor_digit zero b = simp bit_xor-bitwise (omega arith)
bit_xor_digit (suc a) b =
    simp bit_xor-bitwise (omega (arith, one_digit (λ y. y) differ a b, differ_digit (suc a) b))

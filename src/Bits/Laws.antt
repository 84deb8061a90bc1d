-- ===== src/Bits/Laws.antt =====
-- The algebra of `&`, `|` and `^`.
use Prim.Native.Nat.{bit_and-bitwise, bit_or-bitwise, bit_xor-bitwise}
use mathlib.Core.WellFounded
use dspic33e_sim.Prelude.{ℕ, zero, suc, ◌+◌, ◌*◌, ◌/◌, ◌%◌, ◌≤◌, ◌<◌, ◌≡◌, refl, arith, min, max}
use dspic33e_sim.Prelude.{bit_and, bit_or, bit_xor}
use dspic33e_sim.Prelude.Order.{lt_wf}
use dspic33e_sim.Bits.Digits.{bit_and_digit, bit_or_digit, bit_xor_digit}

-- Induction on the binary digits.
pub digit_induction {ℓ} : (P : ℕ → Type ℓ) → P 0 → ((a : ℕ) → P (a / 2) → P a) → (a : ℕ) → P a
digit_induction P base step a = WellFounded.induction lt_wf {C = P} a go
  where
    go : (n : ℕ) → ((m : ℕ) → m < n → P m) → P n
    go zero ih = base
    go (suc n) ih = step (suc n) (ih (suc n / 2) (omega arith))

pub bit_and-half : (a b : ℕ) → bit_and a b / 2 ≡ bit_and (a / 2) (b / 2)
bit_and-half a b = omega (arith, bit_and_digit a b)

pub bit_and-parity : (a b : ℕ) → bit_and a b % 2 ≡ min (a % 2) (b % 2)
bit_and-parity a b = omega (arith, bit_and_digit a b)

pub bit_or-half : (a b : ℕ) → bit_or a b / 2 ≡ bit_or (a / 2) (b / 2)
bit_or-half a b = omega (arith, bit_or_digit a b)

pub bit_or-parity : (a b : ℕ) → bit_or a b % 2 ≡ max (a % 2) (b % 2)
bit_or-parity a b = omega (arith, bit_or_digit a b)

pub bit_xor-half : (a b : ℕ) → bit_xor a b / 2 ≡ bit_xor (a / 2) (b / 2)
bit_xor-half a b = omega (arith, bit_xor_digit a b)

pub bit_xor-parity : (a b : ℕ) → bit_xor a b % 2 ≡ (a % 2 + b % 2) % 2
bit_xor-parity a b = omega (arith, bit_xor_digit a b)

-- Numbers with the same half and the same lowest digit are equal.
pub eq_of_digits : {a b : ℕ} → a / 2 ≡ b / 2 → a % 2 ≡ b % 2 → a ≡ b
eq_of_digits p q = omega arith

pub zero-bit_and : (a : ℕ) → bit_and 0 a ≡ 0
zero-bit_and a = bit_and-bitwise 0 a

pub zero-bit_or : (a : ℕ) → bit_or 0 a ≡ a
zero-bit_or a = bit_or-bitwise 0 a

pub zero-bit_xor : (a : ℕ) → bit_xor 0 a ≡ a
zero-bit_xor a = bit_xor-bitwise 0 a

pub bit_and-zero : (a : ℕ) → bit_and a 0 ≡ 0
bit_and-zero = digit_induction _ refl (λ a ih. omega (arith, bit_and_digit a 0))

pub bit_or-zero : (a : ℕ) → bit_or a 0 ≡ a
bit_or-zero = digit_induction _ refl (λ a ih. omega (arith, bit_or_digit a 0))

pub bit_and_comm : (a b : ℕ) → bit_and a b ≡ bit_and b a
bit_and_comm =
    digit_induction _ (λ b. rw (zero-bit_and, bit_and-zero))
      (λ a ih b. omega (arith, bit_and_digit a b, bit_and_digit b a, ih (b / 2)))

pub bit_or_comm : (a b : ℕ) → bit_or a b ≡ bit_or b a
bit_or_comm =
    digit_induction _ (λ b. rw (zero-bit_or, bit_or-zero))
      (λ a ih b. omega (arith, bit_or_digit a b, bit_or_digit b a, ih (b / 2)))

pub bit_and_assoc : (a b c : ℕ) → bit_and (bit_and a b) c ≡ bit_and a (bit_and b c)
bit_and_assoc =
    digit_induction _ (λ b c. simp zero-bit_and)
      (λ a ih b c.
        eq_of_digits (simp bit_and-half (ih (b / 2) (c / 2))) (simp bit_and-parity (omega arith)))

pub bit_or_assoc : (a b c : ℕ) → bit_or (bit_or a b) c ≡ bit_or a (bit_or b c)
bit_or_assoc =
    digit_induction _ (λ b c. simp zero-bit_or)
      (λ a ih b c.
        eq_of_digits (simp bit_or-half (ih (b / 2) (c / 2))) (simp bit_or-parity (omega arith)))

-- `&` distributes over `|`.
pub bit_and-bit_or : (a b c : ℕ) → bit_and (bit_or a b) c ≡ bit_or (bit_and a c) (bit_and b c)
bit_and-bit_or =
    digit_induction _ (λ b c. simp (zero-bit_and, zero-bit_or))
      (λ a ih b c.
        eq_of_digits (simp (bit_or-half, bit_and-half) (ih (b / 2) (c / 2)))
          (simp (bit_or-parity, bit_and-parity) (omega arith)))

pub bit_and_self : (a : ℕ) → bit_and a a ≡ a
bit_and_self = digit_induction _ refl (λ a ih. omega (arith, bit_and_digit a a))

pub bit_or_self : (a : ℕ) → bit_or a a ≡ a
bit_or_self = digit_induction _ refl (λ a ih. omega (arith, bit_or_digit a a))

-- What the two have in common is counted twice in the sum.
pub bit_or-add-bit_and : (a b : ℕ) → bit_or a b + bit_and a b ≡ a + b
bit_or-add-bit_and =
    digit_induction _ (λ b. omega (arith, zero-bit_and, zero-bit_or, zero-bit_xor))
      (λ a ih b. omega (arith, bit_or_digit a b, bit_and_digit a b, ih (b / 2)))

pub bit_xor-add-bit_and : (a b : ℕ) → bit_xor a b + 2 * bit_and a b ≡ a + b
bit_xor-add-bit_and =
    digit_induction _ (λ b. omega (arith, zero-bit_and, zero-bit_or, zero-bit_xor))
      (λ a ih b. omega (arith, bit_xor_digit a b, bit_and_digit a b, ih (b / 2)))

pub bit_and-le : (a b : ℕ) → (bit_and a b ≤ a) × (bit_and a b ≤ b)
bit_and-le =
    digit_induction _ (λ b. omega (arith, zero-bit_and, zero-bit_or, zero-bit_xor))
      (λ a ih b. omega (arith, bit_and_digit a b, ih (b / 2)))

pub bit_or-ge : (a b : ℕ) → (a ≤ bit_or a b) × (b ≤ bit_or a b)
bit_or-ge a b = omega (arith, bit_or-add-bit_and a b, bit_and-le a b)

-- ===== src/Execution/Address/Reversed.antt =====
-- Bit-reversed addressing adds with the carry going down.
use mathlib.Core.Path.{ap₂}
use native.Mathlib.Nat.{pow-suc}
use dspic33e_sim.Prelude.{
  ℕ, zero, suc, ◌+◌, ◌-◌, ◌*◌, ◌/◌, ◌%◌, ◌^◌, ◌≤◌, ◌<◌, ◌≡◌, refl, sym, ap, ◌∙◌,
}
use dspic33e_sim.Prelude.{arith, Bool, Bool-cases, inl, inr, ◌!=◌, to_nat}
use dspic33e_sim.Prelude.{bit_and, bit_or, u16, ◌<<<◌}
use dspic33e_sim.Bits.{
  set_bit_same, set_bit_other, other_bit, bit_and_one, bit_and_assoc, bit_and-zero,
}
use dspic33e_sim.Device.State.{Dspic33}
use dspic33e_sim.Execution.Address.{has_bit, reversal_rounds, bit_reversed_address, stored_word}

-- The `n` bits of a word from bit 15 down, as a number of which bit 15 is the lowest.
unfoldable pub reversed : ℕ → ℕ → ℕ
reversed zero x = 0
reversed (suc n) x = reversed n x + has_bit x (15 - n) * 2 ^ n

reversed-lt : (n x : ℕ) → reversed n x < 2 ^ n
unfolding reversed
reversed-lt zero x = omega arith
reversed-lt (suc n) x =
    let twice : 2 ^ suc n ≡ 2 * 2 ^ n = omega (arith, pow-suc 2 n) in
    let before = reversed-lt n x in
    elim (Bool-cases (bit_and x (2 ^ (15 - n)) != 0)) [
      | inl on ↦ rw on (omega arith)
      | inr off ↦ rw off (omega arith)
    ]

-- Setting a bit below those that are read changes nothing.
reversed-set_bit :
    (n m x : ℕ) → n ≤ m → m ≤ 15 → reversed n (bit_or x (2 ^ (15 - m))) ≡ reversed n x
unfolding reversed
reversed-set_bit zero m x le top = refl
reversed-set_bit (suc n) m x le top =
    let other : bit_and (bit_or x (2 ^ (15 - m))) (2 ^ (15 - n)) ≡ bit_and x (2 ^ (15 - n)) =
      set_bit_other x (15 - m) (15 - n) (λ same. ground arith) in
    rw other (ap (λ t. t + has_bit x (15 - n) * 2 ^ n) (reversed-set_bit n m x (omega arith) top))

-- The sum at bit `15 - n` is odd.
abbrev sums_odd : ℕ → ℕ → ℕ → Bool
sums_odd address modifier n =
    bit_and
      (has_bit address (15 - n)
        + has_bit modifier (15 - n)
        + (reversal_rounds address modifier n).carry)
      1
    != 0

-- The bits that the loop has not come to are clear.
clear_below :
    (address modifier n k : ℕ)
    → n ≤ 15
    → 0 < k
    → k + n ≤ 15
    → bit_and (reversal_rounds address modifier n).result (2 ^ k) ≡ 0
unfolding reversal_rounds
clear_below address modifier zero k n-le pos le =
    bit_and_assoc address 1 (2 ^ k)
    ∙ ap (bit_and address) (other_bit 0 k (λ same. omega arith))
    ∙ bit_and-zero address
clear_below address modifier (suc n) k n-le pos le =
    let before = clear_below address modifier n k (omega arith) pos (omega arith) in
    elim (Bool-cases (sums_odd address modifier n)) [
      | inl odd ↦ rw odd (
          set_bit_other (reversal_rounds address modifier n).result (15 - n) k (λ same. omega arith)
          ∙ before)
      | inr even ↦ rw even before
    ]

-- The number that the rounds have made, with the carry, is the sum of the two numbers so far.
carry_step :
    (p x y z h m c : ℕ)
    → x + c * p ≡ y + z
    → x + (h + m + c) % 2 * p + (h + m + c) / 2 * (2 * p) ≡ y + h * p + (z + m * p)
carry_step p x y z h m c before =
    let parts : (h + m + c) / 2 * 2 + (h + m + c) % 2 ≡ h + m + c = omega arith in
    omega (arith, ap (λ (t : ℕ). t * p) parts)

odd_bit : (n : ℕ) → to_nat (bit_and n 1 != 0) ≡ n % 2
odd_bit n = ground (arith, bit_and_one n)

-- The round at bit `15 - n` puts the sum's digit there and keeps the bits above.
round_digit :
    (address modifier n : ℕ)
    → suc n ≤ 15
    → (reversed n (reversal_rounds address modifier (suc n)).result
        ≡ reversed n (reversal_rounds address modifier n).result)
      × (has_bit (reversal_rounds address modifier (suc n)).result (15 - n)
          ≡ (has_bit address (15 - n)
              + has_bit modifier (15 - n)
              + (reversal_rounds address modifier n).carry)
            % 2)
unfolding reversal_rounds
round_digit address modifier n le =
    let result = (reversal_rounds address modifier n).result in
    let sum =
      has_bit address (15 - n)
      + has_bit modifier (15 - n)
      + (reversal_rounds address modifier n).carry in
    elim (Bool-cases (sums_odd address modifier n)) [
      | inl odd ↦
          let digit : sum % 2 ≡ 1 = sym (odd_bit sum) ∙ ap to_nat odd in
          let on : has_bit (bit_or result (2 ^ (15 - n))) (15 - n) ≡ 1 =
            ground (arith, set_bit_same result (15 - n)) in
          rw odd (reversed-set_bit n n result (omega arith) (omega arith), on ∙ sym digit)
      | inr even ↦
          let digit : sum % 2 ≡ 0 = sym (odd_bit sum) ∙ ap to_nat even in
          let off : has_bit result (15 - n) ≡ 0 =
            ap (λ t. to_nat (t != 0))
              (clear_below address modifier n (15 - n) (omega arith) (omega arith) (omega arith)) in
          rw even (refl, off ∙ sym digit)
    ]

rounds_sum :
    (address modifier n : ℕ)
    → n ≤ 15
    → reversed n (reversal_rounds address modifier n).result
        + (reversal_rounds address modifier n).carry * 2 ^ n
      ≡ reversed n address + reversed n modifier
unfolding reversal_rounds reversed
rounds_sum address modifier zero le = refl
rounds_sum address modifier (suc n) le =
    let (above, digit) = round_digit address modifier n le in
    let twice : 2 ^ suc n ≡ 2 * 2 ^ n = omega (arith, pow-suc 2 n) in
    let before = rounds_sum address modifier n (omega arith) in
    ap₂ (λ a b. a + b * 2 ^ n + (reversal_rounds address modifier (suc n)).carry * 2 ^ suc n) above
      digit
    ∙ ap
        (λ t.
          reversed n (reversal_rounds address modifier n).result
          + (has_bit address (15 - n)
              + has_bit modifier (15 - n)
              + (reversal_rounds address modifier n).carry)
            % 2
            * 2 ^ n
          + (has_bit address (15 - n)
              + has_bit modifier (15 - n)
              + (reversal_rounds address modifier n).carry)
            / 2
            * t)
        twice
    ∙ carry_step (2 ^ n) _ (reversed n address) (reversed n modifier) _ _ _ before

lowest_bit :
    (address modifier n : ℕ)
    → n ≤ 15
    → bit_and (reversal_rounds address modifier n).result 1 ≡ bit_and address 1
unfolding reversal_rounds
lowest_bit address modifier zero le = bit_and_assoc address 1 1
lowest_bit address modifier (suc n) le =
    let before = lowest_bit address modifier n (omega arith) in
    elim (Bool-cases (sums_odd address modifier n)) [
      | inl odd ↦ rw odd (
          set_bit_other (reversal_rounds address modifier n).result (15 - n) 0 (λ same. omega arith)
          ∙ before)
      | inr even ↦ rw even before
    ]

-- Read from the top, the new pointer is the sum of the pointer and of twice XBREV, without a carry
-- out of the 15 bits that it counts in; its lowest bit stays.
pub bit_reversed_address_adds :
    (cpu : Dspic33) (address : ℕ)
    → (reversed 15 (bit_reversed_address cpu address)
        ≡ (reversed 15 address + reversed 15 (u16 (stored_word cpu 0x0050 <<< 1))) % 2 ^ 15)
      × (bit_reversed_address cpu address % 2 ≡ address % 2)
unfolding bit_reversed_address
bit_reversed_address_adds cpu address =
    let modifier = u16 (stored_word cpu 0x0050 <<< 1) in
    let sum = rounds_sum address modifier 15 (omega arith) in
    let lt = reversed-lt 15 (reversal_rounds address modifier 15).result in
    let lowest = lowest_bit address modifier 15 (omega arith) in
    let here = bit_and_one (reversal_rounds address modifier 15).result in
    (omega arith, sym here ∙ lowest ∙ bit_and_one address)

-- ===== src/Crc/Shift.antt =====
-- `crc_shift_bits` divides polynomials over two elements.
use native.Mathlib.Nat.{mod-lt, pow-suc, one-le-pow}
use mathlib.Core.Path.{ap₂}
use dspic33e_sim.Prelude.{
  ℕ, zero, suc, ◌+◌, ◌-◌, ◌*◌, ◌%◌, ◌^◌, ◌≤◌, ◌<◌, ◌≡◌, refl, sym, ap, ◌∙◌, arith,
}
use dspic33e_sim.Prelude.{Bool, true, false, to_nat, Bool-cases, inl, inr, if◌then◌else◌}
use dspic33e_sim.Prelude.{leb, bit_xor, ◌==◌, not, bool_eq, u8}
use dspic33e_sim.Bits.{bit_xor_assoc, bit_xor_shift, bit_xor_fields}
use dspic33e_sim.Bits.{bit_xor-zero, zero-bit_xor, bit_xor-lt}
use dspic33e_sim.Device.State.{Crc}
use dspic33e_sim.Crc.{shift_loop, shift_bit, bit_done, feedback_bit}
use dspic33e_sim.Crc.Division.{
  times, value, value-lt, data_bit, message, quotient, length-message, length-quotient,
}
use dspic33e_sim.Crc.Division.{divisor, IsLoaded, shifted_lem, round_cases, top_bit, doubled}

-- A round keeps the remainder below the divisor's highest coefficient, and what it subtracts is
-- the divisor, as often as the feedback says.
module _ (crc : Crc) (r : ℕ) (set : IsLoaded crc r) where
  w : ℕ
  w = crc.polynomial_width

  half : ℕ
  half = 2 ^ (w - 1)

  halves : 2 ^ w ≡ 2 * half
  unfolding w half
  halves =
      let positive = set.some_width in
      let back : w ≡ suc (w - 1) = omega arith in
      ap (λ k. 2 ^ k) back ∙ omega (arith, pow-suc 2 (w - 1))

  half-pos : 0 < half
  unfolding half
  half-pos = one-le-pow (w - 1) 2 (omega arith)

  remainder-lt_halves : r < 2 * half
  unfolding w half
  remainder-lt_halves = rw halves at set.remainder-lt

  feedback_bit-lem : feedback_bit crc r ≡ not (bool_eq (leb half r) (data_bit crc))
  unfolding feedback_bit data_bit w half
  feedback_bit-lem = rw (top_bit half r half-pos remainder-lt_halves)

  shift_bit-lem : shift_bit crc r ≡ (
      if not (bool_eq (leb half r) (data_bit crc))
      then bit_xor (r * 2 % 2 ^ w) crc.polynomial
      else r * 2 % 2 ^ w)
  unfolding shift_bit w
  shift_bit-lem = rw (
    feedback_bit-lem,
    shifted_lem crc.polynomial_width r set.width-le set.some_width set.remainder-lt,
  )

  doubled-remainder : (if leb half r then 2 ^ w + r * 2 % 2 ^ w else r * 2 % 2 ^ w) ≡ r * 2
  doubled-remainder = rw halves (doubled half r half-pos remainder-lt_halves)

  rest-lt : r * 2 % 2 ^ w < 2 ^ w
  rest-lt = mod-lt (r * 2) (one-le-pow w 2 (omega arith))

  shift_bit-divides :
      bit_xor (if feedback_bit crc r then divisor crc else 0) (shift_bit crc r)
      ≡ bit_xor (r * 2) (if data_bit crc then 2 ^ w else 0)
  unfolding divisor w
  shift_bit-divides =
      rw (feedback_bit-lem, shift_bit-lem)
        (round_cases crc.polynomial_width crc.polynomial (r * 2 % 2 ^ w) (leb half r) (data_bit crc)
            rest-lt set.polynomial-lt
          ∙ ap (λ t. bit_xor t (if data_bit crc then 2 ^ w else 0)) doubled-remainder)

  shift_bit-lt : shift_bit crc r < 2 ^ crc.polynomial_width
  unfolding w
  shift_bit-lt = elim (Bool-cases (not (bool_eq (leb half r) (data_bit crc)))) [
    | inl subtracts ↦
        rw (shift_bit-lem, subtracts)
          (bit_xor-lt crc.polynomial_width (r * 2 % 2 ^ w) crc.polynomial rest-lt set.polynomial-lt)
    | inr keeps ↦ rw (shift_bit-lem, keeps) rest-lt
  ]

  shift_bit-IsLoaded : IsLoaded (bit_done crc) (shift_bit crc r)
  shift_bit-IsLoaded = record {
    some_width = set.some_width;
    width-le = set.width-le;
    polynomial-lt = set.polynomial-lt;
    remainder-lt = shift_bit-lt;
  }

-- Rounds keep the settings, and count the bits until none is left.
pub shift_loop-IsLoaded :
    (n : ℕ) (crc : Crc) (r : ℕ)
    → IsLoaded crc r
    → crc.bits_remaining < 256
    → IsLoaded (shift_loop n crc r).0 (shift_loop n crc r).1
      × ((shift_loop n crc r).0 ≡ record crc { bits_remaining = crc.bits_remaining - n })
unfolding shift_loop
shift_loop-IsLoaded zero crc r set lt =
    (set, ap (λ k. record crc { bits_remaining = k }) (omega arith))
shift_loop-IsLoaded (suc n) crc r set lt = elim (Bool-cases (crc.bits_remaining == 0)) [
  | inl stops ↦ rw stops (set, ap (λ k. record crc { bits_remaining = k }) (ground arith))
  | inr goes_on ↦
      let less : u8 (crc.bits_remaining + 255) ≡ crc.bits_remaining - 1 = ground arith in
      let (set', same) =
        shift_loop-IsLoaded n (bit_done crc) (shift_bit crc r) (shift_bit-IsLoaded crc r set)
          (omega arith) in
      rw goes_on (set', same ∙ ap (λ k. record crc { bits_remaining = k }) (omega (arith, less)))
]

if_times : (b : Bool) (x k : ℕ) → (if b then x else 0) * k ≡ (if b then x * k else 0)
if_times false x k = omega arith
if_times true x k = refl

twice_shifted : (r n : ℕ) → r * 2 * 2 ^ n ≡ r * 2 ^ suc n
twice_shifted r n = omega (arith, ap (λ (t : ℕ). r * t) (pow-suc 2 n))

bit_moved :
    (b : Bool) (n w : ℕ) → (if b then 2 ^ w else 0) * 2 ^ n ≡ (if b then 2 ^ n * 2 ^ w else 0)
bit_moved false n w = omega arith
bit_moved true n w = omega arith

as_factor : (b : Bool) (x y : ℕ) → (if b then x * y else 0) ≡ to_nat b * x * y
as_factor false x y = omega arith
as_factor true x y = omega arith

-- The equation of a round, `n` places higher.
round_shifted :
    (n : ℕ) (crc : Crc) (r : ℕ)
    → IsLoaded crc r
    → bit_xor (if feedback_bit crc r then divisor crc * 2 ^ n else 0) (shift_bit crc r * 2 ^ n)
      ≡ bit_xor (r * 2 ^ suc n) (if data_bit crc then 2 ^ n * 2 ^ crc.polynomial_width else 0)
unfolding w
round_shifted n crc r set =
    let w = crc.polynomial_width in
    rw (sym (if_times (feedback_bit crc r) (divisor crc) (2 ^ n))) (
      bit_xor_shift n (if feedback_bit crc r then divisor crc else 0) (shift_bit crc r)
      ∙ ap (λ (t : ℕ). t * 2 ^ n) (shift_bit-divides crc r set)
      ∙ sym (bit_xor_shift n (r * 2) (if data_bit crc then 2 ^ w else 0))
      ∙ ap₂ bit_xor (twice_shifted r n) (bit_moved (data_bit crc) n w))

bits_shifted :
    (n w : ℕ) (b : Bool) (v : ℕ)
    → v < 2 ^ n
    → bit_xor (if b then 2 ^ n * 2 ^ w else 0) (v * 2 ^ w) ≡ (to_nat b * 2 ^ n + v) * 2 ^ w
bits_shifted n w b v lt =
    rw (sym (bit_xor_fields n (to_nat b) v lt), sym (bit_xor_shift w (to_nat b * 2 ^ n) v))
      (ap (λ t. bit_xor t (v * 2 ^ w)) (as_factor b (2 ^ n) (2 ^ w)))

-- Over any number of rounds that are left, the register and the bits shifted in, which follow it,
-- are the quotient times the divisor and the new remainder, which is below the divisor's highest
-- coefficient. Nothing else of the module changes but the count of bits.
pub shift_loop_divides :
    (n : ℕ) (crc : Crc) (r : ℕ)
    → IsLoaded crc r
    → n ≤ crc.bits_remaining
    → crc.bits_remaining < 256
    → bit_xor (times (divisor crc) (quotient n crc r)) (shift_loop n crc r).1
      ≡ bit_xor (r * 2 ^ n) (value (message n crc) * 2 ^ crc.polynomial_width)
unfolding shift_loop times value quotient message divisor
shift_loop_divides zero crc r set le lt =
    let same : r * 2 ^ 0 ≡ r = omega arith in
    let nothing : 0 * 2 ^ crc.polynomial_width ≡ 0 = omega arith in
    rw (same, nothing, zero-bit_xor, bit_xor-zero)
shift_loop_divides (suc n) crc r set le lt =
    let more : (crc.bits_remaining == 0) ≡ false = ground arith in
    let rest = message n (bit_done crc) in
    let b = data_bit crc in
    let w = crc.polynomial_width in
    rw (more, length-quotient n (bit_done crc) (shift_bit crc r), length-message n (bit_done crc))
      (bit_xor_assoc _ _ _
        ∙ ap (bit_xor _) (
            shift_loop_divides n (bit_done crc) (shift_bit crc r) (shift_bit-IsLoaded crc r set)
              (omega arith) (omega arith))
        ∙ sym (bit_xor_assoc _ _ _)
        ∙ ap (λ t. bit_xor t (value rest * 2 ^ w)) (round_shifted n crc r set)
        ∙ bit_xor_assoc _ _ _
        ∙ ap (bit_xor (r * 2 ^ suc n)) (
            bits_shifted n w b (value rest)
              (rw (length-message n (bit_done crc)) at (value-lt rest))))

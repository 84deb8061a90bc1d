-- ===== src/Crc/Division.antt =====
-- Division of polynomials over two elements, and the arithmetic of a round of `crc_shift_bits`: a
-- number stands for the polynomial whose coefficients are its binary digits.
use native.Mathlib.Nat.{
  div-eq_of_lt-le, div-eq_of_lt, mod-eq_of_lt, mod-eq-sub-mod, pow-suc, pow-le-pow_right,
}
use dspic33e_sim.Prelude.{
  ℕ, zero, suc, ◌+◌, ◌-◌, ◌*◌, ◌/◌, ◌%◌, ◌^◌, ◌≤◌, ◌<◌, ◌≡◌, refl, sym, ap, ◌∙◌, arith,
}
use dspic33e_sim.Prelude.{
  Bool, true, false, List, [], ◌∷◌, length, to_nat, Bool-cases, inl, inr, if◌then◌else◌,
}
use dspic33e_sim.Prelude.{leb, bit_and, bit_xor, ◌==◌, ◌!=◌, not, bool_eq, u32, ◌<<<◌, ◌>>>◌}
use dspic33e_sim.Bits.{bit_xor_assoc, bit_xor_comm, bit_xor_self, bit_xor_fields, bit_xor_swap}
use dspic33e_sim.Bits.{bit_xor-zero, zero-bit_xor, bit_and_mask}
use dspic33e_sim.Device.State.{Crc}
use dspic33e_sim.Crc.{shift_bit, bit_done, feedback_bit, input_bit, crc_width_mask}

-- The product of `p` with the polynomial of which the list has the coefficients, highest first.
unfoldable pub times : ℕ → List Bool → ℕ
times p [] = 0
times p (b ∷ bs) = bit_xor (if b then p * 2 ^ length bs else 0) (times p bs)

-- The number of which the list has the binary digits, highest first.
unfoldable pub value : List Bool → ℕ
value [] = 0
value (b ∷ bs) = to_nat b * 2 ^ length bs + value bs

pub value-lt : (bs : List Bool) → value bs < 2 ^ length bs
unfolding value
value-lt [] = omega arith
value-lt (b ∷ bs) = ground (arith, value-lt bs, pow-suc 2 (length bs))

-- The bit that comes in next.
unfoldable pub data_bit : Crc → Bool
data_bit crc = bit_and (crc.shift_data >>> input_bit crc) 1 != 0

-- The bits that `n` rounds shift in, and their feedbacks.
unfoldable pub message : ℕ → Crc → List Bool
message zero crc = []
message (suc n) crc = data_bit crc ∷ message n (bit_done crc)

unfoldable pub quotient : ℕ → Crc → ℕ → List Bool
quotient zero crc remainder = []
quotient (suc n) crc remainder =
    feedback_bit crc remainder ∷ quotient n (bit_done crc) (shift_bit crc remainder)

pub length-message : (n : ℕ) (crc : Crc) → length (message n crc) ≡ n
unfolding message
length-message zero crc = refl
length-message (suc n) crc = ap suc (length-message n (bit_done crc))

pub length-quotient : (n : ℕ) (crc : Crc) (r : ℕ) → length (quotient n crc r) ≡ n
unfolding quotient
length-quotient zero crc r = refl
length-quotient (suc n) crc r = ap suc (length-quotient n (bit_done crc) (shift_bit crc r))

-- The polynomial that divides, with its highest coefficient, which the register leaves out.
unfoldable pub divisor : Crc → ℕ
divisor crc = 2 ^ crc.polynomial_width + crc.polynomial

-- The settings of a word being shifted.
pub record IsLoaded (crc : Crc) (r : ℕ) : Type 0 where
  pub some_width : 0 < crc.polynomial_width
  pub width-le : crc.polynomial_width ≤ 32
  pub polynomial-lt : crc.polynomial < 2 ^ crc.polynomial_width
  pub remainder-lt : r < 2 ^ crc.polynomial_width

pub width_mask_lem : (w : ℕ) → w ≤ 32 → crc_width_mask w ≡ 2 ^ w - 1
unfolding crc_width_mask
width_mask_lem w h = elim (Bool-cases (w == 32)) [
  | inl top ↦ rw top (ground arith)
  | inr lower ↦
      rw lower
        (ground (arith, pow-le-pow_right {n = 2} (omega arith) {i = w} {j = 31} (ground arith)))
]

-- What the mask leaves of the register shifted by one.
pub shifted_lem :
    (w r : ℕ)
    → w ≤ 32
    → 0 < w
    → r < 2 ^ w
    → bit_and (u32 (r <<< 1)) (crc_width_mask w) ≡ r * 2 % 2 ^ w
shifted_lem w r le pos lt =
    rw (width_mask_lem w le, bit_and_mask w (u32 (r <<< 1)))
      (elim (Bool-cases (w == 32)) [
        | inl top ↦ let w_lem : w ≡ 32 = ground arith in rw w_lem (omega arith)
        | inr lower ↦
            let small : 2 ^ w ≤ 2 ^ 31 =
              pow-le-pow_right {n = 2} (omega arith) {i = w} {j = 31} (ground arith) in
            let same : u32 (r <<< 1) ≡ r * 2 = omega arith in rw same
      ])

plus : (w x : ℕ) → x < 2 ^ w → 2 ^ w + x ≡ bit_xor (2 ^ w) x
plus w x lt =
    let one : 1 * 2 ^ w ≡ 2 ^ w = omega arith in
    sym (ap (λ t. bit_xor t x) (sym one) ∙ bit_xor_fields w 1 x lt ∙ omega arith)

with_divisor : (w p s : ℕ) → bit_xor (bit_xor (2 ^ w) p) (bit_xor s p) ≡ bit_xor (2 ^ w) s
with_divisor w p s =
    bit_xor_swap (2 ^ w) p s p
    ∙ ap (bit_xor (bit_xor (2 ^ w) s)) (bit_xor_self p)
    ∙ bit_xor-zero (bit_xor (2 ^ w) s)

-- The four cases of a round, of the coefficient that leaves the register and the one that comes.
pub round_cases :
    (w p s : ℕ) (top bit : Bool)
    → s < 2 ^ w
    → p < 2 ^ w
    → bit_xor
        (if not (bool_eq top bit) then 2 ^ w + p else 0)
        (if not (bool_eq top bit) then bit_xor s p else s)
      ≡ bit_xor (if top then 2 ^ w + s else s) (if bit then 2 ^ w else 0)
round_cases w p s false false ls lp = rw (zero-bit_xor, bit_xor-zero)
round_cases w p s true true ls lp =
    rw (zero-bit_xor, plus w s ls)
      (sym (
        ap (λ t. bit_xor t (2 ^ w)) (bit_xor_comm (2 ^ w) s)
        ∙ bit_xor_assoc s (2 ^ w) (2 ^ w)
        ∙ ap (bit_xor s) (bit_xor_self (2 ^ w))
        ∙ bit_xor-zero s))
round_cases w p s true false ls lp =
    rw (plus w s ls, plus w p lp, bit_xor-zero) (with_divisor w p s)
round_cases w p s false true ls lp = rw (plus w p lp) (with_divisor w p s ∙ bit_xor_comm (2 ^ w) s)

-- The register's highest coefficient, for half of the divisor's.
pub top_bit : (h r : ℕ) → 0 < h → r < 2 * h → (bit_and (r / h) 1 != 0) ≡ leb h r
top_bit h r pos lt = elim (Bool-cases (leb h r)) [
  | inl high ↦
      let one : r / h ≡ 1 = div-eq_of_lt-le {k = 1} h {m = r} (ground arith) (ground arith) in
      rw (one, high)
  | inr low ↦ let none_left : r / h ≡ 0 = div-eq_of_lt (ground arith) in rw (none_left, low)
]

pub doubled :
    (h r : ℕ)
    → 0 < h
    → r < 2 * h
    → (if leb h r then 2 * h + r * 2 % (2 * h) else r * 2 % (2 * h)) ≡ r * 2
doubled h r pos lt = elim (Bool-cases (leb h r)) [
  | inl high ↦
      let le : h ≤ r = ground arith in
      rw (high, mod-eq-sub-mod {n = r * 2} {m = 2 * h} (omega arith))
        (omega (arith, mod-eq_of_lt {n = r * 2 - 2 * h} {m = 2 * h} (omega arith)))
  | inr low ↦ rw low (mod-eq_of_lt (ground arith))
]

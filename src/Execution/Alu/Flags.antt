-- ===== src/Execution/Alu/Flags.antt =====
-- The flags after an operation, each by itself.
use native.Mathlib.Nat.{pow-suc}
use dspic33e_sim.Prelude.{
  ℕ, zero, suc, ◌+◌, ◌*◌, ◌/◌, ◌%◌, ◌^◌, ◌≤◌, ◌<◌, ◌≡◌, refl, ap, ◌∙◌, arith,
}
use dspic33e_sim.Prelude.{Bool, true, false}
use dspic33e_sim.Prelude.{bit_and, bit_or, min, ltb, leb, ◌!=◌, if◌then◌else◌}
use dspic33e_sim.Bits.{
  bit_and-bit_or, bit_and_assoc, bit_and-zero, bit_or-zero, zero-bit_or, bit_and_one, bit_and_mask,
  bit_and_digit,
}
use dspic33e_sim.Execution.Alu.{
  set_if, five_flags, flag_carry, flag_zero, flag_overflow, flag_negative, flag_digit_carry,
  width_mask, sign_mask,
}

-- Whether a flag is set.
abbrev pub flag : ℕ → ℕ → Bool
flag sr bit = bit_and sr bit != 0

-- A bit that is set by a test is the test's value if it was clear, and every other bit stays.
pub flag-set_if :
    (test : Bool) (bit sr : ℕ)
    → 0 < bit
    → bit_and sr bit ≡ 0
    → bit_and bit bit ≡ bit
    → flag (set_if test bit sr) bit ≡ test
flag-set_if true bit sr pos clear self =
    let one : bit_and (bit_or sr bit) bit ≡ bit =
      bit_and-bit_or sr bit bit
      ∙ ap (λ t. bit_or t (bit_and bit bit)) clear
      ∙ zero-bit_or (bit_and bit bit)
      ∙ self in
    rw one (ground arith)
flag-set_if false bit sr pos clear self = ground (arith, clear)

pub and-set_if :
    (test : Bool) (bit sr other : ℕ)
    → bit_and bit other ≡ 0
    → bit_and (set_if test bit sr) other ≡ bit_and sr other
and-set_if true bit sr other apart =
    rw (bit_and-bit_or sr bit other, apart) (bit_or-zero (bit_and sr other))
and-set_if false bit sr other apart = refl

cleared : (sr bit : ℕ) → bit_and 0xfef0 bit ≡ 0 → bit_and (bit_and sr 0xfef0) bit ≡ 0
cleared sr bit apart = bit_and_assoc sr 0xfef0 bit ∙ ap (bit_and sr) apart ∙ bit_and-zero sr

module _ (overflow digit carry negative empty : Bool) (sr : ℕ) where
  pub overflow_flag :
      flag (five_flags overflow digit carry negative empty sr) flag_overflow ≡ overflow
  unfolding five_flags
  overflow_flag =
      flag-set_if overflow flag_overflow _ (omega arith)
        (and-set_if digit flag_digit_carry _ flag_overflow refl
          ∙ and-set_if carry flag_carry _ flag_overflow refl
          ∙ and-set_if negative flag_negative _ flag_overflow refl
          ∙ and-set_if empty flag_zero _ flag_overflow refl
          ∙ cleared sr flag_overflow refl)
        refl

  pub carry_flag : flag (five_flags overflow digit carry negative empty sr) flag_carry ≡ carry
  unfolding five_flags
  carry_flag =
      ap (λ t. t != 0)
        (and-set_if overflow flag_overflow _ flag_carry refl
          ∙ and-set_if digit flag_digit_carry _ flag_carry refl)
      ∙ flag-set_if carry flag_carry _ (omega arith)
          (and-set_if negative flag_negative _ flag_carry refl
            ∙ and-set_if empty flag_zero _ flag_carry refl
            ∙ cleared sr flag_carry refl)
          refl

  pub digit_flag : flag (five_flags overflow digit carry negative empty sr) flag_digit_carry ≡ digit
  unfolding five_flags
  digit_flag =
      ap (λ t. t != 0) (and-set_if overflow flag_overflow _ flag_digit_carry refl)
      ∙ flag-set_if digit flag_digit_carry _ (omega arith)
          (and-set_if carry flag_carry _ flag_digit_carry refl
            ∙ and-set_if negative flag_negative _ flag_digit_carry refl
            ∙ and-set_if empty flag_zero _ flag_digit_carry refl
            ∙ cleared sr flag_digit_carry refl)
          refl

  pub negative_flag :
      flag (five_flags overflow digit carry negative empty sr) flag_negative ≡ negative
  unfolding five_flags
  negative_flag =
      ap (λ t. t != 0)
        (and-set_if overflow flag_overflow _ flag_negative refl
          ∙ and-set_if digit flag_digit_carry _ flag_negative refl
          ∙ and-set_if carry flag_carry _ flag_negative refl)
      ∙ flag-set_if negative flag_negative _ (omega arith)
          (and-set_if empty flag_zero _ flag_negative refl ∙ cleared sr flag_negative refl) refl

  pub zero_flag : flag (five_flags overflow digit carry negative empty sr) flag_zero ≡ empty
  unfolding five_flags
  zero_flag =
      ap (λ t. t != 0)
        (and-set_if overflow flag_overflow _ flag_zero refl
          ∙ and-set_if digit flag_digit_carry _ flag_zero refl
          ∙ and-set_if carry flag_carry _ flag_zero refl
          ∙ and-set_if negative flag_negative _ flag_zero refl)
      ∙ flag-set_if empty flag_zero _ (omega arith) (cleared sr flag_zero refl) refl

  -- The other bits of the register stay.
  pub other_flags :
      bit_and (five_flags overflow digit carry negative empty sr) 0xfef0 ≡ bit_and sr 0xfef0
  unfolding five_flags
  other_flags =
      and-set_if overflow flag_overflow _ 0xfef0 refl
      ∙ and-set_if digit flag_digit_carry _ 0xfef0 refl
      ∙ and-set_if carry flag_carry _ 0xfef0 refl
      ∙ and-set_if negative flag_negative _ 0xfef0 refl
      ∙ and-set_if empty flag_zero _ 0xfef0 refl
      ∙ bit_and_assoc sr 0xfef0 0xfef0

-- The highest of `k + 1` bits.
pub high_bit : (k v : ℕ) → v < 2 ^ suc k → bit_and v (2 ^ k) ≡ (if ltb v (2 ^ k) then 0 else 2 ^ k)
high_bit zero v lt = ground (arith, bit_and_one v)
high_bit (suc k) v lt =
    let twice : 2 ^ suc k ≡ 2 * 2 ^ k = omega (arith, pow-suc 2 k) in
    let again : 2 ^ suc (suc k) ≡ 2 * 2 ^ suc k = omega (arith, pow-suc 2 (suc k)) in
    let half : bit_and (v / 2) (2 ^ k) ≡ (if ltb (v / 2) (2 ^ k) then 0 else 2 ^ k) =
      high_bit k (v / 2) (omega arith) in
    let digit : bit_and v (2 ^ suc k)
        ≡ bit_and (v / 2) (2 ^ suc k / 2) * 2 + min (v % 2) (2 ^ suc k % 2) =
      bit_and_digit v (2 ^ suc k) in
    let same : 2 ^ suc k / 2 ≡ 2 ^ k = omega arith in
    let moved : bit_and (v / 2) (2 ^ suc k / 2) ≡ bit_and (v / 2) (2 ^ k) =
      ap (bit_and (v / 2)) same in
    ground (arith, digit, moved, half)

pub sign_bit :
    (byte_mode : Bool) (v : ℕ)
    → v ≤ width_mask byte_mode
    → (bit_and v (sign_mask byte_mode) != 0) ≡ leb (sign_mask byte_mode) v
sign_bit true v le = ground (arith, high_bit 7 v (omega arith))
sign_bit false v le = ground (arith, high_bit 15 v (omega arith))

pub width_mask_lem :
    (byte_mode : Bool) (v : ℕ) → v ≤ width_mask byte_mode → bit_and v (width_mask byte_mode) ≡ v
width_mask_lem true v le = omega (arith, bit_and_mask 8 v)
width_mask_lem false v le = omega (arith, bit_and_mask 16 v)

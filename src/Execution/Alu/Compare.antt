-- ===== src/Execution/Alu/Compare.antt =====
-- A comparison, and the branches that follow it.
use mathlib.Core.Path.{ap₂}
use dspic33e_sim.Prelude.{ℕ, ◌+◌, ◌-◌, ◌*◌, ◌%◌, ◌≤◌, ◌≡◌, refl, ap, ◌∙◌, arith}
use dspic33e_sim.Prelude.{Bool, true, false, ◌&&◌, ◌||◌, not, bool_eq, some}
use dspic33e_sim.Prelude.{bit_and, ltb, leb, ◌==◌, ◌!=◌, u16, u32}
use dspic33e_sim.Bits.{bit_and_mask}
use dspic33e_sim.Device.State.{Dspic33}
use dspic33e_sim.Execution.Alu.{
  update_subtract_flags, width_mask, sign_mask, signed, signed_overflow, flag_carry, flag_zero,
  flag_overflow, flag_negative,
}
use dspic33e_sim.Execution.Alu.Flags.{
  flag, carry_flag, zero_flag, negative_flag, overflow_flag, sign_bit, width_mask_lem,
}
use dspic33e_sim.Execution.Branch.{branch_condition}

-- The order of the signed numbers that words or bytes stand for.
abbrev pub signed_lt : Bool → ℕ → ℕ → Bool
signed_lt byte_mode a b =
    let sign = sign_mask byte_mode in ltb ((a + sign) % (2 * sign)) ((b + sign) % (2 * sign))

-- `left - right` in 16 bits.
abbrev pub difference : ℕ → ℕ → ℕ
difference left right = u16 (left + (0x10000 - right))

-- The status register after a comparison.
abbrev pub compared : Dspic33 → ℕ → ℕ → Bool → Dspic33
compared cpu left right byte_mode =
    update_subtract_flags cpu left right 0 (difference left right) byte_mode false

masked_difference :
    (byte_mode : Bool) (left right : ℕ)
    → bit_and (difference left right) (width_mask byte_mode)
      ≡ difference left right % (width_mask byte_mode + 1)
masked_difference true left right = bit_and_mask 8 (difference left right)
masked_difference false left right = bit_and_mask 16 (difference left right)

difference-le :
    (byte_mode : Bool) (left right : ℕ)
    → difference left right % (width_mask byte_mode + 1) ≤ width_mask byte_mode
difference-le true left right = omega arith
difference-le false left right = omega arith

zero_difference :
    (byte_mode : Bool) (left right : ℕ)
    → left ≤ width_mask byte_mode
    → right ≤ width_mask byte_mode
    → (difference left right % (width_mask byte_mode + 1) == 0) ≡ (left == right)
zero_difference true left right left-le right-le = ground arith
zero_difference false left right left-le right-le = ground arith

-- The overflow flag tells whether the sign of the difference is that of the signed difference.
signed-difference :
    (byte_mode : Bool) (left right : ℕ)
    → left ≤ width_mask byte_mode
    → right ≤ width_mask byte_mode
    → bool_eq (leb (sign_mask byte_mode) (difference left right % (width_mask byte_mode + 1))) (
        signed_overflow byte_mode (
          u32 (signed byte_mode left + (0x100000000 - signed byte_mode right) + (0x100000000 - 0))))
      ≡ not (signed_lt byte_mode left right)
signed-difference true left right left-le right-le = ground arith
signed-difference false left right left-le right-le = ground arith

not-leb : (a b : ℕ) → not (leb a b) ≡ ltb b a
not-leb a b = ground arith

ltb_of_leb : (a b : ℕ) → (leb a b && not (b == a)) ≡ ltb a b
ltb_of_leb a b = ground arith

leb_of_ltb : (a b : ℕ) → (not (leb b a) || a == b) ≡ leb a b
leb_of_ltb a b = ground arith

not-not : (b : Bool) → not (not b) ≡ b
not-not true = refl
not-not false = refl

module _ (cpu : Dspic33) (left right : ℕ) (byte_mode : Bool) (left-le : left ≤ width_mask byte_mode)
    (right-le : right ≤ width_mask byte_mode) where
  pub compared_carry : flag (compared cpu left right byte_mode).sr flag_carry ≡ leb right left
  unfolding update_subtract_flags
  compared_carry =
      carry_flag _ _ _ _ _ cpu.sr
      ∙ (rw (width_mask_lem byte_mode right right-le)
          (rw (width_mask_lem byte_mode left left-le) (ground arith)))

  pub compared_zero : flag (compared cpu left right byte_mode).sr flag_zero ≡ (left == right)
  unfolding update_subtract_flags
  compared_zero =
      zero_flag _ _ _ _ _ cpu.sr
      ∙ (rw (masked_difference byte_mode left right)
          (ground (arith, zero_difference byte_mode left right left-le right-le)))

  pub compared_signed :
      bool_eq
        (flag (compared cpu left right byte_mode).sr flag_negative)
        (flag (compared cpu left right byte_mode).sr flag_overflow)
      ≡ not (signed_lt byte_mode left right)
  unfolding update_subtract_flags
  compared_signed =
      ap₂ bool_eq
        (negative_flag _ _ _ _ _ cpu.sr
          ∙ ap (λ t. bit_and t (sign_mask byte_mode) != 0) (masked_difference byte_mode left right)
          ∙ sign_bit byte_mode _ (difference-le byte_mode left right))
        (overflow_flag _ _ _ _ _ cpu.sr)
      ∙ signed-difference byte_mode left right left-le right-le

  -- After a comparison of two words or two bytes the branches ask what their names say: on
  -- equality, on the order of the unsigned numbers, and on the order of the signed ones.
  pub compare_branches :
      (branch_condition (compared cpu left right byte_mode) 0x02 ≡ some (left == right))
      × (branch_condition (compared cpu left right byte_mode) 0x0a ≡ some (left != right))
      × (branch_condition (compared cpu left right byte_mode) 0x01 ≡ some (leb right left))
      × (branch_condition (compared cpu left right byte_mode) 0x09 ≡ some (ltb left right))
      × (branch_condition (compared cpu left right byte_mode) 0x0e ≡ some (ltb right left))
      × (branch_condition (compared cpu left right byte_mode) 0x06 ≡ some (leb left right))
      × (branch_condition (compared cpu left right byte_mode) 0x05
          ≡ some (signed_lt byte_mode left right))
      × (branch_condition (compared cpu left right byte_mode) 0x0d
          ≡ some (not (signed_lt byte_mode left right)))
      × (branch_condition (compared cpu left right byte_mode) 0x04
          ≡ some (left == right || signed_lt byte_mode left right))
      × (branch_condition (compared cpu left right byte_mode) 0x0c
          ≡ some (left != right && not (signed_lt byte_mode left right)))
  unfolding branch_condition
  compare_branches =
      let carry = compared_carry in
      let same = compared_zero in
      let order = compared_signed in
      (
        ap some same,
        ap some (ap not same),
        ap some carry,
        ap (λ b. some (not b)) carry ∙ ap some (not-leb right left),
        ap₂ (λ b z. some (b && not z)) carry same ∙ ap some (ltb_of_leb right left),
        ap₂ (λ b z. some (not b || z)) carry same ∙ ap some (leb_of_ltb left right),
        ap (λ b. some (not b)) order ∙ ap some (not-not (signed_lt byte_mode left right)),
        ap some order,
        ap₂ (λ z b. some (z || not b)) same order
            ∙ ap (λ b. some (left == right || b)) (not-not (signed_lt byte_mode left right)),
        ap₂ (λ z b. some (not z && b)) same order,
      )

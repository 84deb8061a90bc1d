-- ===== src/Rtcc/Lock.antt =====
-- The write lock of rtcc.c.
use native.Mathlib.Nat.{mod-eq_of_lt}
use dspic33e_sim.Prelude.{ℕ, ◌<◌, ◌≡◌, ◌≢◌, ◌⊎◌, refl, ap, ◌∙◌, arith, Bool, true, false}
use dspic33e_sim.Prelude.{
  ◌&&◌, ◌||◌, not, ◌==◌, ◌!=◌, if◌then◌else◌, Bool-cases, inl, inr, u16, bit_or, bit_and, not16,
}
use dspic33e_sim.Bits.{bit_and_assoc, bit_and-le, bit_or-lt, bit_and-zero, masked_put, masked_kept}
use dspic33e_sim.Device.State.{Dspic33}
use dspic33e_sim.Device.Memory.{raw_word, raw_word-lt, raw_word-raw_write_word}
use dspic33e_sim.Rtcc.Clock.{rtcc_control, rtcc_write_enable, rtcc_enable}
use dspic33e_sim.Rtcc.Window.{update_rtcc_control, nvm_key_authorized}

-- Two masks one after the other.
twice_masked : (x m n : ℕ) → bit_and m n ≡ n → bit_and (bit_and x m) n ≡ bit_and x n
twice_masked x m n inside = bit_and_assoc x m n ∙ ap (bit_and x) inside

cut_out : (x m n : ℕ) → bit_and m n ≡ 0 → bit_and (bit_and x m) n ≡ 0
cut_out x m n outside = bit_and_assoc x m n ∙ ap (bit_and x) outside ∙ bit_and-zero x

-- What `update_rtcc_control` writes, from its three tests.
new_control : ℕ → ℕ → Bool → Bool → ℕ
new_control control previous opened refused =
    let granted = if refused then bit_and control (not16 rtcc_write_enable) else control in
    if not opened
    then u16 (bit_or (bit_and granted (not16 rtcc_enable)) (bit_and previous rtcc_enable))
    else granted

guarded-lt : (a b : ℕ) → bit_or (bit_and a (not16 rtcc_enable)) (bit_and b rtcc_enable) < 65536
guarded-lt a b =
    bit_or-lt 16 _ _ (omega (arith, bit_and-le a (not16 rtcc_enable)))
      (omega (arith, bit_and-le b rtcc_enable))

new_control-lt :
    (control previous : ℕ) (opened refused : Bool)
    → control < 65536
    → new_control control previous opened refused < 65536
unfolding new_control
new_control-lt control previous false refused lt = omega arith
new_control-lt control previous true false lt = lt
new_control-lt control previous true true lt =
    omega (arith, bit_and-le control (not16 rtcc_write_enable))

written_control :
    (cpu : Dspic33) (previous : ℕ)
    → raw_word (update_rtcc_control cpu previous) rtcc_control
      ≡ new_control (raw_word cpu rtcc_control) previous (bit_and previous rtcc_write_enable != 0) (
          (not (bit_and previous rtcc_write_enable != 0)
            && bit_and (raw_word cpu rtcc_control) rtcc_write_enable != 0)
          && (not (nvm_key_authorized cpu)
              || not cpu.instruction_active
              || cpu.current_instruction_cycles != 1))
unfolding update_rtcc_control new_control
written_control cpu previous =
    raw_word-raw_write_word _ rtcc_control _ (omega arith)
    ∙ mod-eq_of_lt
        (new_control-lt (raw_word cpu rtcc_control) previous _ _ (raw_word-lt cpu rtcc_control))

guarded-write :
    (a b : ℕ)
    → bit_and
        (u16 (bit_or (bit_and a (not16 rtcc_enable)) (bit_and b rtcc_enable)))
        rtcc_write_enable
      ≡ bit_and a rtcc_write_enable
guarded-write a b =
    ap (λ t. bit_and t rtcc_write_enable) (mod-eq_of_lt (guarded-lt a b))
    ∙ masked_kept a (not16 rtcc_enable) (bit_and b rtcc_enable) rtcc_write_enable refl
        (cut_out b rtcc_enable rtcc_write_enable refl)

guarded-enable :
    (a b : ℕ)
    → bit_and (u16 (bit_or (bit_and a (not16 rtcc_enable)) (bit_and b rtcc_enable))) rtcc_enable
      ≡ bit_and b rtcc_enable
guarded-enable a b =
    ap (λ t. bit_and t rtcc_enable) (mod-eq_of_lt (guarded-lt a b))
    ∙ masked_put a (not16 rtcc_enable) (bit_and b rtcc_enable) rtcc_enable refl
    ∙ twice_masked b rtcc_enable rtcc_enable refl

keeps_enable :
    (control previous : ℕ) (refused : Bool)
    → bit_and (new_control control previous false refused) rtcc_enable
      ≡ bit_and previous rtcc_enable
unfolding new_control
keeps_enable control previous refused = guarded-enable _ previous

-- WREN can be set in the new control word only if it was set before, or was not refused.
grants :
    (control previous : ℕ) (authorized active single : Bool)
    → bit_and
        (new_control control previous (bit_and previous rtcc_write_enable != 0) (
          (not (bit_and previous rtcc_write_enable != 0) && bit_and control rtcc_write_enable != 0)
          && (not authorized || not active || not single)))
        rtcc_write_enable
      ≢ 0
    → (bit_and previous rtcc_write_enable ≢ 0)
      ⊎ ((authorized ≡ true) × (active ≡ true) × (single ≡ true))
unfolding new_control
grants control previous authorized active single set =
    elim (Bool-cases (bit_and previous rtcc_write_enable != 0)) [
      | inl was_set ↦ inl (ground arith)
      | inr was_clear ↦ elim (Bool-cases (not authorized || not active || not single)) [
        | inr granted ↦ inr (ground arith)
        | inl refused ↦ absurd (
            set (
              rw (was_clear, refused)
                (elim (Bool-cases (bit_and control rtcc_write_enable != 0)) [
                  | inl asked ↦ rw asked (
                      guarded-write (bit_and control (not16 rtcc_write_enable)) previous
                      ∙ cut_out control (not16 rtcc_write_enable) rtcc_write_enable refl)
                  | inr not_asked ↦ rw not_asked (guarded-write control previous ∙ ground arith)
                ])))
      ]
    ]

-- Only a write that follows the unlock sequence at once, in an instruction of one cycle, sets WREN;
-- otherwise it was set.
pub write_enable_locked :
    (cpu : Dspic33) (previous : ℕ)
    → bit_and (raw_word (update_rtcc_control cpu previous) rtcc_control) rtcc_write_enable ≢ 0
    → (bit_and previous rtcc_write_enable ≢ 0)
      ⊎ ((nvm_key_authorized cpu ≡ true)
          × (cpu.instruction_active ≡ true)
          × (cpu.current_instruction_cycles ≡ 1))
write_enable_locked cpu previous set =
    let granted =
      grants (raw_word cpu rtcc_control) previous (nvm_key_authorized cpu) cpu.instruction_active
        (cpu.current_instruction_cycles == 1) (rw (written_control cpu previous) at set) in
    ground (arith, granted)

-- While WREN is clear a write leaves the clock switched on or off as it was.
pub enable_locked :
    (cpu : Dspic33) (previous : ℕ)
    → bit_and previous rtcc_write_enable ≡ 0
    → bit_and (raw_word (update_rtcc_control cpu previous) rtcc_control) rtcc_enable
      ≡ bit_and previous rtcc_enable
enable_locked cpu previous clear =
    let shut : (bit_and previous rtcc_write_enable != 0) ≡ false = ground arith in
    rw (written_control cpu previous, shut) (keeps_enable (raw_word cpu rtcc_control) previous _)

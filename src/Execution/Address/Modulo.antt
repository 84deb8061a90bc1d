-- ===== src/Execution/Address/Modulo.antt =====
-- A pointer into a modulo buffer stays in it.
use native.Mathlib.Nat.{mod-eq_of_lt, mod-eq-sub-mod}
use dspic33e_sim.Prelude.{ℕ, ◌+◌, ◌-◌, ◌%◌, ◌≤◌, ◌<◌, ◌≡◌, refl, sym, ◌∙◌, arith}
use dspic33e_sim.Prelude.{Bool, true, false, leb, ◌==◌, if◌then◌else◌, u32}
use dspic33e_sim.Device.State.{Dspic33}
use dspic33e_sim.Execution.Address.{
  modulo_address, modulo_wrap, modulo_start, modulo_end, modulo_addressing_enabled, negated,
}

-- `a` moved by `d` forwards, round a buffer of `length` cells from `start` on.
abbrev pub around : ℕ → ℕ → ℕ → ℕ → ℕ
around start length a d = start + (a - start + d) % length

round_up :
    (n length : ℕ) → n < length + length → n % length ≡ (if leb length n then n - length else n)
round_up n length lt = ground (
  arith,
  mod-eq_of_lt {n = n} {m = length},
  mod-eq-sub-mod {n = n} {m = length},
  mod-eq_of_lt {n = n - length} {m = length},
)

module _ (s e a d : ℕ) (start-le : s ≤ a) (end-ge : a ≤ e) (word : e < 0x10000) (d-pos : 0 < d)
    (d-le : d ≤ e - s + 1) where
  forward_wrap : modulo_wrap s e (a + d) d ≡ (if leb (a + d) e then a + d else a + d - (e - s + 1))
  forward_wrap = ground arith

  backward_wrap :
      modulo_wrap s e (u32 (a + negated d)) (negated d)
      ≡ (if leb (s + d) a then a - d else a + (e - s + 1) - d)
  backward_wrap = ground arith

  around_forward : around s (e - s + 1) a d ≡ (if leb (a + d) e then a + d else a + d - (e - s + 1))
  around_forward = ground (arith, round_up (a - s + d) (e - s + 1) (omega arith))

  around_backward :
      around s (e - s + 1) a (e - s + 1 - d)
      ≡ (if leb (s + d) a then a - d else a + (e - s + 1) - d)
  around_backward = ground (arith, round_up (a - s + (e - s + 1 - d)) (e - s + 1) (omega arith))

modulo_on :
    (cpu : Dspic33) (reg address delta : ℕ) (y_space : Bool)
    → modulo_addressing_enabled cpu reg y_space ≡ true
    → (delta == 0) ≡ false
    → modulo_address cpu reg address delta y_space
      ≡ modulo_wrap (modulo_start cpu y_space) (modulo_end cpu y_space) address delta
unfolding modulo_address
modulo_on cpu reg address delta y_space enabled some_delta = rw enabled (rw some_delta refl)

module _ (cpu : Dspic33) (reg : ℕ) (y_space : Bool) (a d : ℕ)
    (enabled : modulo_addressing_enabled cpu reg y_space ≡ true)
    (start-le : modulo_start cpu y_space ≤ a) (end-ge : a ≤ modulo_end cpu y_space)
    (word : modulo_end cpu y_space < 0x10000) (d-pos : 0 < d)
    (d-le : d ≤ modulo_end cpu y_space - modulo_start cpu y_space + 1) where
  -- A step forwards by at most the length of a modulo buffer of which a register points at a cell
  -- goes round the buffer.
  pub modulo_forward :
      modulo_address cpu reg (a + d) d y_space
      ≡ around
          (modulo_start cpu y_space)
          (modulo_end cpu y_space - modulo_start cpu y_space + 1)
          a
          d
  modulo_forward =
      modulo_on cpu reg (a + d) d y_space enabled (ground arith)
      ∙ forward_wrap (modulo_start cpu y_space) (modulo_end cpu y_space) a d start-le end-ge word
          d-pos d-le
      ∙ sym (
          around_forward (modulo_start cpu y_space) (modulo_end cpu y_space) a d start-le end-ge
            word d-pos d-le)

  -- A step backwards by at most the length of a modulo buffer of which a register points at a cell
  -- goes round the buffer.
  pub modulo_backward :
      modulo_address cpu reg (u32 (a + negated d)) (negated d) y_space
      ≡ around
          (modulo_start cpu y_space)
          (modulo_end cpu y_space - modulo_start cpu y_space + 1)
          a
          (modulo_end cpu y_space - modulo_start cpu y_space + 1 - d)
  modulo_backward =
      modulo_on cpu reg (u32 (a + negated d)) (negated d) y_space enabled (ground arith)
      ∙ backward_wrap (modulo_start cpu y_space) (modulo_end cpu y_space) a d start-le end-ge word
          d-pos d-le
      ∙ sym (
          around_backward (modulo_start cpu y_space) (modulo_end cpu y_space) a d start-le end-ge
            word d-pos d-le)

-- ===== src/Timers/Advance.antt =====
-- The advance of a timer's counter by many ticks, against one tick at a time.
use mathlib.Core.Path.{ap₂}
use native.Mathlib.Nat.{mod-eq_of_lt, div-le_self}
use dspic33e_sim.Prelude.{
  ℕ, zero, suc, ◌+◌, ◌-◌, ◌/◌, ◌%◌, ◌^◌, ◌≤◌, ◌<◌, ◌≡◌, refl, sym, ap, ◌∙◌, arith, ltb, leb, ◌==◌,
  false, Bool-cases, ltb→lt, leb→le, if◌then◌else◌, u64, bit_and, ◌⊎◌, inl, inr, uint16_max,
  uint32_max,
}
use dspic33e_sim.Bits.{bit_and_mask}
use dspic33e_sim.Timers.{TimerAdvance, advance_counter, first_match_ticks, first_reset_ticks}
use dspic33e_sim.Timers.Ticks.{
  single_ticks, single_ticks-after, timer_advance, first_match, first_reset,
}
use dspic33e_sim.Timers.Ticks.{wrapped, value_after, matches_after, cycle_mod}

-- The code's sums stay below 2 ^ 64.
wrapped_lem : (m x : ℕ) → x ≤ m + (m + 1) → x % (m + 1) ≡ wrapped m x
wrapped_lem m x le = ground (arith, cycle_mod m x, mod-eq_of_lt {n = x - (m + 1)} {m = m + 1})

-- The result of `advance_counter` from its three local numbers.
abbrev counter_at : ℕ → ℕ → ℕ → ℕ → ℕ → ℕ → TimerAdvance
counter_at c m n reset match cycle =
    timer_advance (if ltb n reset then bit_and (u64 (c + n)) m else (n - reset) % cycle)
      (if leb match n then u64 (1 + (n - match) / cycle) else 0)

first_reset_ticks_lem :
    (c p m : ℕ) → c ≤ m → p ≤ m → m ≤ uint32_max → first_reset_ticks c p m ≡ first_reset c p m
first_reset_ticks_lem c p m c-le p-le m-le = ground arith

first_match_ticks_lem :
    (c p m : ℕ) → c ≤ m → p ≤ m → m ≤ uint32_max → first_match_ticks c p m ≡ first_match c p m
first_match_ticks_lem c p m c-le p-le m-le = ground arith

first_reset-le : (c p m : ℕ) → c ≤ m → c + first_reset c p m ≤ m + (p + 2)
first_reset-le c p m le = ground arith

first_match-pos : (c p m : ℕ) → 0 < first_match c p m
first_match-pos c p m = ground arith

counter_value-after :
    (c p m n : ℕ)
    → c ≤ m
    → p ≤ m
    → m ≤ uint32_max
    → ((x : ℕ) → bit_and x m ≡ x % (m + 1))
    → (if ltb n (first_reset c p m)
        then bit_and (u64 (c + n)) m
        else (n - first_reset c p m) % (p + 1))
      ≡ value_after c p m n
counter_value-after c p m n c-le p-le m-le mask = elim (Bool-cases (ltb n (first_reset c p m))) [
  | inl early ↦
      let lt = ltb→lt n (first_reset c p m) early in
      let most = first_reset-le c p m c-le in
      let sum : u64 (c + n) ≡ c + n = omega arith in
      rw early (rw sum (mask (c + n) ∙ wrapped_lem m (c + n) (omega arith)))
  | inr late ↦ rw late refl
]

period_matches-after :
    (c p m n : ℕ)
    → n < 2 ^ 64
    → (if leb (first_match c p m) n then u64 (1 + (n - first_match c p m) / (p + 1)) else 0)
      ≡ matches_after c p m n
period_matches-after c p m n lt =
    let pos = first_match-pos c p m in
    let most = div-le_self (n - first_match c p m) (p + 1) in
    elim (Bool-cases (leb (first_match c p m) n)) [
      | inl match ↦ let le = leb→le (first_match c p m) n match in rw match (omega arith)
      | inr early ↦ rw early refl
    ]

advance_counter-after :
    (c p m n : ℕ)
    → c ≤ m
    → p ≤ m
    → m ≤ uint32_max
    → n < 2 ^ 64
    → ((x : ℕ) → bit_and x m ≡ x % (m + 1))
    → advance_counter c p m n ≡ timer_advance (value_after c p m n) (matches_after c p m n)
unfolding advance_counter
advance_counter-after c p m zero c-le p-le m-le n-lt mask =
    let value : value_after c p m 0 ≡ c = ground arith in
    let matches : matches_after c p m 0 ≡ 0 = ground arith in
    ap₂ timer_advance (sym value) (sym matches)
advance_counter-after c p m (suc n) c-le p-le m-le n-lt mask =
    let cycle : u64 (p + 1) ≡ p + 1 = omega arith in
    let reset = first_reset_ticks_lem c p m c-le p-le m-le in
    let match = first_match_ticks_lem c p m c-le p-le m-le in
    let some_ticks : (suc n == 0) ≡ false = ground arith in
    rw some_ticks (
      ap₂ (λ r d. counter_at c m (suc n) r (first_match_ticks c p m) d) reset cycle
      ∙ ap (λ f. counter_at c m (suc n) (first_reset c p m) f (p + 1)) match
      ∙ ap₂ timer_advance (counter_value-after c p m (suc n) c-le p-le m-le mask)
          (period_matches-after c p m (suc n) n-lt))

-- The advance of a counter of 16 or 32 bits by fewer than 2 ^ 64 ticks is that many single ticks:
-- the counter has the value they leave, and as many matches are counted as they make.
pub advance_counter_ticks :
    (c p m n : ℕ)
    → (m ≡ uint16_max) ⊎ (m ≡ uint32_max)
    → c ≤ m
    → p ≤ m
    → n < 2 ^ 64
    → advance_counter c p m n ≡ single_ticks c p m n
advance_counter_ticks c p m n width c-le p-le n-lt = elim width [
  | inl word ↦
      advance_counter-after c p m n c-le p-le (omega arith) n-lt (λ x. rw word (bit_and_mask 16 x))
      ∙ sym (single_ticks-after c p m n c-le p-le)
  | inr pair ↦
      advance_counter-after c p m n c-le p-le (omega arith) n-lt (λ x. rw pair (bit_and_mask 32 x))
      ∙ sym (single_ticks-after c p m n c-le p-le)
]

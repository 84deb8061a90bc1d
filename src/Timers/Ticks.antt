-- ===== src/Timers/Ticks.antt =====
-- The ticks of a timer's counter, one at a time, and where they leave it.
use mathlib.Core.Path.{ap₂}
use native.Mathlib.Nat.{mod-eq-sub-mod, mod-eq_of_lt, div-eq_of_lt, div-eq-sub-div}
use dspic33e_sim.Prelude.{
  ℕ, zero, suc, ◌+◌, ◌-◌, ◌/◌, ◌%◌, ◌≤◌, ◌<◌, ◌≡◌, sym, ap, ◌∙◌, arith, ltb, leb, ◌==◌,
  if◌then◌else◌, to_nat, ◌||◌, ◌⊎◌, inl, inr,
}
use dspic33e_sim.Timers.{TimerAdvance}

-- One tick: the counter starts again after a match with the period, and at the end of its width.
abbrev pub one_tick : ℕ → ℕ → ℕ → ℕ
one_tick period maximum value = if value == period || value == maximum then 0 else value + 1

-- Ticks one at a time; a tick that takes the counter to the period is a match.
unfoldable pub single_ticks : ℕ → ℕ → ℕ → ℕ → TimerAdvance
single_ticks value period maximum zero = record { counter_value = value; period_matches = 0 }
single_ticks value period maximum (suc n) =
    let later = one_tick period maximum value in
    let rest = single_ticks later period maximum n in
    record rest { period_matches = to_nat (later == period) + rest.period_matches }

-- The numbers of a cycle of `period + 1` ticks.
pub cycle_mod : (p n : ℕ) → n % (p + 1) ≡ (if leb n p then n else (n - (p + 1)) % (p + 1))
cycle_mod p n = ground (arith, mod-eq_of_lt {n = n} {m = p + 1}, mod-eq-sub-mod {n = n} {m = p + 1})

cycle_div : (p n : ℕ) → n / (p + 1) ≡ (if leb n p then 0 else (n - (p + 1)) / (p + 1) + 1)
cycle_div p n = ground (arith, div-eq_of_lt {n = n} {m = p + 1}, div-eq-sub-div {m = p + 1} {n = n})

abbrev pub timer_advance : ℕ → ℕ → TimerAdvance
timer_advance value matches = record { counter_value = value; period_matches = matches }

-- The ticks to the first match and to the first reset, without the width of the numbers.
abbrev pub first_match : ℕ → ℕ → ℕ → ℕ
first_match c p m = if c == p then p + 1 else if ltb c p then p - c else m - c + 1 + p

abbrev pub first_reset : ℕ → ℕ → ℕ → ℕ
first_reset c p m = if c == p then 1 else first_match c p m + 1

abbrev pub wrapped : ℕ → ℕ → ℕ
wrapped m x = if leb x m then x else x - (m + 1)

abbrev pub value_after : ℕ → ℕ → ℕ → ℕ → ℕ
value_after c p m n =
    if ltb n (first_reset c p m) then wrapped m (c + n) else (n - first_reset c p m) % (p + 1)

abbrev pub matches_after : ℕ → ℕ → ℕ → ℕ → ℕ
matches_after c p m n =
    if leb (first_match c p m) n then 1 + (n - first_match c p m) / (p + 1) else 0

-- What the next tick does: a match, one up below the period or above it, the end of the width.
tick_cases :
    (c p m : ℕ) → c ≤ m → p ≤ m → (c ≡ p) ⊎ ((c < p) ⊎ (((p < c) × (c < m)) ⊎ ((c ≡ m) × (p < m))))
tick_cases c p m c-le p-le = ground arith

value-below : (c p m n : ℕ) → c < p → p ≤ m → value_after c p m (suc n) ≡ value_after (c + 1) p m n
value-below c p m n lt le = ground (arith, cycle_mod p n)

value-match : (p m n : ℕ) → p ≤ m → value_after p p m (suc n) ≡ value_after 0 p m n
value-match p m n le = ground (arith, cycle_mod p n)

value-above : (c p m n : ℕ) → p < c → c < m → value_after c p m (suc n) ≡ value_after (c + 1) p m n
value-above c p m n lt end = ground (arith, cycle_mod p n)

value-end : (p m n : ℕ) → p < m → value_after m p m (suc n) ≡ value_after 0 p m n
value-end p m n lt = ground (arith, cycle_mod p n)

-- After the first of the ticks the others go on from where it leaves the counter.
value_after-suc :
    (c p m n : ℕ) → c ≤ m → p ≤ m → value_after c p m (suc n) ≡ value_after (one_tick p m c) p m n
value_after-suc c p m n c-le p-le = elim (tick_cases c p m c-le p-le) [
  | inl same ↦
      let tick : one_tick p m c ≡ 0 = ground arith in rw tick (rw same (value-match p m n p-le))
  | inr (inl lt) ↦
      let tick : one_tick p m c ≡ c + 1 = ground arith in rw tick (value-below c p m n lt p-le)
  | inr (inr (inl (lt, end))) ↦
      let tick : one_tick p m c ≡ c + 1 = ground arith in rw tick (value-above c p m n lt end)
  | inr (inr (inr (end, lt))) ↦
      let tick : one_tick p m c ≡ 0 = ground arith in rw tick (rw end (value-end p m n lt))
]

matches_after-suc :
    (c p m n : ℕ)
    → c ≤ m
    → p ≤ m
    → matches_after c p m (suc n)
      ≡ to_nat (one_tick p m c == p) + matches_after (one_tick p m c) p m n
matches_after-suc c p m n c-le p-le = elim (tick_cases c p m c-le p-le) [
  | inl same ↦ ground (arith, cycle_div p n)
  | inr (inl lt) ↦ ground (arith, cycle_div p n)
  | inr (inr (inl (lt, end))) ↦ ground (arith, cycle_div p n)
  | inr (inr (inr (end, lt))) ↦ ground (arith, cycle_div p n)
]

one_tick-le : (p m c : ℕ) → c ≤ m → one_tick p m c ≤ m
one_tick-le p m c le = ground arith

pub single_ticks-after :
    (c p m n : ℕ)
    → c ≤ m
    → p ≤ m
    → single_ticks c p m n
      ≡ record { counter_value = value_after c p m n; period_matches = matches_after c p m n }
unfolding single_ticks
single_ticks-after c p m zero c-le p-le =
    let value : value_after c p m 0 ≡ c = ground arith in
    let matches : matches_after c p m 0 ≡ 0 = ground arith in
    ap₂ timer_advance (sym value) (sym matches)
single_ticks-after c p m (suc n) c-le p-le =
    let rest = single_ticks-after (one_tick p m c) p m n (one_tick-le p m c c-le) p-le in
    ap
      (λ (t : TimerAdvance). record t {
        period_matches = to_nat (one_tick p m c == p) + t.period_matches;
      })
      rest
    ∙ ap₂ timer_advance (sym (value_after-suc c p m n c-le p-le))
        (sym (matches_after-suc c p m n c-le p-le))

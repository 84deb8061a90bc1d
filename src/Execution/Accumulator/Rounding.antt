-- ===== src/Execution/Accumulator/Rounding.antt =====
-- The rounding of an accumulator that is stored in a word.
use dspic33e_sim.Prelude.{ℕ, ◌+◌, ◌/◌, ◌%◌, ◌<◌, ◌≡◌, arith}
use dspic33e_sim.Prelude.{true, false, ltb, ◌==◌, if◌then◌else◌}
use dspic33e_sim.Bits.{bit_and_mask, bit_and_one}
use dspic33e_sim.Device.State.{Dspic33}
use dspic33e_sim.Execution.Accumulator.{accumulator_store_value_with_rounding}

-- The nearest multiple of 65536, and the even one of two that are as near.
abbrev pub round_half_even : ℕ → ℕ
round_half_even value =
    let high = value / 0x10000 in
    let low = value % 0x10000 in
    if ltb low 0x8000 then high else if low == 0x8000 then high + high % 2 else high + 1

-- Unbiased rounding of a positive value that stays below the highest word goes to the nearest word,
-- and to the even one of two that are as near, with saturation on or off.
pub accumulator_store_value_rounds :
    (cpu : Dspic33) (value : ℕ)
    → value < 0x7fff8000
    → accumulator_store_value_with_rounding cpu value true false ≡ round_half_even value
unfolding accumulator_store_value_with_rounding
accumulator_store_value_rounds cpu value lt =
    ground (arith, bit_and_mask 40 value, bit_and_one (value / 0x10000))

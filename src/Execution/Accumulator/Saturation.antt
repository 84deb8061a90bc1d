-- ===== src/Execution/Accumulator/Saturation.antt =====
-- A result that is stored in an accumulator is clamped, or wraps in 40 bits.
use dspic33e_sim.Prelude.{ℕ, ◌+◌, ◌%◌, ◌^◌, ◌<◌, ◌≡◌, ap, ◌∙◌, arith}
use dspic33e_sim.Prelude.{true, false, ltb}
use dspic33e_sim.Prelude.{if◌then◌else◌, min, max}
use dspic33e_sim.Bits.{bit_and_mask}
use dspic33e_sim.Device.State.{Dspic33}
use dspic33e_sim.Execution.Alu.Flags.{high_bit}
use dspic33e_sim.Execution.Accumulator.{
  accumulator_value, saturated, saturation_enabled, saturation_minimum, saturation_maximum,
  store_accumulator_result, exceeds_accumulator,
}

-- Sign extension from 40 bits, as a sum.
pub accumulator_value_lem :
    (word : ℕ)
    → accumulator_value word
      ≡ (if ltb (word % 2 ^ 40) (2 ^ 39) then word % 2 ^ 40 else word % 2 ^ 40 + 0xffffff0000000000)
unfolding accumulator_value
accumulator_value_lem word =
    ground (arith, bit_and_mask 40 word, high_bit 39 (word % 2 ^ 40) (omega arith))

-- A number that fits 40 bits is its own sign extension.
accumulator_value_fits :
    (word : ℕ) → word < 2 ^ 64 → exceeds_accumulator word ≡ false → accumulator_value word ≡ word
accumulator_value_fits word lt fits = ground (arith, accumulator_value_lem word)

-- A number's place in the order of the signed ones.
abbrev pub signed_place : ℕ → ℕ
signed_place a = (a + 0x8000000000000000) % 0x10000000000000000

clamped_fits :
    (cpu : Dspic33) (accumulator result : ℕ)
    → saturation_enabled cpu accumulator ≡ true
    → result < 2 ^ 64
    → (exceeds_accumulator (saturated cpu accumulator result) ≡ false)
      × (saturated cpu accumulator result < 2 ^ 64)
clamped_fits cpu accumulator result on lt = ground (arith, on)

clamped :
    (cpu : Dspic33) (accumulator result : ℕ)
    → saturation_enabled cpu accumulator ≡ true
    → result < 2 ^ 64
    → signed_place (saturated cpu accumulator result)
      ≡ min
          (max (signed_place result) (signed_place (saturation_minimum cpu)))
          (signed_place (saturation_maximum cpu))
clamped cpu accumulator result on lt = ground (arith, on)

-- With saturation on, an accumulator gets the number within the bounds that is nearest to the
-- result; the bounds are those of 40 bits in super saturation and those of 32 bits otherwise.
pub store_accumulator_result_saturates :
    (cpu : Dspic33) (accumulator result : ℕ)
    → saturation_enabled cpu accumulator ≡ true
    → result < 2 ^ 64
    → signed_place ((store_accumulator_result cpu accumulator result).accumulator accumulator)
      ≡ min
          (max (signed_place result) (signed_place (saturation_minimum cpu)))
          (signed_place (saturation_maximum cpu))
unfolding store_accumulator_result
store_accumulator_result_saturates cpu accumulator result on lt =
    let (fits, small) = clamped_fits cpu accumulator result on lt in
    let here : (store_accumulator_result cpu accumulator result).accumulator accumulator
        ≡ accumulator_value (saturated cpu accumulator result) =
      ground arith in
    ap signed_place (here ∙ accumulator_value_fits (saturated cpu accumulator result) small fits)
    ∙ clamped cpu accumulator result on lt

-- Without, it gets the 40 lowest bits of the result, with the highest of them as the sign.
pub store_accumulator_result_wraps :
    (cpu : Dspic33) (accumulator result : ℕ)
    → saturation_enabled cpu accumulator ≡ false
    → ((store_accumulator_result cpu accumulator result).accumulator accumulator % 2 ^ 40
        ≡ result % 2 ^ 40)
      × (exceeds_accumulator
            ((store_accumulator_result cpu accumulator result).accumulator accumulator)
          ≡ false)
unfolding store_accumulator_result
store_accumulator_result_wraps cpu accumulator result off =
    let here : (store_accumulator_result cpu accumulator result).accumulator accumulator
        ≡ accumulator_value (saturated cpu accumulator result) =
      ground arith in
    let whole : saturated cpu accumulator result ≡ result = ground (arith, off) in
    let value = here ∙ ap accumulator_value whole ∙ accumulator_value_lem result in
    (ground (arith, value), ground (arith, value))

-- ===== src/Execution/Accumulator/Instructions.antt =====
-- The instructions on the accumulators alone, `execute_accumulator_arithmetic` and
-- `execute_accumulator_shift` of src/architecture/dspic33/execution/instructions.c.
use dspic33e_sim.Prelude.{ℕ, ◌+◌, ◌-◌}
use dspic33e_sim.Prelude.{Option, none, some, bit_and, ltb, leb, ◌==◌, if◌then◌else◌, u64, ◌>>>◌}
use dspic33e_sim.Device.State.{Dspic33}
use dspic33e_sim.Execution.Traps.{latch_math_error}
use dspic33e_sim.Execution.Accumulator.{i64_neg, apply_accumulator_result, shift_accumulator_value}

-- The accumulator that an instruction names.
abbrev pub accumulator_of : ℕ → ℕ
accumulator_of opcode = bit_and (opcode >>> 15) 1

-- The result of an addition, a negation or a subtraction of the accumulators.
unfoldable pub accumulator_operation : Dspic33 → ℕ → Option ℕ
accumulator_operation cpu opcode =
    let accumulator = accumulator_of opcode in
    let operation = bit_and opcode 0xff7fff in
    let other : ℕ = if accumulator == 0 then 1 else 0 in
    if operation == 0xcb0000
    then some (u64 (cpu.accumulator 0 + cpu.accumulator 1))
    else if operation == 0xcb1000
    then some (i64_neg (cpu.accumulator accumulator))
    else if operation == 0xcb3000
    then some (u64 (cpu.accumulator accumulator + i64_neg (cpu.accumulator other)))
    else none

-- `dspic33_internal_execute_accumulator_arithmetic`, with `none` for false.
unfoldable pub execute_accumulator_arithmetic : Dspic33 → ℕ → Option Dspic33
execute_accumulator_arithmetic cpu opcode = elim (accumulator_operation cpu opcode) [
  | none ↦ none
  | some result ↦ some (apply_accumulator_result cpu (accumulator_of opcode) result)
]

-- `dspic33_internal_execute_accumulator_shift`; a count from 32 on is a negative one.
unfoldable pub execute_accumulator_shift : Dspic33 → ℕ → Dspic33
execute_accumulator_shift cpu opcode =
    let accumulator = accumulator_of opcode in
    let encoded_amount : ℕ =
      if bit_and opcode 0x0040 == 0
      then bit_and (cpu.w (bit_and opcode 0x0f)) 0x003f
      else bit_and opcode 0x003f in
    let is_negative = leb 32 encoded_amount in
    let amount : ℕ = if is_negative then 64 - encoded_amount else encoded_amount in
    if ltb 16 amount
    then latch_math_error cpu 0x0080
    else apply_accumulator_result cpu accumulator
        (shift_accumulator_value (cpu.accumulator accumulator) amount is_negative)

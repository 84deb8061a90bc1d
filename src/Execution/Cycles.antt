-- ===== src/Execution/Cycles.antt =====
-- How long an instruction takes, `dspic33_internal_instruction_cycles` of
-- src/architecture/dspic33/execution/traps.c.
pub mod Skip
use dspic33e_sim.Prelude.{ℕ, ◌+◌, ◌-◌, ◌/◌, Bool, true, false, ◌&&◌, ◌||◌}
use dspic33e_sim.Prelude.{Option, none, some, bit_and, leb, ◌==◌, if◌then◌else◌, u32, ◌>>>◌}
use dspic33e_sim.Device.State.{Dspic33}
use dspic33e_sim.Interrupts.{interrupt_pending}
use dspic33e_sim.Execution.Traps.{soft_exception_pending}
use dspic33e_sim.Execution.Branch.{
  compare_control_kind, compare_control_displacement, compare_control_taken, program_address_add,
  relative_branch_condition, device_program_limit, computed_control_transfer_encoding,
}

-- `dspic33_internal_exception_pending`
unfoldable pub exception_pending : Dspic33 → Bool
exception_pending cpu = soft_exception_pending cpu || interrupt_pending cpu

-- The instruction can skip the next one.
unfoldable pub is_skip : ℕ → Bool
is_skip opcode =
    let bit_kind = bit_and (opcode >>> 16) 0x07 in
    let compare_skip : Bool = elim (compare_control_kind opcode) [
      | none ↦ false
      | some kind ↦ compare_control_displacement opcode == 1
    ] in
    (bit_and opcode 0xf00000 == 0xa00000 && leb 6 bit_kind) || compare_skip

-- The distance that a skip has gone, and the cycles for it, if it is one.
unfoldable pub skip_cycles : Dspic33 → ℕ → Option ℕ
skip_cycles cpu instruction_pc =
    let sequential = program_address_add instruction_pc 2 in
    let distance = bit_and (u32 (cpu.pc + (0x100000000 - sequential))) 0x007fffff in
    if cpu.address_error
      && cpu.address_error_control_state_completed
      && cpu.address_error_return == device_program_limit cpu
      && u32 (instruction_pc + 2) == device_program_limit cpu
    then some 2
    else if bit_and distance 1 == 0 && leb distance 4
    then some (1 + distance / 2)
    else none

-- The cycles of an instruction that is no branch, no comparison and no skip.
unfoldable pub other_cycles : Dspic33 → ℕ → ℕ
other_cycles cpu opcode =
    let family = bit_and opcode 0xff0000 in
    if family == 0x050000
    then (if cpu.address_error || exception_pending cpu then 5 else 6)
    else if family == 0xba0000
    then 5
    else if family == 0xbb0000
    then 2
    else if bit_and opcode 0xfffff0 == 0x088000 || bit_and opcode 0xff8000 == 0x080000
    then 2
    else if family == 0xbe0000
    then 2
    else if family == 0x020000
        || family == 0x040000
        || family == 0x070000
        || computed_control_transfer_encoding opcode
    then 4
    else 1

unfoldable pub control_cycles : Dspic33 → ℕ → ℕ
control_cycles cpu opcode = elim (compare_control_kind opcode) [
  | some kind ↦ if compare_control_taken cpu opcode kind then 5 else 1
  | none ↦ elim (relative_branch_condition cpu opcode) [
    | some branch_taken ↦ if branch_taken then 4 else 1
    | none ↦ other_cycles cpu opcode
  ]
]

-- `dspic33_internal_instruction_cycles`
unfoldable pub instruction_cycles : Dspic33 → ℕ → ℕ → ℕ
instruction_cycles cpu opcode instruction_pc =
    if is_skip opcode
    then elim (skip_cycles cpu instruction_pc) [
      | some cycles ↦ cycles
      | none ↦ control_cycles cpu opcode
    ]
    else control_cycles cpu opcode

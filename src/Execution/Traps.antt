-- ===== src/Execution/Traps.antt =====
-- Soft traps that wait, `dspic33_internal_schedule_soft_trap` and what follows it in instructions.c,
-- and the part of traps.c that advances and chooses them.
pub mod Pending
pub mod Select
use dspic33e_sim.Prelude.{ℕ, zero, suc, ◌+◌, ◌-◌, Bool, true, false, ◌&&◌, ◌||◌, not}
use dspic33e_sim.Prelude.{Option, none, some, bit_and, bit_or, ltb, leb, ◌==◌, ◌!=◌, if◌then◌else◌}
use dspic33e_sim.Prelude.{u8, u16, ◌>>>◌}
use dspic33e_sim.Device.State.{Dspic33, PendingSoftTrap, update}
use dspic33e_sim.Device.Memory.{raw_word, raw_write_word}
use dspic33e_sim.Program.{auxiliary_program_address}

abbrev pub PendingTraps : Type 0
PendingTraps = ℕ → PendingSoftTrap

-- The first slot from `index` on, of `n` slots, that is active with this trap.
unfoldable pub slot_of : PendingTraps → ℕ → ℕ → ℕ → Option ℕ
slot_of traps trap index zero = none
slot_of traps trap index (suc n) =
    if (traps index).is_active && (traps index).trap == trap
    then some index
    else slot_of traps trap (index + 1) n

-- The first slot from `index` on, of `n` slots, that is free.
unfoldable pub free_slot : PendingTraps → ℕ → ℕ → Option ℕ
free_slot traps index zero = none
free_slot traps index (suc n) =
    if not (traps index).is_active then some index else free_slot traps (index + 1) n

abbrev pub trap_from_auxiliary : Dspic33 → Bool
trap_from_auxiliary cpu =
    auxiliary_program_address
      (if cpu.instruction_active then cpu.current_instruction_pc else cpu.pc)

abbrev pub hasten_trap : Dspic33 → ℕ → ℕ → PendingSoftTrap
hasten_trap cpu index delay =
    let waiting = cpu.pending_soft_traps index in
    if ltb delay waiting.delay
    then record waiting { delay = delay; auxiliary_program = trap_from_auxiliary cpu }
    else waiting

-- The slots after a trap is scheduled, by the slot that waits for it and the first free one.
unfoldable pub with_trap : Dspic33 → PendingSoftTrap → Option ℕ → Option ℕ → PendingTraps
with_trap cpu added (some index) available =
    update cpu.pending_soft_traps index (hasten_trap cpu index added.delay)
with_trap cpu added none none = cpu.pending_soft_traps
with_trap cpu added none (some available) = update cpu.pending_soft_traps available added

-- `dspic33_internal_schedule_soft_trap`
unfoldable pub schedule_soft_trap : Dspic33 → ℕ → ℕ → ℕ → ℕ → Dspic33
schedule_soft_trap cpu trap vector priority delay =
    let added : PendingSoftTrap = record {
      vector = vector;
      trap = trap;
      priority = priority;
      delay = delay;
      is_active = true;
      auxiliary_program = trap_from_auxiliary cpu;
    } in
    record cpu {
      pending_soft_traps =
          with_trap cpu added (slot_of cpu.pending_soft_traps trap 0 4)
            (free_slot cpu.pending_soft_traps 0 4);
    }

-- The slots without this trap: the loop that clears a source.
abbrev pub without_trap : PendingTraps → ℕ → PendingTraps
without_trap traps trap index =
    if ltb index 4 && (traps index).is_active && (traps index).trap == trap
    then record (traps index) { is_active = false }
    else traps index

-- `dspic33_internal_set_trap_source`
unfoldable pub set_trap_source : Dspic33 → ℕ → ℕ → ℕ → ℕ → Bool → Dspic33
set_trap_source cpu trap vector priority delay is_on =
    if is_on
    then schedule_soft_trap cpu trap vector priority delay
    else record cpu { pending_soft_traps = without_trap cpu.pending_soft_traps trap }

-- `dspic33_set_math_error_source`
unfoldable pub set_math_error_source : Dspic33 → Bool → Dspic33
set_math_error_source cpu is_on = set_trap_source cpu 4 0x0c 11 2 is_on

-- `dspic33_set_generic_hard_trap_source` and `dspic33_set_generic_soft_trap_source`
unfoldable pub set_generic_hard_trap_source : Dspic33 → Bool → Dspic33
set_generic_hard_trap_source cpu is_on = set_trap_source cpu 2 0x08 13 0 is_on

unfoldable pub set_generic_soft_trap_source : Dspic33 → Bool → Dspic33
set_generic_soft_trap_source cpu is_on = set_trap_source cpu 6 0x10 9 1 is_on

-- `dspic33_device_latch_math_error`
unfoldable pub latch_math_error : Dspic33 → ℕ → Dspic33
latch_math_error cpu error_flags =
    set_math_error_source
      (raw_write_word cpu 0x08c0 (bit_or (bit_or (raw_word cpu 0x08c0) error_flags) 0x0010)) true

-- `advance_pending_soft_traps`
unfoldable pub advance_pending_soft_traps : Dspic33 → ℕ → Dspic33
advance_pending_soft_traps cpu cycles = record cpu {
  pending_soft_traps = λ index.
      let pending = cpu.pending_soft_traps index in
      if ltb index 4 && pending.is_active && pending.delay != 0
      then record pending { delay = if ltb cycles pending.delay then pending.delay - cycles else 0 }
      else pending;
}

-- `soft_exception_pending`
abbrev pub any_active : PendingTraps → ℕ → Bool
any_active traps zero = false
any_active traps (suc n) = any_active traps n || (traps n).is_active

unfoldable pub soft_exception_pending : Dspic33 → Bool
soft_exception_pending cpu = any_active cpu.pending_soft_traps 4

-- The priority of what the processor does now, traps included.
abbrev pub current_trap_priority : Dspic33 → ℕ
current_trap_priority cpu =
    bit_or (if bit_and cpu.corcon 0x0008 != 0 then 8 else 0) (bit_and (cpu.sr >>> 5) 0x07)

-- A trap whose delay is over and whose priority is above `priority`.
abbrev pub ready_above : PendingSoftTrap → ℕ → Bool
ready_above pending priority =
    pending.is_active && pending.delay == 0 && ltb priority pending.priority

-- The trap that `dspic33_internal_service_pending_soft_trap` selects, after `n` rounds of its loop.
unfoldable pub select_trap : Dspic33 → ℕ → Option ℕ
select_trap cpu zero = none
select_trap cpu (suc n) =
    let pending = cpu.pending_soft_traps n in
    elim (select_trap cpu n) [
      | none ↦ if ready_above pending (current_trap_priority cpu) then some n else none
      | some selected ↦
          if ready_above pending (current_trap_priority cpu)
            && ltb (cpu.pending_soft_traps selected).priority pending.priority
          then some n
          else some selected
    ]

-- A hard trap whose delay is over, below the priority of what the processor does.
abbrev pub conflicts : Dspic33 → PendingSoftTrap → Bool
conflicts cpu pending =
    pending.is_active
    && pending.delay == 0
    && leb 13 pending.priority
    && ltb pending.priority (current_trap_priority cpu)

-- The first loop of `dspic33_internal_service_pending_soft_trap`, after `n` rounds: whether it has
-- reset the processor.
unfoldable pub trap_conflict : Dspic33 → ℕ → Bool
trap_conflict cpu zero = false
trap_conflict cpu (suc n) = trap_conflict cpu n || conflicts cpu (cpu.pending_soft_traps n)

-- What `dspic33_internal_service_pending_soft_trap` goes on to do: the warm reset of a hardware
-- trap conflict, the entry of the trap in a slot, or nothing, where it returns false.
pub data TrapService : Type 0 where
  conflict_reset no_service : TrapService
  enter_trap : ℕ → TrapService

unfoldable pub trap_service : Dspic33 → TrapService
trap_service cpu =
    if trap_conflict cpu 4
    then conflict_reset
    else elim (select_trap cpu 4) [ none ↦ no_service | some selected ↦ enter_trap selected ]

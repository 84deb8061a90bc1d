-- ===== src/Interrupts.antt =====
-- Interrupt requests of src/device/dspic33ep_mu/memory/dma/runtime.c: flags, priorities, and the
-- choice of the request to serve; with `dspic33_device_instruction_cycles` of runtime.c.
pub mod Select
pub mod Flags
pub mod Frame
use dspic33e_sim.Prelude.{ℕ, zero, suc, ◌+◌, ◌-◌, ◌*◌, ◌/◌, ◌%◌, Bool, true, false, ◌&&◌, ◌||◌, not}
use dspic33e_sim.Prelude.{bit_and, bit_or, ltb, leb, ◌==◌, ◌!=◌, if◌then◌else◌, Option, none, some}
use dspic33e_sim.Prelude.{u8, u16, u32, u64, uint64_max, not16, ◌<<<◌, ◌>>>◌}
use dspic33e_sim.Device.State.{Dspic33}
use dspic33e_sim.Device.Memory.{raw_word, raw_write_word}

abbrev pub irq_count : ℕ
irq_count = 143

abbrev pub main_clock_divisor : ℕ
main_clock_divisor = 0x0744

-- The ratio of device cycles to instruction cycles, 2^DOZE in doze mode.
unfoldable pub doze_ratio : Dspic33 → ℕ
doze_ratio cpu =
    let divisor = raw_word cpu main_clock_divisor in
    if bit_and divisor 0x0800 != 0 then 1 <<< bit_and (divisor >>> 12) 7 else 1

-- `dspic33_device_instruction_cycles`.
unfoldable pub instruction_cycles : Dspic33 → ℕ → ℕ
instruction_cycles cpu cycles =
    if ltb (uint64_max / doze_ratio cpu) cycles then uint64_max else cycles * doze_ratio cpu

-- `recover_from_doze`.
unfoldable pub recover_from_doze : Dspic33 → Dspic33
recover_from_doze cpu =
    if bit_and (raw_word cpu main_clock_divisor) 0x8000 != 0
    then raw_write_word cpu main_clock_divisor
        (u16 (bit_and (raw_word cpu main_clock_divisor) (not16 0x0800)))
    else cpu

abbrev pub interrupt_mask : ℕ → ℕ
interrupt_mask interrupt_number = u16 (1 <<< (interrupt_number % 16))

abbrev pub status_address : ℕ → ℕ
status_address interrupt_number = u16 (0x0800 + interrupt_number / 16 * 2)

abbrev pub enable_address : ℕ → ℕ
enable_address interrupt_number = u16 (0x0820 + u16 (interrupt_number / 16 * 2))

-- `interrupt_priority`.
unfoldable pub interrupt_priority : Dspic33 → ℕ → ℕ
interrupt_priority cpu interrupt_number =
    let priority_word = raw_word cpu (u16 (0x0840 + interrupt_number / 4 * 2)) in
    u8 (bit_and (priority_word >>> (interrupt_number % 4 * 4)) 7)

-- `dspic33_device_internal_interrupt_enabled`.
unfoldable pub interrupt_enabled : Dspic33 → ℕ → Bool
interrupt_enabled cpu interrupt_number =
    bit_and (raw_word cpu (status_address interrupt_number)) (interrupt_mask interrupt_number) != 0
    && bit_and (raw_word cpu (enable_address interrupt_number)) (interrupt_mask interrupt_number)
      != 0

-- `interrupt_deferred`.
unfoldable pub interrupt_deferred : Dspic33 → ℕ → Bool
interrupt_deferred cpu interrupt_number =
    bit_and (cpu.interrupt_deferred (interrupt_number / 16)) (interrupt_mask interrupt_number) != 0

-- What a round of the loop below has found: the highest priority so far and its interrupt.
pub record Best : Type 0 where
  pub interrupt : ℕ
  pub priority : ℕ

-- The two tests of `select_interrupt` that skip an interrupt.
unfoldable pub candidate : Dspic33 → ℕ → Bool
candidate cpu interrupt_number =
    interrupt_enabled cpu interrupt_number
    && not (interrupt_deferred cpu interrupt_number)
    && not (cpu.disicnt != 0 && ltb (interrupt_priority cpu interrupt_number) 7)

-- The SR's priority level.
unfoldable pub current_priority : Dspic33 → ℕ
current_priority cpu = u8 (bit_and (cpu.sr >>> 5) 7)

-- The loop of `select_interrupt`, after its first `n` rounds.
unfoldable pub best_of : Dspic33 → ℕ → Best
unfolding current_priority
best_of cpu zero = record { interrupt = irq_count; priority = current_priority cpu }
best_of cpu (suc n) =
    let best = best_of cpu n in
    let priority = interrupt_priority cpu n in
    if candidate cpu n && ltb best.priority priority
    then record { interrupt = n; priority = priority }
    else best

-- The loop over groups, after its first `n` rounds: is there a request in one?
unfoldable pub requested : Dspic33 → ℕ → Bool
requested cpu zero = false
requested cpu (suc n) =
    requested cpu n
    || bit_and (raw_word cpu (u16 (0x0800 + u16 (n * 2))))
        (raw_word cpu (u16 (0x0820 + u16 (n * 2))))
      != 0

-- The first test of `select_interrupt`: interrupts may be served.
unfoldable pub served : Dspic33 → Bool
served cpu =
    cpu.async_events_enabled
    && not (bit_and (raw_word cpu 0x08c2) 0x8000 == 0 && cpu.gie_disable_deferred == 0)
    && not (bit_and cpu.corcon 0x0008 != 0)

-- `select_interrupt`: the interrupt and its priority.
unfoldable pub select_interrupt : Dspic33 → Option Best
select_interrupt cpu =
    let best = best_of cpu irq_count in
    if not (served cpu)
    then none
    else if not (requested cpu ((irq_count + 15) / 16))
    then none
    else if best.interrupt == irq_count
    then none
    else some best

-- `dspic33_device_interrupt_pending`.
unfoldable pub interrupt_pending : Dspic33 → Bool
interrupt_pending cpu = elim (select_interrupt cpu) [ none ↦ false | some best ↦ true ]

-- The request came at the last instruction of a DO loop, or at the one before it, and is noted.
unfoldable pub arm_nested_do : Dspic33 → ℕ → Dspic33
arm_nested_do cpu selected_priority =
    let do_depth = cpu.do_depth in
    let do_end = cpu.do_end (do_depth - 1) in
    let previous_instruction = bit_and (u32 (do_end + 0xfffffffe)) 0x007ffffe in
    let instruction_origin =
      if cpu.instruction_advancing then cpu.current_instruction_pc else cpu.pc in
    if do_depth != 0 && (instruction_origin == do_end || instruction_origin == previous_instruction)
    then record cpu {
      nested_do_interrupt_cycle = cpu.device_cycles;
      nested_do_interrupt_end = do_end;
      nested_do_interrupt_depth = do_depth;
      nested_do_interrupt_priority = selected_priority;
      nested_do_interrupt_armed = true;
    }
    else cpu

-- A second request, of a higher priority, that comes four instructions after the first while the
-- same DO loop runs costs the loop a further decrement.
unfoldable pub disarm_nested_do : Dspic33 → ℕ → Dspic33
disarm_nested_do cpu selected_priority =
    let do_depth = cpu.nested_do_interrupt_depth in
    let elapsed = u64 (cpu.device_cycles + (uint64_max + 1 - cpu.nested_do_interrupt_cycle)) in
    let disarmed = record cpu { nested_do_interrupt_armed = false } in
    if ltb cpu.nested_do_interrupt_priority selected_priority
      && elapsed == instruction_cycles cpu 4
      && do_depth != 0
      && leb do_depth cpu.do_depth
      && cpu.do_end (do_depth - 1) == cpu.nested_do_interrupt_end
    then record disarmed {
      nested_do_extra_decrement_depth = do_depth;
      nested_do_extra_decrement_end = cpu.nested_do_interrupt_end;
    }
    else disarmed

-- `update_nested_do_interrupt_request`.
unfoldable pub update_nested_do_interrupt_request : Dspic33 → ℕ → Dspic33
update_nested_do_interrupt_request cpu interrupt_number =
    if bit_and (raw_word cpu 0x08c0) 0x8000 != 0
    then record cpu { nested_do_interrupt_armed = false }
    else elim (select_interrupt cpu) [
      | none ↦ cpu
      | some best ↦
          if best.interrupt != interrupt_number
          then cpu
          else if cpu.nested_do_interrupt_armed
          then disarm_nested_do cpu best.priority
          else if cpu.interrupt_entry_active
          then cpu
          else arm_nested_do cpu best.priority
    ]

-- `dspic33_raise_interrupt`.
unfoldable pub raise_interrupt : Dspic33 → ℕ → Dspic33
raise_interrupt cpu interrupt_number =
    let interrupt_status = raw_word cpu (status_address interrupt_number) in
    let raised =
      raw_write_word cpu (status_address interrupt_number)
        (u16 (bit_or interrupt_status (interrupt_mask interrupt_number))) in
    if leb irq_count interrupt_number
    then cpu
    else if bit_and interrupt_status (interrupt_mask interrupt_number) == 0
    then update_nested_do_interrupt_request raised interrupt_number
    else raised

-- ===== src/Crc.antt =====
-- The CRC module, src/device/dspic33ep_mu/memory/crc.c, with its registers of registers.h.
pub mod Division
pub mod Shift
pub mod Word
pub mod Cycle
pub mod Frame
pub mod Fifo
pub mod Load
pub mod Status
pub mod Run
use dspic33e_sim.Prelude.{ℕ, zero, suc, ◌+◌, ◌-◌, ◌*◌, ◌/◌, ◌%◌, Bool, true, false, ◌&&◌, ◌||◌, not}
use dspic33e_sim.Prelude.{bit_and, bit_or, bit_xor, ltb, leb, ◌==◌, ◌!=◌, bool_eq, if◌then◌else◌}
use dspic33e_sim.Prelude.{u8, u16, u32, uint32_max, not16, ◌<<<◌, ◌>>>◌}
use dspic33e_sim.Device.State.{Dspic33, Crc, EventType, StopReason, is_sleep, is_idle, update}
use dspic33e_sim.Device.Memory.{raw_word, raw_write_word}
use dspic33e_sim.Events.{schedule}
use dspic33e_sim.Interrupts.{instruction_cycles, raise_interrupt}

abbrev pub crc_control : ℕ
crc_control = 0x0640

abbrev pub crc_config : ℕ
crc_config = 0x0642

abbrev pub crc_polynomial_low : ℕ
crc_polynomial_low = 0x0644

abbrev pub crc_polynomial_high : ℕ
crc_polynomial_high = 0x0646

abbrev pub crc_data_low : ℕ
crc_data_low = 0x0648

abbrev pub crc_data_high : ℕ
crc_data_high = 0x064a

abbrev pub crc_shift_low : ℕ
crc_shift_low = 0x064c

abbrev pub crc_shift_high : ℕ
crc_shift_high = 0x064e

abbrev pub crc_pmd_address : ℕ
crc_pmd_address = 0x0764

abbrev pub crc_enable : ℕ
crc_enable = 0x8000

abbrev pub crc_stop_idle : ℕ
crc_stop_idle = 0x2000

abbrev pub crc_word_count_mask : ℕ
crc_word_count_mask = 0x1f00

abbrev pub crc_full : ℕ
crc_full = 0x0080

abbrev pub crc_empty : ℕ
crc_empty = 0x0040

abbrev pub crc_interrupt_empty : ℕ
crc_interrupt_empty = 0x0020

abbrev pub crc_go : ℕ
crc_go = 0x0010

abbrev pub crc_little_endian : ℕ
crc_little_endian = 0x0008

abbrev pub crc_pmd : ℕ
crc_pmd = 0x0080

abbrev pub crc_bits_per_cycle : ℕ
crc_bits_per_cycle = 2

abbrev pub crc_irq : ℕ
crc_irq = 67

abbrev pub crc_event_pmd_source : ℕ
crc_event_pmd_source = 65535

-- A state with another CRC module.
abbrev pub with_crc : Dspic33 → Crc → Dspic33
with_crc cpu crc = record cpu { io = record cpu.io { crc = crc } }

-- `dspic33_device_internal_crc_data_width`.
unfoldable pub crc_data_width : Dspic33 → ℕ
crc_data_width cpu = u8 (bit_and (raw_word cpu crc_config >>> 8) 0x001f + 1)

-- `crc_polynomial_width`.
unfoldable pub crc_polynomial_width : Dspic33 → ℕ
crc_polynomial_width cpu = u8 (bit_and (raw_word cpu crc_config) 0x001f + 1)

-- `crc_capacity`.
unfoldable pub crc_capacity : Dspic33 → ℕ
crc_capacity cpu =
    let data_width = crc_data_width cpu in
    if leb data_width 8 then 16 else if leb data_width 16 then 8 else 4

-- `crc_width_mask`.
unfoldable pub crc_width_mask : ℕ → ℕ
crc_width_mask bit_width = if bit_width == 32 then uint32_max else u32 (1 <<< bit_width) - 1

-- The status bits that `dspic33_device_internal_crc_refresh_status` computes.
unfoldable pub crc_status : Dspic33 → ℕ
crc_status cpu =
    let count = u16 (cpu.io.crc.count <<< 8) in
    let empty = if cpu.io.crc.count == 0 then bit_or count crc_empty else count in
    if leb (crc_capacity cpu) cpu.io.crc.count then bit_or empty crc_full else empty

-- `dspic33_device_internal_crc_refresh_status`.
unfoldable pub crc_refresh_status : Dspic33 → Dspic33
unfolding crc_status
crc_refresh_status cpu = raw_write_word cpu crc_control (
    u16 (
      bit_or
        (bit_and (raw_word cpu crc_control)
          (not16 (bit_or (bit_or crc_word_count_mask crc_full) crc_empty)))
        (crc_status cpu)))

-- `dspic33_device_internal_crc_abort`.
unfoldable pub crc_abort : Dspic33 → Dspic33
crc_abort cpu = with_crc cpu (record cpu.io.crc {
  generation = u16 (cpu.io.crc.generation + 1);
  active = false;
  bits_remaining = 0;
})

-- CRCCON1 without its GO bit.
unfoldable pub crc_clear_go : Dspic33 → ℕ → Dspic33
crc_clear_go cpu control = raw_write_word cpu crc_control (u16 (bit_and control (not16 crc_go)))

-- `dspic33_device_internal_crc_reset_runtime`.
unfoldable pub crc_reset_runtime : Dspic33 → Dspic33
crc_reset_runtime cpu =
    let cleared = with_crc cpu (record {
      words = λ i. 0;
      data_latch = 0;
      shift_data = 0;
      polynomial = 0;
      generation = u16 (cpu.io.crc.generation + 1);
      pmd_generation = cpu.io.crc.pmd_generation;
      head = 0;
      count = 0;
      data_width = 0;
      polynomial_width = 0;
      bits_remaining = 0;
      little_endian = false;
      active = false;
      pmd_disabled = cpu.io.crc.pmd_disabled;
    }) in
    let data_clear = raw_write_word (raw_write_word cleared crc_data_low 0) crc_data_high 0 in
    let shift = raw_write_word (raw_write_word data_clear crc_shift_low 0) crc_shift_high 0 in
    crc_refresh_status (crc_clear_go shift (raw_word cpu crc_control))

-- `crc_shift_register`.
unfoldable pub crc_shift_register : Dspic33 → ℕ
crc_shift_register cpu =
    bit_or (raw_word cpu crc_shift_low) (u32 (raw_word cpu crc_shift_high <<< 16))

-- `crc_write_shift_register`.
unfoldable pub crc_write_shift_register : Dspic33 → ℕ → Dspic33
crc_write_shift_register cpu value =
    raw_write_word (raw_write_word cpu crc_shift_low (u16 value)) crc_shift_high
      (u16 (value >>> 16))

-- What `crc_load_shift_data` takes from the buffer and from the registers.
unfoldable pub crc_take_word : Dspic33 → Crc
crc_take_word cpu =
    let crc = cpu.io.crc in
    let polynomial_value =
      bit_or (raw_word cpu crc_polynomial_low) (u32 (raw_word cpu crc_polynomial_high <<< 16)) in
    record crc {
      shift_data = crc.words crc.head;
      head = u8 ((crc.head + 1) % 16);
      count = u8 (crc.count + 255);
      data_width = crc_data_width cpu;
      polynomial_width = crc_polynomial_width cpu;
      bits_remaining = crc_data_width cpu;
      polynomial = bit_and (bit_or polynomial_value 1) (crc_width_mask (crc_polynomial_width cpu));
      little_endian = bit_and (raw_word cpu crc_control) crc_little_endian != 0;
    }

-- `crc_load_shift_data`.
unfoldable pub crc_load_shift_data : Dspic33 → Dspic33
unfolding crc_take_word crc_refresh_status
crc_load_shift_data cpu =
    let loaded = crc_refresh_status (with_crc cpu (crc_take_word cpu)) in
    if loaded.io.crc.count == 0 && bit_and (raw_word loaded crc_control) crc_interrupt_empty != 0
    then raise_interrupt loaded crc_irq
    else loaded

-- The number of the bit that the loop of `crc_shift_bits` shifts in.
unfoldable pub input_bit : Crc → ℕ
input_bit crc =
    if crc.little_endian
    then u8 (crc.data_width + 256 - crc.bits_remaining)
    else u8 (crc.bits_remaining + 255)

-- The feedback of a round.
unfoldable pub feedback_bit : Crc → ℕ → Bool
unfolding input_bit
feedback_bit crc remainder =
    let top = bit_and (remainder >>> (crc.polynomial_width - 1)) 1 != 0 in
    not (bool_eq top (bit_and (crc.shift_data >>> input_bit crc) 1 != 0))

-- The remainder after a round.
unfoldable pub shift_bit : Crc → ℕ → ℕ
unfolding feedback_bit
shift_bit crc remainder =
    let shifted = bit_and (u32 (remainder <<< 1)) (crc_width_mask crc.polynomial_width) in
    if feedback_bit crc remainder then bit_xor shifted crc.polynomial else shifted

abbrev pub bit_done : Crc → Crc
bit_done crc = record crc { bits_remaining = u8 (crc.bits_remaining + 255) }

-- The loop of `crc_shift_bits`, with the number of rounds that `cycle_bit` leaves.
unfoldable pub shift_loop : ℕ → Crc → ℕ → Crc × ℕ
unfolding shift_bit
shift_loop zero crc remainder = (crc, remainder)
shift_loop (suc rounds) crc remainder =
    let rest = shift_loop rounds (bit_done crc) (shift_bit crc remainder) in
    if crc.bits_remaining == 0 then (crc, remainder) else rest

-- `crc_shift_bits`.
unfoldable pub crc_shift_bits : Dspic33 → Dspic33
unfolding shift_loop
crc_shift_bits cpu =
    let start = bit_and (crc_shift_register cpu) (crc_width_mask cpu.io.crc.polynomial_width) in
    let (crc, remainder) = shift_loop crc_bits_per_cycle cpu.io.crc start in
    crc_write_shift_register (with_crc cpu crc) remainder

-- The end of a message: no bit and no word is left.
unfoldable pub crc_finish : Dspic33 → ℕ → Dspic33
crc_finish cpu control =
    let idle = with_crc cpu (record cpu.io.crc { active = false }) in
    let stopped = crc_clear_go idle control in
    if bit_and control crc_interrupt_empty == 0 then raise_interrupt stopped crc_irq else stopped

-- The module's clock stands.
unfoldable pub crc_paused : Dspic33 → ℕ → Bool
crc_paused cpu control =
    cpu.io.crc.pmd_disabled
    || is_sleep cpu.power_state
    || (is_idle cpu.power_state && bit_and control crc_stop_idle != 0)

module _ (realloc : ℕ → Bool) where
  -- `crc_schedule`, whose result no caller reads.
  unfoldable pub crc_schedule : Dspic33 → Dspic33
  crc_schedule cpu =
      let (scheduled, queued) = schedule realloc cpu EventType.crc 0 cpu.io.crc.generation 1 in
      let aborted = crc_abort queued in
      if not scheduled
      then crc_clear_go aborted (raw_word aborted crc_control)
      else with_crc queued (record queued.io.crc { active = true })

  -- `dspic33_device_internal_crc_start_if_ready`.
  unfoldable pub crc_start_if_ready : Dspic33 → Dspic33
  unfolding crc_schedule
  crc_start_if_ready cpu =
      let enabled = bit_or crc_enable crc_go in
      if bit_and (raw_word cpu crc_control) enabled == enabled
        && not cpu.io.crc.active
        && cpu.io.crc.count != 0
      then crc_schedule cpu
      else cpu

  -- `dspic33_device_internal_crc_push`.
  unfoldable pub crc_push : Dspic33 → ℕ → Dspic33
  unfolding crc_refresh_status crc_start_if_ready
  crc_push cpu data_value =
      let crc = cpu.io.crc in
      let buffer_index = u8 ((crc.head + crc.count) % 16) in
      let word = bit_and data_value (crc_width_mask (crc_data_width cpu)) in
      let pushed =
        with_crc cpu
          (record crc { words = update crc.words buffer_index word; count = u8 (crc.count + 1) }) in
      if leb (crc_capacity cpu) crc.count
      then cpu
      else crc_start_if_ready (crc_refresh_status pushed)

  -- The rest of `dspic33_device_internal_run_crc`, with a word in the shift register.
  unfoldable pub crc_run_shift : Dspic33 → Dspic33
  unfolding crc_shift_bits crc_finish crc_schedule
  crc_run_shift cpu =
      let shifted = crc_shift_bits cpu in
      if shifted.io.crc.bits_remaining == 0 && shifted.io.crc.count == 0
      then crc_finish shifted (raw_word shifted crc_control)
      else crc_schedule shifted

  -- `dspic33_device_internal_run_crc`.
  unfoldable pub run_crc : Dspic33 → ℕ → Dspic33
  unfolding crc_run_shift crc_load_shift_data crc_paused
  run_crc cpu event_generation =
      let control = raw_word cpu crc_control in
      let enabled = bit_or crc_enable crc_go in
      if event_generation != cpu.io.crc.generation
        || not cpu.io.crc.active
        || bit_and control enabled != enabled
      then cpu
      else if crc_paused cpu control
      then crc_schedule cpu
      else if cpu.io.crc.bits_remaining != 0
      then crc_run_shift cpu
      else if cpu.io.crc.count == 0
      then crc_finish cpu control
      else crc_run_shift (crc_load_shift_data cpu)

  -- `dspic33_device_internal_run_crc_pmd`.
  unfoldable pub run_crc_pmd : Dspic33 → ℕ → Dspic33
  unfolding crc_start_if_ready
  run_crc_pmd cpu event_value =
      let disabled = bit_and event_value 1 != 0 in
      let switched = with_crc cpu (record cpu.io.crc { pmd_disabled = disabled }) in
      if u16 (event_value >>> 1) != cpu.io.crc.pmd_generation
      then cpu
      else if not disabled
      then crc_start_if_ready switched
      else switched

  -- `dspic33_device_internal_update_crc_pmd`.
  unfoldable pub update_crc_pmd : Dspic33 → ℕ → Dspic33
  update_crc_pmd cpu previous_control =
      let disabled = bit_and (raw_word cpu crc_pmd_address) crc_pmd != 0 in
      let generation = u16 (cpu.io.crc.pmd_generation + 1) in
      let counted = with_crc cpu (record cpu.io.crc { pmd_generation = generation }) in
      let (scheduled, queued) =
        schedule realloc counted EventType.crc crc_event_pmd_source
          (bit_or (u32 (generation <<< 1)) (if disabled then 1 else 0))
          (instruction_cycles counted 1) in
      let restored = raw_write_word queued crc_pmd_address previous_control in
      if bool_eq (bit_and previous_control crc_pmd != 0) disabled
      then cpu
      else if not scheduled
      then record (with_crc restored
          (record restored.io.crc { pmd_generation = u16 (restored.io.crc.pmd_generation + 1) })) {
            stop_reason = StopReason.event_queue_error;
          }
      else queued

-- ===== src/Events.antt =====
-- The event queue of src/device/dspic33ep_mu/memory/dma/runtime.c: a binary heap in an array,
-- ordered by `event_less`.
mod Loops
pub mod Order
pub mod Heap
pub mod Held
pub mod Queue
pub mod Frame
unfoldable pub use Loops.*
use dspic33e_sim.Prelude.{ℕ, zero, suc, ◌+◌, ◌-◌, ◌*◌, ◌/◌, ◌%◌, Bool, true, false, ◌&&◌, ◌||◌}
use dspic33e_sim.Prelude.{
  bit_and, ltb, leb, ◌==◌, ◌!=◌, bool_eq, if◌then◌else◌, not, u64, uint64_max,
}
use dspic33e_sim.Device.State.{Dspic33, Event, EventQueue, EventType, StopReason, update}
use dspic33e_sim.Device.Profile.{profile}
use dspic33e_sim.Device.Pps.{pps_pin_bonded}

-- `event_source_valid`.
unfoldable pub event_source_valid : Dspic33 → EventType → ℕ → ℕ → Bool
event_source_valid cpu EventType.timer_interrupt source value = ltb source 9
event_source_valid cpu EventType.timer_pmd source value = ltb source 9
event_source_valid cpu EventType.platform_pmd source value = ltb source 15
event_source_valid cpu EventType.pwm_fault source value = ltb source 32
event_source_valid cpu EventType.pwm_current_limit source value = ltb source 32
event_source_valid cpu EventType.pwm_dead_time source value =
    ltb source (profile cpu.device).pwm_generator_count
event_source_valid cpu EventType.pwm_sync source value = ltb source 2
event_source_valid cpu EventType.output_compare_fault source value =
    if bit_and value 2 != 0
    then leb source 255 && pps_pin_bonded cpu.device source
    else ltb source 3
event_source_valid cpu kind source value = true

-- The tail of `schedule_event`, once there is room.
unfoldable pub insert_event : Event → EventQueue → EventQueue
insert_event event queue =
    let (index, items) = sift_up queue.count event queue.count queue.items in
    record queue {
      items = update items index event;
      count = queue.count + 1;
      sequence = u64 (queue.sequence + 1);
    }

-- The host's memory: `realloc n` is whether an array of `n` events can be had.
module _ (realloc : ℕ → Bool) where
  -- `event_reserve`.
  unfoldable pub event_reserve : EventQueue → Bool × EventQueue
  event_reserve queue =
      let grown = if queue.capacity == 0 then 64 else u64 (queue.capacity * 2) in
      if ltb queue.count queue.capacity
      then (true, queue)
      else if not (realloc grown)
      then (false, queue)
      else (true, record queue { capacity = grown })

  -- `schedule_event`.
  unfoldable pub schedule_event : Dspic33 → EventType → ℕ → ℕ → ℕ → Bool → Bool × Dspic33
  unfolding event_reserve
  schedule_event cpu kind source value delay external =
      let (room, queue) = event_reserve cpu.events in
      let event : Event = record {
        cycle = cpu.device_cycles + delay;
        sequence = queue.sequence;
        paused_remaining = 0;
        value = value;
        source = source;
        kind = kind;
        paused = false;
        external = external;
      } in
      if not (event_source_valid cpu kind source value)
        || ltb (uint64_max - cpu.device_cycles) delay
      then (false, cpu)
      else if not room
      then (false, record cpu { stop_reason = StopReason.event_queue_error })
      else (true, record cpu { events = insert_event event queue })

  -- `dspic33_schedule`.
  unfoldable pub schedule : Dspic33 → EventType → ℕ → ℕ → ℕ → Bool × Dspic33
  schedule cpu kind source value delay = schedule_event cpu kind source value delay false

  -- `dspic33_schedule_external`.
  unfoldable pub schedule_external : Dspic33 → EventType → ℕ → ℕ → ℕ → Bool × Dspic33
  schedule_external cpu kind source value delay = schedule_event cpu kind source value delay true

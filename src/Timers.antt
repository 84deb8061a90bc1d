-- ===== src/Timers.antt =====
-- The counters of the timers, src/device/dspic33ep_mu/timing/timers.c: the prescaler and the
-- advance of a counter by many ticks at once.
pub mod Ticks
pub mod Advance
use dspic33e_sim.Prelude.{ℕ, ◌+◌, ◌-◌, ◌/◌, ◌%◌, bit_and, ltb, leb, ◌==◌, if◌then◌else◌, u64}

abbrev timer_prescale_mask : ℕ
timer_prescale_mask = 0x0030

-- `dspic33_device_internal_timer_prescale`
unfoldable pub timer_prescale : ℕ → ℕ
timer_prescale timer_control =
    let selected = bit_and timer_control timer_prescale_mask in
    if selected == 0x0010
    then 8
    else if selected == 0x0020
    then 64
    else if selected == 0x0030
    then 256
    else 1

pub record TimerAdvance : Type 0 where
  pub counter_value : ℕ
  pub period_matches : ℕ

-- `first_match_ticks`
abbrev pub first_match_ticks : ℕ → ℕ → ℕ → ℕ
first_match_ticks current_value period_value maximum_value =
    if current_value == period_value
    then u64 (period_value + 1)
    else if ltb current_value period_value
    then period_value - current_value
    else u64 (maximum_value - current_value + 1 + period_value)

-- `first_reset_ticks`
abbrev pub first_reset_ticks : ℕ → ℕ → ℕ → ℕ
first_reset_ticks current_value period_value maximum_value =
    if current_value == period_value
    then 1
    else u64 (first_match_ticks current_value period_value maximum_value + 1)

-- `advance_counter`
unfoldable pub advance_counter : ℕ → ℕ → ℕ → ℕ → TimerAdvance
advance_counter current_value period_value maximum_value tick_count =
    let cycle = u64 (period_value + 1) in
    let first_match = first_match_ticks current_value period_value maximum_value in
    let first_reset = first_reset_ticks current_value period_value maximum_value in
    if tick_count == 0
    then record { counter_value = current_value; period_matches = 0 }
    else record {
      counter_value =
          if ltb tick_count first_reset
          then bit_and (u64 (current_value + tick_count)) maximum_value
          else (tick_count - first_reset) % cycle;
      period_matches =
          if leb first_match tick_count then u64 (1 + (tick_count - first_match) / cycle) else 0;
    }

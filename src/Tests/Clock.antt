-- ===== src/Tests/Clock.antt =====
-- The real-time clock at concrete times.
use dspic33e_sim.Prelude.{◌+◌, ◌%◌, ◌<◌, ◌≡◌, ◌≢◌, ◌⊎◌, true, refl, arith, ◌==◌, if◌then◌else◌}
use dspic33e_sim.Prelude.{bit_and}
use dspic33e_sim.Device.State.{Dspic33, Rtcc, update, blank, blank_nvm, blank_rtcc}
use dspic33e_sim.Device.Memory.{raw_word, raw_write_word}
use dspic33e_sim.Rtcc.Calendar.{
  Moment, rtcc_calendar_valid, rtcc_moment, rtcc_increment_calendar, rtcc_bcd_decode,
  rtcc_bcd_encode,
}
use dspic33e_sim.Rtcc.Calendar.{
  rtcc_month_days, rtcc_bcd_valid, next_second, next_minute, next_hour, next_day, next_month,
  rtcc_store,
}
use dspic33e_sim.Rtcc.Date.{IsMoment, second_number, century_seconds}
use dspic33e_sim.Rtcc.Increment.{increment_counts}
use dspic33e_sim.Rtcc.Bcd.{encode-decode}
use dspic33e_sim.Rtcc.Edge.{clock_edge_counts}
use dspic33e_sim.Rtcc.Lock.{write_enable_locked}
use dspic33e_sim.Rtcc.Alarm.{alarms_stop, after_alarms}
use dspic33e_sim.Rtcc.Clock.{
  rtcc_alarm_enable, rtcc_clock_edge, rtcc_operating, with_rtcc, rtcc_control,
}
use dspic33e_sim.Rtcc.Clock.{rtcc_write_enable, rtcc_enable}
use dspic33e_sim.Rtcc.Window.{update_rtcc_control, nvm_key_authorized}

-- Saturday, the 28th of February 2004, one second before midnight.
abbrev leap_year : Rtcc
leap_year = record blank_rtcc {
  calendar = update (update (update (update (λ i. 0) 0 0x5959) 1 0x0623) 2 0x0228) 3 0x0004;
}

-- A second later it is Sunday, the 29th.
leap_day : (rtcc_increment_calendar leap_year).calendar 2 ≡ 0x0229
unfolding rtcc_increment_calendar rtcc_calendar_valid rtcc_bcd_valid rtcc_bcd_decode rtcc_month_days
    rtcc_store rtcc_moment next_second next_minute next_hour next_day next_month rtcc_bcd_encode
leap_day = refl

increment_counts_example :
    (rtcc_calendar_valid (rtcc_increment_calendar leap_year) ≡ true)
    × (second_number (rtcc_moment (rtcc_increment_calendar leap_year))
        ≡ (second_number (rtcc_moment leap_year) + 1) % century_seconds)
unfolding rtcc_calendar_valid rtcc_bcd_valid rtcc_bcd_decode rtcc_month_days
increment_counts_example = increment_counts leap_year refl

abbrev last_second : Moment
last_second = record {
  second = 59;
  minute = 59;
  hour = 23;
  weekday = 4;
  day = 31;
  month = 12;
  year = 99;
}

last_second-IsMoment : IsMoment last_second
unfolding rtcc_month_days
last_second-IsMoment = record {
  second-lt = omega arith;
  minute-lt = omega arith;
  hour-lt = omega arith;
  weekday-lt = omega arith;
  month-pos = omega arith;
  month-le = omega arith;
  day-pos = omega arith;
  day-le = omega arith;
  year-lt = omega arith;
}

encode-decode_example : rtcc_bcd_encode (rtcc_bcd_decode 0x47) ≡ 0x47
unfolding rtcc_bcd_valid rtcc_bcd_decode
encode-decode_example = encode-decode 0x47 0 59 (omega arith) refl

-- A clock that is switched on and at its last edge of a second.
abbrev clock_on : Dspic33
clock_on =
    with_rtcc (raw_write_word (raw_write_word blank rtcc_control rtcc_enable) 0x0742 2)
      (record leap_year { prescaler = 32767 })

clock_edge_counts_example :
    ((rtcc_clock_edge clock_on).io.rtcc.prescaler < 32768)
    × ((rtcc_clock_edge clock_on).io.rtcc.calendar ≡ (
        if clock_on.io.rtcc.prescaler == 32767
        then (rtcc_increment_calendar (record clock_on.io.rtcc { prescaler = 0 })).calendar
        else clock_on.io.rtcc.calendar))
unfolding rtcc_operating raw_word raw_write_word
clock_edge_counts_example = clock_edge_counts clock_on refl (omega arith)

-- A write that asks for WREN after the unlock sequence.
abbrev unlocked : Dspic33
unlocked = record (raw_write_word blank rtcc_control rtcc_write_enable) {
  nvm = record blank_nvm {
    key_stage = 2;
    key_instruction = 4;
    key_interrupt_count = 0;
    key_trap_count = 0;
  };
  instructions = 5;
  instruction_active = true;
  current_instruction_cycles = 1;
}

granted_word : raw_word (update_rtcc_control unlocked 0) rtcc_control ≡ rtcc_write_enable
unfolding update_rtcc_control nvm_key_authorized raw_word raw_write_word
granted_word = refl

write_enable_locked_example :
    (bit_and 0 rtcc_write_enable ≢ 0)
    ⊎ ((nvm_key_authorized unlocked ≡ true)
        × (unlocked.instruction_active ≡ true)
        × (unlocked.current_instruction_cycles ≡ 1))
write_enable_locked_example =
    write_enable_locked unlocked 0 (rw granted_word (λ p. absurd (omega (arith, p))))

alarms_stop_example : bit_and (after_alarms 3 0x8002) rtcc_alarm_enable ≡ 0
alarms_stop_example = alarms_stop 2 0x8002 (omega arith) refl refl

abbrev on_time : Rtcc
on_time = record leap_year { alarm = leap_year.calendar }

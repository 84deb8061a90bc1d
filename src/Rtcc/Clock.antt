-- ===== src/Rtcc/Clock.antt =====
-- The clock of rtcc.c: an edge of the 32768 Hz oscillator, the alarm, and the calibration.
use dspic33e_sim.Prelude.{ℕ, zero, suc, ◌+◌, ◌-◌, ◌*◌, Bool, true, false, ◌&&◌, ◌||◌, not}
use dspic33e_sim.Prelude.{
  bit_and, bit_or, ltb, leb, ◌==◌, ◌!=◌, if◌then◌else◌, u8, u16, not16, ◌>>>◌,
}
use dspic33e_sim.Device.State.{Dspic33, Rtcc}
use dspic33e_sim.Device.Memory.{raw_word, raw_write_word}
use dspic33e_sim.Interrupts.{raise_interrupt}
use dspic33e_sim.Rtcc.Calendar.{rtcc_increment_calendar}

abbrev pub rtcc_alarm_value : ℕ
rtcc_alarm_value = 0x0620

abbrev pub rtcc_alarm_control : ℕ
rtcc_alarm_control = 0x0622

abbrev pub rtcc_value : ℕ
rtcc_value = 0x0624

abbrev pub rtcc_control : ℕ
rtcc_control = 0x0626

abbrev pub rtcc_pmd_address : ℕ
rtcc_pmd_address = 0x0764

abbrev pub rtcc_enable : ℕ
rtcc_enable = 0x8000

abbrev pub rtcc_write_enable : ℕ
rtcc_write_enable = 0x2000

abbrev pub rtcc_sync : ℕ
rtcc_sync = 0x1000

abbrev pub rtcc_half_second : ℕ
rtcc_half_second = 0x0800

abbrev pub rtcc_pointer_mask : ℕ
rtcc_pointer_mask = 0x0300

abbrev pub rtcc_alarm_enable : ℕ
rtcc_alarm_enable = 0x8000

abbrev pub rtcc_alarm_chime : ℕ
rtcc_alarm_chime = 0x4000

abbrev pub rtcc_alarm_mask : ℕ
rtcc_alarm_mask = 0x3c00

abbrev pub rtcc_pmd : ℕ
rtcc_pmd = 0x0200

abbrev pub rtcc_lposc_enable : ℕ
rtcc_lposc_enable = 0x0002

abbrev pub rtcc_irq : ℕ
rtcc_irq = 62

abbrev pub rtcc_prescaler_edges : ℕ
rtcc_prescaler_edges = 32768

abbrev pub rtcc_calibration_edge : ℕ
rtcc_calibration_edge = 512

abbrev pub rtcc_half_second_edge : ℕ
rtcc_half_second_edge = 16384

abbrev pub rtcc_sync_edges : ℕ
rtcc_sync_edges = 32

abbrev pub rtcc_event_pmd_source : ℕ
rtcc_event_pmd_source = 65535

-- A state with another clock.
abbrev pub with_rtcc : Dspic33 → Rtcc → Dspic33
with_rtcc cpu rtcc = record cpu { io = record cpu.io { rtcc = rtcc } }

-- `rtcc_apply_calibration`: the low byte of RCFGCAL is signed.
unfoldable pub rtcc_apply_calibration : Dspic33 → Dspic33
rtcc_apply_calibration cpu =
    let calibration_value = bit_and (raw_word cpu rtcc_control) 0x00ff in
    let negative = if leb 0x80 calibration_value then 0x100 * 4 else 0 in
    with_rtcc cpu (record cpu.io.rtcc {
      prescaler = u16 (cpu.io.rtcc.prescaler + 65536 + calibration_value * 4 - negative);
      calibration_pending = false;
    })

-- `rtcc_set_status`.
unfoldable pub rtcc_set_status : Dspic33 → ℕ → Dspic33
rtcc_set_status cpu status = raw_write_word cpu rtcc_control (
    u16 (
      bit_or (bit_and (raw_word cpu rtcc_control) (not16 (bit_or rtcc_sync rtcc_half_second)))
        status))

-- The tests of `rtcc_alarm_matches` on the fields, past those on the alarm's mask.
unfoldable pub rtcc_fields_match : Rtcc → ℕ → Bool
rtcc_fields_match rtcc match_mask =
    let calendar_second = u8 (rtcc.calendar 0) in
    let calendar_minute = u8 (rtcc.calendar 0 >>> 8) in
    let alarm_second = u8 (rtcc.alarm 0) in
    let alarm_minute = u8 (rtcc.alarm 0 >>> 8) in
    if bit_and calendar_second 0x0f != bit_and alarm_second 0x0f
    then false
    else if match_mask == 2
    then true
    else if calendar_second != alarm_second
    then false
    else if match_mask == 3
    then true
    else if bit_and calendar_minute 0x0f != bit_and alarm_minute 0x0f
    then false
    else if match_mask == 4
    then true
    else if calendar_minute != alarm_minute
    then false
    else if match_mask == 5
    then true
    else if u8 (rtcc.calendar 1) != u8 (rtcc.alarm 1)
    then false
    else if match_mask == 6
    then true
    else if match_mask == 7
    then u8 (rtcc.calendar 1 >>> 8) == u8 (rtcc.alarm 1 >>> 8)
    else if u8 (rtcc.calendar 2) != u8 (rtcc.alarm 2)
    then false
    else match_mask == 8 || u8 (rtcc.calendar 2 >>> 8) == u8 (rtcc.alarm 2 >>> 8)

-- `rtcc_alarm_matches`.
unfoldable pub rtcc_alarm_matches : Dspic33 → Bool → Bool
unfolding rtcc_fields_match
rtcc_alarm_matches cpu is_full_second =
    let alarm_control = raw_word cpu rtcc_alarm_control in
    let match_mask = u8 (bit_and alarm_control rtcc_alarm_mask >>> 10) in
    if bit_and alarm_control rtcc_alarm_enable == 0 || ltb 9 match_mask
    then false
    else if match_mask == 0
    then true
    else if not is_full_second || match_mask == 1
    then is_full_second
    else rtcc_fields_match cpu.io.rtcc match_mask

-- ALCFGRPT after an alarm: the repeat count falls, through 0 only with CHIME, and at 0 without it
-- the alarm is switched off.
unfoldable pub rtcc_alarm_repeat : ℕ → ℕ
rtcc_alarm_repeat alarm_control =
    let repeat_count = u8 alarm_control in
    let less = u8 (repeat_count + 255) in
    if bit_and alarm_control rtcc_alarm_chime != 0
    then u16 (bit_or (bit_and alarm_control 0xff00) less)
    else if repeat_count == 0
    then u16
        (bit_or (bit_and (bit_and alarm_control (not16 rtcc_alarm_enable)) 0xff00) repeat_count)
    else u16 (bit_or (bit_and alarm_control 0xff00) less)

-- `rtcc_alarm_event`.
unfoldable pub rtcc_alarm_event : Dspic33 → Dspic33
unfolding rtcc_alarm_repeat
rtcc_alarm_event cpu =
    let toggled =
      with_rtcc cpu (record cpu.io.rtcc { alarm_output = not cpu.io.rtcc.alarm_output }) in
    raw_write_word (raise_interrupt toggled rtcc_irq) rtcc_alarm_control
      (rtcc_alarm_repeat (raw_word cpu rtcc_alarm_control))

-- `rtcc_operating`.
unfoldable pub rtcc_operating : Dspic33 → Bool
rtcc_operating cpu =
    not cpu.io.rtcc.pmd_disabled
    && bit_and (raw_word cpu rtcc_control) rtcc_enable != 0
    && bit_and (raw_word cpu 0x0742) rtcc_lposc_enable != 0

-- The second of the edge at which the prescaler has gone round.
unfoldable pub rtcc_full_second : Dspic33 → Dspic33
rtcc_full_second cpu =
    let rtcc = rtcc_increment_calendar (record cpu.io.rtcc { prescaler = 0 }) in
    with_rtcc cpu (record rtcc {
      calibration_pending = u8 (cpu.io.rtcc.calendar 0) == 0x59 && u8 (rtcc.calendar 0) == 0;
    })

-- What an edge does to the clock, the status bits it leaves, and whether it ends a second.
unfoldable pub rtcc_count_edge : Dspic33 → Dspic33 × ℕ × Bool
unfolding rtcc_full_second rtcc_apply_calibration
rtcc_count_edge cpu =
    let prescaler = u16 (cpu.io.rtcc.prescaler + 1) in
    let counted = with_rtcc cpu (record cpu.io.rtcc { prescaler = prescaler }) in
    if prescaler == rtcc_half_second_edge
    then (counted, rtcc_half_second, false)
    else if leb rtcc_prescaler_edges prescaler
    then (rtcc_full_second counted, 0, true)
    else if prescaler == rtcc_calibration_edge && cpu.io.rtcc.calibration_pending
    then (rtcc_apply_calibration counted, 0, false)
    else (counted, bit_and (raw_word cpu rtcc_control) rtcc_half_second, false)

-- `rtcc_clock_edge`.
unfoldable pub rtcc_clock_edge : Dspic33 → Dspic33
unfolding rtcc_count_edge rtcc_set_status rtcc_alarm_event
rtcc_clock_edge cpu =
    let (counted, status, is_full_second) = rtcc_count_edge cpu in
    let prescaler = counted.io.rtcc.prescaler in
    let status_bits =
      if leb (rtcc_prescaler_edges - rtcc_sync_edges) prescaler
      then bit_or status rtcc_sync
      else status in
    let shown = rtcc_set_status counted status_bits in
    if not (rtcc_operating cpu)
    then cpu
    else if (prescaler == rtcc_half_second_edge || is_full_second)
        && rtcc_alarm_matches shown is_full_second
    then rtcc_alarm_event shown
    else shown

-- The loop of `dspic33_device_internal_run_rtcc`.
unfoldable pub rtcc_clock_edges : ℕ → Dspic33 → Dspic33
rtcc_clock_edges zero cpu = cpu
rtcc_clock_edges (suc event_value) cpu = rtcc_clock_edges event_value (rtcc_clock_edge cpu)

-- `dspic33_device_internal_run_rtcc`.
unfoldable pub run_rtcc : Dspic33 → ℕ → ℕ → Dspic33
run_rtcc cpu event_source event_value =
    let event_generation = u16 (event_value >>> 1) in
    if event_source == rtcc_event_pmd_source
    then (if event_generation == cpu.io.rtcc.pmd_generation
        then with_rtcc cpu (record cpu.io.rtcc { pmd_disabled = bit_and event_value 1 != 0 })
        else cpu)
    else rtcc_clock_edges event_value cpu

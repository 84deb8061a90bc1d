-- ===== src/Rtcc/Edge.antt =====
-- An edge of the oscillator: 32768 of them make a second.
use dspic33e_sim.Prelude.{ℕ, ◌+◌, ◌<◌, ◌≡◌, refl, ap, ◌∙◌, arith, Bool, true, false}
use dspic33e_sim.Prelude.{◌&&◌, not, ◌==◌, leb, if◌then◌else◌, Bool-cases, inl, inr, u16}
use dspic33e_sim.Bits.{bit_and-le}
use dspic33e_sim.Device.State.{Dspic33, Rtcc, Io}
use dspic33e_sim.Device.Memory.{raw_word, raw_write_word}
use dspic33e_sim.Interrupts.{raise_interrupt}
use dspic33e_sim.Interrupts.Frame.{raise_interrupt-io, raw_write_word-io}
use dspic33e_sim.Rtcc.Calendar.{rtcc_increment_calendar, rtcc_store}
use dspic33e_sim.Rtcc.Clock.{
  rtcc_clock_edge, rtcc_count_edge, rtcc_set_status, rtcc_alarm_event, rtcc_operating,
  rtcc_full_second,
}
use dspic33e_sim.Rtcc.Clock.{
  rtcc_apply_calibration, with_rtcc, rtcc_irq, rtcc_alarm_repeat, rtcc_control,
}
use dspic33e_sim.Rtcc.Clock.{rtcc_half_second_edge, rtcc_prescaler_edges, rtcc_alarm_control}

set_status-rtcc : (cpu : Dspic33) (s : ℕ) → (rtcc_set_status cpu s).io.rtcc ≡ cpu.io.rtcc
unfolding rtcc_set_status raw_write_word
set_status-rtcc cpu s = refl

alarm_event-calendar :
    (cpu : Dspic33)
    → ((rtcc_alarm_event cpu).io.rtcc.calendar ≡ cpu.io.rtcc.calendar)
      × ((rtcc_alarm_event cpu).io.rtcc.prescaler ≡ cpu.io.rtcc.prescaler)
unfolding rtcc_alarm_event
alarm_event-calendar cpu =
    let toggled =
      with_rtcc cpu (record cpu.io.rtcc { alarm_output = not cpu.io.rtcc.alarm_output }) in
    let same =
      raw_write_word-io (raise_interrupt toggled rtcc_irq) rtcc_alarm_control
        (rtcc_alarm_repeat (raw_word cpu rtcc_alarm_control))
      ∙ raise_interrupt-io toggled rtcc_irq in
    (ap (λ (io : Io). io.rtcc.calendar) same, ap (λ (io : Io). io.rtcc.prescaler) same)

increment-prescaler : (rtcc : Rtcc) → (rtcc_increment_calendar rtcc).prescaler ≡ rtcc.prescaler
unfolding rtcc_increment_calendar rtcc_store
increment-prescaler rtcc = ground arith

-- The calibration stays in the half of the second that it is applied in.
calibration-lem :
    (cpu : Dspic33)
    → cpu.io.rtcc.prescaler ≡ 512
    → ((rtcc_apply_calibration cpu).io.rtcc.prescaler < 32768)
      × ((rtcc_apply_calibration cpu).io.rtcc.calendar ≡ cpu.io.rtcc.calendar)
unfolding rtcc_apply_calibration
calibration-lem cpu at = (ground (arith, bit_and-le (raw_word cpu rtcc_control) 0x00ff), refl)

-- What counting an edge does.
count_edge-lem :
    (cpu : Dspic33)
    → cpu.io.rtcc.prescaler < 32768
    → ((rtcc_count_edge cpu).0.io.rtcc.prescaler < 32768)
      × ((rtcc_count_edge cpu).0.io.rtcc.calendar ≡ (
          if cpu.io.rtcc.prescaler == 32767
          then (rtcc_increment_calendar (record cpu.io.rtcc { prescaler = 0 })).calendar
          else cpu.io.rtcc.calendar))
unfolding rtcc_count_edge rtcc_full_second
count_edge-lem cpu lt =
    let p = cpu.io.rtcc.prescaler in
    let next : u16 (p + 1) ≡ p + 1 = omega arith in
    elim (Bool-cases (p + 1 == rtcc_half_second_edge)) [
      | inl half ↦
          let early : (p == 32767) ≡ false = ground arith in
          rw (next, half, early) (ground arith, refl)
      | inr not_half ↦ elim (Bool-cases (leb rtcc_prescaler_edges (p + 1))) [
        | inl full ↦
            let last : (p == 32767) ≡ true = ground arith in
            rw (next, not_half, full, last)
              (rw (increment-prescaler (record cpu.io.rtcc { prescaler = 0 })) (omega arith), refl)
        | inr part ↦
            let early : (p == 32767) ≡ false = ground arith in
            elim (Bool-cases (p + 1 == 512 && cpu.io.rtcc.calibration_pending)) [
              | inl calibrates ↦
                  rw (next, not_half, part, calibrates, early)
                    (calibration-lem (with_rtcc cpu (record cpu.io.rtcc { prescaler = p + 1 }))
                      (ground arith))
              | inr counts ↦ rw (next, not_half, part, counts, early) (ground arith, refl)
            ]
      ]
    ]

-- The status and the alarm leave the time alone.
status_and_alarm :
    (cpu : Dspic33) (status : ℕ) (rings : Bool)
    → ((if rings
          then rtcc_alarm_event (rtcc_set_status cpu status)
          else rtcc_set_status cpu status).io.rtcc.calendar
        ≡ cpu.io.rtcc.calendar)
      × ((if rings
            then rtcc_alarm_event (rtcc_set_status cpu status)
            else rtcc_set_status cpu status).io.rtcc.prescaler
          ≡ cpu.io.rtcc.prescaler)
status_and_alarm cpu status false =
    let same = set_status-rtcc cpu status in
    (ap (λ (rtcc : Rtcc). rtcc.calendar) same, ap (λ (rtcc : Rtcc). rtcc.prescaler) same)
status_and_alarm cpu status true =
    let same = set_status-rtcc cpu status in
    let (calendar, prescaler) = alarm_event-calendar (rtcc_set_status cpu status) in
    (
      calendar ∙ ap (λ (rtcc : Rtcc). rtcc.calendar) same,
      prescaler ∙ ap (λ (rtcc : Rtcc). rtcc.prescaler) same,
    )

-- A clock that runs counts an edge: the prescaler stays below 32768, and the calendar goes to the
-- next second exactly at the edge that ends it.
pub clock_edge_counts :
    (cpu : Dspic33)
    → rtcc_operating cpu ≡ true
    → cpu.io.rtcc.prescaler < 32768
    → ((rtcc_clock_edge cpu).io.rtcc.prescaler < 32768)
      × ((rtcc_clock_edge cpu).io.rtcc.calendar ≡ (
          if cpu.io.rtcc.prescaler == 32767
          then (rtcc_increment_calendar (record cpu.io.rtcc { prescaler = 0 })).calendar
          else cpu.io.rtcc.calendar))
unfolding rtcc_clock_edge
clock_edge_counts cpu runs lt =
    let (prescaler, calendar) = count_edge-lem cpu lt in
    let same = status_and_alarm (rtcc_count_edge cpu).0 in
    rw runs (rw (same _ _).1 prescaler, (same _ _).0 ∙ calendar)

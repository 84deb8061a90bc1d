-- ===== src/Rtcc/Second.antt =====
-- The seconds of a century, one after the other.
use dspic33e_sim.Prelude.{ℕ, suc, ◌+◌, ◌*◌, ◌%◌, ◌≤◌, ◌<◌, ◌≡◌, refl, ap, ◌∙◌, arith}
use dspic33e_sim.Prelude.{◌==◌, ltb, Bool-cases, inl, inr, u8}
use dspic33e_sim.Rtcc.Calendar.{
  Moment, next_second, next_minute, next_hour, next_day, next_month, rtcc_month_days,
}
use dspic33e_sim.Rtcc.Date.{
  IsMoment, days_before_month, days_before_year, day_number, hour_number, minute_number,
  second_number, century_seconds,
}
use dspic33e_sim.Rtcc.Date.{
  days_before_next, days_of_year_lem, month_days-le, before_next-le, next_month-IsMoment,
}
use dspic33e_sim.Rtcc.Date.{next_month-day_number}

-- No month ends after the century.
month_end-le :
    (m : Moment)
    → IsMoment m
    → days_before_year m.year + days_before_month m.year m.month + rtcc_month_days m.year m.month
      ≤ 36525
month_end-le m valid =
    let month_pos = valid.month-pos in
    let month_le = valid.month-le in
    let year_lt = valid.year-lt in
    elim (Bool-cases (m.month == 12)) [
      | inl last ↦
          let december : m.month ≡ 12 = ground arith in
          rw december (omega (arith, days_of_year_lem m.year))
      | inr earlier ↦
          let month_suc : m.month + 1 ≡ suc m.month = omega arith in
          ground (
            arith,
            before_next-le m.year m.month month_le,
            days_before_next m.year m.month month_pos,
            ap (days_before_month m.year) month_suc,
          )
    ]

-- The time of day is as before.
abbrev SameTime : Moment → Moment → Type 0
SameTime a b = (a.hour ≡ b.hour) × (a.minute ≡ b.minute) × (a.second ≡ b.second)

next_month-time : (m : Moment) → SameTime (next_month m) m
unfolding next_month
next_month-time m = elim (Bool-cases (u8 (m.month + 1) == 13)) [
  | inl ends ↦ rw ends (refl, refl, refl)
  | inr goes_on ↦ rw goes_on (refl, refl, refl)
]

next_day_lem :
    (m : Moment)
    → IsMoment m
    → IsMoment (next_day m)
      × (day_number (next_day m) ≡ (day_number m + 1) % 36525)
      × SameTime (next_day m) m
unfolding next_day
next_day_lem m valid =
    let day_pos = valid.day-pos in
    let day_le = valid.day-le in
    let month_bounds = month_days-le m.year m.month valid.month-pos valid.month-le in
    let day : u8 (m.day + 1) ≡ m.day + 1 = omega (arith, month_bounds) in
    let weekday : u8 ((m.weekday + 1) % 7) < 7 = omega arith in
    let later : Moment = record m { weekday = u8 ((m.weekday + 1) % 7); day = u8 (m.day + 1) } in
    elim (Bool-cases (ltb (rtcc_month_days m.year m.month) (u8 (m.day + 1)))) [
      | inl month_ends ↦
          let first : IsMoment (record later { day = 1 }) = record {
            second-lt = valid.second-lt;
            minute-lt = valid.minute-lt;
            hour-lt = valid.hour-lt;
            weekday-lt = weekday;
            month-pos = valid.month-pos;
            month-le = valid.month-le;
            day-pos = omega arith;
            day-le = omega (arith, month_bounds);
            year-lt = valid.year-lt;
          } in
          let last : m.day ≡ rtcc_month_days m.year m.month = ground (arith, day) in
          rw month_ends (
            next_month-IsMoment later first,
            next_month-day_number later first ∙ ap (λ (t : ℕ). t % 36525) (omega (arith, last)),
            next_month-time later,
          )
      | inr month_goes_on ↦ rw month_goes_on (
        record {
          second-lt = valid.second-lt;
          minute-lt = valid.minute-lt;
          hour-lt = valid.hour-lt;
          weekday-lt = weekday;
          month-pos = valid.month-pos;
          month-le = valid.month-le;
          day-pos = omega (arith, day);
          day-le = ground arith;
          year-lt = valid.year-lt;
        },
        ground (arith, day, month_end-le m valid),
        (refl, refl, refl),
      )
    ]

day_number-lt : (m : Moment) → IsMoment m → day_number m < 36525
day_number-lt m valid =
    let day_pos = valid.day-pos in let day_le = valid.day-le in omega (arith, month_end-le m valid)

with_hour : (m : Moment) (h : ℕ) → IsMoment m → h < 24 → IsMoment (record m { hour = h })
with_hour m h valid lt = record {
  second-lt = valid.second-lt;
  minute-lt = valid.minute-lt;
  hour-lt = lt;
  weekday-lt = valid.weekday-lt;
  month-pos = valid.month-pos;
  month-le = valid.month-le;
  day-pos = valid.day-pos;
  day-le = valid.day-le;
  year-lt = valid.year-lt;
}

with_minute : (m : Moment) (h : ℕ) → IsMoment m → h < 60 → IsMoment (record m { minute = h })
with_minute m h valid lt = record {
  second-lt = valid.second-lt;
  minute-lt = lt;
  hour-lt = valid.hour-lt;
  weekday-lt = valid.weekday-lt;
  month-pos = valid.month-pos;
  month-le = valid.month-le;
  day-pos = valid.day-pos;
  day-le = valid.day-le;
  year-lt = valid.year-lt;
}

with_second : (m : Moment) (h : ℕ) → IsMoment m → h < 60 → IsMoment (record m { second = h })
with_second m h valid lt = record {
  second-lt = lt;
  minute-lt = valid.minute-lt;
  hour-lt = valid.hour-lt;
  weekday-lt = valid.weekday-lt;
  month-pos = valid.month-pos;
  month-le = valid.month-le;
  day-pos = valid.day-pos;
  day-le = valid.day-le;
  year-lt = valid.year-lt;
}

next_hour_lem :
    (m : Moment)
    → IsMoment m
    → IsMoment (next_hour m)
      × (hour_number (next_hour m) ≡ (hour_number m + 1) % (36525 * 24))
      × ((next_hour m).minute ≡ m.minute)
      × ((next_hour m).second ≡ m.second)
unfolding next_hour
next_hour_lem m valid =
    let hour_lt = valid.hour-lt in
    let day_lt = day_number-lt m valid in
    let hour : u8 (m.hour + 1) ≡ m.hour + 1 = omega arith in
    elim (Bool-cases (u8 (m.hour + 1) == 24)) [
      | inl day_ends ↦
          let (next, days, time) =
            next_day_lem (record m { hour = 0 }) (with_hour m 0 valid (omega arith)) in
          rw day_ends (next, ground (arith, days, time.0, hour), time.1, time.2)
      | inr day_goes_on ↦
          rw day_goes_on
            (with_hour m (u8 (m.hour + 1)) valid (ground arith), ground (arith, hour), refl, refl)
    ]

next_minute_lem :
    (m : Moment)
    → IsMoment m
    → IsMoment (next_minute m)
      × (minute_number (next_minute m) ≡ (minute_number m + 1) % (36525 * 1440))
      × ((next_minute m).second ≡ m.second)
unfolding next_minute
next_minute_lem m valid =
    let hour_lt = valid.hour-lt in
    let minute_lt = valid.minute-lt in
    let day_lt = day_number-lt m valid in
    let minute : u8 (m.minute + 1) ≡ m.minute + 1 = omega arith in
    elim (Bool-cases (u8 (m.minute + 1) == 60)) [
      | inl hour_ends ↦
          let (next, hours, minutes, seconds) =
            next_hour_lem (record m { minute = 0 }) (with_minute m 0 valid (omega arith)) in
          rw hour_ends (next, ground (arith, hours, minutes, minute), seconds)
      | inr hour_goes_on ↦
          rw hour_goes_on
            (with_minute m (u8 (m.minute + 1)) valid (ground arith), ground (arith, minute), refl)
    ]

-- From a date of the century on, the next second is a date of the century, and the second after it:
-- the number of seconds since the century began grows by one, and from the last second of the
-- century it goes back to 0.
pub next_second_lem :
    (m : Moment)
    → IsMoment m
    → IsMoment (next_second m)
      × (second_number (next_second m) ≡ (second_number m + 1) % century_seconds)
unfolding next_second
next_second_lem m valid =
    let hour_lt = valid.hour-lt in
    let minute_lt = valid.minute-lt in
    let second_lt = valid.second-lt in
    let day_lt = day_number-lt m valid in
    let second : u8 (m.second + 1) ≡ m.second + 1 = omega arith in
    elim (Bool-cases (u8 (m.second + 1) == 60)) [
      | inl minute_ends ↦
          let (next, minutes, seconds) =
            next_minute_lem (record m { second = 0 }) (with_second m 0 valid (omega arith)) in
          rw minute_ends (next, ground (arith, minutes, seconds, second))
      | inr minute_goes_on ↦
          rw minute_goes_on
            (with_second m (u8 (m.second + 1)) valid (ground arith), ground (arith, second))
    ]

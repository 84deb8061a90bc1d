-- ===== src/Rtcc/Calendar.antt =====
-- The calendar of rtcc.c: packed decimal numbers, valid dates, and the next second.
use dspic33e_sim.Prelude.{ℕ, ◌+◌, ◌-◌, ◌*◌, ◌/◌, ◌%◌, Bool, false, ◌&&◌, ◌||◌, not, List, [], ◌∷◌}
use dspic33e_sim.Prelude.{
  bit_and, bit_or, ltb, leb, ◌==◌, if◌then◌else◌, u8, u16, ◌<<<◌, ◌>>>◌, get_or,
}
use dspic33e_sim.Device.State.{Rtcc, update}

-- `rtcc_bcd_decode`.
unfoldable pub rtcc_bcd_decode : ℕ → ℕ
rtcc_bcd_decode bcd_value = u8 ((bcd_value >>> 4) * 10 + bit_and bcd_value 0x0f)

-- `rtcc_bcd_encode`.
unfoldable pub rtcc_bcd_encode : ℕ → ℕ
rtcc_bcd_encode decimal_value = u8 (bit_or ((decimal_value / 10) <<< 4) (decimal_value % 10))

-- `rtcc_bcd_valid`.
unfoldable pub rtcc_bcd_valid : ℕ → ℕ → ℕ → Bool
rtcc_bcd_valid bcd_value minimum maximum =
    let decimal_value = rtcc_bcd_decode bcd_value in
    leb (bit_and bcd_value 0x0f) 9
    && leb (bcd_value >>> 4) 9
    && leb minimum decimal_value
    && leb decimal_value maximum

abbrev pub month_day_counts : List ℕ
month_day_counts = 31 ∷ 28 ∷ 31 ∷ 30 ∷ 31 ∷ 30 ∷ 31 ∷ 31 ∷ 30 ∷ 31 ∷ 30 ∷ 31 ∷ []

-- `rtcc_month_days`, called with a month of 1 to 12.
unfoldable pub rtcc_month_days : ℕ → ℕ → ℕ
rtcc_month_days calendar_year calendar_month =
    if calendar_month == 2 && calendar_year % 4 == 0
    then 29
    else get_or month_day_counts (calendar_month - 1) 0

-- `rtcc_calendar_valid`.
unfoldable pub rtcc_calendar_valid : Rtcc → Bool
rtcc_calendar_valid rtcc =
    let calendar_second = u8 (rtcc.calendar 0) in
    let calendar_minute = u8 (rtcc.calendar 0 >>> 8) in
    let calendar_hour = u8 (rtcc.calendar 1) in
    let calendar_weekday = u8 (rtcc.calendar 1 >>> 8) in
    let calendar_day = u8 (rtcc.calendar 2) in
    let calendar_month = u8 (rtcc.calendar 2 >>> 8) in
    let calendar_year = u8 (rtcc.calendar 3) in
    if not (rtcc_bcd_valid calendar_second 0 59)
      || not (rtcc_bcd_valid calendar_minute 0 59)
      || not (rtcc_bcd_valid calendar_hour 0 23)
      || ltb 6 calendar_weekday
      || not (rtcc_bcd_valid calendar_month 1 12)
      || not (rtcc_bcd_valid calendar_year 0 99)
    then false
    else rtcc_bcd_valid calendar_day 1
        (rtcc_month_days (rtcc_bcd_decode calendar_year) (rtcc_bcd_decode calendar_month))

-- The local variables of `rtcc_increment_calendar`.
pub record Moment : Type 0 where
  pub second : ℕ
  pub minute : ℕ
  pub hour : ℕ
  pub weekday : ℕ
  pub day : ℕ
  pub month : ℕ
  pub year : ℕ

unfoldable pub rtcc_moment : Rtcc → Moment
rtcc_moment rtcc = record {
  second = rtcc_bcd_decode (u8 (rtcc.calendar 0));
  minute = rtcc_bcd_decode (u8 (rtcc.calendar 0 >>> 8));
  hour = rtcc_bcd_decode (u8 (rtcc.calendar 1));
  weekday = u8 (rtcc.calendar 1 >>> 8);
  day = rtcc_bcd_decode (u8 (rtcc.calendar 2));
  month = rtcc_bcd_decode (u8 (rtcc.calendar 2 >>> 8));
  year = rtcc_bcd_decode (u8 (rtcc.calendar 3));
}

-- The nested tests of `rtcc_increment_calendar`, from the innermost out.
unfoldable pub next_month : Moment → Moment
next_month m =
    let month = u8 (m.month + 1) in
    if month == 13
    then record m { day = 1; month = 1; year = u8 ((m.year + 1) % 100) }
    else record m { day = 1; month = month }

unfoldable pub next_day : Moment → Moment
unfolding next_month
next_day m =
    let day = u8 (m.day + 1) in
    let later = record m { weekday = u8 ((m.weekday + 1) % 7); day = day } in
    if ltb (rtcc_month_days m.year m.month) day then next_month later else later

unfoldable pub next_hour : Moment → Moment
unfolding next_day
next_hour m =
    let hour = u8 (m.hour + 1) in
    if hour == 24 then next_day (record m { hour = 0 }) else record m { hour = hour }

unfoldable pub next_minute : Moment → Moment
unfolding next_hour
next_minute m =
    let minute = u8 (m.minute + 1) in
    if minute == 60 then next_hour (record m { minute = 0 }) else record m { minute = minute }

unfoldable pub next_second : Moment → Moment
unfolding next_minute
next_second m =
    let second = u8 (m.second + 1) in
    if second == 60 then next_minute (record m { second = 0 }) else record m { second = second }

-- The assignments at the end of `rtcc_increment_calendar`.
unfoldable pub rtcc_store : Rtcc → Moment → Rtcc
rtcc_store rtcc m =
    let time = u16 (bit_or (rtcc_bcd_encode m.minute <<< 8) (rtcc_bcd_encode m.second)) in
    let hour = u16 (bit_or (m.weekday <<< 8) (rtcc_bcd_encode m.hour)) in
    let day = u16 (bit_or (rtcc_bcd_encode m.month <<< 8) (rtcc_bcd_encode m.day)) in
    record rtcc {
      calendar =
          update (update (update (update rtcc.calendar 0 time) 1 hour) 2 day) 3
            (rtcc_bcd_encode m.year);
    }

-- `rtcc_increment_calendar`.
unfoldable pub rtcc_increment_calendar : Rtcc → Rtcc
unfolding next_second rtcc_store rtcc_calendar_valid
rtcc_increment_calendar rtcc =
    if not (rtcc_calendar_valid rtcc)
    then rtcc
    else rtcc_store rtcc (next_second (rtcc_moment rtcc))

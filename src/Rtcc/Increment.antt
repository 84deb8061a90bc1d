-- ===== src/Rtcc/Increment.antt =====
-- `rtcc_increment_calendar` on the calendar's words.
use dspic33e_sim.Prelude.{ℕ, ◌+◌, ◌*◌, ◌%◌, ◌≤◌, ◌<◌, ◌≡◌, ap, ◌∙◌, arith, true, false}
use dspic33e_sim.Prelude.{ltb, u8, u16, bit_or, ◌<<<◌, ◌>>>◌}
use dspic33e_sim.Bits.{bit_or_fields}
use dspic33e_sim.Device.State.{Rtcc}
use dspic33e_sim.Rtcc.Calendar.{
  Moment, next_second, rtcc_month_days, rtcc_calendar_valid, rtcc_moment, rtcc_store,
  rtcc_increment_calendar,
}
use dspic33e_sim.Rtcc.Calendar.{rtcc_bcd_valid, rtcc_bcd_decode, rtcc_bcd_encode}
use dspic33e_sim.Rtcc.Bcd.{encode_lem, decode-encode, encode-IsValid}
use dspic33e_sim.Rtcc.Date.{IsMoment, month_days-le, second_number, century_seconds}
use dspic33e_sim.Rtcc.Second.{next_second_lem}

bcd_bounds :
    (b minimum maximum : ℕ)
    → rtcc_bcd_valid b minimum maximum ≡ true
    → (minimum ≤ rtcc_bcd_decode b) × (rtcc_bcd_decode b ≤ maximum)
unfolding rtcc_bcd_valid
bcd_bounds b minimum maximum valid = ground arith

-- A valid calendar shows a date.
calendar-IsMoment : (rtcc : Rtcc) → rtcc_calendar_valid rtcc ≡ true → IsMoment (rtcc_moment rtcc)
unfolding rtcc_calendar_valid rtcc_moment
calendar-IsMoment rtcc valid = record {
  second-lt = ground (arith, bcd_bounds (u8 (rtcc.calendar 0)) 0 59);
  minute-lt = ground (arith, bcd_bounds (u8 (rtcc.calendar 0 >>> 8)) 0 59);
  hour-lt = ground (arith, bcd_bounds (u8 (rtcc.calendar 1)) 0 23);
  weekday-lt = ground arith;
  month-pos = ground (arith, bcd_bounds (u8 (rtcc.calendar 2 >>> 8)) 1 12);
  month-le = ground (arith, bcd_bounds (u8 (rtcc.calendar 2 >>> 8)) 1 12);
  day-pos = ground (
    arith,
    bcd_bounds (u8 (rtcc.calendar 2)) 1 (
        rtcc_month_days (rtcc_bcd_decode (u8 (rtcc.calendar 3)))
          (rtcc_bcd_decode (u8 (rtcc.calendar 2 >>> 8)))),
  );
  day-le = ground (
    arith,
    bcd_bounds (u8 (rtcc.calendar 2)) 1 (
        rtcc_month_days (rtcc_bcd_decode (u8 (rtcc.calendar 3)))
          (rtcc_bcd_decode (u8 (rtcc.calendar 2 >>> 8)))),
  );
  year-lt = ground (arith, bcd_bounds (u8 (rtcc.calendar 3)) 0 99);
}

-- Two bytes in a word.
packed :
    (hi lo : ℕ)
    → hi < 256
    → lo < 256
    → (u8 (u16 (bit_or (hi <<< 8) lo)) ≡ lo) × (u8 (u16 (bit_or (hi <<< 8) lo) >>> 8) ≡ hi)
packed hi lo hi_lt lo_lt =
    let sum : bit_or (hi <<< 8) lo ≡ hi * 256 + lo = bit_or_fields 8 hi lo (omega arith) in
    (omega (arith, sum), omega (arith, sum))

-- The bytes of the calendar that shows a date.
module _ (rtcc : Rtcc) (m : Moment) (valid : IsMoment m) where
  enc-lt : (v : ℕ) → v < 100 → rtcc_bcd_encode v < 256
  enc-lt v lt = omega (arith, encode_lem v lt)

  bytes :
      (u8 ((rtcc_store rtcc m).calendar 0) ≡ rtcc_bcd_encode m.second)
      × (u8 ((rtcc_store rtcc m).calendar 0 >>> 8) ≡ rtcc_bcd_encode m.minute)
      × (u8 ((rtcc_store rtcc m).calendar 1) ≡ rtcc_bcd_encode m.hour)
      × (u8 ((rtcc_store rtcc m).calendar 1 >>> 8) ≡ m.weekday)
      × (u8 ((rtcc_store rtcc m).calendar 2) ≡ rtcc_bcd_encode m.day)
      × (u8 ((rtcc_store rtcc m).calendar 2 >>> 8) ≡ rtcc_bcd_encode m.month)
      × (u8 ((rtcc_store rtcc m).calendar 3) ≡ rtcc_bcd_encode m.year)
  unfolding rtcc_store
  bytes =
      let second = enc-lt m.second (omega (arith, valid.second-lt)) in
      let minute = enc-lt m.minute (omega (arith, valid.minute-lt)) in
      let hour = enc-lt m.hour (omega (arith, valid.hour-lt)) in
      let weekday : m.weekday < 256 = omega (arith, valid.weekday-lt) in
      let month = enc-lt m.month (omega (arith, valid.month-le)) in
      let day = enc-lt m.day (
        omega (arith, valid.day-le, month_days-le m.year m.month valid.month-pos valid.month-le)) in
      let year = enc-lt m.year valid.year-lt in
      let time = packed (rtcc_bcd_encode m.minute) (rtcc_bcd_encode m.second) minute second in
      let hours = packed m.weekday (rtcc_bcd_encode m.hour) weekday hour in
      let days = packed (rtcc_bcd_encode m.month) (rtcc_bcd_encode m.day) month day in
      (time.0, time.1, hours.0, hours.1, days.0, days.1, omega (arith, year))

  day-lt : m.day < 100
  day-lt = omega (arith, valid.day-le, month_days-le m.year m.month valid.month-pos valid.month-le)

  -- The calendar shows the date that was stored.
  moment-store : rtcc_moment (rtcc_store rtcc m) ≡ m
  unfolding rtcc_moment
  moment-store =
      let (second, minute, hour, weekday, day, month, year) = bytes in
      rw (
        second,
        minute,
        hour,
        weekday,
        day,
        month,
        year,
        decode-encode m.second (omega (arith, valid.second-lt)),
        decode-encode m.minute (omega (arith, valid.minute-lt)),
        decode-encode m.hour (omega (arith, valid.hour-lt)),
        decode-encode m.day day-lt,
        decode-encode m.month (omega (arith, valid.month-le)),
        decode-encode m.year valid.year-lt,
      )

  store-valid : rtcc_calendar_valid (rtcc_store rtcc m) ≡ true
  unfolding rtcc_calendar_valid
  store-valid =
      let (second, minute, hour, weekday, day, month, year) = bytes in
      let second_lt = valid.second-lt in
      let minute_lt = valid.minute-lt in
      let hour_lt = valid.hour-lt in
      let month_pos = valid.month-pos in
      let month_le = valid.month-le in
      let day_pos = valid.day-pos in
      let year_lt = valid.year-lt in
      let in_week : ltb 6 m.weekday ≡ false = ground (arith, valid.weekday-lt) in
      rw (
        second,
        minute,
        hour,
        weekday,
        day,
        month,
        year,
        encode-IsValid m.second 0 59 (omega arith) (omega arith) (omega arith),
        encode-IsValid m.minute 0 59 (omega arith) (omega arith) (omega arith),
        encode-IsValid m.hour 0 23 (omega arith) (omega arith) (omega arith),
        in_week,
        encode-IsValid m.month 1 12 (omega arith) (omega arith) (omega arith),
        encode-IsValid m.year 0 99 (omega arith) (omega arith) (omega arith),
        decode-encode m.year valid.year-lt,
        decode-encode m.month (omega arith),
        encode-IsValid m.day 1 (rtcc_month_days m.year m.month) day-lt (omega arith) valid.day-le,
      )

-- A valid calendar stays valid, and shows one second more since the century began, or the first
-- second of the century after the last.
pub increment_counts :
    (rtcc : Rtcc)
    → rtcc_calendar_valid rtcc ≡ true
    → (rtcc_calendar_valid (rtcc_increment_calendar rtcc) ≡ true)
      × (second_number (rtcc_moment (rtcc_increment_calendar rtcc))
          ≡ (second_number (rtcc_moment rtcc) + 1) % century_seconds)
unfolding rtcc_increment_calendar
increment_counts rtcc valid =
    let (next, counted) = next_second_lem (rtcc_moment rtcc) (calendar-IsMoment rtcc valid) in
    rw valid (
      store-valid rtcc (next_second (rtcc_moment rtcc)) next,
      ap second_number (moment-store rtcc (next_second (rtcc_moment rtcc)) next) ∙ counted,
    )

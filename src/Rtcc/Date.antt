-- ===== src/Rtcc/Date.antt =====
-- `rtcc_increment_calendar` goes to the next second of a date.
use dspic33e_sim.Prelude.{
  ℕ, zero, suc, ◌+◌, ◌-◌, ◌*◌, ◌/◌, ◌%◌, ◌≤◌, ◌<◌, ◌≡◌, refl, sym, ap, ◌∙◌, arith, false,
}
use dspic33e_sim.Prelude.{◌==◌, if◌then◌else◌, Bool-cases, inl, inr, u8, get_or}
use dspic33e_sim.Rtcc.Calendar.{Moment, next_month, rtcc_month_days, month_day_counts}

-- A date of the century, and a time of day.
pub record IsMoment (m : Moment) : Type 0 where
  pub second-lt : m.second < 60
  pub minute-lt : m.minute < 60
  pub hour-lt : m.hour < 24
  pub weekday-lt : m.weekday < 7
  pub month-pos : 0 < m.month
  pub month-le : m.month ≤ 12
  pub day-pos : 0 < m.day
  pub day-le : m.day ≤ rtcc_month_days m.year m.month
  pub year-lt : m.year < 100

-- The days of the months before the month `m` of the year `y`.
unfoldable pub days_before_month : ℕ → ℕ → ℕ
days_before_month y zero = 0
days_before_month y (suc m) = if m == 0 then 0 else days_before_month y m + rtcc_month_days y m

-- The days of the years before `y`, of which every fourth has one more.
abbrev pub days_before_year : ℕ → ℕ
days_before_year y = 365 * y + (y + 3) / 4

-- The days since the century began.
abbrev pub day_number : Moment → ℕ
day_number m = days_before_year m.year + days_before_month m.year m.month + (m.day - 1)

-- The hours, the minutes and the seconds since the century began, and the seconds of the century.
abbrev pub hour_number : Moment → ℕ
hour_number m = day_number m * 24 + m.hour

abbrev pub minute_number : Moment → ℕ
minute_number m = hour_number m * 60 + m.minute

abbrev pub second_number : Moment → ℕ
second_number m = minute_number m * 60 + m.second

abbrev pub century_seconds : ℕ
century_seconds = 36525 * 86400

pub days_before_next :
    (y m : ℕ) → 0 < m → days_before_month y (m + 1) ≡ days_before_month y m + rtcc_month_days y m
unfolding days_before_month
days_before_next y m pos =
    let next : m + 1 ≡ suc m = omega arith in
    let later : (m == 0) ≡ false = ground arith in rw (next, later)

days_of_year :
    (y : ℕ) → days_before_month y 12 + rtcc_month_days y 12 ≡ 365 + (if y % 4 == 0 then 1 else 0)
unfolding days_before_month rtcc_month_days
days_of_year y = elim (Bool-cases (y % 4 == 0)) [ inl leap ↦ rw leap | inr common ↦ rw common ]

pub days_of_year_lem :
    (y : ℕ)
    → days_before_year y + days_before_month y 12 + rtcc_month_days y 12 ≡ days_before_year (y + 1)
days_of_year_lem y = ground (arith, days_of_year y)

counts_lem :
    (i : ℕ) → i < 12 → (28 ≤ get_or month_day_counts i 0) × (get_or month_day_counts i 0 ≤ 31)
counts_lem zero lt = (omega arith, omega arith)
counts_lem (suc zero) lt = (omega arith, omega arith)
counts_lem (suc (suc zero)) lt = (omega arith, omega arith)
counts_lem (suc (suc (suc zero))) lt = (omega arith, omega arith)
counts_lem (suc (suc (suc (suc zero)))) lt = (omega arith, omega arith)
counts_lem (suc (suc (suc (suc (suc zero))))) lt = (omega arith, omega arith)
counts_lem (suc (suc (suc (suc (suc (suc zero)))))) lt = (omega arith, omega arith)
counts_lem (suc (suc (suc (suc (suc (suc (suc zero))))))) lt = (omega arith, omega arith)
counts_lem (suc (suc (suc (suc (suc (suc (suc (suc zero)))))))) lt = (omega arith, omega arith)
counts_lem (suc (suc (suc (suc (suc (suc (suc (suc (suc zero))))))))) lt =
    (omega arith, omega arith)
counts_lem (suc (suc (suc (suc (suc (suc (suc (suc (suc (suc zero)))))))))) lt =
    (omega arith, omega arith)
counts_lem (suc (suc (suc (suc (suc (suc (suc (suc (suc (suc (suc zero))))))))))) lt =
    (omega arith, omega arith)
counts_lem (suc (suc (suc (suc (suc (suc (suc (suc (suc (suc (suc (suc i)))))))))))) lt =
    absurd (omega arith)

pub month_days-le :
    (y m : ℕ) → 0 < m → m ≤ 12 → (28 ≤ rtcc_month_days y m) × (rtcc_month_days y m ≤ 31)
unfolding rtcc_month_days
month_days-le y m pos le = ground (arith, counts_lem (m - 1) (omega arith))

first_month : (y : ℕ) → days_before_month y 1 ≡ 0
unfolding days_before_month
first_month y = refl

days_before_suc :
    (y m : ℕ)
    → days_before_month y (suc (suc m)) ≡ days_before_month y (suc m) + rtcc_month_days y (suc m)
days_before_suc y m =
    let next : suc m + 1 ≡ suc (suc m) = omega arith in
    ap (days_before_month y) (sym next) ∙ days_before_next y (suc m) (omega arith)

-- The months before the month after `m`.
pub before_next-le : (y m : ℕ) → m ≤ 12 → days_before_month y (suc m) ≤ 31 * m
before_next-le y zero le = omega (arith, first_month y)
before_next-le y (suc m) le = omega (
  arith,
  before_next-le y m (omega arith),
  days_before_suc y m,
  month_days-le y (suc m) (omega arith) le,
)

-- A date whose month has ended.
pub next_month-IsMoment : (m : Moment) → IsMoment (record m { day = 1 }) → IsMoment (next_month m)
unfolding next_month
next_month-IsMoment m valid = elim (Bool-cases (u8 (m.month + 1) == 13)) [
  | inl year_ends ↦ rw year_ends (record {
    second-lt = valid.second-lt;
    minute-lt = valid.minute-lt;
    hour-lt = valid.hour-lt;
    weekday-lt = valid.weekday-lt;
    month-pos = omega arith;
    month-le = omega arith;
    day-pos = omega arith;
    day-le = omega (arith, month_days-le (u8 ((m.year + 1) % 100)) 1 (omega arith) (omega arith));
    year-lt = omega arith;
  })
  | inr year_goes_on ↦ rw year_goes_on (record {
    second-lt = valid.second-lt;
    minute-lt = valid.minute-lt;
    hour-lt = valid.hour-lt;
    weekday-lt = valid.weekday-lt;
    month-pos = ground arith;
    month-le = ground arith;
    day-pos = omega arith;
    day-le = ground (arith, month_days-le m.year (u8 (m.month + 1)));
    year-lt = valid.year-lt;
  })
]

pub next_month-day_number :
    (m : Moment)
    → IsMoment (record m { day = 1 })
    → day_number (next_month m)
      ≡ (days_before_year m.year
          + days_before_month m.year m.month
          + rtcc_month_days m.year m.month)
        % 36525
unfolding next_month
next_month-day_number m valid =
    let month_pos = valid.month-pos in
    let month_le = valid.month-le in
    let year_lt = valid.year-lt in
    elim (Bool-cases (u8 (m.month + 1) == 13)) [
      | inl year_ends ↦
          let december : m.month ≡ 12 = ground arith in
          rw (year_ends, december, first_month) (ground (arith, days_of_year_lem m.year))
      | inr year_goes_on ↦
          let month : u8 (m.month + 1) ≡ m.month + 1 = ground arith in
          rw (year_goes_on, month, days_before_next m.year m.month valid.month-pos)
            (ground (
              arith,
              before_next-le m.year m.month,
              days_before_next m.year m.month,
              ap (days_before_month m.year) month_suc,
            ))
    ]
  where
    month_suc : suc m.month ≡ m.month + 1
    month_suc = omega arith

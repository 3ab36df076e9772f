-- ===== src/Clock/Dates.antt =====
-- Day numbers and dates of kernel/systime.c: round trips, and the calendar's next day.
use fdpp.Base.{ℕ, ◌+◌, ◌-◌, ◌≤◌, ◌<◌, ◌≡◌, ◌∙◌, true, arith, ℕ_discrete, ap}
use mathlib.Core.Path.{subst}
use fdpp.Clock.{
  month_days, years, months, Date, date_of, days_from_year_month_day, is_date, year_rounds,
}
use fdpp.Clock.Calendar.{before, year-length, years_lem, years-before, years-below, years-ge}
use fdpp.Clock.Days.{InMonth, InMonth-unique, Found-date_of, date_of-Found, month_days-lt}

-- What is_date lets through.
pub record IsDate (d : Date) : Type 0 where
  pub year_low : 1980 ≤ d.year
  pub year_high : d.year ≤ 2099
  pub month_low : 1 ≤ d.month
  pub month_high : d.month ≤ 12
  pub day_low : 1 ≤ d.monthday
  pub day_high : d.monthday ≤ month_days d.year d.month - month_days d.year (d.month - 1)

pub is_date-IsDate : (d : Date) → is_date d ≡ true → IsDate d
unfolding is_date
is_date-IsDate d h = record {
  year_low = ground (arith, h);
  year_high = ground (arith, h);
  month_low = ground (arith, h);
  month_high = ground (arith, h);
  day_low = ground (arith, h);
  day_high = ground (arith, h);
}

IsDate-is_date : (d : Date) → IsDate d → is_date d ≡ true
unfolding is_date
IsDate-is_date d v =
    ground (arith, v.year_low, v.year_high, v.month_low, v.month_high, v.day_low, v.day_high)

days_from_lem :
    (y m d : ℕ)
    → 1980 ≤ y
    → y ≤ 2099
    → 1 ≤ d
    → month_days y (m - 1) + d ≤ 366
    → days_from_year_month_day y m d ≡ before y + (month_days y (m - 1) + (d - 1))
unfolding days_from_year_month_day
days_from_lem y m d low high pos small = let t = month_days y (m - 1) in ground arith

-- The day of the year of a date.
abbrev pub day_in_year : Date → ℕ
day_in_year d = month_days d.year (d.month - 1) + (d.monthday - 1)

IsDate-InMonth : (d : Date) → IsDate d → InMonth d.year (day_in_year d) d.month
IsDate-InMonth d v = record {
  from = omega arith;
  to = omega (arith, v.day_low, v.day_high);
  low = v.month_low;
  high = v.month_high;
}

pub day_in_year-lt : (d : Date) → IsDate d → day_in_year d < month_days d.year 12
day_in_year-lt d v = elim (ℕ_discrete d.month 12) [
  | yes e ↦ subst (λ (m : ℕ). day_in_year d < month_days d.year m) e (IsDate-InMonth d v).to
  | no ne ↦
      let last = v.month_high in
      omega (
        arith,
        (IsDate-InMonth d v).to,
        month_days-lt d.year d.month 12 (omega (arith, last)) (omega arith),
      )
]

days_from-IsDate :
    (d : Date)
    → IsDate d
    → days_from_year_month_day d.year d.month d.monthday ≡ before d.year + day_in_year d
days_from-IsDate d v =
    days_from_lem d.year d.month d.monthday v.year_low v.year_high v.day_low
      (omega (arith, day_in_year-lt d v, year-length d.year, v.day_low))

-- A valid date is that of its day number, and the number is that of a day up to the end of 2099.
pub date_of-days_from :
    (d : Date)
    → is_date d ≡ true
    → (date_of (days_from_year_month_day d.year d.month d.monthday) ≡ d)
      × (days_from_year_month_day d.year d.month d.monthday < 43830)
date_of-days_from d h =
    let v = is_date-IsDate d h in
    let n = days_from_year_month_day d.year d.month d.monthday in
    let r = day_in_year d in
    let e = days_from-IsDate d v in
    let inside = day_in_year-lt d v in
    let runs =
      years_lem year_rounds 1980 d.year n r (omega arith) v.year_low (omega (arith, v.year_high))
        (omega (arith, v.year_high)) (omega (arith, e)) inside in
    let found = Found-date_of n d.year r runs inside in
    let same = InMonth-unique found.month (IsDate-InMonth d v) in
    (
      found.date ∙ rw same (ap (λ (k : ℕ). record d { monthday = k }) (omega (arith, v.day_low))),
      omega (arith, e, inside, year-length d.year, v.year_high),
    )

-- The date of a number of days up to the end of 2099 is valid, and its day number is that number.
pub days_from-date_of :
    (n : ℕ)
    → n < 43830
    → (is_date (date_of n) ≡ true)
      × (days_from_year_month_day (date_of n).year (date_of n).month (date_of n).monthday ≡ n)
days_from-date_of n h =
    let p = years year_rounds 1980 n in
    let m = months 11 p.0 1 p.1 in
    let found = date_of-Found n (omega arith) in
    let below : p.0 < 2100 =
      years-below year_rounds 1980 n 2100 (omega arith) (omega arith) (omega arith) in
    let low : 1980 ≤ p.0 = years-ge year_rounds 1980 n in
    let count = years-before year_rounds 1980 n (omega arith) (omega (arith, below)) in
    let f = found.month in
    let v : IsDate (date_of n) = rw (found.date) (record {
      year_low = low;
      year_high = omega (arith, below);
      month_low = f.low;
      month_high = f.high;
      day_low = omega arith;
      day_high = omega (arith, f.from, f.to);
    }) in
    (
      IsDate-is_date (date_of n) v,
      rw (found.date) (
          days_from_lem p.0 m (p.1 - month_days p.0 (m - 1) + 1) low (omega (arith, below))
            (omega arith) (omega (arith, found.inside, year-length p.0, f.from))
          ∙ omega (arith, count, f.from)),
    )

-- ===== src/Clock/Tests.antt =====
-- The calendar and the clock at dates around leap days and year ends, and the theorems at some.
use fdpp.Base.{ℕ, ◌+◌, ◌%◌, ◌≡◌, ◌<◌, refl, true, false, some, [], ◌∷◌, arith}
use fdpp.Clock.{
  Date, Time, ClockRecord, Clocks, success, date_of, day_of_week, days_from_year_month_day, is_date,
  is_time, years, months, is_leap_year_monthdays, dos_get_date, dos_set_date, dos_get_time,
  dos_set_time, clk_input, clk_output, init_bcd_to_byte, init_date,
}
use fdpp.Clock.Dates.{date_of-days_from, days_from-date_of}
use fdpp.Clock.Next.{next_date, date_of-next}
use fdpp.Clock.Driver.{Shows, dos_set_time-get, dos_set_date-get}

abbrev date : ℕ → ℕ → ℕ → Date
date y m d = record { year = y; month = m; monthday = d }

calendar_runs :
    (date_of 59 ≡ date 1980 2 29)
    × (date_of 365 ≡ date 1980 12 31)
    × (date_of 366 ≡ date 1981 1 1)
    × (days_from_year_month_day 2000 2 29 ≡ 7364)
    × (date_of 7364 ≡ date 2000 2 29)
    × (is_date (date 1999 2 29) ≡ false)
    × (date_of 65535 ≡ date 2159 6 6)
unfolding date_of years months is_leap_year_monthdays days_from_year_month_day is_date
calendar_runs = (refl, refl, refl, refl, refl, refl, refl)

abbrev midnight : ClockRecord
midnight = record {
  clk_days = 0;
  clk_minutes = 0;
  clk_hours = 0;
  clk_hundredths = 0;
  clk_seconds = 0;
}

abbrev clocks : Clocks
clocks = record {
  days_since_epoch = 7364;
  ticks = 100000;
  midnights = 1;
  at_days = 0 ∷ 0 ∷ 0 ∷ 0 ∷ [];
  at_hours = 0;
  at_minutes = 0;
  at_seconds = 0;
}

abbrev evening : Time
evening = record { hour = 23; minute = 59; second = 59; hundredth = 99 }

evening_valid : is_time evening ≡ true
unfolding is_time
evening_valid = refl

leap_day_valid : is_date (date 2000 2 29) ≡ true
unfolding is_date is_leap_year_monthdays
leap_day_valid = refl

date_of-days_from_example :
    (date_of (days_from_year_month_day 2000 2 29) ≡ date 2000 2 29)
    × (days_from_year_month_day 2000 2 29 < 43830)
date_of-days_from_example = date_of-days_from (date 2000 2 29) leap_day_valid

days_from-date_of_example :
    (is_date (date_of 7364) ≡ true)
    × (days_from_year_month_day (date_of 7364).year (date_of 7364).month (date_of 7364).monthday
        ≡ 7364)
days_from-date_of_example = days_from-date_of 7364 (omega arith)

date_of-next_example :
    (date_of 0 ≡ date 1980 1 1)
    × (day_of_week 0 ≡ 2)
    × (date_of (7363 + 1) ≡ next_date (date_of 7363))
    × (day_of_week (7363 + 1) ≡ (day_of_week 7363 + 1) % 7)
date_of-next_example = date_of-next 7363 (omega arith)

dos_set_time-get_example :
    let q = dos_set_time clk_input clk_output clocks midnight evening in
    (q.2 ≡ success)
    × Shows evening (dos_get_time clk_input clk_output q.0 q.1).2
    × (q.0.days_since_epoch ≡ 7365)
    × (init_bcd_to_byte q.0.at_hours ≡ 23)
    × (init_bcd_to_byte q.0.at_minutes ≡ 59)
    × (init_bcd_to_byte q.0.at_seconds ≡ 59)
dos_set_time-get_example = dos_set_time-get clocks midnight evening evening_valid

dos_set_date-get_example :
    let q = dos_set_date clk_input clk_output clocks midnight (date 2000 2 29) in
    (q.2 ≡ success)
    × ((dos_get_date clk_input clk_output q.0 q.1).2
        ≡ some (date 2000 2 29, day_of_week (days_from_year_month_day 2000 2 29)))
    × (init_date q.0.at_days ≡ date 2000 2 29)
dos_set_date-get_example = dos_set_date-get clocks midnight (date 2000 2 29) leap_day_valid

-- ===== src/Clock/Driver.antt =====
-- The date and time calls of kernel/systime.c over the driver of kernel/sysclk.c.
use fdpp.Base.{ℕ, ◌+◌, ◌*◌, ◌/◌, ◌%◌, ◌≤◌, ◌<◌, ◌≡◌, ltb, refl, true, arith, ap, Option, some}
use fdpp.Clock.{
  Date, Time, ClockRecord, Clocks, success, day_of_week, is_date, is_time, dos_get_date,
  dos_set_date, dos_get_time, dos_set_time, clk_input, clk_output, read_pc_clock, split_minutes,
  hundredths_of, ticks_of, byte_to_bcd, init_bcd_to_byte, init_year, init_date, day_to_bcd,
  days_from_year_month_day,
}
use fdpp.Clock.Next.{month-length, month_length-le, is_leap}
use fdpp.Clock.Dates.{date_of-days_from, is_date-IsDate}

-- The scaling of hundredths of a second to ticks and back loses at most six of them.
pub hundredths-ticks :
    (h : ℕ) → h < 8640000 → let h' = hundredths_of (ticks_of h) in (h' ≤ h) × (h ≤ h' + 6)
unfolding hundredths_of ticks_of
hundredths-ticks h small = (omega arith, omega arith)

-- The hundredths of a second since midnight.
abbrev pub since_midnight : Time → ℕ
since_midnight t = 6000 * (60 * t.hour + t.minute) + (100 * t.second + t.hundredth)

pub bcd-byte : (x : ℕ) → x < 100 → init_bcd_to_byte (byte_to_bcd x % 256) ≡ x
unfolding byte_to_bcd init_bcd_to_byte
bcd-byte x h = omega arith

is_time-lt : (t : Time) → is_time t ≡ true → (t.hour < 100) × (t.minute < 100) × (t.second < 100)
unfolding is_time
is_time-lt t h = (ground (arith, h), ground (arith, h), ground (arith, h))

-- What a later DosGetTime shows: a valid time, up to six hundredths of a second before.
pub record Shows (t : Time) (o : Option Time) : Type 0 where
  pub time : Time
  pub shown : o ≡ some time
  pub valid : is_time time ≡ true
  pub early : since_midnight time ≤ since_midnight t
  pub late : since_midnight t ≤ since_midnight time + 6

-- The time that C_INPUT reads from a count of hundredths within a day.
abbrev read_time : ℕ → Time
read_time h = record {
  hour = (split_minutes (h / 6000 % 0x1_0000)).0;
  minute = (split_minutes (h / 6000 % 0x1_0000)).1;
  second = h % 6000 / 100;
  hundredth = h % 6000 % 100;
}

split_minutes_lem : (m : ℕ) → m < 0x8000 → split_minutes m ≡ (m / 60 % 256, m % 60)
unfolding split_minutes
split_minutes_lem m h = let small : ltb m 0x8000 ≡ true = ground (arith, h) in rw small refl

read_time-sum :
    (h : ℕ) → h < 8640000 → (since_midnight (read_time h) ≡ h) × (is_time (read_time h) ≡ true)
unfolding is_time
read_time-sum h small =
    rw (split_minutes_lem (h / 6000 % 0x1_0000) (omega (arith, small))) (omega arith, ground arith)

since_midnight-lt : (t : Time) → is_time t ≡ true → since_midnight t < 8640000
unfolding is_time
since_midnight-lt t h = ground (arith, h)

shows :
    (t : Time)
    → is_time t ≡ true
    → Shows t (some (read_time (hundredths_of (ticks_of (since_midnight t % 0x1_0000_0000)))))
shows t h =
    let small = since_midnight-lt t h in
    let whole : since_midnight t % 0x1_0000_0000 ≡ since_midnight t = omega (arith, small) in
    let near = hundredths-ticks (since_midnight t) small in
    let n = hundredths_of (ticks_of (since_midnight t)) in
    let sum = read_time-sum n (omega (arith, small, near)) in
    rw whole (record {
      time = read_time n;
      shown = refl;
      valid = sum.1;
      early = omega (arith, sum.0, near);
      late = omega (arith, sum.0, near);
    })

-- With the kernel's own driver, DosSetTime of a valid time succeeds; DosGetTime then shows that
-- time, or one up to six hundredths of a second before it, as the tick count allows; the day is the
-- one that the clock has come to, the midnights that the BIOS had counted being added; and the AT
-- clock has the hour, minute and second in BCD.
pub dos_set_time-get :
    (c : Clocks) (r : ClockRecord) (t : Time)
    → is_time t ≡ true
    → let q = dos_set_time clk_input clk_output c r t in
      (q.2 ≡ success)
      × Shows t (dos_get_time clk_input clk_output q.0 q.1).2
      × (q.0.days_since_epoch ≡ (c.days_since_epoch + c.midnights) % 0x1_0000)
      × (init_bcd_to_byte q.0.at_hours ≡ t.hour)
      × (init_bcd_to_byte q.0.at_minutes ≡ t.minute)
      × (init_bcd_to_byte q.0.at_seconds ≡ t.second)
unfolding dos_set_time dos_get_time clk_input clk_output read_pc_clock
dos_set_time-get c r t h =
    let bounds : (t.hour < 100) × (t.minute < 100) × (t.second < 100) = is_time-lt t h in
    rw (h) (
      refl,
      shows t h,
      refl,
      bcd-byte t.hour bounds.0,
      bcd-byte t.minute bounds.1,
      bcd-byte t.second bounds.2,
    )

-- The date that is set is a date that Init_clk_driver reads back.
init_date-day_to_bcd :
    (d : Date) → is_date d ≡ true → init_date (day_to_bcd d.month d.monthday d.year) ≡ d
unfolding init_date day_to_bcd init_year
init_date-day_to_bcd d h =
    let v = is_date-IsDate d h in
    let long =
      month-length d.year d.month (omega (arith, v.year_high)) v.year_low v.month_low
        v.month_high in
    let short : d.monthday ≤ 31 =
      omega (arith, v.day_high, long, month_length-le (is_leap d.year) d.month) in
    let y : 100 * (d.year / 100) + d.year % 100 ≡ d.year = omega arith in
    rw
      (
        bcd-byte d.month (omega (arith, v.month_high)),
        bcd-byte d.monthday (omega (arith, short)),
        bcd-byte (d.year / 100) (omega (arith, v.year_high)),
        bcd-byte (d.year % 100) (omega arith),
        y,
      )
      (ap (λ (n : ℕ). record d { year = n }) (ground (arith, v.year_low)))

-- With the kernel's own driver, DosSetDate of a valid date succeeds; DosGetDate then returns that
-- date, and the day of its week; and from the bytes that the AT clock is set to Init_clk_driver gets
-- that date.
pub dos_set_date-get :
    (c : Clocks) (r : ClockRecord) (d : Date)
    → is_date d ≡ true
    → let q = dos_set_date clk_input clk_output c r d in
      (q.2 ≡ success)
      × ((dos_get_date clk_input clk_output q.0 q.1).2
          ≡ some (d, day_of_week (days_from_year_month_day d.year d.month d.monthday)))
      × (init_date q.0.at_days ≡ d)
unfolding dos_set_date dos_get_date clk_input clk_output read_pc_clock
dos_set_date-get c r d h =
    let (back, small) = date_of-days_from d h in
    let n = days_from_year_month_day d.year d.month d.monthday in
    let same : (n + 0) % 0x1_0000 ≡ n = omega (arith, small) in
    rw (h, same, back) (refl, refl, init_date-day_to_bcd d h)

-- ===== src/Clock.antt =====
-- kernel/systime.c, kernel/sysclk.c, READPCCLOCK of kernel/drivers/rdpcclk.asm and the conversions of
-- kernel/initclk.c: the calendar, the
-- date and time calls, and the driver of the clock device.
-- The driver that the calls use is a parameter: what a C_INPUT and a C_OUTPUT request do to its
-- state, and whether they fail. The kernel's own, clk_driver, keeps the number of days and the
-- tick count of the PC clock, and sets the AT clock; the two clocks are its state, since they are read
-- and set by assembler code.
pub mod Calendar
pub mod Days
pub mod Driver
pub mod Dates
pub mod Next
mod Tests
use fdpp.Base.{
  ℕ, zero, suc, ◌+◌, ◌-◌, ◌*◌, ◌/◌, ◌%◌, Bool, true, false, ◌&&◌, ◌||◌, not, Option, none, some,
  List, [], ◌∷◌, ltb, leb, ◌==◌, if◌then◌else◌, get_or,
}

-- `days`
abbrev pub common_days : List ℕ
common_days = 0 ∷ 31 ∷ 59 ∷ 90 ∷ 120 ∷ 151 ∷ 181 ∷ 212 ∷ 243 ∷ 273 ∷ 304 ∷ 334 ∷ 365 ∷ []

abbrev pub leap_days : List ℕ
leap_days = 0 ∷ 31 ∷ 60 ∷ 91 ∷ 121 ∷ 152 ∷ 182 ∷ 213 ∷ 244 ∷ 274 ∷ 305 ∷ 335 ∷ 366 ∷ []

-- is_leap_year_monthdays; `y & 3` is `y % 4`.
unfoldable pub is_leap_year_monthdays : ℕ → List ℕ
is_leap_year_monthdays y = if not (y % 4 == 0) || y == 2100 then common_days else leap_days

-- `is_leap_year_monthdays(y)[m]`
abbrev pub month_days : ℕ → ℕ → ℕ
month_days y m = get_or (is_leap_year_monthdays y) m 0

-- DaysFromYearMonthDay, in 16 bits; `+ 0xffff` is `- 1`.
unfoldable pub days_from_year_month_day : ℕ → ℕ → ℕ → ℕ
days_from_year_month_day year month day =
    if ltb year 1980
    then 0
    else (day + 0xffff + month_days year (month - 1) + (year - 1980) * 365 + (year - 1980 + 3) / 4)
      % 0x1_0000

-- The loop over the years: the year, and the days that are left. A year has 365 days or more, so
-- that 180 rounds are enough for 16 bits.
unfoldable pub years : ℕ → ℕ → ℕ → ℕ × ℕ
years zero year c = (year, c)
years (suc f) year c =
    let n = month_days year 12 in
    let rest = years f (year + 1) (c - n) in if leb n c then rest else (year, c)

abbrev pub year_rounds : ℕ
year_rounds = 180

-- The loop over the months.
unfoldable pub months : ℕ → ℕ → ℕ → ℕ → ℕ
months zero year month c = month
months (suc f) year month c =
    let rest = months f year (month + 1) c in if leb (month_days year month) c then rest else month

-- `struct dosdate`, `struct dostime`, `struct ClockRecord`
pub record Date : Type 0 where
  pub year : ℕ
  pub month : ℕ
  pub monthday : ℕ

pub record Time : Type 0 where
  pub hour : ℕ
  pub minute : ℕ
  pub second : ℕ
  pub hundredth : ℕ

pub record ClockRecord : Type 0 where
  pub clk_days : ℕ
  pub clk_minutes : ℕ
  pub clk_hours : ℕ
  pub clk_hundredths : ℕ
  pub clk_seconds : ℕ

-- The date of a number of days, and the day of the week (0 is Sunday), as in DosGetDate.
unfoldable pub date_of : ℕ → Date
date_of days =
    let (year, c) = years year_rounds 1980 days in
    let month = months 11 year 1 c in
    record { year = year; month = month; monthday = c - month_days year (month - 1) + 1 }

unfoldable pub day_of_week : ℕ → ℕ
day_of_week days = (days + 2) % 7

pub data Status : Type 0 where
  success de_invlddata char_error : Status

-- The test in DosSetDate.
unfoldable pub is_date : Date → Bool
is_date d = not (
    ltb d.year 1980
    || ltb 2099 d.year
    || ltb d.month 1
    || ltb 12 d.month
    || ltb d.monthday 1
    || ltb (month_days d.year d.month - month_days d.year (d.month - 1)) d.monthday)

-- The test in DosSetTime.
unfoldable pub is_time : Time → Bool
is_time t = not (ltb 23 t.hour || ltb 59 t.minute || ltb 59 t.second || ltb 99 t.hundredth)

-- The calls, with `ClkRecord` of the kernel, which a C_INPUT that fails leaves as it was.
module _ {S : Type 0} (input : S → S × Option ClockRecord)
    (output : S → ClockRecord → S × Bool) where
  abbrev pub received : Option ClockRecord → ClockRecord → ClockRecord
  received none r = r
  received (some x) r = x

  unfoldable pub dos_get_time : S → ClockRecord → S × ClockRecord × Option Time
  dos_get_time s r =
      let (s', o) = input s in
      elim o [
        | none ↦ (s', r, none)
        | some x ↦ (
          s',
          x,
          some (record {
            hour = x.clk_hours;
            minute = x.clk_minutes;
            second = x.clk_seconds;
            hundredth = x.clk_hundredths;
          }),
        )
      ]

  abbrev pub outcome : S × Bool → ClockRecord → S × ClockRecord × Status
  outcome (s, ok) r = (s, r, if ok then success else char_error)

  unfoldable pub dos_set_time : S → ClockRecord → Time → S × ClockRecord × Status
  dos_set_time s r t =
      let (s', o) = input s in
      let x = record (received o r) {
        clk_hours = t.hour;
        clk_minutes = t.minute;
        clk_seconds = t.second;
        clk_hundredths = t.hundredth;
      } in
      if not (is_time t) then (s, r, de_invlddata) else outcome (output s' x) x

  unfoldable pub dos_get_date : S → ClockRecord → S × ClockRecord × Option (Date × ℕ)
  dos_get_date s r =
      let (s', o) = input s in
      elim o [
        | none ↦ (s', r, none)
        | some x ↦ (s', x, some (date_of x.clk_days, day_of_week x.clk_days))
      ]

  unfoldable pub dos_set_date : S → ClockRecord → Date → S × ClockRecord × Status
  dos_set_date s r d =
      let (s', o) = input s in
      let x = record (received o r) {
        clk_days = days_from_year_month_day d.year d.month d.monthday;
      } in
      if not (is_date d) then (s, r, de_invlddata) else outcome (output s' x) x

-- ByteToBcd, InitBcdToByte
unfoldable pub byte_to_bcd : ℕ → ℕ
byte_to_bcd x = x / 10 * 16 + x % 10

unfoldable pub init_bcd_to_byte : ℕ → ℕ
init_bcd_to_byte x = x / 16 % 16 * 10 + x % 16

-- The year that Init_clk_driver sets from the century and year of the BIOS, and the date of its
-- four bytes in the order of DayToBcd.
unfoldable pub init_year : ℕ → ℕ → ℕ
init_year century year =
    let y = 100 * init_bcd_to_byte century + init_bcd_to_byte year in
    if leb 1900 y && ltb y 1980 then y + 100 else y

unfoldable pub init_date : List ℕ → Date
init_date b = record {
  year = init_year (get_or b 3 0) (get_or b 2 0);
  month = init_bcd_to_byte (get_or b 1 0);
  monthday = init_bcd_to_byte (get_or b 0 0);
}

-- DayToBcd, whose bytes are those of a BYTE array.
unfoldable pub day_to_bcd : ℕ → ℕ → ℕ → List ℕ
day_to_bcd mon day yr =
    byte_to_bcd day % 256
    ∷ byte_to_bcd mon % 256
    ∷ byte_to_bcd (yr % 100) % 256
    ∷ byte_to_bcd (yr / 100) % 256
    ∷ []

-- The state of clk_driver: DaysSinceEpoch, the PC clock's ticks and the midnights that the BIOS has
-- counted since it was last asked for them, and what WriteATClock was last given.
pub record Clocks : Type 0 where
  pub days_since_epoch : ℕ
  pub ticks : ℕ
  pub midnights : ℕ
  pub at_days : List ℕ
  pub at_hours : ℕ
  pub at_minutes : ℕ
  pub at_seconds : ℕ

-- The hundredths of a second of a tick count, and the ticks of hundredths, in 32 bits.
unfoldable pub hundredths_of : ℕ → ℕ
hundredths_of pc =
    let t = 5 * pc % 0x1_0000_0000 in
    (t / 59659 * 0x1_0000 + t % 59659 * 0x1_0000 / 59659) % 0x1_0000_0000

unfoldable pub ticks_of : ℕ → ℕ
ticks_of hs = (hs / 0x1_0000 * 59659 + hs % 0x1_0000 * 59659 / 0x1_0000) % 0x1_0000_0000 / 5

-- READPCCLOCK: the ticks are returned, and the midnights, which int 1ah resets, added to DaysSinceEpoch.
-- The carry into the word behind that variable is left out.
unfoldable pub read_pc_clock : Clocks → Clocks × ℕ
read_pc_clock c = (
  record c { days_since_epoch = (c.days_since_epoch + c.midnights) % 0x1_0000; midnights = 0 },
  c.ticks,
)

-- The hours and minutes, in bytes, of a number of minutes in 16 bits, which is signed.
unfoldable pub split_minutes : ℕ → ℕ × ℕ
split_minutes m =
    let n = 0x1_0000 - m in
    if ltb m 0x8000
    then (m / 60 % 256, m % 60)
    else ((256 - n / 60 % 256) % 256, (256 - n % 60) % 256)

-- C_INPUT of clk_driver, for a request of the right length. The fields of the record are bytes.
unfoldable pub clk_input : Clocks → Clocks × Option ClockRecord
clk_input c =
    let (c', pc) = read_pc_clock c in
    let h = hundredths_of pc in
    let (hours, minutes) = split_minutes (h / 6000 % 0x1_0000) in
    let s = h % 6000 in
    (
      c',
      some (record {
        clk_days = c'.days_since_epoch;
        clk_minutes = minutes;
        clk_hours = hours;
        clk_hundredths = s % 100;
        clk_seconds = s / 100;
      }),
    )

-- C_OUTPUT of clk_driver; setting the ticks, the BIOS resets the midnights. Its loop over the months is the one above, up to month 12.
unfoldable pub clk_output : Clocks → ClockRecord → Clocks × Bool
clk_output c r =
    let hs =
      (6000 * (60 * r.clk_hours + r.clk_minutes) + (100 * r.clk_seconds + r.clk_hundredths))
      % 0x1_0000_0000 in
    let d = date_of r.clk_days in
    (
      record {
        days_since_epoch = r.clk_days;
        ticks = ticks_of hs;
        midnights = 0;
        at_days = day_to_bcd d.month d.monthday d.year;
        at_hours = byte_to_bcd r.clk_hours % 256;
        at_minutes = byte_to_bcd r.clk_minutes % 256;
        at_seconds = byte_to_bcd r.clk_seconds % 256;
      },
      true,
    )

-- ===== src/Clock/Next.antt =====
-- The dates of kernel/systime.c against the Gregorian calendar: one day after the other.
use fdpp.Base.{
  ℕ, zero, suc, ◌+◌, ◌-◌, ◌%◌, ◌≤◌, ◌<◌, ◌≡◌, refl, sym, ◌∙◌, inl, inr, Bool, true, false, ◌||◌,
  ◌&&◌, not, List, ltb, ◌==◌, if◌then◌else◌, get_or, arith, dec_lt, ℕ_discrete, ap, ==_iff, lt→ltb,
}
use mathlib.Core.Path.{subst}
use fdpp.Clock.{
  common_days, leap_days, is_leap_year_monthdays, month_days, years, months, Date, date_of,
  day_of_week, year_rounds,
}
use fdpp.Clock.Calendar.{year-kind, years-lt, years-suc, year-length}
use fdpp.Clock.Days.{
  InMonth, InMonth-unique, Found, first_zero, Found-date_of, date_of-Found, month_days-lt,
}

-- The Gregorian calendar.
abbrev pub is_leap : ℕ → Bool
is_leap y = y % 4 == 0 && (not (y % 100 == 0) || y % 400 == 0)

abbrev pub month_length : Bool → ℕ → ℕ
month_length leap m =
    if m == 2
    then (if leap then 29 else 28)
    else if m == 4 || m == 6 || m == 9 || m == 11
    then 30
    else 31

unfoldable pub next_date : Date → Date
next_date d =
    if ltb d.monthday (month_length (is_leap d.year) d.month)
    then record d { monthday = d.monthday + 1 }
    else if ltb d.month 12
    then record d { month = d.month + 1; monthday = 1 }
    else record { year = d.year + 1; month = 1; monthday = 1 }

pub month_length-le : (leap : Bool) (m : ℕ) → month_length leap m ≤ 31
month_length-le leap m = ground arith

-- A test that holds below a bound.
abbrev all_below : ℕ → (ℕ → Bool) → Bool
all_below zero t = true
all_below (suc n) t = t n && all_below n t

all_below-true : (n : ℕ) (t : ℕ → Bool) (i : ℕ) → all_below n t ≡ true → i < n → t i ≡ true
all_below-true zero t i h k = absurd (omega arith)
all_below-true (suc n) t i h k = elim (ℕ_discrete i n) [
  | yes e ↦ rw e (ground (arith, h))
  | no ne ↦ all_below-true n t i (ground (arith, h)) (omega arith)
]

-- The table's months are as long as the calendar's.
abbrev same_lengths : List ℕ → Bool → ℕ → Bool
same_lengths t leap i = get_or t (i + 1) 0 - get_or t i 0 == month_length leap (i + 1)

pub month-length :
    (y m : ℕ)
    → y < 2200
    → 1980 ≤ y
    → 1 ≤ m
    → m ≤ 12
    → month_days y m - month_days y (m - 1) ≡ month_length (is_leap y) m
month-length y m high old low last =
    let back : m - 1 + 1 ≡ m = omega arith in
    elim (year-kind y) [
      | inl (k, e) ↦
          let leap : is_leap y ≡ true = ground (arith, k) in
          let t = all_below-true 12 (same_lengths leap_days true) (m - 1) refl (omega arith) in
          let t' = (==_iff _ _).0 t in
          rw (e, leap)
            (subst
              (λ (i : ℕ). get_or leap_days i 0 - get_or leap_days (m - 1) 0 ≡ month_length true i)
              back t')
      | inr (k, e) ↦
          let leap : is_leap y ≡ false = ground (arith, k) in
          let t = all_below-true 12 (same_lengths common_days false) (m - 1) refl (omega arith) in
          let t' = (==_iff _ _).0 t in
          rw (e, leap)
            (subst
              (λ (i : ℕ).
                get_or common_days i 0 - get_or common_days (m - 1) 0 ≡ month_length false i)
              back t')
    ]

ltb-false : (a b : ℕ) → b ≤ a → ltb a b ≡ false
ltb-false a b h = ground arith

next_same :
    (d : Date)
    → d.monthday < month_length (is_leap d.year) d.month
    → next_date d ≡ record d { monthday = d.monthday + 1 }
unfolding next_date
next_same d h = rw (lt→ltb _ _ h) refl

next_month :
    (d : Date)
    → month_length (is_leap d.year) d.month ≤ d.monthday
    → d.month < 12
    → next_date d ≡ record d { month = d.month + 1; monthday = 1 }
unfolding next_date
next_month d h k = rw (ltb-false _ _ h, lt→ltb _ _ k) refl

next_year :
    (d : Date)
    → month_length (is_leap d.year) d.month ≤ d.monthday
    → 12 ≤ d.month
    → next_date d ≡ record { year = d.year + 1; month = 1; monthday = 1 }
unfolding next_date
next_year d h k = rw (ltb-false _ _ h, ltb-false _ _ k) refl

module _ {n y r m : ℕ} (f : Found n y r m) (low : 1980 ≤ y) (high : y < 2200) where
  abbrev date : Date
  date = record { year = y; month = m; monthday = r - month_days y (m - 1) + 1 }

  long : month_days y m - month_days y (m - 1) ≡ month_length (is_leap y) m
  long = month-length y m high low f.month.low f.month.high

  -- The day behind is in the same year.
  stay :
      r + 1 < month_days y 12
      → years year_rounds 1980 (n + 1) ≡ (y, r + 1)
      → date_of (n + 1) ≡ next_date date
  stay k e =
      let g = Found-date_of (n + 1) y (r + 1) e k in
      let i = f.month in
      elim (dec_lt (r + 1) (month_days y m)) [
        | yes h ↦
            let here : InMonth y (r + 1) m = record {
              from = omega (arith, i.from);
              to = h;
              low = i.low;
              high = i.high;
            } in
            g.date
            ∙ rw (InMonth-unique g.month here) (
                ap (λ (d : ℕ). record date { monthday = d }) (omega (arith, i.from))
                ∙ sym (next_same date (omega (arith, long, i.from, h))))
        | no h ↦
            let last : m < 12 = elim (ℕ_discrete m 12) [
              | yes q ↦
                  absurd
                    (omega (arith, subst (λ (j : ℕ). month_days y j ≤ r + 1) q (omega arith), k))
              | no q ↦ let most = i.high in omega arith
            ] in
            let back : m ≡ m + 1 - 1 = omega arith in
            let here : InMonth y (r + 1) (m + 1) = record {
              from = subst (λ (j : ℕ). month_days y j ≤ r + 1) back (omega arith);
              to =
                  omega
                    (arith, i.to, month_days-lt y m (m + 1) (omega arith) (omega (arith, last)));
              low = omega arith;
              high = omega (arith, last);
            } in
            let one : r + 1 - month_days y (m + 1 - 1) + 1 ≡ 1 =
              subst (λ (j : ℕ). r + 1 - month_days y j + 1 ≡ 1) back (omega (arith, i.to)) in
            g.date
            ∙ rw (InMonth-unique g.month here) (
                ap (λ (d : ℕ). record { year = y; month = m + 1; monthday = d }) one
                ∙ sym (next_month date (omega (arith, long, i.from, h)) last))
      ]

  -- It is the first of the next year.
  turn :
      r + 1 ≡ month_days y 12
      → years year_rounds 1980 (n + 1) ≡ (y + 1, 0)
      → date_of (n + 1) ≡ next_date date
  turn k e =
      let i = f.month in
      let zero_days = first_zero (y + 1) in
      let last : m ≡ 12 = elim (dec_lt m 12) [
        | yes h ↦ absurd (omega (arith, month_days-lt y m 12 h (omega arith), i.to, k))
        | no h ↦ let most = i.high in omega arith
      ] in
      let ends : month_days y m ≡ r + 1 =
        subst (λ (j : ℕ). month_days y j ≡ r + 1) (sym last) (sym k) in
      let g = Found-date_of (n + 1) (y + 1) 0 e (omega (arith, year-length (y + 1))) in
      let here : InMonth (y + 1) 0 1 = record {
        from = omega (arith, zero_days);
        to = omega (arith, zero_days, month_days-lt (y + 1) 0 1 (omega arith) (omega arith));
        low = omega arith;
        high = omega arith;
      } in
      g.date
      ∙ rw (InMonth-unique g.month here) (
          ap (λ (d : ℕ). record { year = y + 1; month = 1; monthday = d })
            (omega (arith, zero_days))
          ∙ sym (next_year date (omega (arith, long, i.from, ends)) (omega (arith, last))))

first_date : date_of 0 ≡ record { year = 1980; month = 1; monthday = 1 }
unfolding date_of years months is_leap_year_monthdays
first_date = refl

next_day : (n : ℕ) → n + 1 < 0x1_0000 → date_of (n + 1) ≡ next_date (date_of n)
next_day n h =
    let f = date_of-Found n (omega arith) in
    let w = years-lt year_rounds 1980 n (omega arith) in
    let high : (years year_rounds 1980 n).0 < 2200 = omega (arith, w.2) in
    rw (f.date) (elim (years-suc year_rounds 1980 n (omega arith)) [
      | inl (k, e) ↦ stay f w.1 high k e
      | inr (k, e) ↦ turn f w.1 high k e
    ])

-- DosGetDate's dates are those of the Gregorian calendar from Tuesday, January 1, 1980, on: for each
-- 16-bit number of days the next number is the next date, and the next day of the week.
pub date_of-next :
    (n : ℕ)
    → n + 1 < 0x1_0000
    → (date_of 0 ≡ record { year = 1980; month = 1; monthday = 1 })
      × (day_of_week 0 ≡ 2)
      × (date_of (n + 1) ≡ next_date (date_of n))
      × (day_of_week (n + 1) ≡ (day_of_week n + 1) % 7)
unfolding day_of_week
date_of-next n h = (first_date, refl, next_day n h, omega arith)

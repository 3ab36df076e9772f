-- ===== src/Clock/Calendar.antt =====
-- The loops over the years and the months of kernel/systime.c, against the days before a year.
use fdpp.Base.{
  ℕ, zero, suc, ◌+◌, ◌-◌, ◌*◌, ◌/◌, ◌%◌, ◌≤◌, ◌<◌, ◌≡◌, ◌≢◌, refl, ◌∙◌, ◌⊎◌, inl, inr, leb, arith,
  by_test, dec_lt, ℕ_discrete, ap,
}
use mathlib.Core.Path.{subst}
use fdpp.Clock.{common_days, leap_days, is_leap_year_monthdays, month_days, years}

abbrev pub IsCommon : ℕ → Type 0
IsCommon y = (y % 4 ≢ 0) ⊎ (y ≡ 2100)

pub year-kind :
    (y : ℕ)
    → (((y % 4 ≡ 0) × (y ≢ 2100)) × (is_leap_year_monthdays y ≡ leap_days))
      ⊎ (IsCommon y × (is_leap_year_monthdays y ≡ common_days))
unfolding is_leap_year_monthdays
year-kind y = ground arith

pub year-length :
    (y : ℕ)
    → (((y % 4 ≡ 0) × (y ≢ 2100)) × (month_days y 12 ≡ 366))
      ⊎ (IsCommon y × (month_days y 12 ≡ 365))
year-length y = elim (year-kind y) [
  | inl (k, e) ↦ inl (k, rw e refl)
  | inr (k, e) ↦ inr (k, rw e refl)
]

-- The days from 1980 to the first of January of a year up to 2100.
abbrev pub before : ℕ → ℕ
before y = (y - 1980) * 365 + (y - 1980 + 3) / 4

before-suc : (y : ℕ) → 1980 ≤ y → y < 2100 → before (y + 1) ≡ before y + month_days y 12
before-suc y low high = omega (arith, year-length y)

before_mono : (d y : ℕ) → 1980 ≤ y → before y ≤ before (y + d)
before_mono d y low = omega arith

years_stop : (f y c : ℕ) → c < month_days y 12 → years f y c ≡ (y, c)
unfolding years
years_stop zero y c h = refl
years_stop (suc f) y c h =
    by_test (λ (p : ℕ × ℕ). p ≡ (y, c)) (leb (month_days y 12) c) _ _
      (λ g. absurd (ground (arith, h, g))) (λ _. refl)

years_step :
    (f y c : ℕ) → month_days y 12 ≤ c → years (suc f) y c ≡ years f (y + 1) (c - month_days y 12)
unfolding years
years_step f y c h =
    by_test (λ (p : ℕ × ℕ). p ≡ years f (y + 1) (c - month_days y 12)) (leb (month_days y 12) c) _ _
      (λ _. refl) (λ g. absurd (ground (arith, h, g)))

-- Up to 2100 the loop finds the year that a day is in.
years_here :
    (f goal c r : ℕ)
    → c + before goal ≡ before goal + r
    → r < month_days goal 12
    → years f goal c ≡ (goal, r)
years_here f goal c r e h = let same : c ≡ r = omega (arith, e) in rw same (years_stop f goal r h)

pub years_lem :
    (f y goal c r : ℕ)
    → 1980 ≤ y
    → y ≤ goal
    → goal ≤ 2100
    → goal ≤ y + f
    → c + before y ≡ before goal + r
    → r < month_days goal 12
    → years f y c ≡ (goal, r)
years_lem zero y goal c r low le high fuel e h =
    let same : goal ≡ y = omega arith in
    rw (← same) (years_here zero goal c r (ap (λ (n : ℕ). c + before n) same ∙ e) h)
years_lem (suc f) y goal c r low le high fuel e h = elim (ℕ_discrete goal y) [
  | yes same ↦ rw (← same) (years_here (suc f) goal c r (ap (λ (n : ℕ). c + before n) same ∙ e) h)
  | no ne ↦
      let next = before-suc y low (omega arith) in
      let up = before_mono (goal - (y + 1)) (y + 1) (omega arith) in
      let whole : y + 1 + (goal - (y + 1)) ≡ goal = omega arith in
      let enough : before (y + 1) ≤ before goal =
        subst (λ (n : ℕ). before (y + 1) ≤ before n) whole up in
      years_step f y c (omega (arith, next, enough, e))
      ∙ years_lem f (y + 1) goal (c - month_days y 12) r (omega arith) (omega arith) high
          (omega arith) (omega (arith, next, enough, e)) h
]

-- A day is in its year, whatever the year.
pub years-lt :
    (f y c : ℕ)
    → c < 365 * (f + 1)
    → let p = years f y c in (p.1 < month_days p.0 12) × (y ≤ p.0) × (p.0 ≤ y + f)
unfolding years
years-lt zero y c h = (omega (arith, year-length y), omega arith, omega arith)
years-lt (suc f) y c h =
    by_test (λ (p : ℕ × ℕ). (p.1 < month_days p.0 12) × (y ≤ p.0) × (p.0 ≤ y + suc f))
      (leb (month_days y 12) c) _ _
      (λ g.
        let ih = years-lt f (y + 1) (c - month_days y 12) (ground (arith, year-length y, h, g)) in
        (ih.0, omega (arith, ih.1), omega (arith, ih.2)))
      (λ g. (ground (arith, g), omega arith, omega arith))

pub years-ge : (f y c : ℕ) → y ≤ (years f y c).0
unfolding years
years-ge zero y c = omega arith
years-ge (suc f) y c =
    by_test (λ (p : ℕ × ℕ). y ≤ p.0) (leb (month_days y 12) c) _ _
      (λ _. omega (arith, years-ge f (y + 1) (c - month_days y 12))) (λ _. omega arith)

-- As long as it stays below 2101, the year found accounts for all days.
pub years-before :
    (f y c : ℕ)
    → 1980 ≤ y
    → (years f y c).0 ≤ 2100
    → c + before y ≡ before (years f y c).0 + (years f y c).1
unfolding years
years-before zero y c low high = omega arith
years-before (suc f) y c low high =
    by_test (λ (p : ℕ × ℕ). p.0 ≤ 2100 → c + before y ≡ before p.0 + p.1) (leb (month_days y 12) c)
      _ _
      (λ g h.
        let ih = years-before f (y + 1) (c - month_days y 12) (omega arith) h in
        let up = years-ge f (y + 1) (c - month_days y 12) in
        let enough : month_days y 12 ≤ c = ground (arith, g) in
        let next = before-suc y low (omega (arith, up, h)) in omega (arith, ih, enough, next))
      (λ _ h. omega arith) high

before-lt : (y goal : ℕ) → 1980 ≤ y → before y < before goal → y < goal
before-lt y goal low h = omega arith

-- A day before a year is found in an earlier one.
pub years-below :
    (f y c goal : ℕ) → 1980 ≤ y → goal ≤ 2100 → c + before y < before goal → (years f y c).0 < goal
unfolding years
years-below zero y c goal low high h = before-lt y goal low (omega arith)
years-below (suc f) y c goal low high h =
    let start = before-lt y goal low (omega arith) in
    by_test (λ (p : ℕ × ℕ). p.0 < goal) (leb (month_days y 12) c) _ _
      (λ g.
        let enough : month_days y 12 ≤ c = ground (arith, g) in
        let next = before-suc y low (omega (arith, start)) in
        years-below f (y + 1) (c - month_days y 12) goal (omega arith) high
          (omega (arith, enough, next)))
      (λ _. start)

-- The next day is in the same year, or the first of the next.
pub years-suc :
    (f y c : ℕ)
    → c + 1 < 365 * (f + 1)
    → let p = years f y c in
      ((p.1 + 1 < month_days p.0 12) × (years f y (c + 1) ≡ (p.0, p.1 + 1)))
      ⊎ ((p.1 + 1 ≡ month_days p.0 12) × (years f y (c + 1) ≡ (p.0 + 1, 0)))
years-suc zero y c h =
    rw (years_stop zero y c (omega (arith, year-length y)))
      (inl (omega (arith, year-length y), years_stop zero y (c + 1) (omega (arith, year-length y))))
years-suc (suc f) y c h = elim (dec_lt c (month_days y 12)) [
  | yes k ↦ elim (ℕ_discrete (c + 1) (month_days y 12)) [
    | yes e ↦
        let over = years_step f y (c + 1) (omega arith) in
        let first : c + 1 - month_days y 12 ≡ 0 = omega arith in
        rw (years_stop (suc f) y c k)
          (inr (e, over ∙ rw first (years_stop f (y + 1) 0 (omega (arith, year-length (y + 1))))))
    | no ne ↦
        rw (years_stop (suc f) y c k)
          (inl (omega arith, years_stop (suc f) y (c + 1) (omega arith)))
  ]
  | no k ↦
      let back : c + 1 - month_days y 12 ≡ c - month_days y 12 + 1 = omega arith in
      let ih = years-suc f (y + 1) (c - month_days y 12) (omega (arith, year-length y)) in
      rw (years_step f y c (omega arith), years_step f y (c + 1) (omega arith), back) ih
]

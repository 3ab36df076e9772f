-- ===== src/Clock/Days.antt =====
-- Day numbers and dates of kernel/systime.c: each determines the other.
use fdpp.Base.{
  ℕ, zero, suc, ◌+◌, ◌-◌, ◌≤◌, ◌<◌, ◌≡◌, refl, sym, inl, inr, List, [], ◌∷◌, leb, get_or, length,
  arith, by_test, ℕ_discrete,
}
use mathlib.Core.Path.{subst}
use fdpp.Clock.{common_days, leap_days, month_days, years, months, date_of, year_rounds}
use fdpp.Clock.Calendar.{year-kind, years-lt}

abbrev Above : ℕ → List ℕ → Type 0
Above x [] = Unit
Above x (y ∷ l) = (x < y) × Above x l

abbrev Rising : List ℕ → Type 0
Rising [] = Unit
Rising (x ∷ l) = Above x l × Rising l

Above-get_or : (x : ℕ) (l : List ℕ) (j : ℕ) → Above x l → j < length l → x < get_or l j 0
Above-get_or x [] j a h = absurd (omega arith)
Above-get_or x (y ∷ l) zero a h = a.0
Above-get_or x (y ∷ l) (suc j) a h = Above-get_or x l j a.1 (omega arith)

get_or-lt : (l : List ℕ) (i j : ℕ) → Rising l → i < j → j < length l → get_or l i 0 < get_or l j 0
get_or-lt [] i j r h k = absurd (omega arith)
get_or-lt (x ∷ l) i zero r h k = absurd (omega arith)
get_or-lt (x ∷ l) zero (suc j) r h k = Above-get_or x l j r.0 (omega arith)
get_or-lt (x ∷ l) (suc i) (suc j) r h k = get_or-lt l i j r.1 (omega arith) (omega arith)

pub month_days-lt : (y i j : ℕ) → i < j → j ≤ 12 → month_days y i < month_days y j
month_days-lt y i j h k = elim (year-kind y) [
  | inl (_, e) ↦ rw e (get_or-lt leap_days i j (omega arith) h (omega arith))
  | inr (_, e) ↦ rw e (get_or-lt common_days i j (omega arith) h (omega arith))
]

-- The loop over the months finds the month that a day of the year is in.
pub record InMonth (y c m : ℕ) : Type 0 where
  pub from : month_days y (m - 1) ≤ c
  pub to : c < month_days y m
  pub low : 1 ≤ m
  pub high : m ≤ 12

months-within :
    (f y m c last : ℕ)
    → 1 ≤ m
    → m + f ≡ last
    → last ≤ 12
    → month_days y (m - 1) ≤ c
    → c < month_days y last
    → InMonth y c (months f y m c)
unfolding months
months-within zero y m c last low e high from to =
    let same : last ≡ m = omega arith in
    record {
      from = from;
      to = subst (λ (n : ℕ). c < month_days y n) same to;
      low = low;
      high = omega arith;
    }
months-within (suc f) y m c last low e high from to =
    by_test (InMonth y c) (leb (month_days y m) c) _ _
      (λ g.
        let back : m ≡ m + 1 - 1 = omega arith in
        let past : month_days y m ≤ c = ground (arith, g) in
        months-within f y (m + 1) c last (omega arith) (omega arith) high
          (subst (λ (n : ℕ). month_days y n ≤ c) back past) to)
      (λ g. record { from = from; to = ground (arith, g); low = low; high = omega arith })

pub first_zero : (y : ℕ) → month_days y 0 ≡ 0
first_zero y = elim (year-kind y) [ inl (_, e) ↦ rw e refl | inr (_, e) ↦ rw e refl ]

pub months-InMonth : (y c : ℕ) → c < month_days y 12 → InMonth y c (months 11 y 1 c)
months-InMonth y c h =
    months-within 11 y 1 c 12 (omega arith) (omega arith) (omega arith)
      (omega (arith, first_zero y)) h

-- A later month begins behind the end of an earlier one.
not-later : {y c m m' : ℕ} → InMonth y c m → InMonth y c m' → ¬ (m < m')
not-later {y} {c} {m} {m'} p q h = elim (ℕ_discrete m (m' - 1)) [
  | yes e ↦
      let at_end : month_days y m ≤ c = subst (λ (n : ℕ). month_days y n ≤ c) (sym e) q.from in
      omega (arith, at_end, p.to)
  | no ne ↦
      let q_high = q.high in
      omega (arith, month_days-lt y m (m' - 1) (omega arith) (omega (arith, q_high)), q.from, p.to)
]

pub InMonth-unique : {y c m m' : ℕ} → InMonth y c m → InMonth y c m' → m ≡ m'
InMonth-unique p q = omega (arith, not-later p q, not-later q p)

-- The date of a day number: the parts that date_of finds.
pub record Found (n y r m : ℕ) : Type 0 where
  pub runs : years year_rounds 1980 n ≡ (y, r)
  pub inside : r < month_days y 12
  pub month : InMonth y r m
  pub date : date_of n ≡ record { year = y; month = m; monthday = r - month_days y (m - 1) + 1 }

pub Found-date_of :
    (n y r : ℕ)
    → years year_rounds 1980 n ≡ (y, r)
    → r < month_days y 12
    → Found n y r (months 11 y 1 r)
unfolding date_of
Found-date_of n y r e h = record {
  runs = e;
  inside = h;
  month = months-InMonth y r h;
  date = rw e refl;
}

pub date_of-Found :
    (n : ℕ)
    → n < 0x1_0000
    → let p = years year_rounds 1980 n in Found n p.0 p.1 (months 11 p.0 1 p.1)
date_of-Found n h =
    let w = years-lt year_rounds 1980 n (omega (arith, h)) in Found-date_of n _ _ refl w.0

-- ===== src/Prelude/Clock/Calendar/Civil.antt =====
-- The calendar's laws: a day is the civil date that is read from it.
use torvix.Prelude.{inr, inl, ◌⊎◌, ◌-◌, refl, ◌≡◌, ℕ, ◌+◌, ◌≤◌, ◌<◌, arith}
use torvix.Prelude.Clock.Calendar.{
  month_of, days_before_month, day_of_month, year_day, month_of_year_day, leap_day, day_of_civil,
  month_start, days_before_year, year_of,
}

-- A day lies in the year that is read from it.
year_of_bounds :
    (n : ℕ) → (days_before_year (year_of n) ≤ n) × (n < days_before_year (year_of n + 1))
unfolding year_of
year_of_bounds n = (omega arith, omega arith)

-- A year has 365 days, and one more if it is a leap year.
pub days_before_year-suc :
    (y : ℕ) → days_before_year (y + 1) ≡ days_before_year y + 365 + leap_day y
days_before_year-suc y = ground arith

year_day_bound : (n : ℕ) → year_day n < 365 + leap_day (year_of n)
unfolding year_day
year_day_bound n = omega (arith, year_of_bounds n, days_before_year-suc (year_of n))

year_start : (n : ℕ) → days_before_year (year_of n) + year_day n ≡ n
unfolding year_day
year_start n = omega (arith, year_of_bounds n)

-- A day of the year lies in the month that is read from it.
month_of_year_day_bounds :
    (l d : ℕ)
    → l ≤ 1
    → d < 365 + l
    → (1 ≤ month_of_year_day l d)
      × (month_of_year_day l d ≤ 12)
      × (days_before_month l (month_of_year_day l d) ≤ d)
      × (d < days_before_month l (month_of_year_day l d) + 31)
month_of_year_day_bounds l d h k = ground arith

pub leap_day-le : (y : ℕ) → leap_day y ≤ 1
leap_day-le y = ground arith

-- A day is the civil date that is read from it.
pub day_of_civil_date : (n : ℕ) → day_of_civil (year_of n) (month_of n) (day_of_month n) ≡ n
unfolding day_of_civil day_of_month
day_of_civil_date n = omega (
  arith,
  year_start n,
  month_of_year_day_bounds (leap_day (year_of n)) (year_day n) (leap_day-le (year_of n))
      (year_day_bound n),
)

-- The first of a day's month is no later, and less than 31 days back.
pub month_start_bounds : (n : ℕ) → (month_start n ≤ n) × (n < month_start n + 31)
unfolding month_start
month_start_bounds n = omega (
  arith,
  year_start n,
  month_of_year_day_bounds (leap_day (year_of n)) (year_day n) (leap_day-le (year_of n))
      (year_day_bound n),
)

days_before_year_mono : (y z : ℕ) → y ≤ z → days_before_year y ≤ days_before_year z
days_before_year_mono y z h = omega arith

-- A value lies between two steps of a monotone function in one place only.
squeeze :
    (f : ℕ → ℕ)
    → ((y z : ℕ) → y ≤ z → f y ≤ f z)
    → (a y n : ℕ) → f a ≤ n
    → n < f (a + 1)
    → f y ≤ n
    → n < f (y + 1)
    → a ≡ y
squeeze f mono a y n p q r s = elim (three a y) [
  | inl e ↦ e
  | inr (inl h) ↦ absurd (omega (arith, mono (a + 1) y (omega arith)))
  | inr (inr h) ↦ absurd (omega (arith, mono (y + 1) a (omega arith)))
]
  where
    three : (x z : ℕ) → (x ≡ z) ⊎ ((x < z) ⊎ (z < x))
    three x z = grind arith

-- The year is determined by the days that it spans.
pub year_of_unique :
    (y n : ℕ) → days_before_year y ≤ n → n < days_before_year (y + 1) → year_of n ≡ y
year_of_unique y n h k =
    squeeze days_before_year days_before_year_mono (year_of n) y n (year_of_bounds n).0
      (year_of_bounds n).1 h k

pub month_of_lem : (n : ℕ) → month_of n ≡ month_of_year_day (leap_day (year_of n)) (year_day n)
unfolding month_of
month_of_lem n = refl

day_of_month_lem :
    (n : ℕ)
    → day_of_month n ≡ year_day n - days_before_month (leap_day (year_of n)) (month_of n) + 1
unfolding day_of_month
day_of_month_lem n = refl

month_of_first :
    (l m : ℕ) → l ≤ 1 → 1 ≤ m → m ≤ 12 → month_of_year_day l (days_before_month l m) ≡ m
month_of_first l m h a b = ground arith

month_fits : (l m : ℕ) → l ≤ 1 → m ≤ 12 → days_before_month l m < 365 + l
month_fits l m h b = ground arith

-- The date that is read from the first of a month.
module _ (y m : ℕ) (a : 1 ≤ m) (b : m ≤ 12) where
  pub year_of_first : year_of (day_of_civil y m 1) ≡ y
  unfolding day_of_civil
  year_of_first =
      year_of_unique y _ (omega arith)
        (omega (arith, days_before_year-suc y, month_fits (leap_day y) m (leap_day-le y) b))

  year_day_of_first : year_day (day_of_civil y m 1) ≡ days_before_month (leap_day y) m
  unfolding year_day
  year_day_of_first = rw year_of_first (unfold day_of_civil in omega arith)

  pub month_of_first_day : month_of (day_of_civil y m 1) ≡ m
  month_of_first_day =
      rw (month_of_lem, year_of_first, year_day_of_first)
        (month_of_first (leap_day y) m (leap_day-le y) a b)

  pub day_of_first : day_of_month (day_of_civil y m 1) ≡ 1
  day_of_first =
      rw (day_of_month_lem, year_of_first, month_of_first_day, year_day_of_first) (omega arith)

pub month_of_bounds : (n : ℕ) → (1 ≤ month_of n) × (month_of n ≤ 12)
month_of_bounds n =
    let b =
      month_of_year_day_bounds (leap_day (year_of n)) (year_day n) (leap_day-le (year_of n))
        (year_day_bound n) in
    rw month_of_lem (b.0, b.1)

pub month_start_lem : (n : ℕ) → month_start n ≡ day_of_civil (year_of n) (month_of n) 1
unfolding month_start
month_start_lem n = refl

-- The first of a month is the first of its own month.
pub month_start_idem : (n : ℕ) → month_start (month_start n) ≡ month_start n
month_start_idem n =
    let (a, b) = month_of_bounds n in
    rw (month_start_lem n, month_start_lem, year_of_first _ _ a b, month_of_first_day _ _ a b)

pub day_of_month-month_start : (n : ℕ) → day_of_month (month_start n) ≡ 1
day_of_month-month_start n =
    let (a, b) = month_of_bounds n in rw (month_start_lem n) (day_of_first _ _ a b)

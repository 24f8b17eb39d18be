-- ===== src/Prelude/Clock/Calendar/Months.antt =====
-- Going back a month from the first of one gives the first of the month before.
use torvix.Prelude.{
  ◌=ℕ◌, if◌then◌else◌, ℕ, ◌+◌, ◌-◌, ◌≤◌, ◌<◌, ◌≡◌, refl, sym, subst, ◌∙◌, ◌⊎◌, inl, inr, arith,
}
use torvix.Prelude.Clock.Calendar.{
  leap_day, days_before_year, days_before_month, month_of_year_day, year_of, year_day, month_of,
  day_of_month, day_of_civil, month_start, month_back,
}
use torvix.Prelude.Clock.Calendar.Civil.{
  year_of_unique, month_of_lem, month_start_lem, leap_day-le, days_before_year-suc, month_of_bounds,
  year_of_first, month_of_first_day, day_of_first,
}

-- The days of a year before the end of a month.
abbrev month_end : ℕ → ℕ → ℕ
month_end l m = if m =ℕ 12 then 365 + l else days_before_month l (m + 1)

month_end_bounds :
    (l m : ℕ)
    → l ≤ 1
    → 1 ≤ m
    → m ≤ 12
    → (days_before_month l m < month_end l m) × (month_end l m ≤ 365 + l)
month_end_bounds l m h a b = ground arith

month_of_unique :
    (l m d : ℕ)
    → l ≤ 1
    → 1 ≤ m
    → m ≤ 12
    → days_before_month l m ≤ d
    → d < month_end l m
    → month_of_year_day l d ≡ m
month_of_unique l m d h a b p q = ground arith

module _ (y m n : ℕ) (a : 1 ≤ m) (b : m ≤ 12) (from : day_of_civil y m 1 ≤ n)
    (to : n < days_before_year y + month_end (leap_day y) m) where
  year_within : year_of n ≡ y
  unfolding day_of_civil
  year_within =
      year_of_unique y n (omega arith)
        (omega (arith, days_before_year-suc y, month_end_bounds (leap_day y) m (leap_day-le y) a b))

  year_day_within : year_day n ≡ n - days_before_year y
  unfolding year_day
  year_day_within = rw year_within refl

  month_within : month_of n ≡ m
  month_within =
      rw (month_of_lem, year_within, year_day_within)
        (month_of_unique (leap_day y) m (n - days_before_year y) (leap_day-le y) a b
          (unfold day_of_civil in omega arith) (unfold day_of_civil in omega arith))

  -- Every day of a month has the month's first as its month's first.
  month_start_within : month_start n ≡ day_of_civil y m 1
  month_start_within = rw (month_start_lem, year_within, month_within) refl

month_back_lem :
    (n : ℕ)
    → month_back n ≡ (
        if month_of n =ℕ 1
        then day_of_civil (year_of n - 1) 12 (day_of_month n)
        else day_of_civil (year_of n) (month_of n - 1) (day_of_month n))
unfolding month_back
month_back_lem n = refl

-- From the first of a month of the year y, past January of the first year.
month_back_of_first :
    (y m : ℕ)
    → 1 ≤ m
    → m ≤ 12
    → month_back (day_of_civil y m 1)
      ≡ (if m =ℕ 1 then day_of_civil (y - 1) 12 1 else day_of_civil y (m - 1) 1)
month_back_of_first y m a b =
    rw (month_back_lem, year_of_first y m a b, month_of_first_day y m a b, day_of_first y m a b)
      refl

first_or_later : (k : ℕ) → 1 ≤ k → (k ≡ 1) ⊎ (2 ≤ k)
first_or_later k h = grind arith

-- The first of the month before, its end, and its bounds, by cases.
january_back : (y m : ℕ) → m ≡ 1 → month_back (day_of_civil y m 1) ≡ day_of_civil (y - 1) 12 1
january_back y m e = month_back_of_first y m (omega arith) (omega arith) ∙ ground arith

later_back : (y m : ℕ) → 2 ≤ m → m ≤ 12 → month_back (day_of_civil y m 1) ≡ day_of_civil y (m - 1) 1
later_back y m h b = month_back_of_first y m (omega arith) b ∙ ground arith

december_end :
    (y m : ℕ)
    → 1 ≤ y
    → m ≡ 1
    → days_before_year (y - 1) + month_end (leap_day (y - 1)) 12 ≡ day_of_civil y m 1
unfolding day_of_civil
december_end y m h e =
    let s : days_before_year (y - 1 + 1) ≡ days_before_year (y - 1) + 365 + leap_day (y - 1) =
      days_before_year-suc (y - 1) in
    let back : y - 1 + 1 ≡ y = omega arith in
    let s' : days_before_year y ≡ days_before_year (y - 1) + 365 + leap_day (y - 1) =
      subst (λ (k : ℕ). days_before_year k ≡ days_before_year (y - 1) + 365 + leap_day (y - 1)) back
        s in
    let z : days_before_month (leap_day y) m ≡ 0 = ground arith in omega arith

later_end :
    (y m : ℕ)
    → 2 ≤ m
    → m ≤ 12
    → days_before_year y + month_end (leap_day y) (m - 1) ≡ day_of_civil y m 1
unfolding day_of_civil
later_end y m h b =
    let back : m - 1 + 1 ≡ m = omega arith in
    let e : month_end (leap_day y) (m - 1) ≡ days_before_month (leap_day y) (m - 1 + 1) =
      ground arith in
    let e' : month_end (leap_day y) (m - 1) ≡ days_before_month (leap_day y) m =
      subst (λ (k : ℕ). month_end (leap_day y) (m - 1) ≡ days_before_month (leap_day y) k) back e in
    omega arith

-- The days from the first of the month before up to the first of a month all belong to it.
month_before :
    (y m n : ℕ)
    → 1 ≤ m
    → m ≤ 12
    → 1 ≤ y
    → month_back (day_of_civil y m 1) ≤ n
    → n < day_of_civil y m 1
    → month_start n ≡ month_back (day_of_civil y m 1)
month_before y m n a b c p q = elim (first_or_later m a) [
  | inl e ↦
      let back = january_back y m e in
      month_start_within (y - 1) 12 n (omega arith) (omega arith) (rw back at p)
        (omega (arith, december_end y m c e))
      ∙ sym back
  | inr h ↦
      let back = later_back y m h b in
      month_start_within y (m - 1) n (omega arith) (omega arith) (rw back at p)
        (omega (arith, later_end y m h b))
      ∙ sym back
]

first_before_end :
    (y m : ℕ) → 1 ≤ m → m ≤ 12 → day_of_civil y m 1 < days_before_year y + month_end (leap_day y) m
unfolding day_of_civil
first_before_end y m a b = omega (arith, month_end_bounds (leap_day y) m (leap_day-le y) a b)

month_back-lt :
    (y m : ℕ) → 1 ≤ m → m ≤ 12 → 1 ≤ y → month_back (day_of_civil y m 1) < day_of_civil y m 1
month_back-lt y m a b c = elim (first_or_later m a) [
  | inl e ↦
      rw (january_back y m e) (
        omega
          (arith, december_end y m c e, first_before_end (y - 1) 12 (omega arith) (omega arith)))
  | inr h ↦
      rw (later_back y m h b)
        (omega (arith, later_end y m h b, first_before_end y (m - 1) (omega arith) (omega arith)))
]

-- Going back a month from the first of one: the day is earlier, and every day from it up to the one
-- started from belongs to the same month, of which it is the first.
pub month_back_before :
    (n : ℕ)
    → 1 ≤ year_of n
    → (month_back (month_start n) < month_start n)
      × ((k : ℕ)
          → month_back (month_start n) ≤ k
          → k < month_start n
          → month_start k ≡ month_back (month_start n))
month_back_before n c =
    let (a, b) = month_of_bounds n in
    rw (month_start_lem n) (month_back-lt _ _ a b c, λ k p q. month_before _ _ k a b c p q)

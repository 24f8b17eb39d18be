-- ===== src/Reporting/Completeness.antt =====
-- What it means that a range has daily data, and that the loop over the days ends.
use torvix.Prelude.{
  ltb, if◌then◌else◌, Bool-cases, ℕ, zero, suc, ◌+◌, ◌-◌, ◌≤◌, ◌<◌, ◌≡◌, refl, sym, ap, subst, ◌∙◌,
  ◌↔◌, ◌⊎◌, inl, inr, Bool, true, false, List, arith,
}
use torvix.Prelude.Clock.{Time, before, Location}
use torvix.Prelude.Int.{pos}
use torvix.Prelude.Float64.{Float64}
use torvix.Prelude.Result.{Result, ok, err, ◌>>=◌}
use torvix.Domain.{AggregatedCost}
use torvix.Reporting.Service.{Repository}
use torvix.Reporting.Building.{days_have_data, range_has_daily_data, has_rows}
use torvix.Reporting.Windows.{IsRegular, add_civil_days-midnight}
use torvix.Reporting.Ranges.{local_day_start}

module _ {F W : Type 0} ⦃fl : Float64 F⦄ (repo : Repository F W) (loc : Location)
    (reg : IsRegular loc) (w : W) where
  open repo use {aggregate_costs}

  abbrev rows_of : ℕ → Result (List (AggregatedCost F))
  rows_of d = aggregate_costs (loc.date d 0) (loc.date (d + 1) 0) "daily" w

  -- The database answers, for the civil day d, with at least one row.
  abbrev pub HasRows : ℕ → Type 0
  HasRows d = (rows : List (AggregatedCost F)) × (rows_of d ≡ ok rows) × (has_rows rows ≡ true)

  -- Every civil day from `d` to before `e` has rows.
  abbrev pub Complete : ℕ → ℕ → Type 0
  Complete d e = (k : ℕ) → d ≤ k → k < e → HasRows k

  before_dates : (d e : ℕ) → d < e → before (loc.date d 0) (loc.date e 0) ≡ true
  before_dates d e h = elim (Bool-cases (before (loc.date d 0) (loc.date e 0))) [
    | inl l ↦ l
    | inr g ↦
        let same : loc.date d 0 ≡ loc.date e 0 = ground (arith, reg.date_mono d e (omega arith)) in
        let days : d ≡ e =
          sym (reg.day_of_date d) ∙ ap (λ (t : Time). loc.civil_day t) same ∙ reg.day_of_date e in
        absurd (omega arith)
  ]

  not_before_dates : (d e : ℕ) → e ≤ d → before (loc.date d 0) (loc.date e 0) ≡ false
  not_before_dates d e h = ground (arith, reg.date_mono e d h)

  abbrev rest_of : ℕ → ℕ → ℕ → List (AggregatedCost F) → Result Bool
  rest_of fuel d e rows =
      if has_rows rows
      then days_have_data repo fuel loc (loc.date (d + 1) 0) (loc.date e 0) w
      else ok false

  round :
      (fuel d e : ℕ)
      → d < e
      → days_have_data repo (suc fuel) loc (loc.date d 0) (loc.date e 0) w
        ≡ (rows_of d >>= rest_of fuel d e)
  unfolding days_have_data
  round fuel d e h = rw (add_civil_days-midnight loc reg d (pos 1), before_dates d e h) refl

  no_round :
      (fuel d e : ℕ)
      → e ≤ d
      → days_have_data repo fuel loc (loc.date d 0) (loc.date e 0) w ≡ ok true
  unfolding days_have_data
  no_round zero d e h = refl
  no_round (suc fuel) d e h = rw (not_before_dates d e h) refl

  round_cases :
      (fuel d e : ℕ) (r : Result (List (AggregatedCost F)))
      → rows_of d ≡ r
      → (days_have_data repo fuel loc (loc.date (d + 1) 0) (loc.date e 0) w ≡ ok true)
        ↔ Complete (d + 1) e
      → d < e
      → ((r >>= rest_of fuel d e) ≡ ok true) ↔ Complete d e
  round_cases fuel d e (err m) at ih h =
      ((λ q. cc), (λ c. let (rows, found, some_row) = c d (omega arith) h in cc))
  round_cases fuel d e (ok rows) at ih h = elim (Bool-cases (has_rows rows)) [
    | inl some_row ↦ rw some_row (
      (λ q k lo hi. elim (ℕ-cases d k lo) [
        | inl now ↦ subst HasRows now (rows, at, some_row)
        | inr past ↦ ih.0 q k past hi
      ]),
      (λ c. ih.1 (λ k lo hi. c k (omega arith) hi)),
    )
    | inr no_row ↦
        rw no_row ((λ q. cc), (λ c. let (rows', found, some_row) = c d (omega arith) h in cc))
  ]
    where
      ℕ-cases : (d k : ℕ) → d ≤ k → (d ≡ k) ⊎ (d + 1 ≤ k)
      ℕ-cases d k h = omega arith

  days_have_data_lem :
      (fuel d e : ℕ)
      → e < d + fuel
      → (days_have_data repo fuel loc (loc.date d 0) (loc.date e 0) w ≡ ok true) ↔ Complete d e
  days_have_data_lem zero d e h =
      ((λ q k lo hi. absurd (omega arith)), (λ c. no_round zero d e (omega arith)))
  days_have_data_lem (suc fuel) d e h = elim (Bool-cases (ltb d e)) [
    | inl more ↦ rw (round fuel d e (ground arith)) (
        round_cases fuel d e (rows_of d) refl (days_have_data_lem fuel (d + 1) e (omega arith))
          (ground arith))
    | inr none_left ↦
        ((λ q k lo hi. absurd (ground arith)), (λ c. no_round (suc fuel) d e (ground arith)))
  ]

  -- In a regular location, the range has daily data exactly when the database has rows for each of its civil days, from
  -- the day of its start up to the day before its end: the fuel is enough for every range.
  pub range_has_daily_data-Complete :
      (from to : Time)
      → (range_has_daily_data repo loc (from, to) w ≡ ok true)
        ↔ Complete (loc.civil_day from) (loc.civil_day to)
  unfolding range_has_daily_data local_day_start
  range_has_daily_data-Complete from to =
      days_have_data_lem (loc.civil_day to - loc.civil_day from + 1) (loc.civil_day from)
        (loc.civil_day to) (omega arith)

-- ===== src/Oci/Search.antt =====
-- oci/collector.go: findCostReportStartNumber and binarySearchCostReportStart. Numbers of reports are
-- 64-bit, and their sums wrap around. A result that is not ok is `none`.
pub mod Recent
pub mod Skipped
use torvix.Prelude.{
  ltb, leb, ◌=ℕ◌, if◌then◌else◌, ltb→lt, lt→ltb, leb→le, le→leb, tests, Bool-cases, Option-cases,
  length, take, drop, keep, any, All, length-append, length-take, length-drop, length-keep,
  length-map, All-append, All-map, ℕ, zero, suc, ◌+◌, ◌-◌, ◌*◌, ◌/◌, ◌%◌, ◌^◌, ◌≤◌, ◌<◌, min,
  String, ◌≡◌, refl, sym, ap, subst, ◌∙◌, ◌≢◌, ◌↔◌, ◌⊎◌, inl, inr, Bool, true, false, not, ◌&&◌,
  ◌||◌, Option, none, some, List, [], ◌∷◌, map, arith, ◌==◌, eq_iff, eq_refl,
}
use torvix.Prelude.Clock.{
  Time, second, hour, day, zero_time, is_zero, before, after, add_days, truncate_day, Location, utc,
  weekday, unix_epoch,
}
use torvix.Prelude.Exec.{Exec, pure, ◌>>=◌}
use torvix.Oci.Names.{cost_report_start_name, cost_report_number}
use torvix.Oci.Objects.{ObjectInfo, Client, first_cost_report_at_or_after}

abbrev pub max_probes : ℕ
max_probes = 32

abbrev initial_step : ℕ
initial_step = 100_000

-- The sum of two numbers of 64 bits.
infixl 65 ◌+₆₄◌
abbrev pub ◌+₆₄◌ : ℕ → ℕ → ℕ
a +₆₄ b = (a + b) % 2 ^ 64

-- The difference of two numbers of 64 bits.
infixl 65 ◌-₆₄◌
abbrev pub ◌-₆₄◌ : ℕ → ℕ → ℕ
a -₆₄ b = (a + (2 ^ 64 - b % 2 ^ 64)) % 2 ^ 64

-- What an object of a probe tells: that the search is over, or where it goes on.
pub data Probe : Type 0 where
  over : Option ℕ → Probe
  narrow : (low high best : ℕ) → Probe

-- The number of a report with a time, and whether the time is before `since`.
abbrev pub dated : ObjectInfo → Option ℕ
dated o = if is_zero o.last_modified then none else cost_report_number o.name

abbrev pub narrowed : Time → (low high best mid : ℕ) → ObjectInfo → Option ℕ → Probe
narrowed since low high best mid o none = over none
narrowed since low high best mid o (some number) =
    if before o.last_modified since
    then narrow (if leb number low then mid else number) high best
    else narrow low number number

abbrev pub probed : Time → (low high best mid : ℕ) → Option ObjectInfo → Probe
probed since low high best mid none = narrow low mid best
probed since low high best mid (some o) = narrowed since low high best mid o (dated o)

-- What an object of the search upwards tells: that there is no result, that a report that is not
-- before `since` is found, or from where to climb on.
pub data Raise : Type 0 where
  stop : Raise
  found climb : ℕ → Raise

abbrev pub raised_by : Time → (low high : ℕ) → ObjectInfo → Option ℕ → Raise
raised_by since low high o none = stop
raised_by since low high o (some number) =
    if before o.last_modified since
    then climb (if leb number low then high else number)
    else found number

abbrev pub raised : Time → (low high : ℕ) → Option ObjectInfo → Raise
raised since low high none = stop
raised since low high (some o) = raised_by since low high o (dated o)

-- What the first report of all tells.
abbrev pub first_by : Time → ObjectInfo → Option ℕ → Raise
first_by since o none = stop
first_by since o (some number) = if before o.last_modified since then climb number else found number

abbrev pub first_number : Time → Option ObjectInfo → Raise
first_number since none = stop
first_number since (some o) = first_by since o (dated o)

abbrev pub middle : ℕ → ℕ → ℕ
middle low high = low +₆₄ ((high -₆₄ low) / 2)

module _ {W : Type 0} where
  abbrev pub go_on : (ℕ → ℕ → ℕ → Exec W (Option ℕ)) → Probe → Exec W (Option ℕ)
  go_on next (over r) = pure r
  go_on next (narrow low high best) = next low high best

  abbrev pub climb_on :
      (ℕ → Exec W (Option ℕ)) → (ℕ → Exec W (Option ℕ)) → Raise → Exec W (Option ℕ)
  climb_on search next stop = pure none
  climb_on search next (found number) = search number
  climb_on search next (climb low) = next low

module _ {W : Type 0} (client : Client W) (since : Time) where
  -- The loop of binarySearchCostReportStart, with the probes that are left.
  unfoldable pub binary_search : (probes low high best : ℕ) → Exec W (Option ℕ)
  unfolding first_cost_report_at_or_after cost_report_start_name
  binary_search zero low high best = pure (some best)
  binary_search (suc k) low high best =
      let mid = middle low high in
      if not (ltb (low +₆₄ 1) high) then pure (some best) else do
        object ← first_cost_report_at_or_after client (cost_report_start_name mid)
        go_on (binary_search k) (probed since low high best mid object)

  -- binarySearchCostReportStart
  unfoldable pub binary_search_cost_report_start : (low high : ℕ) → Exec W (Option ℕ)
  unfolding binary_search
  binary_search_cost_report_start low high = binary_search max_probes low high high

  -- The loop of findCostReportStartNumber, with the probes that are left.
  unfoldable pub search_upwards : (probes low high : ℕ) → Exec W (Option ℕ)
  unfolding first_cost_report_at_or_after cost_report_start_name binary_search_cost_report_start
  search_upwards zero low high = pure none
  search_upwards (suc k) low high = do
    object ← first_cost_report_at_or_after client (cost_report_start_name high)
    climb_on (binary_search_cost_report_start low)
        (λ l. search_upwards k l (l +₆₄ (initial_step * 2 ^ min (max_probes - k) 20)))
        (raised since low high object)

  abbrev from_first : Option ObjectInfo → Exec W (Option ℕ)
  unfolding search_upwards
  from_first object =
      climb_on (λ number. pure (some number))
        (λ number. search_upwards max_probes number (number +₆₄ initial_step))
        (first_number since object)

  -- findCostReportStartNumber
  unfoldable pub find_cost_report_start_number : Exec W (Option ℕ)
  unfolding from_first first_cost_report_at_or_after
  find_cost_report_start_number = do
    object ← first_cost_report_at_or_after client ""
    from_first object

-- ===== src/Schedule/Cron.antt =====
-- reportCron and its parser. A set of weekdays is the list of its days, Sunday being 0; the empty
-- list is the nil map, which stands for every day.
use torvix.Prelude.{
  ltb, ◌=ℕ◌, if◌then◌else◌, ℕ, zero, suc, ◌+◌, ◌*◌, String, Bool, true, false, not, ◌&&◌, ◌||◌,
  Option, none, some, List, [], ◌∷◌, ◌==◌,
}
use torvix.Prelude.Int.{ℤ, pos, negsuc}
use torvix.Prelude.Text.{trim_space}
use torvix.Prelude.Clock.{Time, Location, utc, second, weekday, after}
use torvix.Prelude.Words.{fields, split, atoi}

pub data CronError : Type 0 where
  field_count : CronError
  not_exact out_of_range : String → CronError
  weekday_not_integer weekday_out_of_range days_and_months : CronError

pub data Parsed (A : Type 0) : Type 0 where
  parsed : A → Parsed A
  refused : CronError → Parsed A

infixl 5 ◌>>=◌
abbrev pub ◌>>=◌ : {A B : Type 0} → Parsed A → (A → Parsed B) → Parsed B
parsed a >>= f = f a
refused e >>= f = refused e

pub record Cron : Type 0 where
  pub minute : ℕ
  pub hour : ℕ
  pub weekdays : List ℕ
  pub location : Location

abbrev pub in_range : ℕ → ℕ → String → ℤ → Parsed ℕ
in_range low high name (negsuc n) = refused (out_of_range name)
in_range low high name (pos n) =
    if ltb n low || ltb high n then refused (out_of_range name) else parsed n

abbrev pub exact : ℕ → ℕ → String → Option ℤ → Parsed ℕ
exact low high name none = refused (not_exact name)
exact low high name (some n) = in_range low high name n

-- parseExactCronInt; both bounds of the source are natural numbers
unfoldable pub parse_exact_cron_int : String → ℕ → ℕ → String → Parsed ℕ
parse_exact_cron_int value low high name = exact low high name (atoi value)

-- One weekday, 7 being Sunday too.
abbrev pub day_number : Option ℤ → Parsed ℕ
day_number none = refused weekday_not_integer
day_number (some (negsuc n)) = refused weekday_out_of_range
day_number (some (pos n)) =
    if ltb 7 n then refused weekday_out_of_range else parsed (if n =ℕ 7 then 0 else n)

unfoldable pub parse_days : List String → Parsed (List ℕ)
unfolding atoi
parse_days [] = parsed []
parse_days (part ∷ rest) =
    day_number (atoi (trim_space part)) >>= λ d. parse_days rest >>= λ ds. parsed (d ∷ ds)

-- parseCronWeekdays
unfoldable pub parse_cron_weekdays : String → Parsed (List ℕ)
unfolding parse_days split
parse_cron_weekdays value = if value == "*" then parsed [] else parse_days (split "," value)

abbrev pub or_utc : Option Location → Location
or_utc none = utc
or_utc (some loc) = loc

abbrev pub of_fields : Location → List String → Parsed Cron
of_fields loc (minutes ∷ hours ∷ days ∷ months ∷ weekdays ∷ []) = do
  minute ← parse_exact_cron_int minutes 0 59 "minute"
  hour ← parse_exact_cron_int hours 0 23 "hour"
  on ← parse_cron_weekdays weekdays
  if not (days == "*") || not (months == "*")
      then refused days_and_months
      else parsed (record { minute = minute; hour = hour; weekdays = on; location = loc })
of_fields loc _ = refused field_count

-- parseReportCron; no location is UTC
unfoldable pub parse_report_cron : String → Option Location → Parsed Cron
unfolding parse_exact_cron_int parse_cron_weekdays fields
parse_report_cron expr location = of_fields (or_utc location) (fields expr)

abbrev pub contains_day : ℕ → List ℕ → Bool
contains_day d [] = false
contains_day d (x ∷ xs) = x =ℕ d || contains_day d xs

abbrev pub matches_day : List ℕ → ℕ → Bool
matches_day [] d = true
matches_day (x ∷ xs) d = contains_day d (x ∷ xs)

-- matchesWeekday
unfoldable pub matches_weekday : Cron → ℕ → Bool
matches_weekday c d = matches_day c.weekdays d

-- The time of day of the schedule, in nanoseconds since midnight.
abbrev pub clock_of : Cron → ℕ
clock_of c = (c.hour * 60 + c.minute) * 60 * second

-- The candidate of the day d.
abbrev pub candidate : Cron → ℕ → Time
candidate c d = c.location.date d (clock_of c)

-- The loop of Next, from a candidate.
unfoldable pub next_from : ℕ → Cron → Time → Time → Time
next_from zero c t now = t
next_from (suc n) c t now =
    let rest =
      next_from n c (c.location.date (c.location.civil_day t + 1) (c.location.civil_clock t)) now in
    if after t now && matches_weekday c (weekday (c.location.civil_day t)) then t else rest

-- Next
unfoldable pub next : Cron → Time → Time
unfolding next_from
next c now = next_from 8 c (candidate c (c.location.civil_day now)) now

-- DueAtOrBefore
unfoldable pub due_at_or_before : Cron → Time → Bool
unfolding matches_weekday
due_at_or_before c now =
    let t = candidate c (c.location.civil_day now) in
    not (after t now) && matches_weekday c (weekday (c.location.civil_day t))

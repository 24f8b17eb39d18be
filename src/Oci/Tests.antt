-- ===== src/Oci/Tests.antt =====
-- The search and the listing at a bucket of three reports: one of the first hour, and two of later ones.
use torvix.Prelude.{
  ◌==◌, if◌then◌else◌, none, Option, length-take, arith, inr, inl, Bool-cases, ◌≤◌, All, length,
  ◌<◌, Bool, String, take, keep, ℕ, ◌+◌, ◌*◌, ◌≡◌, refl, not, some, List, [], ◌∷◌,
}
use torvix.Prelude.Clock.{day, Time, hour, unix_epoch}
use torvix.Prelude.Exec.{pure-Ensures, Ensures, ◌>>=◌}
use torvix.Prelude.Result.{ok}
use torvix.Prelude.Words.{has_prefix}
use torvix.Oci.Names.{cost_report_start_name, cost_report_number, cost_report_prefix}
use torvix.Oci.Names.RoundTrip.{cost_report_number-start_name}
use torvix.Oci.Objects.{ObjectInfo, Client, first_cost_report_at_or_after}
use torvix.Oci.Search.{find_cost_report_start_number, binary_search_cost_report_start}
use torvix.Oci.Search.Recent.{Found, find_cost_report_start_number-Finds}
use torvix.Oci.Search.Skipped.{binary_search_cost_report_start-stays}
use torvix.Oci.Listing.{list_objects_from}
use torvix.Oci.Listing.Limit.{IsListed, list_objects_from-IsListed}
use torvix.Oci.Parser.{build_header_index, parse_time_field, parse_row}
use torvix.Oci.Parser.Filled.{FirstPresent, start_columns, IsParsed, parse_row-IsParsed}
use torvix.Domain.{RawBillingRecord}
use torvix.Prelude.Int.{ℤ}
use torvix.Prelude.Whole.{whole_floats}
use mathlib.Core.Option
use torvix.Postgres.Migrator.{before as name_before}

abbrev report : ℕ → Time → ObjectInfo
unfolding cost_report_start_name
report n t = record {
  name = cost_report_start_name n;
  etag = "";
  size = 1;
  last_modified = unix_epoch + t * hour;
}

abbrev bucket : List ObjectInfo
bucket = report 7 1 ∷ report 17 5 ∷ report 2_000_007 6 ∷ []

-- The client gives the objects whose name does not come before the start.
abbrev client : Client Unit
client = record {
  list_objects = λ prefix limit w. (ok bucket, w);
  list_objects_page = λ prefix start limit w.
      (ok (take limit (keep (λ o. not (name_before o.name start)) bucket), ""), w);
}

abbrev since : Time
since = unix_epoch + 4 * hour

number_runs : cost_report_number "reports/cost-csv/0000000000000017-0001.csv.gz" ≡ some 17
unfolding cost_report_number
number_runs = refl

-- The report of number 17 is recent, and is not found.
search_skips : find_cost_report_start_number client since tt ≡ (ok (some 2_000_007), tt)
unfolding find_cost_report_start_number ◌>>=◌ report has_prefix cost_report_number
search_skips = refl

abbrev IsFilled : ObjectInfo → Type 0
IsFilled o = 0 < o.size

first_kept :
    (p : ObjectInfo → Bool) (os : List ObjectInfo)
    → All IsFilled os
    → All IsFilled (take 1 (keep p os))
first_kept p [] h = tt
first_kept p (o ∷ os) h = elim (Bool-cases (p o)) [
  | inl e ↦ rw e (h.0, tt)
  | inr e ↦ rw e (first_kept p os h.1)
]

filled_pages :
    (start : String) (w : Unit {0})
    → Ensures
        (λ page w'. All IsFilled page.0)
        (client.list_objects_page cost_report_prefix start 1 w)
unfolding report
filled_pages start w = pure-Ensures _ w (
    first_kept (λ o. not (name_before o.name start)) bucket
      (omega arith, (omega arith, (omega arith, tt))))

find_cost_report_start_number-Finds_example :
    Ensures
      (Found IsFilled since client filled_pages)
      (find_cost_report_start_number client since tt)
find_cost_report_start_number-Finds_example =
    find_cost_report_start_number-Finds IsFilled since client filled_pages tt

pages_fit :
    (start : String) (n : ℕ) (w : Unit {0})
    → Ensures (λ page w'. length page.0 ≤ n) (client.list_objects_page cost_report_prefix start n w)
pages_fit start n w =
    pure-Ensures _ w
      (omega (arith, length-take n (keep (λ o. not (name_before o.name start)) bucket)))

list_objects_from-IsListed_example :
    Ensures
      (IsListed client (λ s. s) cost_report_prefix 2 (omega arith) pages_fit)
      (list_objects_from client (λ s. s) cost_report_prefix 2 2 "" tt)
list_objects_from-IsListed_example =
    list_objects_from-IsListed client (λ s. s) cost_report_prefix 2 (omega arith) pages_fit "" tt

binary_search_cost_report_start-stays_example :
    binary_search_cost_report_start client since 7 2_000_007 tt ≡ (ok (some 2_000_007), tt)
unfolding report first_cost_report_at_or_after ◌>>=◌ has_prefix cost_report_number
binary_search_cost_report_start-stays_example =
    binary_search_cost_report_start-stays client since 7 2_000_007 (report 2_000_007 6) refl refl
      (λ w. refl) tt

cost_report_number-start_name_example : cost_report_number (cost_report_start_name 17) ≡ some 17
cost_report_number-start_name_example = cost_report_number-start_name 17 (omega arith)

abbrev columns : List String
columns = "lineItem/intervalUsageStart" ∷ "Product / Service" ∷ "cost/my_Cost" ∷ "tags/team" ∷ []

abbrev row : List String
row = "2024-01-01" ∷ "COMPUTE" ∷ "1,2" ∷ " web " ∷ []

abbrev january : String → String → Option Time
january layout v = if layout == v then none else some (unix_epoch + 19_723 * day)

abbrev no_float : String → Option ℤ
no_float s = none

parse_row-IsParsed_example :
    let parsed = parse_row january no_float (build_header_index columns) row "report" "" in
    (start : String) × FirstPresent (build_header_index columns) row start_columns start
    × (Option.map (λ r. r.usage_start) parsed ≡ parse_time_field january no_float start)
    × IsParsed parsed
parse_row-IsParsed_example =
    parse_row-IsParsed january no_float (build_header_index columns) row "report" ""

tags_are_read :
    Option.map
      (λ (r : RawBillingRecord ℤ). r.tags)
      (parse_row january no_float (build_header_index columns) row "report" "")
    ≡ some (("oci_raw_service", "COMPUTE") ∷ ("tags/team", "web") ∷ [])
unfolding parse_row build_header_index
tags_are_read = refl

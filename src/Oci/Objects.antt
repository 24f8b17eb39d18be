-- ===== src/Oci/Objects.antt =====
-- oci/client.go and oci/collector.go: an object of the bucket, and the calls that list them.
use torvix.Prelude.{if◌then◌else◌, ℕ, String, Option, none, some, List, [], ◌∷◌}
use torvix.Prelude.Clock.{Time}
use torvix.Prelude.Exec.{Exec, pure, ◌>>=◌}
use torvix.Prelude.Words.{has_prefix}
use torvix.Oci.Names.{cost_report_prefix}

pub record ObjectInfo : Type 0 where
  pub name : String
  pub etag : String
  pub size : ℕ
  pub last_modified : Time

-- The client at a namespace and a bucket: ListObjectsPage takes a prefix, where to start, and how many
-- objects it may give, and gives them with the start of the next page, which is empty at the end.
pub record Client (W : Type 0) : Type 0 where
  pub list_objects : String → ℕ → Exec W (List ObjectInfo)
  pub list_objects_page : String → String → ℕ → Exec W (List ObjectInfo × String)

abbrev pub first_of : List ObjectInfo → Option ObjectInfo
first_of [] = none
first_of (o ∷ os) = if has_prefix o.name cost_report_prefix then some o else none

module _ {W : Type 0} where
  -- firstCostReportAtOrAfter
  unfoldable pub first_cost_report_at_or_after : Client W → String → Exec W (Option ObjectInfo)
  first_cost_report_at_or_after client start = do
    (objects, unused) ← client.list_objects_page cost_report_prefix start 1
    pure (first_of objects)

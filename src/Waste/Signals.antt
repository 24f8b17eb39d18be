-- ===== src/Waste/Signals.antt =====
-- rules/oci.go: what the rules read off a resource and its costs.
use torvix.Prelude.{
  leb, if◌then◌else◌, keep, ℕ, suc, ◌+◌, ◌-◌, ◌/◌, ◌^◌, min, String, Bool, true, false, not, ◌||◌,
  Option, none, some, List, [], ◌∷◌, ◌++◌, ◌==◌,
}
use torvix.Prelude.Int.{ℤ, pos, neg}
use torvix.Prelude.Text.{to_upper, trim_space}
use torvix.Prelude.Clock.{Time, day}
use torvix.Prelude.Float64.{Float64}
use torvix.Domain.{RawData, RawValue}
use torvix.Waste.Types.{
  Config, Resource, Relationship, CostSignal, Evidence, text, number, amount, flag, raw,
}

-- The value of a key of raw data.
abbrev raw_value : String → RawData → Option RawValue
raw_value k [] = none
raw_value k ((j, v) ∷ rest) = if j == k then some v else raw_value k rest

-- relationshipsBySource and relationshipsByTarget, read at a resource
unfoldable pub relationships_by_source : List Relationship → String → List Relationship
relationships_by_source rels id = keep (λ r. r.source_resource_id == id) rels

unfoldable pub relationships_by_target : List Relationship → String → List Relationship
relationships_by_target rels id = keep (λ r. r.target_resource_id == id) rels

-- countRelationships
unfoldable pub count_relationships : List Relationship → String → ℕ
count_relationships [] kind = 0
count_relationships (r ∷ rels) kind =
    let rest = count_relationships rels kind in
    if r.relationship_type == kind then suc rest else rest

abbrev upper : String → String
unfolding to_upper trim_space
upper s = to_upper (trim_space s)

-- isActiveStorageState
unfoldable pub is_active_storage_state : String → Bool
unfolding upper
is_active_storage_state state = upper state == "" || upper state == "AVAILABLE"

-- isActivePublicIPState
unfoldable pub is_active_public_ip_state : String → Bool
unfolding upper
is_active_public_ip_state state =
    upper state == ""
    || upper state == "AVAILABLE"
    || upper state == "ASSIGNED"
    || upper state == "UNASSIGNED"

-- The longest time.Duration, at which `now.Sub` stops, in nanoseconds.
abbrev longest : ℕ
longest = 2 ^ 63 - 1

-- The whole days from `created` to `now`, rounded toward zero. The source divides floats, whose
-- rounding can add a day to an age that is less than a microsecond short of it.
unfoldable pub days_between : Time → Time → ℤ
unfolding neg
days_between created now =
    if leb created now
    then pos (min (now - created) longest / day)
    else neg (pos (min (created - now) (longest + 1) / day))

-- ageDays, of the resource's time of creation; math.MaxInt / 2 where it is nil
unfoldable pub age_days : Option Time → Time → ℤ
unfolding days_between
age_days none now = pos 4_611_686_018_427_387_903
age_days (some created) now = days_between created now

module _ {F : Type 0} ⦃fl : Float64 F⦄ where
  -- estimateMonthlyWaste
  unfoldable pub estimate_monthly_waste : CostSignal F → Option F
  estimate_monthly_waste cost =
      if cost.has_last_7d
      then some (fl.mul (fl.div cost.last_7d_cost (fl.decimal 7 0)) (fl.decimal 30 0))
      else if cost.has_last_30d
      then some cost.last_30d_cost
      else none

  -- observedCost
  unfoldable pub observed_cost : CostSignal F → F
  observed_cost cost =
      if cost.has_last_7d
      then cost.last_7d_cost
      else if cost.has_last_30d
      then cost.last_30d_cost
      else fl.decimal 0 0

  -- severity
  unfoldable pub severity : Option F → Config F → String
  severity none cfg = "low"
  severity (some estimate) cfg =
      if fl.le cfg.high_monthly_threshold estimate then "high" else "medium"

  -- currency
  unfoldable pub currency : CostSignal F → Config F → String
  unfolding trim_space
  currency cost cfg =
      if not (trim_space cost.currency == "")
      then trim_space cost.currency
      else if not (trim_space cfg.currency == "")
      then trim_space cfg.currency
      else "USD"

  abbrev field_if : Bool → String → Evidence F → List (String × Evidence F)
  field_if true key value = (key, value) ∷ []
  field_if false key value = []

  abbrev size_evidence : Option RawValue → List (String × Evidence F)
  size_evidence none = []
  size_evidence (some size) = ("volume_size_gb", raw size) ∷ []

  abbrev estimate_evidence : Option F → List (String × Evidence F)
  estimate_evidence none = ("cost_data_unavailable", flag true) ∷ []
  estimate_evidence (some estimate) = ("estimated_monthly_waste", amount estimate) ∷ []

  -- baseEvidence
  unfoldable pub base_evidence :
      Resource → Time → CostSignal F → Option F → List (String × Evidence F)
  unfolding age_days
  base_evidence resource now cost estimate =
      ("lifecycle_state", text resource.lifecycle_state)
      ∷ ("age_days", number (age_days resource.time_created now))
      ∷ (field_if (not (resource.availability_domain == "")) "availability_domain"
            (text resource.availability_domain)
          ++ (size_evidence (raw_value "volume_size_gb" resource.raw)
              ++ (field_if cost.has_last_7d "last_7d_cost" (amount cost.last_7d_cost)
                  ++ (field_if cost.has_last_30d "last_30d_cost" (amount cost.last_30d_cost)
                      ++ estimate_evidence estimate))))

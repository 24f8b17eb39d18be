-- ===== src/Waste/Tests.antt =====
-- The theorems on waste at two volumes, one detached, and an instance that is stopped.
use torvix.Prelude.{
  inr, eq_iff, length-take, inl, Bool-cases, arith, zero, suc, ◌==◌, suc, All, keep, ℕ, take, subst,
  length, ◌+◌, ◌*◌, ◌≤◌, String, ◌≡◌, refl, true, false, none, some, List, [], ◌∷◌, map,
}
use torvix.Prelude.Int.{negsuc, ℤ, pos}
use torvix.Prelude.Whole.{whole_floats}
use torvix.Prelude.Keys.{empty}
use torvix.Prelude.Clock.{Time, day, unix_epoch}
use torvix.Prelude.Exec.{◌>>=◌, label}
use torvix.Prelude.Result.{Result, ok, err}
use torvix.Domain.{provider_oci}
use torvix.Waste.Types.{
  Config, Resource, Relationship, Finding, resource_block_volume, resource_compute_instance,
  block_volume_attached,
}
use torvix.Waste.Results.{FindingFilters, Summary, Repository}
use torvix.Waste.Rules.{by_id, evaluate_oci}
use torvix.Waste.Rules.Reported.{Reported, evaluate_oci-Reported}
use torvix.Waste.Engine.{Service, State, new_service, run}
use torvix.Waste.Engine.Counts.{run-IsCounted}
use torvix.Waste.Engine.Lock.{run-running, run-succeeds, IsReliable}
use torvix.Waste.Findings.{summary, list_findings, top_filters, all_filters}
use torvix.Waste.Findings.Tallies.{IsOpen, IsListing, Counts, summary-Counts}

abbrev now : Time
now = unix_epoch + 19_723 * day

abbrev config : Config ℤ
config = record {
  enabled = true;
  provider = "";
  scan_interval_hours = pos 0;
  min_resource_age_days = pos 7;
  stopped_instance_min_days = pos 3;
  old_backup_days = pos 0;
  min_cost_threshold = pos 0;
  high_monthly_threshold = pos 0;
  currency = "";
  enable_tag_exclusions = true;
  exclusion_tag_keys = "keep" ∷ [];
}

abbrev resource : String → String → String → Resource
resource id kind state = record {
  id = 0;
  provider = provider_oci;
  resource_id = id;
  resource_name = id;
  resource_type = kind;
  region = "";
  scope_id = "";
  scope_name = "";
  lifecycle_state = state;
  availability_domain = "";
  time_created = some unix_epoch;
  tags = [];
  raw = [];
  first_seen_at = unix_epoch;
  last_seen_at = now;
  last_seen_run_id = "";
  active = true;
  missing_since = none;
  inactive_at = none;
}

abbrev kept : Resource
kept = record (resource "kept" resource_block_volume "AVAILABLE") { tags = ("keep", "yes") ∷ [] }

abbrev resources : List Resource
resources =
    resource "detached" resource_block_volume "AVAILABLE"
    ∷ resource "attached" resource_block_volume "AVAILABLE"
    ∷ resource "stopped" resource_compute_instance "STOPPED"
    ∷ kept
    ∷ []

abbrev attachment : Relationship
attachment = record {
  id = 0;
  provider = provider_oci;
  source_resource_id = "attached";
  target_resource_id = "stopped";
  relationship_type = block_volume_attached;
  region = "";
  scope_id = "";
  detected_at = now;
  raw = [];
}

evaluate_oci-Reported_example :
    let e = evaluate_oci config now resources (attachment ∷ []) empty in
    Reported config now (attachment ∷ []) empty (by_id resources) resources e.0 e.1
evaluate_oci-Reported_example = evaluate_oci-Reported config now resources (attachment ∷ []) empty

reported_two :
    map
      (λ (f : Finding ℤ). f.resource_id)
      (evaluate_oci config now resources (attachment ∷ []) empty).0
    ≡ "detached" ∷ "stopped" ∷ []
unfolding evaluate_oci whole_floats
reported_two = refl

-- The world is the list of the stored findings.
abbrev World : Type 0
World = List (Finding ℤ)

abbrev repository : Repository ℤ World
repository = record {
  list_cloud_resources = λ p w. (ok resources, w);
  list_cloud_relationships = λ p w. (ok (attachment ∷ []), w);
  get_resource_cost_signal = λ p id t w. (err "no costs", w);
  upsert_waste_finding = λ f w. (ok "created", f ∷ w);
  resolve_missing_waste_findings = λ p rules seen w. (ok 0, w);
  list_waste_findings = λ filters w. (ok w, w);
  get_waste_finding = λ id w. (err "no rows", w);
  update_waste_finding_status = λ id status w. (err "no rows", w);
}

abbrev service : Service ℤ World
unfolding new_service
service = new_service config (some repository) [] (λ w. now) (λ s. s)

abbrev idle : State World
idle = record { running = false; world = [] }

abbrev busy : State World
busy = record { running = true; world = [] }

run-IsCounted_example :
    let d = (run service idle).0.0 in
    d.findings_created + d.findings_updated + d.resources_skipped ≤ d.resources_scanned
run-IsCounted_example = run-IsCounted service idle

run-running_example : (run service idle).1.running ≡ false
run-running_example = run-running service idle

reliable : IsReliable service repository
unfolding service
reliable = record {
  sync = λ p i w e. cc;
  list_cloud_resources = λ p w. record { holds = tt };
  list_cloud_relationships = λ p w. record { holds = tt };
  upsert_waste_finding = λ f w. record { holds = tt };
  resolve_missing_waste_findings = λ p rules seen w. record { holds = tt };
}

run-succeeds_example : (run service idle).0.1 ≡ none
unfolding service
run-succeeds_example = run-succeeds service repository reliable idle refl refl

run_creates_two : (run service idle).0.0.findings_created ≡ 2
unfolding run service evaluate_oci whole_floats ◌>>=◌ label
run_creates_two = refl

abbrev findings : List (Finding ℤ)
unfolding evaluate_oci
findings = (evaluate_oci config now resources (attachment ∷ []) empty).0

abbrev filters : FindingFilters ℤ
filters = record {
  provider = "";
  region = "";
  scope_id = "";
  scope_name = "";
  service = "";
  resource_type = "";
  rule_id = "";
  severity = "";
  status = "";
  min_confidence = none;
  min_estimated_monthly_waste = none;
  limit = pos 5;
  offset = pos 0;
}

abbrev limit_of : ℤ → ℕ
limit_of (pos n) = n
limit_of (negsuc n) = 0

kept_status :
    (status : String) (fs : List (Finding ℤ))
    → All (λ f. f.status ≡ status) (keep (λ f. f.status == status) fs)
kept_status status [] = tt
kept_status status (f ∷ fs) = elim (Bool-cases (f.status == status)) [
  | inl e ↦ rw e ((eq_iff f.status status).0 e, kept_status status fs)
  | inr e ↦ rw e (kept_status status fs)
]

All-first : (P : Finding ℤ → Type 0) (n : ℕ) (fs : List (Finding ℤ)) → All P fs → All P (take n fs)
All-first P zero fs h = tt
All-first P (suc n) [] h = tt
All-first P (suc n) (f ∷ fs) h = (h.0, All-first P n fs h.1)

-- What is read of the world, by the status and the limit.
abbrev answer_of : FindingFilters ℤ → World → List (Finding ℤ)
answer_of filters w = take (limit_of filters.limit) (keep (λ f. f.status == filters.status) w)

abbrev listing : Repository ℤ World
listing = record repository { list_waste_findings = λ filters w. (ok (answer_of filters w), w) }

abbrev ok_of : List (Finding ℤ) → World → Result (List (Finding ℤ)) × World
ok_of fs w = (ok fs, w)

is_ok : (fs gs : List (Finding ℤ)) (w w' : World) → ok_of fs w ≡ (ok gs, w') → fs ≡ gs
is_ok fs gs w w' e = cc

listing-IsListing : IsListing listing
listing-IsListing = record {
  asked = λ filters w w' fs h e.
      subst (All (λ f. f.status ≡ filters.status)) (is_ok (answer_of filters w) fs w w' e)
        (All-first _ (limit_of filters.limit) _ (kept_status filters.status w));
  limited = λ k filters w w' fs h e.
      subst (λ gs. length gs ≤ suc k) (is_ok (answer_of filters w) fs w w' e)
        (rw h (omega (arith, length-take (suc k) (keep (λ f. f.status == filters.status) w))));
}

read_top : list_findings (some listing) (top_filters filters) findings ≡ (ok findings, findings)
unfolding list_findings findings evaluate_oci whole_floats
read_top = refl

read_all : list_findings (some listing) (all_filters filters) findings ≡ (ok findings, findings)
unfolding list_findings findings evaluate_oci whole_floats
read_all = refl

summary-Counts_example :
    (s : Summary ℤ) × (summary (some listing) filters findings ≡ (ok s, findings))
    × (s.top_findings ≡ findings)
    × (length findings ≤ 10)
    × All IsOpen findings
    × Counts s findings
    × All IsOpen findings
summary-Counts_example =
    summary-Counts listing filters findings findings findings findings findings listing-IsListing
      read_top read_all

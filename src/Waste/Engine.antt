-- ===== src/Waste/Engine.antt =====
-- engine/service.go: NewService and Run. The flag that the mutex guards is part of the state, so that
-- a run that starts while another one is under way finds it set. Log lines are left out.
pub mod Counts
pub mod Lock
use torvix.Prelude.Clock.{Time}
use torvix.Prelude.{
  ltb, leb, ◌=ℕ◌, if◌then◌else◌, ltb→lt, lt→ltb, leb→le, le→leb, tests, Bool-cases, Option-cases,
  length, take, drop, keep, any, All, length-append, length-take, length-drop, length-keep,
  length-map, All-append, All-map, ℕ, zero, suc, ◌+◌, ◌-◌, ◌*◌, ◌/◌, ◌%◌, ◌^◌, ◌≤◌, ◌<◌, min,
  String, ◌≡◌, refl, sym, ap, subst, ◌∙◌, ◌≢◌, ◌↔◌, ◌⊎◌, inl, inr, Bool, true, false, not, ◌&&◌,
  ◌||◌, Option, none, some, List, [], ◌∷◌, map, arith, ◌==◌, eq_iff, eq_refl,
}
use torvix.Prelude.Keys.{
  contains, Distinct, contains-append, Distinct-snoc, Map, empty, insert, delete, is_some, get_or,
}
use Prim.Native.String.{◌++◌}
use mathlib.Core.List.{◌++◌ as ◌⧺◌}
use torvix.Prelude.Exec.{Exec, pure, gets, label, ◌>>=◌}
use torvix.Prelude.Result.{Result, ok, err}
use torvix.Prelude.Float64.{Float64}
use torvix.Domain.{Provider, provider_aws, provider_oci}
use torvix.Waste.Types.{Config, Resource, CostSignal, Finding, RuleInfo}
use torvix.Waste.Catalog.{rule_catalog}
use torvix.Waste.Rules.{evaluate_oci}
use torvix.Waste.Results.{InventoryResult, DetectionResult, Repository, InventoryProvider}
use torvix.Waste.Defaults.{with_defaults}

-- `clock` reads time.Now(). `quote` is fmt's %q, whose table of printable characters is not modelled.
pub record Service (F W : Type 0) : Type 0 where
  pub cfg : Config F
  pub repo : Option (Repository F W)
  pub providers : Map (InventoryProvider W)
  pub clock : W → Time
  pub quote : String → String

pub record State (W : Type 0) : Type 0 where
  pub running : Bool
  pub world : W

abbrev run_already_active : String
run_already_active = "waste detection already running"

abbrev aws_message : String
aws_message =
    "AWS waste detection is not implemented in Phase 1. Cost Explorer support remains available."

-- What the loop over the findings counts and gathers.
pub record Tally : Type 0 where
  pub created : ℕ
  pub updated : ℕ
  pub seen : List String

abbrev pub no_tally : Tally
no_tally = record { created = 0; updated = 0; seen = [] }

abbrev pub failed : Provider → ℕ → DetectionResult
failed provider duration = record {
  provider = provider;
  resources_scanned = 0;
  findings_created = 0;
  findings_updated = 0;
  findings_resolved = 0;
  resources_skipped = 0;
  skipped = false;
  message = "";
  duration = duration;
}

abbrev pub skipped_with : Provider → String → ℕ → DetectionResult
skipped_with provider message duration = record (failed provider duration) {
  skipped = true;
  message = message;
}

-- The loop of NewService; a later provider replaces an earlier one of its name.
unfoldable pub by_provider : {W : Type 0} → List (InventoryProvider W) → Map (InventoryProvider W)
by_provider [] p = none
by_provider (x ∷ xs) p = elim (by_provider xs p) [
  | some later ↦ some later
  | none ↦ if x.provider == p then some x else none
]

unfoldable pub sync_inventory : {W : Type 0} → Option (InventoryProvider W) → Exec W Unit
sync_inventory none = pure tt
sync_inventory (some p) = do inventory ← label "sync waste inventory" p.sync; pure tt

module _ {F : Type 0} where
  abbrev pub key_of : Finding F → String
  key_of f = f.resource_id ++ "|" ++ f.rule_id

  abbrev count_outcome : Finding F → String → Tally → Tally
  count_outcome f outcome t = record {
    created = if outcome == "created" then suc t.created else t.created;
    updated = if outcome == "created" then t.updated else suc t.updated;
    seen = t.seen ⧺ key_of f ∷ [];
  }

  abbrev with_signal : String → Result (CostSignal F) → Map (CostSignal F) → Map (CostSignal F)
  with_signal id (ok signal) costs = insert id signal costs
  with_signal id (err e) costs = costs

abbrev rule_ids : List RuleInfo → List String
rule_ids rules = map (λ (r : RuleInfo). r.rule_id) rules

module _ {F W : Type 0} ⦃fl : Float64 F⦄ where
  -- NewService
  unfoldable pub new_service :
      Config F
      → Option (Repository F W)
      → List (InventoryProvider W)
      → (W → Time)
      → (String → String)
      → Service F W
  unfolding with_defaults by_provider
  new_service cfg repo providers clock quote = record {
    cfg = with_defaults cfg;
    repo = repo;
    providers = by_provider providers;
    clock = clock;
    quote = quote;
  }

  module _ (repo : Repository F W) where
    -- The loop over the costs: a resource whose cost cannot be read has none.
    unfoldable pub correlate :
        Provider → Time → List Resource → Map (CostSignal F) → Exec W (Map (CostSignal F))
    correlate provider now [] costs w = (ok costs, w)
    correlate provider now (r ∷ rs) costs w =
        let (signal, w') = repo.get_resource_cost_signal provider r.resource_id now w in
        correlate provider now rs (with_signal r.resource_id signal costs) w'

    -- The loop over the findings.
    unfoldable pub upsert_each : List (Finding F) → Tally → Exec W Tally
    upsert_each [] t = pure t
    upsert_each (f ∷ fs) t = do
      outcome ← label "upsert waste finding" (repo.upsert_waste_finding f)
      upsert_each fs (count_outcome f outcome t)

    -- The part of Run from the reading of the resources on.
    unfoldable pub detect : Config F → Provider → (W → Time) → Time → Exec W DetectionResult
    unfolding correlate upsert_each evaluate_oci rule_catalog
    detect cfg provider clock started = do
      resources ← label "list cloud resources" (repo.list_cloud_resources provider)
      relationships ← label "list cloud relationships" (repo.list_cloud_relationships provider)
      now ← gets clock
      costs ← correlate provider now resources empty
      let (findings, skipped) = evaluate_oci cfg now resources relationships costs
      tally ← upsert_each findings no_tally
      resolved ←
          label "resolve missing waste findings"
            (repo.resolve_missing_waste_findings provider (rule_ids rule_catalog) tally.seen)
      finished ← gets clock
      pure (record {
        provider = provider;
        resources_scanned = length resources;
        findings_created = tally.created;
        findings_updated = tally.updated;
        findings_resolved = resolved;
        resources_skipped = skipped;
        skipped = false;
        message = "";
        duration = finished - started;
      })

  -- What Run does while it holds the lock.
  unfoldable pub run_locked :
      Service F W → Repository F W → Provider → Time → Exec W DetectionResult
  unfolding sync_inventory detect
  run_locked svc repo provider started = do
    synced ← sync_inventory (svc.providers provider)
    finished ← gets svc.clock
    if provider == provider_aws
        then pure (skipped_with provider aws_message (finished - started))
        else if not (provider == provider_oci)
        then pure (
            skipped_with provider
              ("waste detection provider " ++ svc.quote provider ++ " is not implemented")
              (finished - started))
        else detect repo svc.cfg provider svc.clock started

  -- The deferred unlock, and the result of the run.
  abbrev unlocked :
      Service F W
      → Provider
      → Time
      → Result DetectionResult × W
      → (DetectionResult × Option String) × State W
  unlocked svc provider started (ok d, w) = ((d, none), record { running = false; world = w })
  unlocked svc provider started (err e, w) =
      ((failed provider (svc.clock w - started), some e), record { running = false; world = w })

  abbrev run_with :
      Service F W → Option (Repository F W) → State W → (DetectionResult × Option String) × State W
  unfolding run_locked
  run_with svc none s =
      ((skipped_with svc.cfg.provider "waste repository is not configured" 0, none), s)
  run_with svc (some repo) s =
      let started = svc.clock s.world in
      let provider = if svc.cfg.provider == "" then provider_oci else svc.cfg.provider in
      if s.running
      then ((skipped_with svc.cfg.provider run_already_active 0, some run_already_active), s)
      else unlocked svc provider started (run_locked svc repo provider started s.world)

  -- Run
  unfoldable pub run : Service F W → State W → (DetectionResult × Option String) × State W
  unfolding run_with
  run svc s =
      if svc.cfg.enabled
      then run_with svc svc.repo s
      else ((skipped_with svc.cfg.provider "waste detection disabled" 0, none), s)

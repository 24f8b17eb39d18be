-- ===== src/Config/Load/Ready.antt =====
-- What Load guarantees of the configuration that it returns.
use torvix.Prelude.{
  ◌∷◌, inr, inl, Bool-cases, [], if◌then◌else◌, false, List, String, ◌≡◌, refl, ◌≢◌, Option,
}
use torvix.Prelude.Float64.{Float64}
use torvix.Prelude.Result.{Result, ok}
use torvix.Config.Types.{Config, Waste, Ai}
use torvix.Config.Environment.{apply_env_overrides}
use torvix.Config.Defaults.{
  keys_or_default, text_or, lowered, waste_with_defaults, ai_with_defaults, logging_with_defaults,
}
use torvix.Config.Defaults.Complete.{
  default, positive, IsScheduled, reporting_with_defaults-IsScheduled, IsIngestible,
  ingestion_with_defaults-IsIngestible, IsCollectable, aws_with_defaults-IsCollectable,
}
use torvix.Config.Limits.Bounds.{IsPositive}
use torvix.Config.Load.{initial, fill, load}

pub record IsEnriching (a : Ai) : Type 0 where
  pub provider : a.provider ≢ ""
  pub model : a.model ≢ ""
  pub base_url : a.base_url ≢ ""
  pub timeout : a.timeout ≢ ""
  pub max_items_per_run : IsPositive a.max_items_per_run
  pub queue_size : IsPositive a.queue_size

ai_with_defaults-IsEnriching : (a : Ai) → IsEnriching (ai_with_defaults a)
unfolding ai_with_defaults
ai_with_defaults-IsEnriching a = record {
  provider = default (lowered a.provider) "openai" refl;
  model = default a.model "gpt-5.4-mini" refl;
  base_url = default a.base_url "https://api.openai.com/v1" refl;
  timeout = default a.timeout "20s" refl;
  max_items_per_run = positive a.max_items_per_run 10 refl;
  queue_size = positive a.queue_size 100 refl;
}

module _ {F : Type 0} ⦃fl : Float64 F⦄ where
  pub record IsDetectable (w : Waste F) : Type 0 where
    pub provider : w.provider ≢ ""
    pub currency : w.currency ≢ ""
    pub scan_interval_hours : IsPositive w.scan_interval_hours
    pub min_resource_age_days : IsPositive w.min_resource_age_days
    pub stopped_instance_min_days : IsPositive w.stopped_instance_min_days
    pub old_backup_days : IsPositive w.old_backup_days
    pub high_monthly_threshold : fl.le w.high_monthly_threshold (fl.decimal 0 0) ≡ false
    pub exclusion_tag_keys : w.exclusion_tag_keys ≢ []

  -- Every part has a value for what the program needs of it.
  pub record IsReady (c : Config F) : Type 0 where
    pub address : c.http.address ≢ ""
    pub log_level : c.log_level ≡ c.logging.level
    pub level : c.logging.level ≢ ""
    pub dir : c.logging.dir ≢ ""
    pub retention_days : IsPositive c.logging.retention_days
    pub namespace : c.metrics.namespace ≢ ""
    pub ingest_interval : c.scheduler.ingest_interval ≢ ""
    pub ingestion : IsIngestible c.ingestion
    pub reporting : IsScheduled c.reporting
    pub aws : IsCollectable c.providers.aws
    pub waste : IsDetectable c.waste
    pub ai : IsEnriching c.ai

keys_or_default_lem : (keys : List String) → keys_or_default keys ≢ []
keys_or_default_lem [] h = cc
keys_or_default_lem (k ∷ ks) h = cc

module _ {F : Type 0} ⦃fl : Float64 F⦄ where
  threshold_lem :
      fl.le (fl.decimal 50 0) (fl.decimal 0 0) ≡ false
      → (x : F)
      → fl.le (if fl.le x (fl.decimal 0 0) then fl.decimal 50 0 else x) (fl.decimal 0 0) ≡ false
  threshold_lem fifty x = elim (Bool-cases (fl.le x (fl.decimal 0 0))) [
    | inl e ↦ rw e fifty
    | inr e ↦ rw (e, e) refl
  ]

  waste_with_defaults-IsDetectable :
      fl.le (fl.decimal 50 0) (fl.decimal 0 0) ≡ false
      → (w : Waste F) → IsDetectable (waste_with_defaults w)
  unfolding waste_with_defaults
  waste_with_defaults-IsDetectable fifty w = record {
    provider = default (lowered w.provider) "oci" refl;
    currency = default w.currency "USD" refl;
    scan_interval_hours = positive w.scan_interval_hours 24 refl;
    min_resource_age_days = positive w.min_resource_age_days 7 refl;
    stopped_instance_min_days = positive w.stopped_instance_min_days 3 refl;
    old_backup_days = positive w.old_backup_days 30 refl;
    high_monthly_threshold = threshold_lem fifty w.high_monthly_threshold;
    exclusion_tag_keys = keys_or_default_lem w.exclusion_tag_keys;
  }

  fill-IsReady :
      fl.le (fl.decimal 50 0) (fl.decimal 0 0) ≡ false → (c : Config F) → IsReady (fill c)
  unfolding fill logging_with_defaults
  fill-IsReady fifty c = record {
    address = default c.http.address ":8080" refl;
    log_level = refl;
    level = default (text_or c.logging.level c.log_level) "info" refl;
    dir = default c.logging.dir "logs" refl;
    retention_days = positive c.logging.retention_days 14 refl;
    namespace = default c.metrics.namespace "torvix" refl;
    ingest_interval = default c.scheduler.ingest_interval "24h" refl;
    ingestion = ingestion_with_defaults-IsIngestible c.ingestion;
    reporting = reporting_with_defaults-IsScheduled c.reporting;
    aws = aws_with_defaults-IsCollectable c.providers.aws;
    waste = waste_with_defaults-IsDetectable fifty c.waste;
    ai = ai_with_defaults-IsEnriching c.ai;
  }

  module _ (read_file : String → Result String) (unmarshal : String → Config F → Result (Config F))
      (env : String → String) (parse_float : String → Option F) where
    -- Where the file can be read and parsed, and 50 is not `<=` 0, Load returns a configuration, whatever the
    -- environment holds; it has the level of the logging part as its own, a text for every address, level,
    -- directory, schedule, mode, region, currency and model that has a default, a positive number for every
    -- count of days, hours, files, records and items that has one, a threshold of high monthly cost that is
    -- not `<=` 0, and at least one key of tags that exclude.
    pub load-IsReady :
        (path b : String) (c : Config F)
        → fl.le (fl.decimal 50 0) (fl.decimal 0 0) ≡ false
        → read_file path ≡ ok b
        → unmarshal b initial ≡ ok c
        → (r : Config F) × (load read_file unmarshal env parse_float path ≡ ok r) × IsReady r
    unfolding load
    load-IsReady path b c fifty e₁ e₂ = (
      fill (apply_env_overrides env parse_float c),
      rw (e₁, e₂) refl,
      fill-IsReady fifty (apply_env_overrides env parse_float c),
    )

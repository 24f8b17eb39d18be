-- ===== src/Intelligence/Process.antt =====
-- process, with save: one task, over the interfaces of the database and of the AI client. The hash of an
-- input (SHA-256 of its JSON) is a parameter; timeouts of the calls are not modelled.
use torvix.Prelude.{
  if◌then◌else◌, ℕ, zero, suc, String, Bool, false, ◌&&◌, Option, none, some, List, [], ◌==◌,
}
use torvix.Prelude.Int.{ℤ}
use torvix.Prelude.Clock.{Time}
use torvix.Prelude.Float64.{Float64}
use torvix.Prelude.Result.{Result, ok, err}
use torvix.Intelligence.Queue.{Config, Task}

abbrev pub status_completed : String
status_completed = "completed"

abbrev pub status_failed : String
status_failed = "failed"

pub record Enrichment (F : Type 0) : Type 0 where
  pub entity_type : String
  pub entity_id : ℤ
  pub input_hash : String
  pub provider : String
  pub model : String
  pub status : String
  pub summary : String
  pub likely_cause : String
  pub business_impact : String
  pub recommended_actions : List String
  pub priority : String
  pub confidence : F
  pub error : String
  pub generated_at : Option Time
  pub updated_at : Time

pub record Generated (F : Type 0) : Type 0 where
  pub summary : String
  pub likely_cause : String
  pub business_impact : String
  pub recommended_actions : List String
  pub priority : String
  pub confidence : F

pub record Outside (F I W : Type 0) : Type 0 where
  pub clock : W → Time
  pub hash_input : I → Result String
  pub get_ai_enrichment : String → ℤ → W → Result (Option (Enrichment F))
  pub get_ai_enrichment_by_input :
      String → String → String → String → W → Result (Option (Enrichment F))
  pub upsert_ai_enrichment : Enrichment F → W → Option String × W
  pub generate : String → I → W → Result (Generated F) × W

-- truncate, of a text whose bytes are its characters
unfoldable pub truncate : String → ℕ → String
truncate s zero = ""
truncate String.[] (suc n) = ""
truncate (String.◌∷◌ c s) (suc n) = String.◌∷◌ c (truncate s n)

module _ {F I W : Type 0} ⦃fl : Float64 F⦄ (out : Outside F I W) (config : Config) where
  open out use {
    clock, hash_input, get_ai_enrichment, get_ai_enrichment_by_input, upsert_ai_enrichment,
    generate,
  }

  -- Whether the stored enrichment is one of this very input, provider and model.
  abbrev pub is_current : String → Option (Enrichment F) → Bool
  is_current hash none = false
  is_current hash (some e) =
      e.status == status_completed
      && e.input_hash == hash
      && e.provider == config.provider
      && e.model == config.model

  -- The enrichment that a generation gives, or its error.
  unfoldable pub enrichment_of : Task I → String → Time → Result (Generated F) → Enrichment F
  unfolding truncate
  enrichment_of task hash now (err e) = record {
    entity_type = task.entity_type;
    entity_id = task.entity_id;
    input_hash = hash;
    provider = config.provider;
    model = config.model;
    status = status_failed;
    summary = "";
    likely_cause = "";
    business_impact = "";
    recommended_actions = [];
    priority = "";
    confidence = fl.decimal 0 0;
    error = truncate e 2000;
    generated_at = none;
    updated_at = now;
  }
  enrichment_of task hash now (ok g) = record {
    entity_type = task.entity_type;
    entity_id = task.entity_id;
    input_hash = hash;
    provider = config.provider;
    model = config.model;
    status = status_completed;
    summary = g.summary;
    likely_cause = g.likely_cause;
    business_impact = g.business_impact;
    recommended_actions = g.recommended_actions;
    priority = g.priority;
    confidence = g.confidence;
    error = "";
    generated_at = some now;
    updated_at = now;
  }

  -- save; its error is only logged
  abbrev save : Enrichment F → W → W
  save e w = (upsert_ai_enrichment e w).1

  abbrev pub reuse_for : Task I → Time → Enrichment F → Enrichment F
  reuse_for task now e = record e { entity_id = task.entity_id; updated_at = now }

  abbrev pub generate_for : Task I → String → W → W
  generate_for task hash w =
      let (r, w') = generate task.kind task.input w in
      save (enrichment_of task hash (clock w') r) w'

  abbrev pub reuse_or_generate : Task I → String → Result (Option (Enrichment F)) → W → W
  reuse_or_generate task hash (err e) w = w
  reuse_or_generate task hash (ok none) w = generate_for task hash w
  reuse_or_generate task hash (ok (some e)) w =
      if e.status == status_completed
      then save (reuse_for task (clock w) e) w
      else generate_for task hash w

  abbrev pub look_up : Task I → String → Result (Option (Enrichment F)) → W → W
  look_up task hash (err e) w = w
  look_up task hash (ok existing) w =
      if is_current hash existing
      then w
      else reuse_or_generate task hash
          (get_ai_enrichment_by_input task.entity_type hash config.provider config.model w) w

  abbrev pub hashed : Task I → Result String → W → W
  hashed task (err e) w = w
  hashed task (ok hash) w =
      look_up task hash (get_ai_enrichment task.entity_type task.entity_id w) w

  -- process: what it leaves of the world
  unfoldable pub process : Task I → W → W
  unfolding enrichment_of
  process task w = hashed task (hash_input task.input) w

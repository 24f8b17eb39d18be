-- ===== src/Waste/Rules/Verdict.antt =====
-- Which resources each rule reports, described without the maps and the order of tests of the rules.
use torvix.Prelude.{
  if◌then◌else◌, any, String, ◌≡◌, refl, sym, Bool, true, false, not, ◌&&◌, ◌||◌, Option, none,
  some, List, [], ◌∷◌, arith, ◌==◌,
}
use torvix.Prelude.Keys.{Map, is_some}
use torvix.Prelude.Clock.{Time}
use torvix.Prelude.Int.{leb_ℤ}
use torvix.Prelude.Float64.{Float64}
use torvix.Prelude.Text.{to_upper}
use torvix.Waste.Types.{
  Config, Resource, Relationship, CostSignal, Finding, status_open, resource_block_volume,
  resource_boot_volume, resource_compute_instance, resource_public_ip, resource_reserved_public_ip,
  block_volume_attached, boot_volume_attached, public_ip_assigned, rule_detached_block_volume,
  rule_detached_boot_volume,
}
use torvix.Waste.Signals.{
  relationships_by_source, relationships_by_target, is_active_storage_state,
  is_active_public_ip_state, age_days,
}
use torvix.Waste.Catalog.{signal_at}
use torvix.Waste.Unused.{is_cheap, detached_volume_finding, unused_public_ip_finding, attachment_of}
use torvix.Waste.Stopped.{Attached, stopped_compute_finding, stopped_with, nothing_attached}
use torvix.Waste.Rules.{
  block_summary, block_recommendation, boot_summary, boot_recommendation, evaluate_one,
}
use torvix.Waste.Rules.Attachments.{
  is_source_of, count_relationships-source, is_storage_of, is_empty, attached_storage_lem,
}

not_empty : (a b : Bool) → a ≡ (true && not b) → b ≡ not a
not_empty a b e = ground arith

module _ {F : Type 0} where
  abbrev pub Names : Resource → Option (Finding F) → Type 0
  Names r none = Unit
  Names r (some f) = (f.resource_id ≡ r.resource_id) × (f.status ≡ status_open)

  -- A rule gives an open finding about the resource exactly when the test is true.
  pub record Reports (r : Resource) (o : Option (Finding F)) (b : Bool) : Type 0 where
    pub agrees : is_some o ≡ b
    pub about : Names r o

  gives : (r : Resource) (o : Option (Finding F)) → Names r o → Reports r o (is_some o)
  gives r o n = record { agrees = refl; about = n }

  guarded :
      (r : Resource) (f : Finding F) (active young attached cheap : Bool)
      → Names r (some f)
      → Reports r
          (if not active || young
            then none
            else if attached
            then none
            else if cheap
            then none
            else some f)
          (active && not young && (not attached && not cheap))
  guarded r f false young attached cheap n = gives r none tt
  guarded r f true true attached cheap n = gives r none tt
  guarded r f true false true cheap n = gives r none tt
  guarded r f true false false true n = gives r none tt
  guarded r f true false false false n = gives r (some f) n

  either :
      (r : Resource) (o o' : Option (Finding F)) (b b' : Bool) (t : Bool)
      → Reports r o b
      → Reports r o' b'
      → Reports r (if t then o else o') (if t then b else b')
  either r o o' b b' true h h' = h
  either r o o' b b' false h h' = h'

module _ {F : Type 0} ⦃fl : Float64 F⦄ (cfg : Config F) (now : Time) (rels : List Relationship)
    (costs : Map (CostSignal F)) (resources : Map Resource) where
  abbrev pub is_old : Resource → Bool
  is_old r = not (leb_ℤ (age_days r.time_created now) cfg.min_resource_age_days)

  -- No relationship of the kind has the resource as its source, and its cost is not below the
  -- threshold, where a cost is known.
  abbrev pub is_idle : String → Resource → Bool
  is_idle kind r =
      not (any (is_source_of r.resource_id kind) rels)
      && not (is_cheap (signal_at costs r.resource_id) cfg)

  abbrev pub is_idle_volume : String → Resource → Bool
  is_idle_volume kind r = is_active_storage_state r.lifecycle_state && is_old r && is_idle kind r

  abbrev pub is_idle_ip : Resource → Bool
  is_idle_ip r =
      is_active_public_ip_state r.lifecycle_state && is_old r && is_idle public_ip_assigned r

  -- A stopped instance that some known resource, not excluded, is attached to as storage.
  abbrev pub is_stopped_with_storage : Resource → Bool
  is_stopped_with_storage r =
      to_upper r.lifecycle_state == "STOPPED"
      && not (leb_ℤ (age_days r.time_created now) cfg.stopped_instance_min_days)
      && any (is_storage_of cfg resources r.resource_id) rels

  abbrev pub is_waste : Resource → Bool
  is_waste r =
      if r.resource_type == resource_block_volume
      then is_idle_volume block_volume_attached r
      else if r.resource_type == resource_boot_volume
      then is_idle_volume boot_volume_attached r
      else if r.resource_type == resource_compute_instance
      then is_stopped_with_storage r
      else if r.resource_type == resource_public_ip
          || r.resource_type == resource_reserved_public_ip
      then is_idle_ip r
      else false

  abbrev pub from : Resource → List Relationship
  from r = relationships_by_source rels r.resource_id

  volume_lem :
      (r : Resource) (rule service summary recommendation : String)
      → Reports r
          (detached_volume_finding r cfg now
            (signal_at costs r.resource_id)
            (from r)
            rule
            service
            summary
            recommendation)
          (is_idle_volume (attachment_of rule) r)
  unfolding detached_volume_finding
  volume_lem r rule service summary recommendation =
      rw (sym (count_relationships-source rels r.resource_id (attachment_of rule)))
        (guarded r _ _ _ _ _ (refl, refl))

  unused_lem :
      (r : Resource)
      → Reports r
          (unused_public_ip_finding r cfg now (signal_at costs r.resource_id) (from r))
          (is_idle_ip r)
  unfolding unused_public_ip_finding
  unused_lem r =
      rw (sym (count_relationships-source rels r.resource_id public_ip_assigned))
        (guarded r _ _ _ _ _ (refl, refl))

  stopped_guarded :
      (r : Resource) (a : Attached F) (stopped young : Bool) (ids : List String)
      → Reports r
          (if not stopped || young then none else stopped_with r cfg now a ids)
          (stopped && not young && not (is_empty ids))
  stopped_guarded r a false young ids = gives r none tt
  stopped_guarded r a true true ids = gives r none tt
  stopped_guarded r a true false [] = gives r none tt
  stopped_guarded r a true false (s ∷ ss) = gives r _ (refl, refl)

  stopped_lem :
      (r : Resource)
      → Reports r
          (stopped_compute_finding r cfg now costs
            (relationships_by_target rels r.resource_id)
            resources)
          (is_stopped_with_storage r)
  unfolding stopped_compute_finding
  stopped_lem r =
      rw
        (not_empty _ _
          (attached_storage_lem cfg costs resources r.resource_id rels nothing_attached))
        (stopped_guarded r _ _ _ _)

  -- The switch gives an open finding about the resource exactly when the resource is waste.
  pub evaluate_one_lem :
      (r : Resource) → Reports r (evaluate_one cfg now rels costs resources r) (is_waste r)
  unfolding evaluate_one
  evaluate_one_lem r =
      either r _ _ _ _ (r.resource_type == resource_block_volume)
        (volume_lem r rule_detached_block_volume "Block Storage" block_summary block_recommendation)
        (either r _ _ _ _ (r.resource_type == resource_boot_volume)
          (volume_lem r rule_detached_boot_volume "Block Storage" boot_summary boot_recommendation)
          (either r _ _ _ _ (r.resource_type == resource_compute_instance) (stopped_lem r) (
            either r _ _ _ _
              (r.resource_type == resource_public_ip
                || r.resource_type == resource_reserved_public_ip)
              (unused_lem r) (gives r none tt))))

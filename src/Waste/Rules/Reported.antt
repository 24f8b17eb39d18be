-- ===== src/Waste/Rules/Reported.antt =====
-- Which resources EvaluateOCI reports, and how many it skips.
use torvix.Prelude.{
  length-map, ◌≤◌, ◌+◌, Bool-cases, length, keep, All, ℕ, suc, String, ◌≡◌, refl, sym, ap, inl, inr,
  Bool, true, false, not, ◌&&◌, Option, none, some, List, [], ◌∷◌, map, arith,
}
use torvix.Prelude.Keys.{Map}
use torvix.Prelude.Clock.{Time}
use torvix.Prelude.Float64.{Float64}
use torvix.Waste.Types.{Config, Resource, Relationship, CostSignal, Finding, status_open}
use torvix.Waste.Exclusion.{has_exclusion_tag}
use torvix.Waste.Rules.{by_id, evaluate_oci, is_oci, with_finding, evaluate_each}
use torvix.Waste.Rules.Verdict.{Reports, is_waste, evaluate_one_lem}

-- Two kinds that exclude each other are together no more than all.
apart-length :
    (p q : Resource → Bool) (h : (r : Resource) → (p r && q r) ≡ false) (rs : List Resource)
    → length (keep p rs) + length (keep q rs) ≤ length rs
apart-length p q h [] = omega arith
apart-length p q h (r ∷ rs) = ground (arith, apart-length p q h rs, h r)

exclusive : (a b c : Bool) → ((a && not b && c) && (a && b)) ≡ false
exclusive a b c = ground arith

abbrev pub is_skipped : {F : Type 0} → Config F → Resource → Bool
is_skipped cfg r = is_oci r && has_exclusion_tag r cfg

abbrev pub IsOpen : {F : Type 0} → Finding F → Type 0
IsOpen f = f.status ≡ status_open

abbrev pub ids_of : {F : Type 0} → List (Finding F) → List String
ids_of fs = map (λ f. f.resource_id) fs

module _ {F : Type 0} ⦃fl : Float64 F⦄ (cfg : Config F) (now : Time) (rels : List Relationship)
    (costs : Map (CostSignal F)) (resources : Map Resource) where
  abbrev pub is_reported : Resource → Bool
  is_reported r =
      is_oci r && not (has_exclusion_tag r cfg) && is_waste cfg now rels costs resources r

  -- The findings and the count of skipped resources, as a description of the input.
  pub record Reported (rs : List Resource) (fs : List (Finding F)) (skipped : ℕ) : Type 0 where
    pub reported : ids_of fs ≡ map (λ (r : Resource). r.resource_id) (keep (λ r. is_reported r) rs)
    pub all_open : All IsOpen fs
    pub skipped_count : skipped ≡ length (keep (λ r. is_skipped cfg r) rs)

  with_finding-Reported :
      (r : Resource) (rs : List Resource) (o : Option (Finding F)) (fs : List (Finding F)) (n : ℕ)
      → (is_oci r ≡ true)
      → (has_exclusion_tag r cfg ≡ false)
      → Reports r o (is_waste cfg now rels costs resources r)
      → Reported rs fs n
      → Reported (r ∷ rs) (with_finding o fs) n
  with_finding-Reported r rs none fs n e₁ e₂ h ih = record {
    reported = rw (e₁, e₂, sym h.agrees) ih.reported;
    all_open = ih.all_open;
    skipped_count = rw (e₁, e₂) ih.skipped_count;
  }
  with_finding-Reported r rs (some f) fs n e₁ e₂ h ih = record {
    reported = rw (e₁, e₂, sym h.agrees) (rw (h.about.0, ih.reported) refl);
    all_open = (h.about.1, ih.all_open);
    skipped_count = rw (e₁, e₂) ih.skipped_count;
  }

  evaluate_each-Reported :
      (rs : List Resource)
      → let e = evaluate_each cfg now rels costs resources rs in Reported rs e.0 e.1
  unfolding evaluate_each
  evaluate_each-Reported [] = record { reported = refl; all_open = tt; skipped_count = refl }
  evaluate_each-Reported (r ∷ rs) =
      let ih = evaluate_each-Reported rs in
      elim (Bool-cases (is_oci r)) [
        | inr e ↦ rw e (record {
          reported = rw e ih.reported;
          all_open = ih.all_open;
          skipped_count = rw e ih.skipped_count;
        })
        | inl e ↦ elim (Bool-cases (has_exclusion_tag r cfg)) [
          | inl e₁ ↦
              rw (e, e₁)
                (record {
                  reported = rw (e, e₁) ih.reported;
                  all_open = ih.all_open;
                  skipped_count = rw (e, e₁) (ap suc ih.skipped_count);
                })
          | inr e₁ ↦
              rw (e, e₁)
                (with_finding-Reported r rs _ _ _ e e₁
                  (evaluate_one_lem cfg now rels costs resources r) ih)
        ]
      ]

module _ {F : Type 0} ⦃fl : Float64 F⦄ where
  -- EvaluateOCI reports, in the order of its input and by their ids, exactly the resources that are of
  -- OCI, carry no exclusion tag, and are waste: an active volume or public IP older than the minimal
  -- age with no attachment among the relationships, whose cost is not known to be at most the threshold,
  -- or a stopped instance older than the minimal age of stopped instances with a known, not excluded
  -- resource attached as storage. Every finding is open, and the skipped count is that of the OCI resources with an
  -- exclusion tag.
  pub evaluate_oci-Reported :
      (cfg : Config F) (now : Time) (resources : List Resource) (rels : List Relationship)
      (costs : Map (CostSignal F))
      → let e = evaluate_oci cfg now resources rels costs in
        Reported cfg now rels costs (by_id resources) resources e.0 e.1
  unfolding evaluate_oci
  evaluate_oci-Reported cfg now resources rels costs =
      evaluate_each-Reported cfg now rels costs (by_id resources) resources

  -- No resource is both reported and skipped.
  pub evaluate_oci-count :
      (cfg : Config F) (now : Time) (resources : List Resource) (rels : List Relationship)
      (costs : Map (CostSignal F))
      → let e = evaluate_oci cfg now resources rels costs in length e.0 + e.1 ≤ length resources
  evaluate_oci-count cfg now resources rels costs =
      let v = evaluate_oci-Reported cfg now resources rels costs in
      let e = evaluate_oci cfg now resources rels costs in
      let reported = λ (r : Resource). is_reported cfg now rels costs (by_id resources) r in
      let skipped = λ (r : Resource). is_skipped cfg r in
      omega (
        arith,
        length-map (λ (f : Finding F). f.resource_id) e.0,
        ap length v.reported,
        length-map (λ (r : Resource). r.resource_id) (keep reported resources),
        v.skipped_count,
        apart-length reported skipped (λ r. exclusive (is_oci r) (has_exclusion_tag r cfg) _)
            resources,
      )

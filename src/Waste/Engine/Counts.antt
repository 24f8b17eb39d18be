-- ===== src/Waste/Engine/Counts.antt =====
-- What a run counts, and that it succeeds where the calls that it makes do.
use torvix.Prelude.{
  none, some, Option, Option, inl, ◌==◌, some, inr, Bool-cases, length, suc, ◌+◌, ◌≤◌, String, ◌≡◌,
  sym, ◌∙◌, List, [], ◌∷◌, map, arith,
}
use mathlib.Core.List.{◌++◌ as ◌⧺◌}
use mathlib.Core.List.{append_assoc, append-nil}
use torvix.Prelude.Clock.{Time}
use torvix.Prelude.Exec.{
  Ensures-map, Ensures, bind-Ensures, Anything, Ensures-map, pure-Ensures, anything,
}
use torvix.Prelude.Float64.{Float64}
use torvix.Domain.{provider_oci, provider_aws, Provider}
use torvix.Waste.Types.{Config, Finding}
use torvix.Waste.Rules.{evaluate_oci}
use torvix.Waste.Rules.Reported.{evaluate_oci-count}
use torvix.Waste.Results.{DetectionResult, Repository}
use torvix.Waste.Engine.{
  err, ok, unlocked, Result, State, run_locked, Service, run_with, run, Tally, count_outcome,
  key_of, upsert_each, detect, no_tally,
}

module _ {F : Type 0} where
  count_outcome-total :
      (f : Finding F) (outcome : String) (t : Tally)
      → (count_outcome f outcome t).created + (count_outcome f outcome t).updated
        ≡ suc (t.created + t.updated)
  count_outcome-total f outcome t = ground arith

module _ {F W : Type 0} ⦃fl : Float64 F⦄ where
  -- The tally of findings that are added to a tally: each is created or updated, and its key seen.
  abbrev pub Adds : Tally → List (Finding F) → Tally → W → Type 0
  Adds t fs t' w =
      (t'.created + t'.updated ≡ t.created + t.updated + length fs)
      × (t'.seen ≡ (t.seen ⧺ map key_of fs))

  Adds-step :
      (f : Finding F) (fs : List (Finding F)) (outcome : String) (t t' : Tally) (w : W)
      → Adds (count_outcome f outcome t) fs t' w
      → Adds t (f ∷ fs) t' w
  Adds-step f fs outcome t t' w h = (
    omega (arith, h.0, count_outcome-total f outcome t),
    h.1 ∙ append_assoc t.seen (key_of f ∷ []) (map key_of fs),
  )

  module _ (repo : Repository F W) where
    -- The loop over the findings, where it succeeds, counts each once and gathers their keys in order.
    pub upsert_each-Adds :
        (fs : List (Finding F)) (t : Tally) (w : W) → Ensures (Adds t fs) (upsert_each repo fs t w)
    unfolding upsert_each
    upsert_each-Adds [] t w = pure-Ensures t w (omega arith, sym (append-nil t.seen))
    upsert_each-Adds (f ∷ fs) t w = bind-Ensures Anything _ _ w (anything _) (λ outcome w' h.
        Ensures-map (Adds t (f ∷ fs)) _ (Adds-step f fs outcome t)
          (upsert_each-Adds fs (count_outcome f outcome t) w'))

    -- A detection that succeeds counts no resource twice.
    abbrev pub IsCounted : DetectionResult → W → Type 0
    IsCounted d w =
        d.findings_created + d.findings_updated + d.resources_skipped ≤ d.resources_scanned

    detect-IsCounted :
        (cfg : Config F) (provider : Provider) (clock : W → Time) (started : Time) (w : W)
        → Ensures IsCounted (detect repo cfg provider clock started w)
    unfolding detect
    detect-IsCounted cfg provider clock started w =
        bind-Ensures Anything _ _ w (anything _) (λ resources w₁ h₁.
          bind-Ensures Anything _ _ w₁ (anything _) (λ rels w₂ h₂.
            bind-Ensures Anything _ _ w₂ (anything _) (λ now w₃ h₃.
              bind-Ensures Anything _ _ w₃ (anything _) (λ costs w₄ h₄.
                let (findings, skipped) = evaluate_oci cfg now resources rels costs in
                bind-Ensures (Adds no_tally findings) _ _ w₄ (upsert_each-Adds findings no_tally w₄)
                  (λ tally w₅ h₅. bind-Ensures Anything _ _ w₅ (anything _) (λ resolved w₆ h₆.
                    bind-Ensures Anything _ _ w₆ (anything _) (λ finished w₇ h₇.
                      pure-Ensures _ w₇ (
                        omega (arith, h₅.0, evaluate_oci-count cfg now resources rels costs)))))))))

  run_locked-IsCounted :
      (svc : Service F W) (repo : Repository F W) (provider : Provider) (started : Time) (w : W)
      → Ensures (IsCounted repo) (run_locked svc repo provider started w)
  unfolding run_locked
  run_locked-IsCounted svc repo provider started w =
      bind-Ensures Anything _ _ w (anything _) (λ synced w₁ h₁.
        bind-Ensures Anything _ _ w₁ (anything _) (λ finished w₂ h₂.
          elim (Bool-cases (provider == provider_aws)) [
            | inl e ↦ rw e (pure-Ensures _ w₂ (omega arith))
            | inr e ↦ rw e (elim (Bool-cases (provider == provider_oci)) [
              | inl e' ↦ rw e' (detect-IsCounted repo svc.cfg provider svc.clock started w₂)
              | inr e' ↦ rw e' (pure-Ensures _ w₂ (omega arith))
            ])
          ]))

  unlocked-IsCounted :
      (repo : Repository F W) (svc : Service F W) (provider : Provider) (started : Time)
      (r : Result DetectionResult × W)
      → Ensures (IsCounted repo) r
      → let u = unlocked svc provider started r in IsCounted repo u.0.0 u.1.world
  unlocked-IsCounted repo svc provider started (ok d, w) h = h.holds
  unlocked-IsCounted repo svc provider started (err e, w) h = omega arith

  run_with-IsCounted :
      (repo : Repository F W) (svc : Service F W) (s : State W)
      → let r = run_with svc (some repo) s in IsCounted repo r.0.0 r.1.world
  unfolding run_with
  run_with-IsCounted repo svc s = elim (Bool-cases s.running) [
    | inl e ↦ rw e (omega arith)
    | inr e ↦ rw e (unlocked-IsCounted repo svc _ _ _ (run_locked-IsCounted svc repo _ _ s.world))
  ]

  -- Whatever the database and the inventory answer, the findings that a run reports as created and as
  -- updated, and the resources that it reports as skipped, are together no more than the resources it
  -- reports as scanned.
  pub run-IsCounted :
      (svc : Service F W) (s : State W)
      → let d = (run svc s).0.0 in
        d.findings_created + d.findings_updated + d.resources_skipped ≤ d.resources_scanned
  unfolding run
  run-IsCounted svc s = elim (Bool-cases svc.cfg.enabled) [
    | inr e ↦ simp e (omega arith)
    | inl e ↦
        simp e
          (elim svc.repo
            as (λ (o : Option (Repository F W)).
              let d = (run_with svc o s).0.0 in
              d.findings_created + d.findings_updated + d.resources_skipped ≤ d.resources_scanned) [
                | none ↦ unfold run_with in omega arith
                | some repo ↦ run_with-IsCounted repo svc s
              ])
  ]

-- ===== src/Waste/Engine/Lock.antt =====
-- The lock of a run, and that a run succeeds where the calls that it makes do.
use torvix.Prelude.{
  Bool-cases, Option-cases, String, ◌≡◌, refl, inl, inr, true, false, Option, none, some, List, [],
  ◌∷◌, ◌==◌,
}
use torvix.Prelude.Clock.{Time}
use torvix.Prelude.Keys.{Map}
use torvix.Prelude.Exec.{Returns, bind-Returns, Anything, pure-Returns, label-Returns}
use torvix.Prelude.Result.{Result, ok, err}
use torvix.Prelude.Float64.{Float64}
use torvix.Domain.{Provider, provider_aws, provider_oci}
use torvix.Waste.Types.{Resource, CostSignal, Finding}
use torvix.Waste.Results.{DetectionResult, Repository, InventoryProvider}
use torvix.Waste.Engine.{
  Service, State, Tally, correlate, upsert_each, detect, sync_inventory, run_locked, unlocked,
  run_with, run, no_tally, run_already_active,
}

module _ {F W : Type 0} ⦃fl : Float64 F⦄ where
  unlocked-running :
      (svc : Service F W) (provider : Provider) (started : Time) (r : Result DetectionResult × W)
      → (unlocked svc provider started r).1.running ≡ false
  unlocked-running svc provider started (ok d, w) = refl
  unlocked-running svc provider started (err e, w) = refl

  run_with-running :
      (svc : Service F W) (o : Option (Repository F W)) (s : State W)
      → (run_with svc o s).1.running ≡ s.running
  unfolding run_with
  run_with-running svc none s = refl
  run_with-running svc (some repo) s = elim (Bool-cases s.running) [
    | inl e ↦ rw e refl
    | inr e ↦ rw e (unlocked-running svc _ _ _)
  ]

  -- A run leaves the lock as it found it, on every path, errors included.
  pub run-running : (svc : Service F W) (s : State W) → (run svc s).1.running ≡ s.running
  unfolding run
  run-running svc s = elim (Bool-cases svc.cfg.enabled) [
    | inl e ↦ simp e (run_with-running svc svc.repo s)
    | inr e ↦ simp e refl
  ]

  -- A run of an enabled service with a database that finds the lock taken fails with the error of a run
  -- under way, and leaves the state as it is.
  pub run_busy :
      (svc : Service F W) (s : State W) (repo : Repository F W)
      → svc.cfg.enabled ≡ true
      → svc.repo ≡ some repo
      → s.running ≡ true
      → ((run svc s).1 ≡ s) × ((run svc s).0.1 ≡ some run_already_active)
  unfolding run run_with
  run_busy svc s repo e₁ e₂ e₃ = simp (e₁, e₂, e₃) (refl, refl)

  -- Each call of the database and of the inventory succeeds, in every state.
  pub record IsReliable (svc : Service F W) (repo : Repository F W) : Type 0 where
    pub sync :
        (p : Provider) (i : InventoryProvider W) (w : W)
        → svc.providers p ≡ some i
        → Returns Anything (i.sync w)
    pub list_cloud_resources :
        (p : Provider) (w : W) → Returns Anything (repo.list_cloud_resources p w)
    pub list_cloud_relationships :
        (p : Provider) (w : W) → Returns Anything (repo.list_cloud_relationships p w)
    pub upsert_waste_finding :
        (f : Finding F) (w : W) → Returns Anything (repo.upsert_waste_finding f w)
    pub resolve_missing_waste_findings :
        (p : Provider) (rules seen : List String) (w : W)
        → Returns Anything (repo.resolve_missing_waste_findings p rules seen w)

  module _ (svc : Service F W) (repo : Repository F W) (v : IsReliable svc repo) where
    upsert_each-Returns :
        (fs : List (Finding F)) (t : Tally) (w : W) → Returns Anything (upsert_each repo fs t w)
    unfolding upsert_each
    upsert_each-Returns [] t w = pure-Returns t w tt
    upsert_each-Returns (f ∷ fs) t w =
        bind-Returns Anything _ _ w (label-Returns _ _ w (v.upsert_waste_finding f w))
          (λ outcome w' h. upsert_each-Returns fs _ w')

    -- A cost that cannot be read is no error.
    correlate-Returns :
        (provider : Provider) (now : Time) (rs : List Resource) (costs : Map (CostSignal F)) (w : W)
        → Returns Anything (correlate repo provider now rs costs w)
    unfolding correlate
    correlate-Returns provider now [] costs w = pure-Returns costs w tt
    correlate-Returns provider now (r ∷ rs) costs w = correlate-Returns provider now rs _ _

    detect-Returns :
        (provider : Provider) (started : Time) (w : W)
        → Returns Anything (detect repo svc.cfg provider svc.clock started w)
    unfolding detect
    detect-Returns provider started w =
        bind-Returns Anything _ _ w (label-Returns _ _ w (v.list_cloud_resources _ _))
          (λ resources w₁ h₁.
            bind-Returns Anything _ _ w₁ (label-Returns _ _ w₁ (v.list_cloud_relationships _ _))
              (λ rels w₂ h₂. bind-Returns Anything _ _ w₂ (pure-Returns _ w₂ tt) (λ now w₃ h₃.
                bind-Returns Anything _ _ w₃ (correlate-Returns _ now resources _ w₃)
                  (λ costs w₄ h₄.
                    bind-Returns Anything _ _ w₄ (upsert_each-Returns _ no_tally w₄) (λ tally w₅ h₅.
                      bind-Returns Anything _ _ w₅
                        (label-Returns _ _ w₅ (v.resolve_missing_waste_findings _ _ _ _))
                        (λ resolved w₆ h₆.
                          bind-Returns Anything _ _ w₆ (pure-Returns _ w₆ tt)
                            (λ finished w₇ h₇. pure-Returns _ w₇ tt)))))))

    sync_inventory-Returns :
        (provider : Provider) (w : W) → Returns Anything (sync_inventory (svc.providers provider) w)
    unfolding sync_inventory
    sync_inventory-Returns provider w = elim (Option-cases (svc.providers provider)) [
      | inl e ↦ rw e (pure-Returns tt w tt)
      | inr (i, e) ↦ rw e (
          bind-Returns Anything _ _ w (label-Returns _ _ w (v.sync provider i w e))
            (λ r w' h. pure-Returns tt w' tt))
    ]

    run_locked-Returns :
        (provider : Provider) (started : Time) (w : W)
        → Returns Anything (run_locked svc repo provider started w)
    unfolding run_locked
    run_locked-Returns provider started w =
        bind-Returns Anything _ _ w (sync_inventory-Returns provider w) (λ synced w₁ h₁.
          bind-Returns Anything _ _ w₁ (pure-Returns _ w₁ tt) (λ finished w₂ h₂.
            elim (Bool-cases (provider == provider_aws)) [
              | inl e ↦ rw e (pure-Returns _ w₂ tt)
              | inr e ↦ rw e (elim (Bool-cases (provider == provider_oci)) [
                | inl e' ↦ rw e' (detect-Returns provider started w₂)
                | inr e' ↦ rw e' (pure-Returns _ w₂ tt)
              ])
            ]))

    unlocked-Returns :
        (provider : Provider) (started : Time) (r : Result DetectionResult × W)
        → Returns Anything r
        → (unlocked svc provider started r).0.1 ≡ none
    unlocked-Returns provider started (ok d, w) h = refl
    unlocked-Returns provider started (err e, w) h = elim h.holds [ ]

    -- Where every call of the database and of the inventory succeeds, except for those that read a
    -- cost, a run that finds the lock free ends without an error.
    pub run-succeeds :
        (s : State W) → svc.repo ≡ some repo → s.running ≡ false → (run svc s).0.1 ≡ none
    unfolding run run_with
    run-succeeds s e₁ e₂ = elim (Bool-cases svc.cfg.enabled) [
      | inl e ↦ simp (e, e₁, e₂) (unlocked-Returns _ _ _ (run_locked-Returns _ _ s.world))
      | inr e ↦ simp e refl
    ]

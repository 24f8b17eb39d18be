-- ===== src/Postgres/Migrator/Log.antt =====
-- The log of the applied migrations: Run against what a database promises of its statements.
use torvix.Prelude.{
  Bool-cases, keep, String, ◌≡◌, refl, sym, ap, subst, ◌∙◌, ◌⊎◌, inl, inr, false, not, List, [],
  ◌∷◌, ◌++◌,
}
use torvix.Prelude.Keys.{contains}
use mathlib.Core.List.{append-nil}
use torvix.Prelude.Words.{str_contains}
use torvix.Prelude.Exec.{Ends, bind-Ends, label-Ends, pure-Ends, Ends-map}
use torvix.Prelude.Result.{Result, ok, err}
use torvix.Postgres.Migrator.{
  DirEntry, Pool, or_roll_back, rolled_back_result, apply_directly, apply_in_transaction, apply_new,
  apply_migration, marker,
}

-- The names that are not in the log.
abbrev pub pending_of : List String → List String → List String
pending_of log names = keep (λ n. not (contains n log)) names

module _ {W : Type 0} (pool : Pool W) (dir : List DirEntry) (log staged : W → List String) where
  -- The log after a call that may have added a name to it: one that fails may have done so too.
  abbrev pub Unsure : List String → List String → W → Type 0
  Unsure l more w = (log w ≡ l) ⊎ (log w ≡ (l ++ more))

  -- What the statements do to the log, the committed versions in the order of their insertion, and to
  -- the versions that the open transaction has staged. The scripts leave the table of versions alone,
  -- and the directory stays as it is. A call that fails leaves the log, except that an insertion or a
  -- commit may have been made before the answer was lost.
  pub record IsDatabase : Type 0 where
    pub ensure :
        (w : W)
        → Ends (λ a w'. log w' ≡ log w) (λ w'. log w' ≡ log w) (pool.ensure_schema_migrations w)
    pub read_dir :
        (w : W)
        → Ends
            (λ entries w'. (entries ≡ dir) × (log w' ≡ log w))
            (λ w'. log w' ≡ log w)
            (pool.read_dir w)
    pub exists :
        (name : String) (w : W)
        → Ends
            (λ b w'. (b ≡ contains name (log w)) × (log w' ≡ log w))
            (λ w'. log w' ≡ log w)
            (pool.exists name w)
    pub read_file :
        (name : String) (w : W)
        → Ends (λ a w'. log w' ≡ log w) (λ w'. log w' ≡ log w) (pool.read_file name w)
    pub exec :
        (sql : String) (w : W)
        → Ends (λ a w'. log w' ≡ log w) (λ w'. log w' ≡ log w) (pool.exec sql w)
    pub insert_version :
        (name : String) (w : W)
        → contains name (log w) ≡ false
        → Ends
            (λ a w'. log w' ≡ (log w ++ name ∷ []))
            (Unsure (log w) (name ∷ []))
            (pool.insert_version name w)
    pub begin :
        (w : W)
        → Ends (λ a w'. (log w' ≡ log w) × (staged w' ≡ [])) (λ w'. log w' ≡ log w) (pool.begin w)
    pub tx_exec :
        (sql : String) (w : W)
        → Ends
            (λ a w'. (log w' ≡ log w) × (staged w' ≡ staged w))
            (λ w'. log w' ≡ log w)
            (pool.tx_exec sql w)
    pub tx_insert_version :
        (name : String) (w : W)
        → Ends
            (λ a w'. (log w' ≡ log w) × (staged w' ≡ (staged w ++ name ∷ [])))
            (λ w'. log w' ≡ log w)
            (pool.tx_insert_version name w)
    pub tx_commit :
        (w : W)
        → Ends (λ a w'. log w' ≡ (log w ++ staged w)) (Unsure (log w) (staged w)) (pool.tx_commit w)
    pub tx_rollback : (w : W) → log (pool.tx_rollback w) ≡ log w

  module _ (db : IsDatabase) where
    -- One name is added by a call that succeeds, and at most that name by one that fails.
    abbrev pub Adds : List String → List String → Unit {0} → W → Type 0
    Adds more l a w = log w ≡ (l ++ more)

    -- The call leaves the log as it was.
    abbrev pub Keeps : {A : Type 0} → List String → A → W → Type 0
    Keeps l a w = log w ≡ l

    apply_directly-Adds :
        (name sql : String) (w : W) (l : List String)
        → log w ≡ l
        → contains name l ≡ false
        → Ends (Adds (name ∷ []) l) (Unsure l (name ∷ [])) (apply_directly pool name sql w)
    unfolding apply_directly
    apply_directly-Adds name sql w l e h =
        bind-Ends {R = Keeps l} _ _ w
          (label-Ends _ _ w (Ends-map _ (λ a w' p. p ∙ e) (λ w' p. inl (p ∙ e)) (db.exec sql w)))
          (λ a w₁ e₁. label-Ends _ _ w₁ (inserted w₁ e₁))
      where
        inserted :
            (w₁ : W)
            → log w₁ ≡ l
            → Ends (Adds (name ∷ []) l) (Unsure l (name ∷ [])) (pool.insert_version name w₁)
        inserted w₁ e₁ =
            subst
              (λ k. Ends (Adds (name ∷ []) k) (Unsure k (name ∷ [])) (pool.insert_version name w₁))
              e₁ (db.insert_version name w₁ (rw e₁ h))

    rolled_back-Ends :
        {A : Type 0} {P : A → W → Type 0} (l more : List String) (r : Result A × W)
        → Ends P (λ w. log w ≡ l) r
        → Ends P (Unsure l more) (rolled_back_result pool.tx_rollback r)
    rolled_back-Ends l more (ok a, w) h = record { holds = h.holds }
    rolled_back-Ends l more (err e, w) h = record { holds = inl (db.tx_rollback w ∙ h.holds) }

    -- What the open transaction has staged.
    abbrev Stages : List String → List String → Unit {0} → W → Type 0
    Stages l names a w = (log w ≡ l) × (staged w ≡ names)

    committed :
        (l names : List String) (w : W)
        → Stages l names tt w
        → Ends (Adds names l) (Unsure l names) (pool.tx_commit w)
    committed l names w s =
        subst (λ k. Ends (Adds names k) (Unsure k names) (pool.tx_commit w)) s.0
          (subst (λ k. Ends (Adds k (log w)) (Unsure (log w) k) (pool.tx_commit w)) s.1
            (db.tx_commit w))

    module _ (name sql : String) (l : List String) where
      staged_version :
          (w : W)
          → Stages l [] tt w
          → Ends (Stages l (name ∷ [])) (λ w'. log w' ≡ l) (pool.tx_insert_version name w)
      staged_version w s =
          Ends-map _ (λ a w' p. (p.0 ∙ s.0, p.1 ∙ rw s.1 refl)) (λ w' p. p ∙ s.0)
            (db.tx_insert_version name w)

      applied_script :
          (w : W) → Stages l [] tt w → Ends (Stages l []) (λ w'. log w' ≡ l) (pool.tx_exec sql w)
      applied_script w s =
          Ends-map _ (λ a w' p. (p.0 ∙ s.0, p.1 ∙ s.1)) (λ w' p. p ∙ s.0) (db.tx_exec sql w)

      apply_in_transaction-Adds :
          (w : W)
          → log w ≡ l
          → Ends (Adds (name ∷ []) l) (Unsure l (name ∷ [])) (apply_in_transaction pool name sql w)
      unfolding apply_in_transaction or_roll_back
      apply_in_transaction-Adds w e =
          bind-Ends {R = Stages l []} _ _ w
            (label-Ends _ _ w
              (Ends-map _ (λ a w' p. (p.0 ∙ e, p.1)) (λ w' p. inl (p ∙ e)) (db.begin w)))
            (λ a₁ w₁ s₁.
              bind-Ends {R = Stages l []} _ _ w₁
                (label-Ends _ _ w₁ (rolled_back-Ends l _ _ (applied_script w₁ s₁)))
                (λ a₂ w₂ s₂.
                  bind-Ends {R = Stages l (name ∷ [])} _ _ w₂
                    (label-Ends _ _ w₂ (rolled_back-Ends l _ _ (staged_version w₂ s₂)))
                    (λ a₃ w₃ s₃. label-Ends _ _ w₃ (committed l (name ∷ []) w₃ s₃))))

    apply_new-Adds :
        (name : String) (w : W) (l : List String)
        → log w ≡ l
        → contains name l ≡ false
        → Ends (Adds (name ∷ []) l) (Unsure l (name ∷ [])) (apply_new pool name w)
    unfolding apply_new
    apply_new-Adds name w l e h =
        bind-Ends {R = Keeps l} _ _ w
          (label-Ends _ _ w
            (Ends-map _ (λ a w' p. p ∙ e) (λ w' p. inl (p ∙ e)) (db.read_file name w)))
          (λ sql w₁ e₁. elim (Bool-cases (str_contains sql marker)) [
            | inl m ↦ rw m (apply_directly-Adds name sql w₁ l e₁ h)
            | inr m ↦ rw m (apply_in_transaction-Adds name sql l w₁ e₁)
          ])

    -- The body of the loop: the name is added unless it is there, and nothing else.
    pub apply_migration-Adds :
        (name : String) (w : W) (l : List String)
        → log w ≡ l
        → Ends
            (Adds (pending_of l (name ∷ [])) l)
            (Unsure l (pending_of l (name ∷ [])))
            (apply_migration pool name w)
    unfolding apply_migration
    apply_migration-Adds name w l e =
        bind-Ends {R = λ b w'. (b ≡ contains name l) × (log w' ≡ l)} _ _ w
          (label-Ends _ _ w (
            Ends-map _ (λ b w' p. (p.0 ∙ ap (contains name) e, p.1 ∙ e)) (λ w' p. inl (p ∙ e))
              (db.exists name w)))
          (λ b w₁ p. elim (Bool-cases (contains name l)) [
            | inl m ↦ rw (p.0, m) (pure-Ends tt w₁ (p.1 ∙ sym (append-nil l)))
            | inr m ↦ rw (p.0, m) (apply_new-Adds name w₁ l p.1 m)
          ])

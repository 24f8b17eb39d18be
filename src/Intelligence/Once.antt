-- ===== src/Intelligence/Once.antt =====
-- A task that is processed again is not generated again.
use torvix.Prelude.{
  Bool-cases, String, ◌≡◌, refl, sym, ap, ◌∙◌, ◌⊎◌, inl, inr, true, Option, none, some, arith, ◌==◌,
  eq_iff, eq_refl,
}
use torvix.Prelude.Float64.{Float64}
use torvix.Prelude.Result.{Result, ok, err}
use torvix.Intelligence.Queue.{Config, Task}
use torvix.Intelligence.Process.{
  Enrichment, Generated, Outside, status_completed, is_current, enrichment_of, reuse_for,
  generate_for, reuse_or_generate, look_up, hashed, process,
}

module _ {F I W : Type 0} (out : Outside F I W) where
  open out use {get_ai_enrichment, get_ai_enrichment_by_input, upsert_ai_enrichment}

  -- What the database promises: an upsert without an error is read back, and a look-up by input gives
  -- an enrichment of that very type, input, provider and model.
  pub record IsStore : Type 0 where
    pub read_back :
        (e : Enrichment F) (w : W)
        → (upsert_ai_enrichment e w).0 ≡ none
        → get_ai_enrichment e.entity_type e.entity_id (upsert_ai_enrichment e w).1 ≡ ok (some e)
    pub by_input :
        (entity hash provider model : String) (w : W) (e : Enrichment F)
        → get_ai_enrichment_by_input entity hash provider model w ≡ ok (some e)
        → (e.entity_type ≡ entity)
          × (e.input_hash ≡ hash)
          × (e.provider ≡ provider)
          × (e.model ≡ model)

module _ {F I W : Type 0} ⦃fl : Float64 F⦄ (out : Outside F I W) (config : Config)
    (store : IsStore out) (task : Task I) where
  open out use {
    clock, hash_input, get_ai_enrichment, get_ai_enrichment_by_input, upsert_ai_enrichment,
    generate,
  }

  -- No upsert fails, and the AI client answers.
  pub record IsUp : Type 0 where
    pub saves : (e : Enrichment F) (w : W) → (upsert_ai_enrichment e w).0 ≡ none
    pub answers : (w : W) → (g : Generated F) × ((generate task.kind task.input w).0 ≡ ok g)

  -- The enrichment of the task is there.
  abbrev Settled : String → W → Type 0
  Settled hash w =
      (e : Option (Enrichment F)) × (get_ai_enrichment task.entity_type task.entity_id w ≡ ok e)
      × (is_current out config hash e ≡ true)

  hashed-Settled :
      (r : Result String) (hash : String) (w : W)
      → r ≡ ok hash
      → Settled hash w
      → hashed out config task r w ≡ w
  hashed-Settled r hash w e (found, at, current) = rw (e, at, current) refl

  saved-Settled :
      (up : IsUp) (hash : String) (e : Enrichment F) (w : W)
      → e.entity_type ≡ task.entity_type
      → e.entity_id ≡ task.entity_id
      → is_current out config hash (some e) ≡ true
      → Settled hash (upsert_ai_enrichment e w).1
  saved-Settled up hash e w entity id current = (
    some e,
    (λ i. get_ai_enrichment (sym entity i) (sym id i) (upsert_ai_enrichment e w).1)
        ∙ store.read_back e w (up.saves e w),
    current,
  )

  generate_for-Settled :
      (up : IsUp) (hash : String) (w : W) → Settled hash (generate_for out config task hash w)
  unfolding enrichment_of
  generate_for-Settled up hash w =
      let (g, e) = up.answers w in
      rw e (
        saved-Settled up hash _ _ refl refl
          (ground (arith, eq_refl hash, eq_refl config.provider, eq_refl config.model)))

  -- One run leaves the world as it is, or the enrichment is there after it.
  reuse_or_generate-Settled :
      (up : IsUp) (hash : String) (w : W) (r : Result (Option (Enrichment F)))
      → get_ai_enrichment_by_input task.entity_type hash config.provider config.model w ≡ r
      → (reuse_or_generate out config task hash r w ≡ w)
        ⊎ Settled hash (reuse_or_generate out config task hash r w)
  reuse_or_generate-Settled up hash w (err e) at = inl refl
  reuse_or_generate-Settled up hash w (ok none) at = inr (generate_for-Settled up hash w)
  reuse_or_generate-Settled up hash w (ok (some e)) at =
      elim (Bool-cases (e.status == status_completed)) [
        | inl q ↦
            let (entity, same, provider, model) = store.by_input _ _ _ _ w e at in
            rw q (
              inr (
                saved-Settled up hash (reuse_for out config task (clock w) e) w entity refl (
                  ground (
                    arith,
                    q,
                    eq_iff e.input_hash hash,
                    eq_iff e.provider config.provider,
                    eq_iff e.model config.model,
                  ))))
        | inr q ↦ rw q (inr (generate_for-Settled up hash w))
      ]

  look_up-Settled :
      (up : IsUp) (hash : String) (w : W) (r : Result (Option (Enrichment F)))
      → (look_up out config task hash r w ≡ w) ⊎ Settled hash (look_up out config task hash r w)
  look_up-Settled up hash w (err e) = inl refl
  look_up-Settled up hash w (ok found) = elim (Bool-cases (is_current out config hash found)) [
    | inl q ↦ rw q (inl refl)
    | inr q ↦
        let by = get_ai_enrichment_by_input task.entity_type hash config.provider config.model w in
        rw q (reuse_or_generate-Settled up hash w by refl)
  ]

  hashed_again :
      (up : IsUp) (r : Result String) (w : W)
      → hashed out config task r (hashed out config task r w) ≡ hashed out config task r w
  hashed_again up (err e) w = refl
  hashed_again up (ok hash) w =
      elim (look_up-Settled up hash w (get_ai_enrichment task.entity_type task.entity_id w)) [
        | inl same ↦ ap (λ (v : W). hashed out config task (ok hash) v) same
        | inr there ↦ hashed-Settled (ok hash) hash _ refl there
      ]

  -- On a database that keeps its promises, when no upsert fails and the AI client answers, processing a task a second time changes nothing:
  -- neither the client nor the database is asked to do it again.
  pub process_again :
      (up : IsUp) (w : W)
      → process out config task (process out config task w) ≡ process out config task w
  unfolding process
  process_again up w = hashed_again up (hash_input task.input) w

-- ===== src/Intelligence/Limits.antt =====
-- How many tasks one submit adds, and which.
use torvix.Prelude.{
  Bool-cases, length, All, length-append, All-append, ℕ, ◌+◌, ◌-◌, ◌≤◌, String, ◌≡◌, refl, sym, ap,
  subst, ◌∙◌, inl, inr, false, List, [], ◌∷◌, arith,
}
use mathlib.Core.List.{◌++◌, append-nil, append_assoc}
use torvix.Prelude.Int.{ℤ, pos, leb_ℤ}
use torvix.Intelligence.Order.{takes, submit-takes, submit-drops}
use torvix.Intelligence.Queue.{
  entity_waste, entity_anomaly, Config, submit_waste_findings, submit_anomalies, Task, Queue,
  submit, submit_from,
}

module _ {I : Type 0} where
  -- The task is of an anomaly that the database has stored.
  abbrev pub IsStored : Task I → Type 0
  IsStored t = leb_ℤ t.entity_id (pos 0) ≡ false

  -- What is behind the tasks of a queue after more were submitted.
  pub record Added (limit : ℕ) (before after : Queue I) : Type 0 where
    pub added : List (Task I)
    pub behind : after.tasks ≡ before.tasks ++ added
    pub few : length added ≤ limit
    pub stored : All IsStored added

  none-Added : (n : ℕ) (q : Queue I) → Added n q q
  none-Added n q = record {
    added = [];
    behind = sym (append-nil q.tasks);
    few = omega arith;
    stored = tt;
  }

  then-Added : (m n : ℕ) (p q r : Queue I) → Added m p q → Added n q r → Added (m + n) p r
  then-Added m n p q r a b = record {
    added = a.added ++ b.added;
    behind = b.behind ∙ ap (λ l. l ++ b.added) a.behind ∙ append_assoc p.tasks a.added b.added;
    few = omega (arith, length-append a.added b.added, a.few, b.few);
    stored = All-append IsStored a.added b.added a.stored b.stored;
  }

  submit-Added : (t : Task I) (q : Queue I) → IsStored t → Added 1 q (submit t q)
  submit-Added t q h = elim (Bool-cases (takes q)) [
    | inl e ↦
        subst (Added 1 q) (sym (submit-takes t q e))
          (record { added = t ∷ []; behind = refl; few = omega arith; stored = (h, tt) })
    | inr e ↦ subst (Added 1 q) (sym (submit-drops t q e)) (none-Added 1 q)
  ]

  submit_from-Added :
      (i limit : ℕ) (entity kind : String) (items : List (ℤ × I)) (q : Queue I)
      → Added (limit - i) q (submit_from i (pos limit) entity kind items q)
  unfolding submit_from
  submit_from-Added i limit entity kind [] q = none-Added (limit - i) q
  submit_from-Added i limit entity kind ((id, input) ∷ items) q =
      let task : Task I = record {
        entity_type = entity;
        entity_id = id;
        kind = kind;
        input = input;
      } in
      elim (Bool-cases (leb_ℤ (pos limit) (pos i))) [
        | inl e ↦ rw e (none-Added (limit - i) q)
        | inr e ↦
            let s : 1 + (limit - (i + 1)) ≡ limit - i = ground arith in
            elim (Bool-cases (leb_ℤ id (pos 0))) [
              | inl skip ↦
                  rw (e, skip)
                    (subst (λ n. Added n q (submit_from (i + 1) (pos limit) entity kind items q)) s
                      (then-Added 1 _ q q _ (none-Added 1 q)
                        (submit_from-Added (i + 1) limit entity kind items q)))
              | inr stored ↦
                  rw (e, stored)
                    (subst
                      (λ n.
                        Added n q
                          (submit_from (i + 1) (pos limit) entity kind items (submit task q)))
                      s
                      (then-Added 1 _ q (submit task q) _ (submit-Added task q stored)
                        (submit_from-Added (i + 1) limit entity kind items (submit task q))))
            ]
      ]

  -- SubmitAnomalies and SubmitWasteFindings leave the queue as it was up to some tasks behind it: at
  -- most as many as MaxItemsPerRun, which is n here, and none for an item without a positive id.
  pub submit_anomalies-Added :
      (c : Config) (n : ℕ) (items : List (ℤ × I)) (q : Queue I)
      → c.max_items_per_run ≡ pos n
      → Added n q (submit_anomalies c items q) × Added n q (submit_waste_findings c items q)
  unfolding submit_anomalies submit_waste_findings
  submit_anomalies-Added c n items q h =
      let z : n - 0 ≡ n = omega arith in
      elim (Bool-cases c.enabled) [
        | inl e ↦
            rw (e, h)
              (
                subst (λ m. Added m q (submit_from 0 (pos n) entity_anomaly "cost_anomaly" items q))
                    z (submit_from-Added 0 n entity_anomaly "cost_anomaly" items q),
                subst (λ m. Added m q (submit_from 0 (pos n) entity_waste "waste_finding" items q))
                    z (submit_from-Added 0 n entity_waste "waste_finding" items q),
              )
        | inr e ↦ rw e (none-Added n q, none-Added n q)
      ]

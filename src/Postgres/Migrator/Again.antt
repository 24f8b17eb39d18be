-- ===== src/Postgres/Migrator/Again.antt =====
-- A second run of the migrator.
use torvix.Prelude.{
  Bool-cases, take, ℕ, zero, suc, String, ◌≡◌, refl, sym, subst, ◌∙◌, inl, inr, Bool, true, false,
  ◌||◌, List, [], ◌∷◌, ◌++◌, map, arith, ◌==◌, eq_iff, eq_refl,
}
use torvix.Prelude.Keys.{contains, Distinct, contains-append}
use mathlib.Core.List.{append-nil}
use torvix.Prelude.Exec.{Ends, Ends-map}
use torvix.Prelude.Result.{ok}
use torvix.Postgres.Migrator.{DirEntry, Pool, migrate, migration_files}
use torvix.Postgres.Migrator.Log.{pending_of, IsDatabase}
use torvix.Postgres.Migrator.Progress.{Prefix, migrate-Ends}

or_right : (a b : Bool) → a ≡ false → (a || b) ≡ true → b ≡ true
or_right a b p q = ground arith

take_nothing : (n : ℕ) → take {A = String} n [] ≡ []
take_nothing zero = refl
take_nothing (suc n) = refl

contains-pending_of :
    (k : String) (l names : List String)
    → contains k names ≡ true
    → contains k (l ++ pending_of l names) ≡ true
contains-pending_of k l names h =
    contains-append k l (pending_of l names) ∙ elim (Bool-cases (contains k l)) [
      | inl e ↦ rw e refl
      | inr e ↦ rw (e, missing names h e) refl
    ]
  where
    missing :
        (names : List String)
        → contains k names ≡ true
        → contains k l ≡ false
        → contains k (pending_of l names) ≡ true
    missing [] h e = cc
    missing (n ∷ names) h e = elim (Bool-cases (n == k)) [
      | inl p ↦
          let absent : contains n l ≡ false =
            subst (λ (x : String). contains x l ≡ false) (sym ((eq_iff n k).0 p)) e in
          rw (absent, p) refl
      | inr p ↦
          let rest = missing names (or_right (n == k) (contains k names) p h) e in
          elim (Bool-cases (contains n l)) [ inl q ↦ rw q rest | inr q ↦ rw (q, p) rest ]
    ]

nothing_pending :
    (m names : List String)
    → ((k : String) → contains k names ≡ true → contains k m ≡ true)
    → pending_of m names ≡ []
nothing_pending m [] h = refl
nothing_pending m (n ∷ names) h =
    let here : contains n m ≡ true = h n (rw (eq_refl n) refl) in
    rw here (nothing_pending m names (λ k c. h k (rw c (ground arith))))

module _ {W : Type 0} (pool : Pool W) (dir : List DirEntry) (log staged : W → List String)
    (db : IsDatabase pool dir log staged) where
  first_run :
      (w w' : W)
      → Distinct (map (λ (e : DirEntry). e.name) dir)
      → migrate pool w ≡ (ok tt, w')
      → log w' ≡ (log w ++ pending_of (log w) (migration_files dir))
  first_run w w' d e =
      (subst
        (Ends (λ u w₁. log w₁ ≡ (log w ++ pending_of (log w) (migration_files dir)))
          (Prefix pool dir log staged (log w) (pending_of (log w) (migration_files dir))))
        e (migrate-Ends pool dir log staged db w d)).holds

  -- On a database that keeps its promises, and where no two entries of the directory have one name, a
  -- run after one that succeeded leaves the log of applied migrations as it is, whether it succeeds or
  -- fails.
  pub migrate_again :
      (w w' : W)
      → Distinct (map (λ (e : DirEntry). e.name) dir)
      → migrate pool w ≡ (ok tt, w')
      → Ends (λ u w''. log w'' ≡ log w') (λ w''. log w'' ≡ log w') (migrate pool w')
  migrate_again w w' d e =
      let files = migration_files dir in
      let none_left : pending_of (log w') files ≡ [] =
        nothing_pending (log w') files
          (λ k c. rw (first_run w w' d e) (contains-pending_of k (log w) files c)) in
      Ends-map _ (λ u w'' p. p ∙ rw (none_left, append-nil (log w')) refl)
        (λ w'' p. p.1 ∙ rw (none_left, take_nothing p.0, append-nil (log w')) refl)
        (migrate-Ends pool dir log staged db w' d)

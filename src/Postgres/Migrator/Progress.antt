-- ===== src/Postgres/Migrator/Progress.antt =====
-- A run of the migrator extends the log by the pending files in order, by all of them where it succeeds.
use torvix.Prelude.{
  subst, ◌&&◌, map, keep, if◌then◌else◌, Bool-cases, take, ℕ, suc, String, ◌≡◌, refl, sym, ap, ◌∙◌,
  inl, inr, Bool, true, false, not, ◌||◌, List, [], ◌∷◌, ◌++◌, arith, ◌==◌, eq_iff,
}
use torvix.Prelude.Keys.{contains, Distinct, contains-append}
use mathlib.Core.List.{append-nil, append_assoc}
use torvix.Prelude.Exec.{label-Ends, Ends, bind-Ends, pure-Ends, Ends-map}
use torvix.Postgres.Migrator.{is_migration, migration_files, migrate, DirEntry, Pool, apply_each}
use torvix.Postgres.Migrator.Sorting.{
  sort_strings-Distinct, IsAscending, sort_strings-IsAscending, sort_strings-perm,
}
use mathlib.Core.List.{Perm}
use torvix.Prelude.Words.{has_suffix}
use torvix.Postgres.Migrator.Log.{Keeps, pending_of, IsDatabase, Unsure, apply_migration-Adds}

take_more : (a b : List String) (n : ℕ) → (m : ℕ) × (take m (a ++ b) ≡ (a ++ take n b))
take_more [] b n = (n, refl)
take_more (x ∷ a) b n = let (m, e) = take_more a b n in (suc m, ap (λ l. x ∷ l) e)

-- A name that is not asked for does not matter.
pending_of-snoc :
    (l names : List String) (name : String)
    → contains name names ≡ false
    → pending_of (l ++ name ∷ []) names ≡ pending_of l names
pending_of-snoc l [] name h = refl
pending_of-snoc l (n ∷ names) name h =
    let other : (name == n) ≡ false = ground (arith, eq_iff name n, eq_iff n name) in
    let rest = pending_of-snoc l names name (ground arith) in
    rw (contains-append n l (name ∷ []), other, rest)
      (or_false (contains n l) n (pending_of l names))
  where
    or_false :
        (b : Bool) (n : String) (r : List String)
        → (if not (b || (false || false)) then n ∷ r else r) ≡ (if not b then n ∷ r else r)
    or_false true n r = refl
    or_false false n r = refl

pending_of-step :
    (l names : List String) (name : String)
    → contains name names ≡ false
    → pending_of l (name ∷ names)
      ≡ (pending_of l (name ∷ []) ++ pending_of (l ++ pending_of l (name ∷ [])) names)
pending_of-step l names name h = elim (Bool-cases (contains name l)) [
  | inl e ↦ rw (e, append-nil l) refl
  | inr e ↦ rw (e, pending_of-snoc l names name h) refl
]

abbrev pub names_of : List DirEntry → List String
names_of es = map (λ (e : DirEntry). e.name) es

not_contains-keep :
    (k : String) (p : DirEntry → Bool) (es : List DirEntry)
    → contains k (names_of es) ≡ false
    → contains k (names_of (keep p es)) ≡ false
not_contains-keep k p [] h = refl
not_contains-keep k p (e ∷ es) h =
    let rest = not_contains-keep k p es (ground arith) in
    elim (Bool-cases (p e)) [ inl q ↦ rw q (ground arith) | inr q ↦ rw q rest ]

keep-Distinct :
    (p : DirEntry → Bool) (es : List DirEntry)
    → Distinct (names_of es)
    → Distinct (names_of (keep p es))
keep-Distinct p [] d = tt
keep-Distinct p (e ∷ es) d = elim (Bool-cases (p e)) [
  | inl q ↦ rw q (not_contains-keep e.name p es d.0, keep-Distinct p es d.1)
  | inr q ↦ rw q (keep-Distinct p es d.1)
]

migration_files-Distinct :
    (dir : List DirEntry) → Distinct (names_of dir) → Distinct (migration_files dir)
unfolding migration_files
migration_files-Distinct dir d = sort_strings-Distinct _ (keep-Distinct (λ e. is_migration e) dir d)

-- A file whose name ends as a script's does.
abbrev pub is_script : DirEntry → Bool
unfolding has_suffix
is_script entry = not entry.is_dir && has_suffix entry.name ".sql"

is_script_lem : (dir : List DirEntry) → keep (λ e. is_migration e) dir ≡ keep is_script dir
unfolding is_migration is_script
is_script_lem dir = λ i. keep (λ e. same e.is_dir (has_suffix e.name ".sql") i) dir
  where
    same : (a b : Bool) → not (a || not b) ≡ (not a && b)
    same a b = ground arith

migration_files-IsAscending : (dir : List DirEntry) → IsAscending (migration_files dir)
unfolding migration_files
migration_files-IsAscending dir =
    sort_strings-IsAscending (names_of (keep (λ e. is_migration e) dir))

migration_files-perm :
    (dir : List DirEntry) → Perm (migration_files dir) (names_of (keep is_script dir))
unfolding migration_files
migration_files-perm dir =
    subst (λ es. Perm (migration_files dir) (names_of es)) (is_script_lem dir)
      (sort_strings-perm (names_of (keep (λ e. is_migration e) dir)))

module _ {W : Type 0} (pool : Pool W) (dir : List DirEntry) (log staged : W → List String) where
  -- The log is extended by the first of the names.
  abbrev pub Prefix : List String → List String → W → Type 0
  Prefix l names w = (n : ℕ) × (log w ≡ (l ++ take n names))

  Unsure-Prefix :
      (l a b : List String) (w : W) → Unsure pool dir log staged l a w → Prefix l (a ++ b) w
  Unsure-Prefix l a b w (inl e) = (0, e ∙ sym (append-nil l))
  Unsure-Prefix l a b w (inr e) = let (m, f) = take_more a b 0 in (m, e ∙ rw (f, append-nil a) refl)

  Prefix-append : (l a b : List String) (w : W) → Prefix (l ++ a) b w → Prefix l (a ++ b) w
  Prefix-append l a b w (n, e) =
      let (m, f) = take_more a b n in (m, e ∙ append_assoc l a (take n b) ∙ rw f refl)

  module _ (db : IsDatabase pool dir log staged) where
    apply_each-Adds :
        (names : List String) (l : List String) (w : W)
        → Distinct names
        → log w ≡ l
        → Ends
            (λ a w'. log w' ≡ (l ++ pending_of l names))
            (Prefix l (pending_of l names))
            (apply_each pool names w)
    unfolding apply_each
    apply_each-Adds [] l w d e = pure-Ends tt w (e ∙ sym (append-nil l))
    apply_each-Adds (name ∷ names) l w d e =
        let a = pending_of l (name ∷ []) in
        rw (pending_of-step l names name d.0) (
          bind-Ends {R = λ u w'. log w' ≡ (l ++ a)} _ _ w
            (Ends-map _ (λ u w' p. p) (Unsure-Prefix l a (pending_of (l ++ a) names))
              (apply_migration-Adds pool dir log staged db name w l e))
            (λ u w₁ e₁.
              Ends-map _ (λ v w₂ p. p ∙ append_assoc l a (pending_of (l ++ a) names))
                (Prefix-append l a (pending_of (l ++ a) names))
                (apply_each-Adds names (l ++ a) w₁ d.1 e₁)))

    pub migrate-Ends :
        (w : W)
        → Distinct (map (λ (e : DirEntry). e.name) dir)
        → let files = pending_of (log w) (migration_files dir) in
          Ends (λ u w'. log w' ≡ (log w ++ files)) (Prefix (log w) files) (migrate pool w)
    unfolding migrate
    migrate-Ends w d =
        let nothing : (w' : W)
            → log w' ≡ log w
            → Prefix (log w) (pending_of (log w) (migration_files dir)) w' =
          λ w' p. (0, p ∙ sym (append-nil (log w))) in
        bind-Ends {R = Keeps pool dir log staged db (log w)} _ _ w
          (label-Ends _ _ w (Ends-map _ (λ u w' p. p) nothing (db.ensure w)))
          (λ u w₁ e₁.
            bind-Ends {R = λ entries w'. (entries ≡ dir) × (log w' ≡ log w)} _ _ w₁
              (label-Ends _ _ w₁ (
                Ends-map _ (λ es w' p. (p.0, p.1 ∙ e₁)) (λ w' p. nothing w' (p ∙ e₁))
                  (db.read_dir w₁)))
              (λ entries w₂ p. rw p.0 (
                apply_each-Adds (migration_files dir) (log w) w₂ (migration_files-Distinct dir d)
                  p.1)))

    -- On a database that keeps its promises, and where no two entries of the directory have one name, there
    -- is a list of the names of its scripts, each once and none greater than the next, of which a run that
    -- succeeds appends to the log exactly those that it lacks, in this order; one that fails appends a
    -- prefix of them.
    pub migrate-Prefix :
        (w : W)
        → Distinct (map (λ (e : DirEntry). e.name) dir)
        → let scripts = migration_files dir in
          let files = pending_of (log w) scripts in
          IsAscending scripts
          × Perm scripts (names_of (keep is_script dir))
          × Ends (λ u w'. log w' ≡ (log w ++ files)) (Prefix (log w) files) (migrate pool w)
    migrate-Prefix w d =
        (migration_files-IsAscending dir, migration_files-perm dir, migrate-Ends w d)

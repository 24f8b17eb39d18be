-- ===== src/Postgres/Migrator.antt =====
-- internal/adapters/postgres/migrator.go: Run. The pool of connections and the file system are an
-- interface over the state `W`; the ticker of runWithProgress, which only writes log lines, is left out.
pub mod Sorting
pub mod Log
pub mod Progress
pub mod Again
use torvix.Prelude.{
  ltb, leb, ◌=ℕ◌, if◌then◌else◌, ltb→lt, lt→ltb, leb→le, le→leb, tests, Bool-cases, Option-cases,
  length, take, drop, keep, any, All, length-append, length-take, length-drop, length-keep,
  length-map, All-append, All-map, ℕ, zero, suc, ◌+◌, ◌-◌, ◌*◌, ◌/◌, ◌%◌, ◌^◌, ◌≤◌, ◌<◌, min,
  String, ◌≡◌, refl, sym, ap, subst, ◌∙◌, ◌≢◌, ◌↔◌, ◌⊎◌, inl, inr, Bool, true, false, not, ◌&&◌,
  ◌||◌, Option, none, some, List, [], ◌∷◌, map, arith, ◌==◌, eq_iff, eq_refl,
}
use Prim.Native.String.{◌++◌}
use Prim.Native.String.{compare}
use Prim.Native.Nat.{Ordering}
use torvix.Prelude.Exec.{Exec, pure, label, ◌>>=◌}
use torvix.Prelude.Result.{Result, ok, err}
use torvix.Prelude.Words.{has_suffix, str_contains}

pub record DirEntry : Type 0 where
  pub name : String
  pub is_dir : Bool

-- The statements that the migrator sends, and the files that it reads. The calls that begin with `tx`
-- belong to the transaction that `begin` opens.
pub record Pool (W : Type 0) : Type 0 where
  pub ensure_schema_migrations : Exec W Unit
  pub read_dir : Exec W (List DirEntry)
  pub exists : String → Exec W Bool
  pub read_file : String → Exec W String
  pub exec : String → Exec W Unit
  pub insert_version : String → Exec W Unit
  pub begin : Exec W Unit
  pub tx_exec : String → Exec W Unit
  pub tx_insert_version : String → Exec W Unit
  pub tx_commit : Exec W Unit
  pub tx_rollback : W → W

abbrev pub marker : String
marker = "-- torvix:nontransactional"

-- Whether a text comes before another in sort.Strings.
abbrev pub before : String → String → Bool
before s t = elim (compare s t) [ Ordering.lt ↦ true | _ ↦ false ]

abbrev pub insert_string : String → List String → List String
insert_string s [] = s ∷ []
insert_string s (t ∷ ts) =
    let rest = insert_string s ts in if before t s then t ∷ rest else s ∷ t ∷ ts

-- sort.Strings
unfoldable pub sort_strings : List String → List String
sort_strings [] = []
sort_strings (s ∷ ss) = insert_string s (sort_strings ss)

abbrev pub is_migration : DirEntry → Bool
unfolding has_suffix
is_migration entry = not (entry.is_dir || not (has_suffix entry.name ".sql"))

-- The names of the migrations in a directory.
unfoldable pub migration_files : List DirEntry → List String
unfolding is_migration sort_strings
migration_files entries =
    sort_strings (map (λ (e : DirEntry). e.name) (keep (λ e. is_migration e) entries))

module _ {W : Type 0} where
  abbrev pub rolled_back_result : {A : Type 0} → (W → W) → Result A × W → Result A × W
  rolled_back_result rollback (ok a, w) = (ok a, w)
  rolled_back_result rollback (err e, w) = (err e, rollback w)

  -- A call whose error rolls the transaction back.
  unfoldable pub or_roll_back : {A : Type 0} → (W → W) → Exec W A → Exec W A
  or_roll_back rollback m w = rolled_back_result rollback (m w)

  module _ (pool : Pool W) (name : String) where
    -- The branch of a file with the marker: the script runs outside a transaction.
    unfoldable pub apply_directly : String → Exec W Unit
    apply_directly sql = do
      applied ← label ("apply migration " ++ name) (pool.exec sql)
      label ("record migration " ++ name) (pool.insert_version name)

    unfoldable pub apply_in_transaction : String → Exec W Unit
    unfolding or_roll_back
    apply_in_transaction sql = do
      begun ← label ("begin migration " ++ name) pool.begin
      applied ←
          label ("apply migration " ++ name) (or_roll_back pool.tx_rollback (pool.tx_exec sql))
      recorded ←
          label ("record migration " ++ name)
            (or_roll_back pool.tx_rollback (pool.tx_insert_version name))
      label ("commit migration " ++ name) pool.tx_commit

    unfoldable pub apply_new : Exec W Unit
    unfolding apply_directly apply_in_transaction str_contains
    apply_new = do
      sql ← label ("read migration " ++ name) (pool.read_file name)
      if str_contains sql marker then apply_directly sql else apply_in_transaction sql

    -- The body of the loop over the files.
    unfoldable pub apply_migration : Exec W Unit
    unfolding apply_new
    apply_migration = do
      exists ← label ("check migration " ++ name) (pool.exists name)
      if exists then pure tt else apply_new

  unfoldable pub apply_each : Pool W → List String → Exec W Unit
  unfolding apply_migration
  apply_each pool [] = pure tt
  apply_each pool (name ∷ names) = do applied ← apply_migration pool name; apply_each pool names

  -- Run
  unfoldable pub migrate : Pool W → Exec W Unit
  unfolding apply_each migration_files
  migrate pool = do
    ensured ← label "ensure schema_migrations" pool.ensure_schema_migrations
    entries ← label "read migrations dir" pool.read_dir
    apply_each pool (migration_files entries)

-- ===== src/Postgres/Tests.antt =====
-- The migrator at two files, of which one is applied, and a database that is its log.
use torvix.Prelude.{String, ◌≡◌, refl, false, List, [], ◌∷◌, ◌++◌}
use torvix.Prelude.Keys.{contains}
use torvix.Prelude.Exec.{Ends, label, ◌>>=◌}
use torvix.Prelude.Result.{ok}
use torvix.Postgres.Migrator.{DirEntry, Pool, migrate, migration_files}
use torvix.Postgres.Migrator.Log.{pending_of, IsDatabase}
use torvix.Postgres.Migrator.Progress.{Prefix, names_of, is_script, migrate-Prefix}
use torvix.Postgres.Migrator.Sorting.{IsAscending}
use mathlib.Core.List.{Perm}
use torvix.Prelude.{keep}
use torvix.Postgres.Migrator.Again.{migrate_again}

abbrev dir : List DirEntry
dir =
    record { name = "002_costs.sql"; is_dir = false }
    ∷ record { name = "001_base.sql"; is_dir = false }
    ∷ record { name = "README.md"; is_dir = false }
    ∷ []

-- The log, and what the open transaction has staged.
abbrev World : Type 0
World = List String × List String

abbrev pool : Pool World
pool = record {
  ensure_schema_migrations = λ w. (ok tt, w);
  read_dir = λ w. (ok dir, w);
  exists = λ name w. (ok (contains name w.0), w);
  read_file = λ name w. (ok "CREATE TABLE t ();", w);
  exec = λ sql w. (ok tt, w);
  insert_version = λ name w. (ok tt, (w.0 ++ name ∷ [], w.1));
  begin = λ w. (ok tt, (w.0, []));
  tx_exec = λ sql w. (ok tt, w);
  tx_insert_version = λ name w. (ok tt, (w.0, w.1 ++ name ∷ []));
  tx_commit = λ w. (ok tt, (w.0 ++ w.1, []));
  tx_rollback = λ w. (w.0, []);
}

abbrev log : World → List String
log w = w.0

abbrev staged : World → List String
staged w = w.1

database : IsDatabase pool dir log staged
database = record {
  ensure = λ w. record { holds = refl };
  read_dir = λ w. record { holds = (refl, refl) };
  exists = λ name w. record { holds = (refl, refl) };
  read_file = λ name w. record { holds = refl };
  exec = λ sql w. record { holds = refl };
  insert_version = λ name w h. record { holds = refl };
  begin = λ w. record { holds = (refl, refl) };
  tx_exec = λ sql w. record { holds = (refl, refl) };
  tx_insert_version = λ name w. record { holds = (refl, refl) };
  tx_commit = λ w. record { holds = refl };
  tx_rollback = λ w. refl;
}

abbrev started : World
started = ("001_base.sql" ∷ [], [])

abbrev migrated : World
migrated = ("001_base.sql" ∷ "002_costs.sql" ∷ [], [])

migrate_runs : migrate pool started ≡ (ok tt, migrated)
unfolding migrate ◌>>=◌ label
migrate_runs = refl

migrate-Prefix_example :
    let scripts = migration_files dir in
    let files = pending_of (log started) scripts in
    IsAscending scripts
    × Perm scripts (names_of (keep is_script dir))
    × Ends
        (λ u w'. log w' ≡ (log started ++ files))
        (Prefix pool dir log staged (log started) files)
        (migrate pool started)
migrate-Prefix_example =
    migrate-Prefix pool dir log staged database started (refl, (refl, (refl, tt)))

migrate_again_example :
    Ends (λ u w''. log w'' ≡ log migrated) (λ w''. log w'' ≡ log migrated) (migrate pool migrated)
migrate_again_example =
    migrate_again pool dir log staged database started migrated (refl, (refl, (refl, tt)))
      migrate_runs

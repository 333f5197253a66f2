-- ===== src/Migrations/Tests.antt =====
-- Runs of the migrations (crates/keys-engine/src/migrations.rs).
use keys_core.Base.{
  ℕ, refl, arith, pos, Option, none, some, List, [], ◌∷◌, ◌++◌, if◌then◌else◌, ◌==◌,
}
use keys_core.Migrations.{Migration, Database, all_migrations, apply_pending}
use keys_core.Migrations.Prefix.{IsAscending, run_all, IsAt, IsStopped, apply_pending-IsStopped}

-- The versions of the source's list.
all_migrations-IsAscending : IsAscending 0 (all_migrations (λ path. path))
unfolding all_migrations
all_migrations-IsAscending = omega arith

-- Texts are numbers, which SQLite appends to the schema; it refuses 30.
abbrev execute : ℕ → List ℕ → Option (List ℕ)
execute q s = if q == 30 then none else some (s ++ q ∷ [])

abbrev one : List (Migration ℕ)
one = record { version = 1; name = "a"; sql = 10 } ∷ []

abbrev more : List (Migration ℕ)
more =
    record { version = 2; name = "b"; sql = 20 } ∷ record { version = 3; name = "c"; sql = 30 } ∷ []

abbrev opened : Database (List ℕ)
opened = record { schema_version = some (pos 1 ∷ []); schema = 10 ∷ [] }

opened-IsAt : IsAt execute [] one opened
unfolding run_all
opened-IsAt = record { rows = refl; schema = refl }

apply_pending-IsStopped_example :
    IsStopped execute [] one more (apply_pending execute (one ++ more) opened)
apply_pending-IsStopped_example =
    apply_pending-IsStopped execute [] one more opened (omega arith) opened-IsAt

-- ===== src/Migrations.antt =====
-- The schema migrations (crates/keys-engine/src/migrations.rs). SQLite runs the SQL: the type
-- parameter S is a database's schema and contents beside schema_version, Q the text of a migration,
-- and `execute_batch` what SQLite makes of it, `none` for an error, which rolls the transaction back.
pub mod Prefix
pub mod Tests
use keys_core.Base.{
  ℕ, ◌+◌, ◌^◌, ℤ, pos, negsuc, Bool, true, false, Option, none, some, List, [], ◌∷◌, ◌++◌, ltb, leb,
  ◌==◌, ◌||◌, if◌then◌else◌, any, String,
}

pub record Migration (Q : Type 0) : Type 0 where
  pub version : ℕ
  pub name : String
  pub sql : Q

-- `MIGRATIONS`; `include_str` gives the text of a file.
unfoldable pub all_migrations : {Q : Type 0} → (String → Q) → List (Migration Q)
all_migrations include_str =
    record {
      version = 1;
      name = "initial_schema";
      sql = include_str "migrations/0001_initial_schema.sql";
    }
    ∷ record {
      version = 2;
      name = "entry_custom_field";
      sql = include_str "migrations/0002_entry_custom_field.sql";
    }
    ∷ record { version = 3; name = "meta"; sql = include_str "migrations/0003_meta.sql" }
    ∷ record {
      version = 4;
      name = "group_sort_order";
      sql = include_str "migrations/0004_group_sort_order.sql";
    }
    ∷ record {
      version = 5;
      name = "entry_has_totp";
      sql = include_str "migrations/0005_entry_has_totp.sql";
    }
    ∷ record {
      version = 6;
      name = "entry_custom_data";
      sql = include_str "migrations/0006_entry_custom_data.sql";
    }
    ∷ record {
      version = 7;
      name = "owner_conflict_rows";
      sql = include_str "migrations/0007_owner_conflict_rows.sql";
    }
    ∷ record {
      version = 8;
      name = "entry_previous_parent";
      sql = include_str "migrations/0008_entry_previous_parent.sql";
    }
    ∷ record {
      version = 9;
      name = "conflict_entry_attachment";
      sql = include_str "migrations/0009_conflict_entry_attachment.sql";
    }
    ∷ record {
      version = 10;
      name = "entry_location_changed";
      sql = include_str "migrations/0010_entry_location_changed.sql";
    }
    ∷ record {
      version = 11;
      name = "group_location_changed";
      sql = include_str "migrations/0011_group_location_changed.sql";
    }
    ∷ record {
      version = 12;
      name = "persistence_watermark";
      sql = include_str "migrations/0012_persistence_watermark.sql";
    }
    ∷ record {
      version = 13;
      name = "conflict_entry_whole";
      sql = include_str "migrations/0013_conflict_entry_whole.sql";
    }
    ∷ []

-- The table schema_version, if it is there, and the rest of the database.
pub record Database (S : Type 0) : Type 0 where
  pub schema_version : Option (List ℤ)
  pub schema : S

pub data MigrationError : Type 0 where
  schema_too_new : ℕ → ℕ → MigrationError
  sqlite : MigrationError

-- The result of a call, which leaves a database also when it fails: each migration commits by itself.
pub record Outcome (S : Type 0) : Type 0 where
  pub db : Database S
  pub error : Option MigrationError

-- CREATE TABLE IF NOT EXISTS
abbrev pub rows_of : Option (List ℤ) → List ℤ
rows_of none = []
rows_of (some rows) = rows

abbrev pub less : ℤ → ℤ → Bool
less (pos a) (pos b) = ltb a b
less (pos a) (negsuc b) = false
less (negsuc a) (pos b) = true
less (negsuc a) (negsuc b) = ltb b a

abbrev pub same : ℤ → ℤ → Bool
same (pos a) (pos b) = a == b
same (negsuc a) (negsuc b) = a == b
same _ _ = false

-- SELECT MAX(version)
unfoldable pub max_row : List ℤ → Option ℤ
max_row [] = none
max_row (v ∷ vs) = elim (max_row vs) [ none ↦ some v | some w ↦ some (if less v w then w else v) ]

-- COALESCE(…, 0), and `u32::try_from(raw).unwrap_or(0)`.
abbrev pub u32_or_zero : Option ℤ → ℕ
u32_or_zero none = 0
u32_or_zero (some (pos n)) = if ltb n (2 ^ 32) then n else 0
u32_or_zero (some (negsuc n)) = 0

unfoldable pub current_version : List ℤ → ℕ
current_version rows = u32_or_zero (max_row rows)

unfoldable pub binary_max : {Q : Type 0} → List (Migration Q) → ℕ
binary_max [] = 0
binary_max (m ∷ []) = m.version
binary_max (m ∷ n ∷ ms) = binary_max (n ∷ ms)

module _ {S Q : Type 0} (execute_batch : Q → S → Option S) where
  -- One transaction: the text, and the row that records it, whose version is a primary key.
  unfoldable pub run_one : Migration Q → List ℤ → S → Option (Database S)
  run_one m rows s = elim (execute_batch m.sql s) [
    | none ↦ none
    | some s' ↦
        if any (same (pos m.version)) rows
        then none
        else some (record { schema_version = some (rows ++ pos m.version ∷ []); schema = s' })
  ]

  -- The loop over the migrations.
  unfoldable pub run_pending : ℕ → List (Migration Q) → Database S → Outcome S
  run_pending current [] db = record { db = db; error = none }
  run_pending current (m ∷ ms) db =
      let skip = run_pending current ms db in
      let next : Outcome S = elim (run_one m (rows_of db.schema_version) db.schema) [
        | none ↦ record { db = db; error = some MigrationError.sqlite }
        | some db' ↦ run_pending current ms db'
      ] in
      if leb m.version current then skip else next

  unfoldable pub apply_pending : List (Migration Q) → Database S → Outcome S
  apply_pending migrations db =
      let created = record db { schema_version = some (rows_of db.schema_version) } in
      let current = current_version (rows_of db.schema_version) in
      if ltb (binary_max migrations) current
      then record {
        db = created;
        error = some (MigrationError.schema_too_new (binary_max migrations) current);
      }
      else run_pending current migrations created

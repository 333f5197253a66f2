-- ===== src/History.antt =====
-- An entry's history: `archive_snapshot`, `prune_history`, `tombstone_quota_trimmed_snapshots` and
-- `delete_history_at` of crates/keys-engine/src/mutations.rs. Every statement names one entry, so the
-- state is that entry's: its rows of entry_history in rowid order, and its tombstone list, a row of
-- entry_custom_data. Snapshots are their JSON text, a type parameter with a length.
pub mod Prune
pub mod Selection
pub mod Listed
pub mod Repack
pub mod Refinement
pub mod Deletion
pub mod Tests
use keys_core.Base.{
  ℕ, zero, suc, ◌+◌, ◌-◌, Bool, true, false, not, Option, none, some, List, [], ◌∷◌, ◌++◌, ◌==◌,
  ltb, leb, if◌then◌else◌, keep_if, any,
}
use keys_core.Base.Fallible.{Result, ok, err, ◌>>=◌}

-- A row of entry_history: the indices that the engine writes are natural numbers.
pub record Row (J : Type 0) : Type 0 where
  pub history_index : ℕ
  pub snapshot_json : J

pub record EntryHistory (J V : Type 0) : Type 0 where
  -- Whether the entry table holds the entry.
  pub is_there : Bool
  pub rows : List (Row J)
  pub tombstones : Option V

pub data Missing : Type 0 where
  entry history_snapshot : Missing

-- `NotFound`, a statement that SQLite refuses, and the errors of the other crates.
pub data Failure (Er : Type 0) : Type 0 where
  not_found : Missing → Failure Er
  sqlite : Failure Er
  other : Er → Failure Er

abbrev pub max_of : ℕ → Option ℕ → Option ℕ
max_of i none = some i
max_of i (some m) = if ltb m i then some i else some m

-- `max_idx.map_or(0, |i| i + 1)`
abbrev pub next_index : Option ℕ → ℕ
next_index none = 0
next_index (some i) = suc i

module _ {J : Type 0} where
  -- A primary key that is there already.
  abbrev pub taken : ℕ → List (Row J) → Bool
  taken i rows = any (λ r. r.history_index == i) rows

  -- INSERT INTO entry_history
  unfoldable pub insert_row :
      {Er : Type 0} → Row J → List (Row J) → Result (Failure Er) (List (Row J))
  insert_row r rows = if taken r.history_index rows then err Failure.sqlite else ok (rows ++ r ∷ [])

  -- UPDATE … SET history_index = f(history_index) WHERE p(history_index), row by row: `before` holds the
  -- rows that it has passed, and a key that is there already refuses the statement.
  unfoldable pub update_rows :
      {Er : Type 0}
      → List (Row J)
      → (ℕ → Bool)
      → (ℕ → ℕ)
      → List (Row J)
      → Result (Failure Er) (List (Row J))
  update_rows before p f [] = ok before
  update_rows before p f (r ∷ rows) = elim (p r.history_index) [
    | false ↦ update_rows (before ++ r ∷ []) p f rows
    | true ↦ elim (taken (f r.history_index) (before ++ rows)) [
      | true ↦ err Failure.sqlite
      | false ↦ update_rows (before ++ record r { history_index = f r.history_index } ∷ []) p f rows
    ]
  ]

  -- DELETE … WHERE history_index = ?
  unfoldable pub delete_row : ℕ → List (Row J) → List (Row J)
  delete_row i rows = keep_if (λ r. not (r.history_index == i)) rows

  -- ORDER BY history_index ASC
  unfoldable pub insert_by_index : Row J → List (Row J) → List (Row J)
  insert_by_index r [] = r ∷ []
  insert_by_index r (q ∷ qs) =
      let rest = insert_by_index r qs in
      if leb r.history_index q.history_index then r ∷ q ∷ qs else q ∷ rest

  unfoldable pub by_index : List (Row J) → List (Row J)
  by_index [] = []
  by_index (r ∷ rs) = insert_by_index r (by_index rs)

  -- SELECT MAX(history_index)
  unfoldable pub max_index : List (Row J) → Option ℕ
  max_index [] = none
  max_index (r ∷ rs) = max_of r.history_index (max_index rs)

  unfoldable pub delete_history_at :
      {Er V : Type 0} → EntryHistory J V → ℕ → Result (Failure Er) (EntryHistory J V)
  delete_history_at en index =
      if en.is_there
      then (if taken index en.rows
          then (update_rows [] (λ i. ltb index i) (λ i. i - 1) (delete_row index en.rows)
              >>= λ rows. ok (record en { rows = rows }))
          else err (Failure.not_found history_snapshot))
      else err (Failure.not_found entry)

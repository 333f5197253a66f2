-- ===== src/History/Prune.antt =====
-- `prune_history`, `tombstone_quota_trimmed_snapshots` and `archive_snapshot`
-- (crates/keys-engine/src/mutations.rs).
use keys_core.Base.{
  ℕ, suc, ◌+◌, ℤ, pos, negsuc, Bool, true, false, ◌&&◌, Option, none, some, List, [], ◌∷◌, ◌==◌,
  ltb, leb, if◌then◌else◌, map,
}
use keys_core.Base.Fallible.{Result, ok, err, ◌>>=◌}
use keys_core.History.{
  Row, EntryHistory, Failure, insert_row, update_rows, delete_row, by_index, max_index, next_index,
}

-- What the other code gives: a snapshot's text and its length, the session key, the snapshot as an entry
-- with the binary pool that it grows, and the carrier entry of the tombstones.
pub record Crates (S J V Key P Entry Carrier Er : Type 0) : Type 0 where
  pub to_string : S → Result Er J
  pub size_bytes : J → ℕ
  pub session_key : Result Er Key
  pub no_pool : P
  -- `snapshot_json_to_entry`: the pool may have grown when it fails.
  pub snapshot_json_to_entry : Key → J → P → P × Option Entry
  -- `Entry::empty` with the existing list, if there is one.
  pub carrier : Option V → Carrier
  pub add_history_tombstone : Carrier → Entry → P → Result Er Carrier
  -- The item of the tombstones' key.
  pub item : Carrier → Option V

-- The offset of the two-step rename.
abbrev pub shift : ℕ
shift = 1_000_000_000

abbrev pub max_i32 : ℕ
max_i32 = 2_147_483_647

abbrev pub max_i64 : ℕ
max_i64 = 9_223_372_036_854_775_807

-- A negative limit is none.
unfoldable pub items_cap : ℤ → ℕ
items_cap (pos n) = n
items_cap (negsuc n) = max_i32

unfoldable pub size_cap : ℤ → ℕ
size_cap (pos n) = n
size_cap (negsuc n) = max_i64

abbrev pub saturated_sum : ℕ → ℕ → ℕ
saturated_sum a b = if ltb max_i64 (a + b) then max_i64 else a + b

-- The walk from the newest: the flags, and how many snapshots and bytes are kept.
abbrev pub choose_one : ℕ → ℕ → ℕ → List Bool × ℕ × ℕ → List Bool × ℕ × ℕ
choose_one items_cap size_cap size (keep, kept, kept_size) =
    let next_kept_size = saturated_sum kept_size size in
    if ltb kept items_cap && leb next_kept_size size_cap
    then (true ∷ keep, suc kept, next_kept_size)
    else (false ∷ keep, kept, kept_size)

-- The sizes are oldest first, so the newer ones are decided by the recursive call.
unfoldable pub choose : ℕ → ℕ → List ℕ → List Bool × ℕ × ℕ
choose items_cap size_cap [] = ([], 0, 0)
choose items_cap size_cap (size ∷ sizes) =
    choose_one items_cap size_cap size (choose items_cap size_cap sizes)

-- `filter_map(|(i, r)| keep[i].then_some(…))`, and with `!keep[i]`.
unfoldable pub kept_of : {A : Type 0} → List Bool → List A → List A
kept_of [] xs = []
kept_of (b ∷ keep) [] = []
kept_of (b ∷ keep) (x ∷ xs) = let rest = kept_of keep xs in if b then x ∷ rest else rest

unfoldable pub dropped_of : {A : Type 0} → List Bool → List A → List A
dropped_of [] xs = []
dropped_of (b ∷ keep) [] = []
dropped_of (b ∷ keep) (x ∷ xs) = let rest = dropped_of keep xs in if b then rest else x ∷ rest

module _ {J : Type 0} where
  -- `for idx in &to_delete`.
  unfoldable pub delete_rows : List ℕ → List (Row J) → List (Row J)
  delete_rows [] rows = rows
  delete_rows (i ∷ is) rows = delete_rows is (delete_row i rows)

  -- `for (new_idx, old_shifted) in survivor_indices.iter().enumerate()`.
  unfoldable pub renumber :
      {Er : Type 0} → ℕ → List ℕ → List (Row J) → Result (Failure Er) (List (Row J))
  renumber new_idx [] rows = ok rows
  renumber new_idx (old ∷ olds) rows =
      update_rows [] (λ i. i == old) (λ i. new_idx) rows >>= renumber (suc new_idx) olds

  unfoldable pub repack : {Er : Type 0} → List ℕ → List (Row J) → Result (Failure Er) (List (Row J))
  repack survivor_indices rows =
      update_rows [] (λ i. true) (λ i. i + shift) rows >>= renumber 0 survivor_indices

module _ {S J V Key P Entry Carrier Er : Type 0} (c : Crates S J V Key P Entry Carrier Er) where
  -- An error of the other crates, as the engine's.
  abbrev pub other : {A : Type 0} → Result Er A → Result (Failure Er) A
  other (ok a) = ok a
  other (err e) = err (Failure.other e)

  -- A snapshot that could not be rebuilt is skipped.
  abbrev pub add_record : Carrier → P × Option Entry → Result Er (Carrier × P)
  add_record carrier (pool, none) = ok (carrier, pool)
  add_record carrier (pool, some record') =
      c.add_history_tombstone carrier record' pool >>= λ k. ok (k, pool)

  -- `for &json in dropped_jsons`.
  unfoldable pub add_all : Key → List J → Carrier → P → Result Er Carrier
  add_all key [] carrier pool = ok carrier
  add_all key (json ∷ jsons) carrier pool =
      add_record carrier (c.snapshot_json_to_entry key json pool) >>= λ k. add_all key jsons k.0 k.1

  -- The row of entry_custom_data: the item replaces it, when there is one.
  abbrev pub replaced : Option V → Option V → Option V
  replaced old none = old
  replaced old (some item) = some item

  unfoldable pub tombstone_quota_trimmed_snapshots : Option V → List J → Result Er (Option V)
  tombstone_quota_trimmed_snapshots existing [] = ok existing
  tombstone_quota_trimmed_snapshots existing (json ∷ jsons) = c.session_key >>= λ key.
      add_all key (json ∷ jsons) (c.carrier existing) c.no_pool >>= λ k.
      ok (replaced existing (c.item k))

  -- The rest of `prune_history`, once the rows to keep are known; `rows` are oldest first.
  unfoldable pub prune_rows :
      EntryHistory J V → List (Row J) → List Bool → List ℕ → Result (Failure Er) (EntryHistory J V)
  prune_rows en rows keep [] = ok en
  prune_rows en rows keep (i ∷ to_delete) =
      other (
        tombstone_quota_trimmed_snapshots en.tombstones
          (dropped_of keep (map (λ r. r.snapshot_json) rows)))
      >>= λ tombstones.
          repack (kept_of keep (map (λ r. r.history_index + shift) rows))
            (delete_rows (i ∷ to_delete) en.rows)
          >>= λ left. ok (record en { rows = left; tombstones = tombstones })

  unfoldable pub prune_history : ℤ → ℤ → EntryHistory J V → Result (Failure Er) (EntryHistory J V)
  prune_history max_items max_size en =
      let rows = by_index en.rows in
      let keep =
        (choose (items_cap max_items) (size_cap max_size)
          (map (λ r. c.size_bytes r.snapshot_json) rows)).0 in
      prune_rows en rows keep (dropped_of keep (map (λ r. r.history_index) rows))

  unfoldable pub archive_snapshot :
      ℤ → ℤ → EntryHistory J V → S → Result (Failure Er) (EntryHistory J V)
  archive_snapshot max_items max_size en snap = other (c.to_string snap) >>= λ json.
      insert_row (record { history_index = next_index (max_index en.rows); snapshot_json = json })
        en.rows
      >>= λ rows. prune_history max_items max_size (record en { rows = rows })

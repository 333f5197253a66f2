-- ===== src/History/Refinement.antt =====
-- An entry's history as a list of snapshots, oldest first: what `archive_snapshot`, `prune_history` and
-- `delete_history_at` of crates/keys-engine/src/mutations.rs do to it.
use keys_core.Base.{
  ℕ, suc, ◌+◌, ◌<◌, ◌≤◌, ◌≡◌, refl, sym, ap, ap₂, ◌∙◌, arith, ℤ, Bool, true, false, Option, List,
  [], ◌∷◌, ◌++◌, map, length, length-append, length-map,
}
use keys_core.Base.Fallible.{Result, ok, ◌>>=◌, >>=-ap}
use keys_core.History.{Row, EntryHistory, Failure}
use keys_core.History.Prune.{
  Crates, shift, items_cap, size_cap, choose, kept_of, dropped_of, repack, delete_rows, other,
  tombstone_quota_trimmed_snapshots, prune_rows, prune_history, archive_snapshot,
}
use keys_core.History.Listed.{number, by_index-number, insert_row-number}
use keys_core.History.Repack.{delete_rows-kept, kept_of-Between, repack-number}
use keys_core.History.Selection.{length-choose}

module _ {J V : Type 0} where
  -- The rows of a list of snapshots, numbered from 0.
  abbrev pub listed : List J → Option V → EntryHistory J V
  listed js t = record { is_there = true; rows = number 0 js; tombstones = t }

map-number :
    {J A : Type 0} (f : J → A) (k : ℕ) (js : List J)
    → map (λ r. f r.snapshot_json) (number k js) ≡ map f js
map-number f k [] = refl
map-number f k (j ∷ js) = ap (λ l. f j ∷ l) (map-number f (suc k) js)

map_id : {J : Type 0} (js : List J) → map (λ j. j) js ≡ js
map_id [] = refl
map_id (j ∷ js) = ap (λ l. j ∷ l) (map_id js)

kept_of-map :
    {A B : Type 0} (f : A → B) (keep : List Bool) (xs : List A)
    → kept_of keep (map f xs) ≡ map f (kept_of keep xs)
unfolding kept_of
kept_of-map f [] xs = refl
kept_of-map f (b ∷ keep) [] = refl
kept_of-map f (true ∷ keep) (x ∷ xs) = ap (λ l. f x ∷ l) (kept_of-map f keep xs)
kept_of-map f (false ∷ keep) (x ∷ xs) = kept_of-map f keep xs

-- With nothing to drop, everything is kept.
kept_all :
    {A B : Type 0} (keep : List Bool) (xs : List A) (ys : List B)
    → length keep ≡ length xs
    → length keep ≡ length ys
    → dropped_of keep xs ≡ []
    → (dropped_of keep ys ≡ []) × (kept_of keep ys ≡ ys)
unfolding dropped_of kept_of
kept_all [] xs [] h k e = (refl, refl)
kept_all [] xs (y ∷ ys) h k e = absurd (omega (arith, k))
kept_all (b ∷ keep) [] ys h k e = absurd (omega (arith, h))
kept_all (b ∷ keep) (x ∷ xs) [] h k e = absurd (omega (arith, k))
kept_all (true ∷ keep) (x ∷ xs) (y ∷ ys) h k e =
    let (d, s) = kept_all keep xs ys (omega (arith, h)) (omega (arith, k)) e in
    (d, ap (λ l. y ∷ l) s)
kept_all (false ∷ keep) (x ∷ xs) (y ∷ ys) h k e = absurd cc

module _ {S J V Key P Entry Carrier Er : Type 0} (c : Crates S J V Key P Entry Carrier Er) where
  -- Which snapshots stay, by the caps.
  abbrev pub flags : ℤ → ℤ → List J → List Bool
  flags max_items max_size js =
      (choose (items_cap max_items) (size_cap max_size) (map c.size_bytes js)).0

  -- The abstract prune: the snapshots that the walk keeps, and a tombstone for each one dropped.
  abbrev pub prune_listed : ℤ → ℤ → Option V → List J → Result (Failure Er) (EntryHistory J V)
  prune_listed max_items max_size t js =
      let keep = flags max_items max_size js in
      other c (tombstone_quota_trimmed_snapshots c t (dropped_of keep js)) >>= λ t'.
      ok (listed (kept_of keep js) t')

  length-flags :
      (max_items max_size : ℤ) (js : List J) → length (flags max_items max_size js) ≡ length js
  length-flags max_items max_size js =
      length-choose (items_cap max_items) (size_cap max_size) (map c.size_bytes js)
      ∙ length-map c.size_bytes js

  repacked :
      (keep : List Bool) (js : List J)
      → length keep ≡ length js
      → length js ≤ shift
      → ◌≡◌ {A = Result (Failure Er) (List (Row J))}
          (repack (kept_of keep (map (λ r. r.history_index + shift) (number 0 js))) (
            delete_rows (dropped_of keep (map (λ r. r.history_index) (number 0 js))) (number 0 js)))
          (ok (number 0 (kept_of keep js)))
  repacked keep js h small =
      ap₂ repack (kept_of-map (λ (r : Row J). r.history_index + shift) keep (number 0 js))
        (delete_rows-kept keep 0 js h)
      ∙ repack-number (kept_of keep (number 0 js))
          (kept_of-Between keep 0 shift js (omega (arith, small)))
      ∙ ap (λ l. ok (number 0 l))
          (sym (kept_of-map (λ (r : Row J). r.snapshot_json) keep (number 0 js))
            ∙ ap (kept_of keep) (map-number (λ j. j) 0 js ∙ map_id js))

  prune_rows-listed :
      (keep : List Bool) (js : List J) (t : Option V) (is : List ℕ)
      → length keep ≡ length js
      → length js ≤ shift
      → dropped_of keep (map (λ r. r.history_index) (number 0 js)) ≡ is
      → prune_rows c (listed js t) (number 0 js) keep is ≡ (
          other c (tombstone_quota_trimmed_snapshots c t (dropped_of keep js)) >>= λ t'.
          ok (listed (kept_of keep js) t'))
  unfolding prune_rows tombstone_quota_trimmed_snapshots
  prune_rows-listed keep js t [] h small e =
      let (none_dropped, all_kept) =
        kept_all keep (map (λ r. r.history_index) (number 0 js)) js (h ∙ sym (length-indices 0 js))
          h e in
      ap₂ (λ ds ks. other c (tombstone_quota_trimmed_snapshots c t ds) >>= λ t'. ok (listed ks t'))
        (sym none_dropped) (sym all_kept)
    where
      length-indices :
          (k : ℕ) (xs : List J) → length (map (λ r. r.history_index) (number k xs)) ≡ length xs
      length-indices k [] = refl
      length-indices k (x ∷ xs) = ap suc (length-indices (suc k) xs)
  prune_rows-listed keep js t (i ∷ is) h small e =
      ap
        (λ ds. other c (tombstone_quota_trimmed_snapshots c t (dropped_of keep ds)) >>= λ t'.
          repack (kept_of keep (map (λ r. r.history_index + shift) (number 0 js)))
            (delete_rows (i ∷ is) (number 0 js))
          >>= λ left. ok (record (listed js t) { rows = left; tombstones = t' }))
        (map-number (λ j. j) 0 js ∙ map_id js)
      ∙ >>=-ap (other c (tombstone_quota_trimmed_snapshots c t (dropped_of keep js))) _ _ (λ t'.
        ap (λ rows. rows >>= λ left. ok (record (listed js t) { rows = left; tombstones = t' }))
          (ap
              (λ ds.
                repack (kept_of keep (map (λ r. r.history_index + shift) (number 0 js)))
                  (delete_rows ds (number 0 js)))
              (sym e)
            ∙ repacked keep js h small))

  -- For a history of at most 1 000 000 000 snapshots, numbered from 0: prune_history keeps the snapshots
  -- that the walk chooses, in their order and numbered from 0 again, and adds those it drops to the
  -- tombstones; no update meets an index that is there, and it fails only when the tombstones do.
  pub prune_history-listed :
      (max_items max_size : ℤ) (js : List J) (t : Option V)
      → length js ≤ shift
      → prune_history c max_items max_size (listed js t) ≡ prune_listed max_items max_size t js
  unfolding prune_history
  prune_history-listed max_items max_size js t small =
      ap₂
        (λ rows sizes.
          let keep = (choose (items_cap max_items) (size_cap max_size) sizes).0 in
          prune_rows c (listed js t) rows keep (dropped_of keep (map (λ r. r.history_index) rows)))
        (by_index-number 0 js)
        (ap (map (λ r. c.size_bytes r.snapshot_json)) (by_index-number 0 js)
          ∙ map-number c.size_bytes 0 js)
      ∙ prune_rows-listed (flags max_items max_size js) js t _ (length-flags max_items max_size js)
          small refl

  -- For a history of fewer than 1 000 000 000 snapshots, numbered from 0: archive_snapshot puts the new
  -- one at the end, keeps the snapshots that the walk from the newest chooses, in their order and
  -- numbered from 0 again, and adds those it drops to the tombstones. No statement meets an index that
  -- is there: it fails only when the snapshot's text or the tombstones do.
  pub archive_snapshot-listed :
      (max_items max_size : ℤ) (js : List J) (t : Option V) (snap : S)
      → length js < shift
      → archive_snapshot c max_items max_size (listed js t) snap ≡ (
          other c (c.to_string snap) >>= λ json.
          prune_listed max_items max_size t (js ++ json ∷ []))
  unfolding archive_snapshot
  archive_snapshot-listed max_items max_size js t snap small =
      >>=-ap (other c (c.to_string snap)) _ _ (λ json.
        ap
          (λ r.
            r >>= λ rows. prune_history c max_items max_size (record (listed js t) { rows = rows }))
          (insert_row-number json js)
        ∙ prune_history-listed max_items max_size (js ++ json ∷ []) t
            (omega (arith, small, length-append js (json ∷ []))))

-- ===== src/History/Repack.antt =====
-- The deletions and the two-step rename of `prune_history`
-- (crates/keys-engine/src/mutations.rs).
use keys_core.Base.{
  ℕ, suc, ◌+◌, ◌<◌, ◌≤◌, ◌≡◌, refl, sym, ap, ◌∙◌, arith, Bool, true, false, List, [], ◌∷◌, ◌++◌,
  ◌==◌, map, length, All, append_assoc, append-nil,
}
use keys_core.Base.Fallible.{Result, ok, ◌>>=◌}
use keys_core.History.{Row, Failure, update_rows, delete_row}
use keys_core.History.Prune.{shift, kept_of, dropped_of, delete_rows, renumber, repack}
use keys_core.History.Listed.{
  number, Lacks, shifted, Between, number-append, Lacks-append, number-Lacks_above,
  update_rows-skip, update_rows-hit,
}

module _ {J : Type 0} where
  pub delete_row-number : (i k : ℕ) (js : List J) → i < k → delete_row i (number k js) ≡ number k js
  unfolding delete_row
  delete_row-number i k [] h = refl
  delete_row-number i k (j ∷ js) h =
      ground (arith, h, delete_row-number i (suc k) js (omega (arith, h)))

  pub delete_row-head :
      (k : ℕ) (j : J) (js : List J) → delete_row k (number k (j ∷ js)) ≡ number (suc k) js
  unfolding delete_row
  delete_row-head k j js = ground (arith, delete_row-number k (suc k) js (omega arith))

  -- Deleting later rows leaves the first one.
  delete_rows-head :
      (is : List ℕ) (r : Row J) (rows : List (Row J))
      → All (λ i. r.history_index < i) is
      → delete_rows is (r ∷ rows) ≡ r ∷ delete_rows is rows
  unfolding delete_rows delete_row
  delete_rows-head [] r rows h = refl
  delete_rows-head (i ∷ is) r rows (h, hs) =
      ap (delete_rows is)
        (let other : (r.history_index == i) ≡ false = ground (arith, h) in ground (arith, other))
      ∙ delete_rows-head is r (delete_row i rows) hs

  dropped_above :
      (keep : List Bool) (m k : ℕ) (js : List J)
      → m < k
      → All (λ i. m < i) (dropped_of keep (map (λ r. r.history_index) (number k js)))
  unfolding dropped_of
  dropped_above [] m k js h = tt
  dropped_above (b ∷ keep) m k [] h = tt
  dropped_above (true ∷ keep) m k (j ∷ js) h = dropped_above keep m (suc k) js (omega (arith, h))
  dropped_above (false ∷ keep) m k (j ∷ js) h =
      (h, dropped_above keep m (suc k) js (omega (arith, h)))

  -- The deletions leave the rows to keep.
  pub delete_rows-kept :
      (keep : List Bool) (k : ℕ) (js : List J)
      → length keep ≡ length js
      → delete_rows (dropped_of keep (map (λ r. r.history_index) (number k js))) (number k js)
        ≡ kept_of keep (number k js)
  unfolding dropped_of kept_of delete_rows delete_row
  delete_rows-kept [] k [] h = refl
  delete_rows-kept [] k (j ∷ js) h = absurd (omega (arith, h))
  delete_rows-kept (b ∷ keep) k [] h = absurd (omega (arith, h))
  delete_rows-kept (true ∷ keep) k (j ∷ js) h =
      delete_rows-head (dropped_of keep (map (λ r. r.history_index) (number (suc k) js)))
        (record { history_index = k; snapshot_json = j }) (number (suc k) js)
        (dropped_above keep k (suc k) js (omega arith))
      ∙ ap (λ rows. record { history_index = k; snapshot_json = j } ∷ rows)
          (delete_rows-kept keep (suc k) js (omega (arith, h)))
  delete_rows-kept (false ∷ keep) k (j ∷ js) h =
      ap (delete_rows (dropped_of keep (map (λ r. r.history_index) (number (suc k) js))))
        (delete_row-head k j js)
      ∙ delete_rows-kept keep (suc k) js (omega (arith, h))

  Between-weaken :
      (lo lo' hi : ℕ) (rows : List (Row J)) → lo ≤ lo' → Between lo' hi rows → Between lo hi rows
  Between-weaken lo lo' hi [] h b = tt
  Between-weaken lo lo' hi (r ∷ rows) h (low, high, b) = (omega (arith, h, low), high, b)

  pub kept_of-Between :
      (keep : List Bool) (k hi : ℕ) (js : List J)
      → k + length js ≤ hi
      → Between k hi (kept_of keep (number k js))
  unfolding kept_of
  kept_of-Between [] k hi js h = tt
  kept_of-Between (b ∷ keep) k hi [] h = tt
  kept_of-Between (true ∷ keep) k hi (j ∷ js) h =
      (omega arith, omega (arith, h), kept_of-Between keep (suc k) hi js (omega (arith, h)))
  kept_of-Between (false ∷ keep) k hi (j ∷ js) h =
      Between-weaken k (suc k) hi (kept_of keep (number (suc k) js)) (omega arith)
        (kept_of-Between keep (suc k) hi js (omega (arith, h)))

  Between-Lacks_above :
      (i lo hi : ℕ) (rows : List (Row J)) → hi ≤ i → Between lo hi rows → Lacks i rows
  Between-Lacks_above i lo hi [] h b = tt
  Between-Lacks_above i lo hi (r ∷ rows) h (low, high, b) =
      (λ e. omega (arith, h, high, e), Between-Lacks_above i (suc r.history_index) hi rows h b)

  shifted-Lacks :
      (i lo hi : ℕ) (rows : List (Row J))
      → i < lo + shift
      → Between lo hi rows
      → Lacks i (map shifted rows)
  shifted-Lacks i lo hi [] h b = tt
  shifted-Lacks i lo hi (r ∷ rows) h (low, high, b) = (
    λ e. omega (arith, h, low, e),
    shifted-Lacks i (suc r.history_index) hi rows (omega (arith, h, low)) b,
  )

  -- The shift up meets no index that is there.
  pub update_rows-shift :
      {Er : Type 0} (before : List (Row J)) (lo : ℕ) (rows : List (Row J))
      → All (λ q. q.history_index < lo + shift) before
      → Between lo shift rows
      → ◌≡◌ {A = Result (Failure Er) (List (Row J))}
          (update_rows before (λ i. true) (λ i. i + shift) rows)
          (ok (before ++ map shifted rows))
  unfolding update_rows
  update_rows-shift before lo [] h b = ap ok (sym (append-nil before))
  update_rows-shift before lo (r ∷ rows) h (low, high, b) =
      update_rows-hit before (λ i. true) (λ i. i + shift) r rows refl
        (Lacks-append (r.history_index + shift) before rows (below before h) (
          Between-Lacks_above (r.history_index + shift) (suc r.history_index) shift rows
            (omega arith) b))
      ∙ update_rows-shift (before ++ shifted r ∷ []) (suc r.history_index) rows (above before h) b
      ∙ ap ok (append_assoc before (shifted r ∷ []) (map shifted rows))
    where
      below :
          (qs : List (Row J))
          → All (λ q. q.history_index < lo + shift) qs
          → Lacks (r.history_index + shift) qs
      below [] hs = tt
      below (q ∷ qs) (a, hs) = (λ e. omega (arith, a, low, e), below qs hs)

      above :
          (qs : List (Row J))
          → All (λ q. q.history_index < lo + shift) qs
          → All (λ q. q.history_index < suc r.history_index + shift) (qs ++ shifted r ∷ [])
      above [] hs = (omega arith, tt)
      above (q ∷ qs) (a, hs) = (omega (arith, a, low), above qs hs)

  number-other :
      (i k : ℕ) (js : List J)
      → k + length js ≤ i
      → All (λ r. (r.history_index == i) ≡ false) (number k js)
  number-other i k [] h = tt
  number-other i k (j ∷ js) h = (ground (arith, h), number-other i (suc k) js (omega (arith, h)))

  shifted-other :
      (i lo hi : ℕ) (rows : List (Row J))
      → i < lo + shift
      → Between lo hi rows
      → All (λ r. (r.history_index == i) ≡ false) (map shifted rows)
  shifted-other i lo hi [] h b = tt
  shifted-other i lo hi (r ∷ rows) h (low, high, b) = (
    ground (arith, h, low),
    shifted-other i (suc r.history_index) hi rows (omega (arith, h, low)) b,
  )

  -- One survivor comes down to its index.
  renumber_one :
      {Er : Type 0} (js : List J) (r : Row J) (rows : List (Row J))
      → length js ≤ r.history_index
      → Between r.history_index shift (r ∷ rows)
      → ◌≡◌ {A = Result (Failure Er) (List (Row J))}
          (update_rows []
            (λ i. i == r.history_index + shift)
            (λ i. length js)
            (number 0 js ++ shifted r ∷ map shifted rows))
          (ok (number 0 (js ++ r.snapshot_json ∷ []) ++ map shifted rows))
  unfolding update_rows
  renumber_one js r rows h (low, high, b) =
      update_rows-skip [] (λ i. i == r.history_index + shift) (λ i. length js) (number 0 js)
        (shifted r ∷ map shifted rows)
        (number-other (r.history_index + shift) 0 js (omega (arith, h)))
      ∙ update_rows-hit (number 0 js) (λ i. i == r.history_index + shift) (λ i. length js)
          (shifted r) (map shifted rows) (ground arith)
          (Lacks-append (length js) (number 0 js) (map shifted rows)
            (number-Lacks_above (length js) 0 js (omega arith))
            (shifted-Lacks (length js) (suc r.history_index) shift rows (omega (arith, h)) b))
      ∙ ap (update_rows landed (λ i. i == r.history_index + shift) (λ i. length js))
          (sym (append-nil (map shifted rows)))
      ∙ update_rows-skip landed (λ i. i == r.history_index + shift) (λ i. length js)
          (map shifted rows) []
          (shifted-other (r.history_index + shift) (suc r.history_index) shift rows (omega arith) b)
      ∙ ap (λ l. ok (l ++ map shifted rows))
          (sym (
            number-append 0 js (r.snapshot_json ∷ [])
            ∙ ap (λ n. number 0 js ++ number n (r.snapshot_json ∷ [])) (omega arith)))
    where
      landed : List (Row J)
      landed = number 0 js ++ record (shifted r) { history_index = length js } ∷ []

  renumber-number :
      {Er : Type 0} (n lo : ℕ) (js : List J) (rows : List (Row J))
      → n ≡ length js
      → length js ≤ lo
      → Between lo shift rows
      → ◌≡◌ {A = Result (Failure Er) (List (Row J))}
          (renumber n (map (λ r. r.history_index + shift) rows) (number 0 js ++ map shifted rows))
          (ok (number 0 (js ++ map (λ r. r.snapshot_json) rows)))
  unfolding renumber
  renumber-number n lo js [] same h b =
      ap ok (append-nil (number 0 js) ∙ ap (number 0) (sym (append-nil js)))
  renumber-number n lo js (r ∷ rows) same h (low, high, b) = rw same (
      ap (λ t. t >>= renumber (suc (length js)) (map (λ r. r.history_index + shift) rows))
        (renumber_one js r rows (omega (arith, h, low)) (omega arith, high, b))
      ∙ renumber-number (suc (length js)) (suc r.history_index) (js ++ r.snapshot_json ∷ []) rows
          (longer js) (omega (arith, longer js, h, low)) b
      ∙ ap (λ l. ok (number 0 l))
          (append_assoc js (r.snapshot_json ∷ []) (map (λ r. r.snapshot_json) rows)))
    where
      longer : (xs : List J) → suc (length xs) ≡ length (xs ++ r.snapshot_json ∷ [])
      longer [] = refl
      longer (x ∷ xs) = ap suc (longer xs)

  -- Both steps: the survivors are numbered from 0, in their order.
  pub repack-number :
      {Er : Type 0} (rows : List (Row J))
      → Between 0 shift rows
      → ◌≡◌ {A = Result (Failure Er) (List (Row J))}
          (repack (map (λ r. r.history_index + shift) rows) rows)
          (ok (number 0 (map (λ r. r.snapshot_json) rows)))
  unfolding repack
  repack-number rows b =
      ap (λ t. t >>= renumber 0 (map (λ r. r.history_index + shift) rows))
        (update_rows-shift [] 0 rows tt b)
      ∙ renumber-number 0 0 [] rows refl (omega arith) b

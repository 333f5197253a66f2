-- ===== src/History/Listed.antt =====
-- Statements on the rows of entry_history (crates/keys-engine/src/mutations.rs).
use keys_core.Base.{
  ℕ, suc, ◌+◌, ◌<◌, ◌≤◌, ◌≡◌, ◌≢◌, refl, sym, ap, ◌∙◌, arith, Bool, true, false, some, List, [],
  ◌∷◌, ◌++◌, length, All, append_assoc, append-nil,
}
use keys_core.Base.Fallible.{Result, ok}
use keys_core.History.{
  Row, Failure, insert_row, update_rows, insert_by_index, by_index, max_index, next_index, taken,
}
use keys_core.History.Prune.{shift}

module _ {J : Type 0} where
  -- Rows with the indices from k on.
  abbrev pub number : ℕ → List J → List (Row J)
  number k [] = []
  number k (j ∷ js) = record { history_index = k; snapshot_json = j } ∷ number (suc k) js

  -- Rows without an index.
  abbrev pub Lacks : ℕ → List (Row J) → Type 0
  Lacks i rows = All (λ r. r.history_index ≢ i) rows

  abbrev pub shifted : Row J → Row J
  shifted r = record r { history_index = r.history_index + shift }

  -- Strictly ascending indices from lo, below hi.
  abbrev pub Between : ℕ → ℕ → List (Row J) → Type 0
  Between lo hi [] = Unit
  Between lo hi (r ∷ rs) =
      (lo ≤ r.history_index) × (r.history_index < hi) × Between (suc r.history_index) hi rs

  pub number-append :
      (k : ℕ) (xs ys : List J) → number k (xs ++ ys) ≡ number k xs ++ number (k + length xs) ys
  number-append k [] ys = ap (λ n. number n ys) (omega arith)
  number-append k (x ∷ xs) ys =
      ap (λ rows. record { history_index = k; snapshot_json = x } ∷ rows)
        (number-append (suc k) xs ys ∙ ap (λ n. number (suc k) xs ++ number n ys) (omega arith))

  pub Lacks-append : (i : ℕ) (xs ys : List (Row J)) → Lacks i xs → Lacks i ys → Lacks i (xs ++ ys)
  Lacks-append i [] ys h k = k
  Lacks-append i (x ∷ xs) ys (h, hs) k = (h, Lacks-append i xs ys hs k)

  pub taken-Lacks : (i : ℕ) (rows : List (Row J)) → Lacks i rows → taken i rows ≡ false
  taken-Lacks i [] h = refl
  taken-Lacks i (r ∷ rows) (h, hs) = ground (arith, h, taken-Lacks i rows hs)

  pub number-Lacks_below : (i k : ℕ) (js : List J) → i < k → Lacks i (number k js)
  number-Lacks_below i k [] h = tt
  number-Lacks_below i k (j ∷ js) h =
      (ground (arith, h), number-Lacks_below i (suc k) js (omega (arith, h)))

  pub number-Lacks_above : (i k : ℕ) (js : List J) → k + length js ≤ i → Lacks i (number k js)
  number-Lacks_above i k [] h = tt
  number-Lacks_above i k (j ∷ js) h =
      (ground (arith, h), number-Lacks_above i (suc k) js (omega (arith, h)))

  pub taken-number :
      (i k : ℕ) (js : List J) → k ≤ i → i < k + length js → taken i (number k js) ≡ true
  taken-number i k [] lo hi = absurd (omega (arith, lo, hi))
  taken-number i k (j ∷ js) lo hi =
      ground (
        arith,
        λ (lo' : suc k ≤ i) (hi' : i < suc k + length js). taken-number i (suc k) js lo' hi',
      )

  -- Reading in the order of the indices changes nothing.
  insert_by_index-number :
      (r : Row J) (k : ℕ) (js : List J)
      → r.history_index < k
      → insert_by_index r (number k js) ≡ r ∷ number k js
  unfolding insert_by_index
  insert_by_index-number r k [] h = refl
  insert_by_index-number r k (j ∷ js) h = ground (arith, h)

  pub by_index-number : (k : ℕ) (js : List J) → by_index (number k js) ≡ number k js
  unfolding by_index
  by_index-number k [] = refl
  by_index-number k (j ∷ js) =
      ap (insert_by_index (record { history_index = k; snapshot_json = j }))
        (by_index-number (suc k) js)
      ∙ insert_by_index-number (record { history_index = k; snapshot_json = j }) (suc k) js
          (omega arith)

  max_index-number :
      (k : ℕ) (j : J) (js : List J) → max_index (number k (j ∷ js)) ≡ some (k + length js)
  unfolding max_index
  max_index-number k j [] = ap some (omega arith)
  max_index-number k j (i ∷ js) = ground (arith, max_index-number (suc k) i js)

  pub next_index-number : (js : List J) → next_index (max_index (number 0 js)) ≡ length js
  unfolding max_index
  next_index-number [] = refl
  next_index-number (j ∷ js) = ap next_index (max_index-number 0 j js) ∙ omega arith

  -- An update passes the rows that it does not concern.
  pub update_rows-skip :
      {Er : Type 0} (before : List (Row J)) (p : ℕ → Bool) (f : ℕ → ℕ) (xs ys : List (Row J))
      → All (λ r. p r.history_index ≡ false) xs
      → ◌≡◌ {A = Result (Failure Er) (List (Row J))}
          (update_rows before p f (xs ++ ys))
          (update_rows (before ++ xs) p f ys)
  unfolding update_rows
  update_rows-skip before p f [] ys h = ap (λ b. update_rows b p f ys) (sym (append-nil before))
  update_rows-skip before p f (x ∷ xs) ys (h, hs) =
      rw (h, update_rows)
        (update_rows-skip (before ++ x ∷ []) p f xs ys hs
          ∙ ap (λ b. update_rows b p f ys) (append_assoc before (x ∷ []) xs))

  -- It changes a row whose new index is free.
  pub update_rows-hit :
      {Er : Type 0} (before : List (Row J)) (p : ℕ → Bool) (f : ℕ → ℕ) (r : Row J)
      (ys : List (Row J))
      → p r.history_index ≡ true
      → Lacks (f r.history_index) (before ++ ys)
      → ◌≡◌ {A = Result (Failure Er) (List (Row J))}
          (update_rows before p f (r ∷ ys))
          (update_rows (before ++ record r { history_index = f r.history_index } ∷ []) p f ys)
  unfolding update_rows
  update_rows-hit before p f r ys h free =
      rw (h, update_rows) (rw (taken-Lacks (f r.history_index) (before ++ ys) free) refl)

  pub insert_row-number :
      {Er : Type 0} (j : J) (js : List J)
      → ◌≡◌ {A = Result (Failure Er) (List (Row J))}
          (insert_row
            (record { history_index = next_index (max_index (number 0 js)); snapshot_json = j })
            (number 0 js))
          (ok (number 0 (js ++ j ∷ [])))
  unfolding insert_row
  insert_row-number j js =
      rw
        (
          next_index-number js,
          taken-Lacks (length js) (number 0 js) (number-Lacks_above (length js) 0 js (omega arith)),
        )
        (ap ok (
          sym (
            number-append 0 js (j ∷ [])
            ∙ ap (λ n. number 0 js ++ number n (j ∷ [])) (omega arith))))

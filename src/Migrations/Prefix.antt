-- ===== src/Migrations/Prefix.antt =====
-- Databases that hold a prefix of the migrations, and what a call makes of them
-- (`apply_pending` of crates/keys-engine/src/migrations.rs).
use keys_core.Base.{
  ℕ, ◌^◌, ◌≤◌, ◌<◌, ◌≡◌, refl, ap, ◌∙◌, arith, ℤ, pos, true, false, Option, none, some, List, [],
  ◌∷◌, ◌++◌, ltb, leb, any, inl, inr, ◌>>=?◌, >>=?-eq-some, All, All-append, All-map₂, append_assoc,
  append-nil, Option-cases,
}
use keys_core.Migrations.{
  Migration, Database, MigrationError, Outcome, rows_of, same, max_row, current_version, binary_max,
  run_one, run_pending, apply_pending,
}

abbrev pub versions : {Q : Type 0} → List (Migration Q) → List ℤ
versions [] = []
versions (m ∷ ms) = pos m.version ∷ versions ms

-- Versions grow strictly, from above a lower end, and fit a u32.
abbrev pub IsAscending : {Q : Type 0} → ℕ → List (Migration Q) → Type 0
IsAscending lo [] = Unit
IsAscending lo (m ∷ ms) = (lo < m.version) × (m.version < 2 ^ 32) × IsAscending m.version ms

abbrev last : {Q : Type 0} → ℕ → List (Migration Q) → ℕ
last lo [] = lo
last lo (m ∷ ms) = last m.version ms

module _ {Q : Type 0} where
  last-ge : (lo : ℕ) (ms : List (Migration Q)) → IsAscending lo ms → lo ≤ last lo ms
  last-ge lo [] h = omega arith
  last-ge lo (m ∷ ms) (lt, fits, h) = omega (arith, last-ge m.version ms h)

  last-lt :
      (lo : ℕ) (ms : List (Migration Q)) → lo < 2 ^ 32 → IsAscending lo ms → last lo ms < 2 ^ 32
  last-lt lo [] k h = k
  last-lt lo (m ∷ ms) k (lt, fits, h) = last-lt m.version ms fits h

  last-append : (lo : ℕ) (ms ns : List (Migration Q)) → last lo (ms ++ ns) ≡ last (last lo ms) ns
  last-append lo [] ns = refl
  last-append lo (m ∷ ms) ns = last-append m.version ms ns

  binary_max-last :
      (m : Migration Q) (ms : List (Migration Q)) → binary_max (m ∷ ms) ≡ last m.version ms
  unfolding binary_max
  binary_max-last m [] = refl
  binary_max-last m (n ∷ ms) = binary_max-last n ms

  binary_max-last_zero : (ms : List (Migration Q)) → binary_max ms ≡ last 0 ms
  unfolding binary_max
  binary_max-last_zero [] = refl
  binary_max-last_zero (m ∷ ms) = binary_max-last m ms

  max_row-versions :
      (m : Migration Q) (ms : List (Migration Q))
      → IsAscending m.version ms
      → max_row (versions (m ∷ ms)) ≡ some (pos (last m.version ms))
  unfolding max_row
  max_row-versions m [] h = refl
  max_row-versions m (n ∷ ms) (lt, fits, h) =
      let ih = max_row-versions n ms h in
      let above = last-ge n.version ms h in
      let later : ltb m.version (last n.version ms) ≡ true = ground arith in rw ih (rw later refl)

  current_version-versions :
      (ms : List (Migration Q)) → IsAscending 0 ms → current_version (versions ms) ≡ last 0 ms
  unfolding current_version max_row
  current_version-versions [] h = refl
  current_version-versions (m ∷ ms) (lt, fits, h) =
      let small : ltb (last m.version ms) (2 ^ 32) ≡ true =
        ground (arith, last-lt m.version ms fits h) in
      rw (max_row-versions m ms h) (rw small refl)

  IsAscending-split :
      (lo : ℕ) (ms ns : List (Migration Q))
      → IsAscending lo (ms ++ ns)
      → IsAscending lo ms × All (λ m. m.version ≤ last lo ms) ms × IsAscending (last lo ms) ns
  IsAscending-split lo [] ns h = (tt, tt, h)
  IsAscending-split lo (m ∷ ms) ns (lt, fits, h) =
      let (up, below, rest) = IsAscending-split m.version ms ns h in
      ((lt, fits, up), (last-ge m.version ms up, below), rest)

  fresh :
      (v : ℕ) (ms : List (Migration Q))
      → All (λ m. m.version < v) ms
      → any (same (pos v)) (versions ms) ≡ false
  fresh v [] h = refl
  fresh v (m ∷ ms) (h, hs) = ground (arith, fresh v ms hs)

  versions-append :
      (ms : List (Migration Q)) (m : Migration Q)
      → versions ms ++ pos m.version ∷ [] ≡ versions (ms ++ m ∷ [])
  versions-append [] m = refl
  versions-append (n ∷ ms) m = ap (λ r. pos n.version ∷ r) (versions-append ms m)

module _ {S Q : Type 0} (execute_batch : Q → S → Option S) where
  -- All of some migrations, one after the other.
  unfoldable pub run_all : List (Migration Q) → S → Option S
  run_all [] s = some s
  run_all (m ∷ ms) s = execute_batch m.sql s >>=? run_all ms

  -- The database that the migrations `done` make of `s0`, with their versions recorded.
  pub record IsAt (s0 : S) (done : List (Migration Q)) (db : Database S) : Type 0 where
    pub rows : rows_of db.schema_version ≡ versions done
    pub schema : run_all done s0 ≡ some db.schema

  run_all-append :
      (ms : List (Migration Q)) (m : Migration Q) (s t u : S)
      → run_all ms s ≡ some t
      → execute_batch m.sql t ≡ some u
      → run_all (ms ++ m ∷ []) s ≡ some u
  unfolding run_all
  run_all-append [] m s t u h k = let same_start : s ≡ t = cc in rw same_start (rw k refl)
  run_all-append (n ∷ ms) m s t u h k =
      let (s', e, h') = >>=?-eq-some (execute_batch n.sql s) _ h in
      rw e (run_all-append ms m s' t u h' k)

  skip_done :
      (current : ℕ) (done rest : List (Migration Q)) (db : Database S)
      → All (λ m. m.version ≤ current) done
      → run_pending execute_batch current (done ++ rest) db
        ≡ run_pending execute_batch current rest db
  unfolding run_pending
  skip_done current [] rest db h = refl
  skip_done current (m ∷ done) rest db (h, hs) =
      let old : leb m.version current ≡ true = ground arith in
      rw old (skip_done current done rest db hs)

  -- Where a run stops: it has done everything, or SQLite refuses the next migration.
  abbrev pub Stops : List (Migration Q) → Outcome S → Type 0
  Stops [] out = out.error ≡ none
  Stops (m ∷ ms) out =
      (out.error ≡ some MigrationError.sqlite) × (execute_batch m.sql out.db.schema ≡ none)

  run_pending-refused :
      (current : ℕ) (m : Migration Q) (ms : List (Migration Q)) (db : Database S)
      → leb m.version current ≡ false
      → execute_batch m.sql db.schema ≡ none
      → run_pending execute_batch current (m ∷ ms) db
        ≡ record { db = db; error = some MigrationError.sqlite }
  unfolding run_pending run_one
  run_pending-refused current m ms db pending refused = rw (pending, refused) refl

  run_pending-next :
      (current : ℕ) (m : Migration Q) (ms : List (Migration Q)) (db : Database S) (s : S)
      → leb m.version current ≡ false
      → any (same (pos m.version)) (rows_of db.schema_version) ≡ false
      → execute_batch m.sql db.schema ≡ some s
      → run_pending execute_batch current (m ∷ ms) db
        ≡ run_pending execute_batch current ms (record {
          schema_version = some (rows_of db.schema_version ++ pos m.version ∷ []);
          schema = s;
        })
  unfolding run_pending run_one
  run_pending-next current m ms db s pending unknown ran = rw (pending, ran) (rw unknown refl)

  -- The split of the pending migrations where a run stops.
  abbrev pub IsStopped : S → List (Migration Q) → List (Migration Q) → Outcome S → Type 0
  IsStopped s0 done rest out =
      (applied left : List (Migration Q)) × (rest ≡ applied ++ left)
      × IsAt s0 (done ++ applied) out.db
      × Stops left out

  run_pending-IsStopped :
      (current lo : ℕ) (s0 : S) (done rest : List (Migration Q)) (db : Database S)
      → current ≤ lo
      → All (λ m. m.version ≤ lo) done
      → IsAscending lo rest
      → IsAt s0 done db
      → IsStopped s0 done rest (run_pending execute_batch current rest db)
  run_pending-IsStopped current lo s0 done [] db le below up at =
      ([], [], refl, unfold run_pending in rw append-nil at, unfold run_pending in refl)
  run_pending-IsStopped current lo s0 done (m ∷ ms) db le below (lt, fits, up) at =
      let pending : leb m.version current ≡ false = ground arith in
      let unknown : any (same (pos m.version)) (rows_of db.schema_version) ≡ false =
        rw at.rows
          (fresh m.version done (All-map₂ _ _ _ (λ n a b. omega arith) done below below)) in
      elim (Option-cases (execute_batch m.sql db.schema)) [
        | inl refused ↦
            rw (run_pending-refused current m ms db pending refused)
              ([], m ∷ ms, refl, rw append-nil at, (refl, refused))
        | inr (s, ran) ↦
            let next : Database S = record {
              schema_version = some (rows_of db.schema_version ++ pos m.version ∷ []);
              schema = s;
            } in
            let at_next : IsAt s0 (done ++ m ∷ []) next = record {
              rows = rw at.rows (versions-append done m);
              schema = run_all-append done m s0 db.schema s at.schema ran;
            } in
            let below_next : All (λ n. n.version ≤ m.version) (done ++ m ∷ []) =
              All-append _ done (m ∷ []) (All-map₂ _ _ _ (λ n a b. omega arith) done below below)
                (omega arith, tt) in
            let (applied, left, split, at_end, stops) =
              run_pending-IsStopped current m.version s0 (done ++ m ∷ []) ms next (omega arith)
                below_next up at_next in
            rw (run_pending-next current m ms db s pending unknown ran)
              (m ∷ applied, left, ap (λ l. m ∷ l) split, rw append_assoc at at_end, stops)
      ]

  -- Where the database holds the first migrations, a call applies those that follow, each once and in
  -- order, up to the first that SQLite refuses; what it leaves is again a prefix, recorded as such. It
  -- reports an error exactly when it leaves some out.
  pub apply_pending-IsStopped :
      (s0 : S) (done rest : List (Migration Q)) (db : Database S)
      → IsAscending 0 (done ++ rest)
      → IsAt s0 done db
      → IsStopped s0 done rest (apply_pending execute_batch (done ++ rest) db)
  unfolding apply_pending
  apply_pending-IsStopped s0 done rest db up at =
      let (up_done, below, up_rest) = IsAscending-split 0 done rest up in
      let current : current_version (rows_of db.schema_version) ≡ last 0 done =
        rw at.rows (current_version-versions done up_done) in
      let top : binary_max (done ++ rest) ≡ last (last 0 done) rest =
        binary_max-last_zero (done ++ rest) ∙ last-append 0 done rest in
      let known : ltb (binary_max (done ++ rest)) (current_version (rows_of db.schema_version))
          ≡ false =
        ground (arith, last-ge (last 0 done) rest up_rest, top, current) in
      rw known (
        rw current (
          rw
            (skip_done (last 0 done) done rest
              (record db { schema_version = some (rows_of db.schema_version) }) below)
            (run_pending-IsStopped (last 0 done) (last 0 done) s0 done rest
              (record db { schema_version = some (rows_of db.schema_version) }) (omega arith) below
              up_rest (record { rows = at.rows; schema = at.schema }))))

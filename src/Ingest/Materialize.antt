-- ===== src/Ingest/Materialize.antt =====
-- The fate of groups with a tombstone: `materialize_group_tombstones`, `group_alive` and
-- `group_depth` of crates/keys-engine/src/ingest.rs.
pub mod Alive
pub mod Rows
pub mod Sift
pub mod Closed
pub mod Kept
pub mod Orphans
use keys_core.Base.{
  ℕ, zero, suc, Bool, true, false, Option, none, some, List, [], ◌∷◌, ◌++◌, ◌==◌, not, ◌||◌, leb,
  if◌then◌else◌, is_some_of, keep_if, any, map,
}
use keys_core.Vault.Tables.{Uuid, Millis, Group, Entry, Db, Result, ok, err, ◌>>=◌, sqlite}
use keys_core.Vault.Queries.{group_exists, parent_of, child_groups}
use keys_core.Ingest.Tombstones.{Stones, remove_tombstone}

-- `set.contains(u)`
unfoldable pub contains : Uuid → List Uuid → Bool
contains u [] = false
contains u (v ∷ vs) = let rest = contains u vs in if v == u then true else rest

-- SELECT DISTINCT group_uuid FROM entry
unfoldable pub holds_entry : List Entry → Uuid → Bool
holds_entry [] u = false
holds_entry (e ∷ es) u = let rest = holds_entry es u in if e.group_uuid == u then true else rest

-- The groups among the tombstones.
unfoldable pub tombstoned : List Group → Stones → List Uuid
tombstoned gs [] = []
tombstoned gs ((u, t) ∷ ds) =
    let rest = tombstoned gs ds in if group_exists gs u then u ∷ rest else rest

-- `kids.iter().any(…)`
unfoldable pub any_alive : (Uuid → Option Bool) → List Uuid → Option Bool
any_alive alive [] = some false
any_alive alive (c ∷ cs) = elim (alive c) [
  | none ↦ none
  | some true ↦ some true
  | some false ↦ any_alive alive cs
]

-- `none` means that the recursion is deeper than `fuel`.
unfoldable pub group_alive : ℕ → List Group → List Entry → List Uuid → Uuid → Option Bool
unfolding any_alive
group_alive zero gs es stones u = none
group_alive (suc fuel) gs es stones u = elim (not (contains u stones) || holds_entry es u) [
  | true ↦ some true
  | false ↦ any_alive (group_alive fuel gs es stones) (child_groups gs u)
]

-- The rounds of the loop, which stops behind a depth of 100,000.
unfoldable pub depth_rounds : ℕ → List Group → Uuid → ℕ
depth_rounds zero gs u = 0
depth_rounds (suc n) gs u = elim (parent_of gs u) [ none ↦ 0 | some p ↦ suc (depth_rounds n gs p) ]

unfoldable pub max_depth : ℕ
max_depth = 100_000

unfoldable pub group_depth : List Group → Uuid → ℕ
unfolding depth_rounds max_depth
group_depth gs u = depth_rounds (suc max_depth) gs u

-- `dead.sort_by_key(|u| Reverse(group_depth(u)))`, which is stable.
unfoldable pub insert_deepest : (Uuid → ℕ) → Uuid → List Uuid → List Uuid
insert_deepest depth u [] = u ∷ []
insert_deepest depth u (v ∷ vs) =
    let rest = insert_deepest depth u vs in if leb (depth v) (depth u) then u ∷ v ∷ vs else v ∷ rest

unfoldable pub sort_deepest : (Uuid → ℕ) → List Uuid → List Uuid
unfolding insert_deepest
sort_deepest depth [] = []
sort_deepest depth (u ∷ us) = insert_deepest depth u (sort_deepest depth us)

-- The loop over the tombstoned groups: the tombstones, and `dead`.
unfoldable pub sift : (Uuid → Option Bool) → List Uuid → Stones → Option (Stones × List Uuid)
sift alive [] ds = some (ds, [])
sift alive (u ∷ us) ds = elim (alive u) [
  | none ↦ none
  | some true ↦ sift alive us (remove_tombstone u ds)
  | some false ↦ elim (sift alive us ds) [ none ↦ none | some (rest, dead) ↦ some (rest, u ∷ dead) ]
]

-- DELETE FROM "group" WHERE uuid = ?, which the rows that refer to the group forbid.
unfoldable pub delete_group_row : Uuid → List Entry → List Group → Result (List Group)
delete_group_row u es gs =
    if any (λ g. is_some_of g.parent_uuid u) gs || holds_entry es u
    then err sqlite
    else ok (keep_if (λ g. not (g.uuid == u)) gs)

unfoldable pub delete_group_rows : List Uuid → List Entry → List Group → Result (List Group)
delete_group_rows [] es gs = ok gs
delete_group_rows (u ∷ us) es gs = delete_group_row u es gs >>= delete_group_rows us es

abbrev pub finish : Db → Option (Stones × List Uuid) → Option (Result (Db × List Uuid))
finish db none = none
finish db (some (ds, dead)) =
    let order = sort_deepest (group_depth db.groups) dead in
    some (
      delete_group_rows order db.entries db.groups >>= λ gs.
      ok (record db { groups = gs; deleted_objects = ds }, order))

abbrev pub over_tombstoned : ℕ → Db → List Uuid → Option (Result (Db × List Uuid))
over_tombstoned fuel db [] = some (ok (db, []))
over_tombstoned fuel db (u ∷ us) =
    finish db (sift (group_alive fuel db.groups db.entries (u ∷ us)) (u ∷ us) db.deleted_objects)

-- The second part of the result is `outcome.groups_deleted`.
unfoldable pub materialize_group_tombstones : ℕ → Db → Option (Result (Db × List Uuid))
unfolding tombstoned sift group_alive sort_deepest delete_group_rows
materialize_group_tombstones fuel db =
    over_tombstoned fuel db (tombstoned db.groups db.deleted_objects)

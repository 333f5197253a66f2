-- ===== src/Vault/Queries.antt =====
-- The queries and single statements that the vault's operations share
-- (crates/keys-engine/src/util/sql.rs, mutations.rs).
use keys_core.Base.{
  ℕ, zero, suc, Bool, true, false, Option, none, some, List, [], ◌∷◌, ◌++◌, keep_if, any, ◌==◌, not,
  if◌then◌else◌, is_some_of, leb, ◌>>=?◌,
}
use keys_core.Vault.Tables.{Uuid, Millis, Group, Entry, Db, find_group, find_entry}

-- `.optional()?.is_some()`
abbrev is_found {ℓ} : {A : Type ℓ} → Option A → Bool
is_found none = false
is_found (some a) = true

unfoldable pub group_exists : List Group → Uuid → Bool
group_exists gs u = is_found (find_group gs u)

unfoldable pub entry_exists : List Entry → Uuid → Bool
entry_exists es u = is_found (find_entry es u)

-- SELECT uuid FROM "group" WHERE is_recycle_bin = 1 LIMIT 1
unfoldable pub recycle_bin_uuid : List Group → Option Uuid
recycle_bin_uuid [] = none
recycle_bin_uuid (g ∷ gs) = if g.is_recycle_bin then some g.uuid else recycle_bin_uuid gs

-- SELECT uuid FROM "group" WHERE parent_uuid IS NULL LIMIT 1
unfoldable pub root_uuid : List Group → Option Uuid
root_uuid [] = none
root_uuid (g ∷ gs) = elim g.parent_uuid [ none ↦ some g.uuid | some p ↦ root_uuid gs ]

-- SELECT parent_uuid FROM "group" WHERE uuid = ?, `.optional()?.flatten()`
unfoldable pub parent_of : List Group → Uuid → Option Uuid
parent_of gs u = find_group gs u >>=? λ g. g.parent_uuid

-- SELECT uuid FROM "group" WHERE parent_uuid = ?
unfoldable pub child_groups : List Group → Uuid → List Uuid
child_groups [] u = []
child_groups (g ∷ gs) u =
    if is_some_of g.parent_uuid u then g.uuid ∷ child_groups gs u else child_groups gs u

-- COALESCE(MAX(sort_order), -1) + 1 over the children of a group.
unfoldable pub next_sort_order : List Group → Uuid → ℕ
next_sort_order [] u = 0
next_sort_order (g ∷ gs) u =
    let rest = next_sort_order gs u in
    if is_some_of g.parent_uuid u
    then (if leb rest g.sort_order then suc g.sort_order else rest)
    else rest

-- The rounds of the walk up the parent chain; `cur` is the group looked at.
unfoldable pub walk_to_bin : List Group → Uuid → ℕ → Option Uuid → Bool
walk_to_bin gs bin zero cur = false
walk_to_bin gs bin (suc n) none = false
walk_to_bin gs bin (suc n) (some g) =
    let rest = walk_to_bin gs bin n (parent_of gs g) in if g == bin then true else rest

-- The bound of the walk: `for _ in 0..10_000`.
unfoldable pub max_walk : ℕ
max_walk = 10_000

unfoldable pub group_in_bin_subtree : List Group → Uuid → Bool
group_in_bin_subtree gs u = elim (recycle_bin_uuid gs) [
  | none ↦ false
  | some bin ↦ walk_to_bin gs bin max_walk (some u)
]

-- INSERT OR REPLACE INTO meta_deleted_object
unfoldable pub record_tombstone :
    Uuid → Millis → List (Uuid × Option Millis) → List (Uuid × Option Millis)
record_tombstone u now ds = keep_if (λ d. not (d.0 == u)) ds ++ (u, some now) ∷ []

-- DELETE FROM tag WHERE id NOT IN (SELECT DISTINCT tag_id FROM entry_tag)
unfoldable pub gc_orphan_tags : Db → Db
gc_orphan_tags db = record db { tags = keep_if (λ t. any (λ l. l.1 == t.0) db.entry_tags) db.tags }

-- DELETE FROM entry WHERE uuid = ?, with the cascade to entry_tag.
unfoldable pub delete_entry_row : Uuid → Db → Db
delete_entry_row u db = record db {
  entries = keep_if (λ e. not (e.uuid == u)) db.entries;
  entry_tags = keep_if (λ l. not (l.0 == u)) db.entry_tags;
}

-- ===== src/Vault/Purge.antt =====
-- Hard deletion of subtrees: `delete_group`, `delete_group_recursive`,
-- `delete_direct_child_entries` and `empty_recycle_bin` of crates/keys-engine/src/mutations.rs.
pub mod Induction
pub mod Removal
pub mod Trees
pub mod Accounting
use keys_core.Base.{
  ℕ, zero, suc, Option, none, some, List, [], ◌∷◌, ◌++◌, keep_if, any, not, ◌==◌, if◌then◌else◌,
  ◌>>=?◌,
}
use keys_core.Vault.Tables.{Uuid, Millis, Entry, Db, not_found, Result, ok, err, find_group, group}
use keys_core.Vault.Queries.{recycle_bin_uuid, child_groups, record_tombstone, gc_orphan_tags}

-- The database of the transaction, and `DeleteGroupOutcome`.
pub record Purge : Type 0 where
  pub db : Db
  pub deleted_entries : List (Uuid × Uuid)
  pub deleted_groups : List (Uuid × Option Uuid)

abbrev pub start : Db → Purge
start db = record { db = db; deleted_entries = []; deleted_groups = [] }

-- SELECT uuid FROM entry WHERE group_uuid = ?
unfoldable pub child_entries : List Entry → Uuid → List Uuid
child_entries [] u = []
child_entries (e ∷ es) u =
    if e.group_uuid == u then e.uuid ∷ child_entries es u else child_entries es u

-- The `for` loop: each entry is listed and gets its tombstone.
unfoldable pub list_entries : List Uuid → Uuid → Millis → Purge → Purge
list_entries [] parent now s = s
list_entries (e ∷ es) parent now s = list_entries es parent now (record s {
  db = record s.db { deleted_objects = record_tombstone e now s.db.deleted_objects };
  deleted_entries = s.deleted_entries ++ (e, parent) ∷ [];
})

-- DELETE FROM entry WHERE group_uuid = ?, with the cascade to entry_tag.
abbrev drop_entries : Uuid → Db → Db
drop_entries u db = record db {
  entries = keep_if (λ e. not (e.group_uuid == u)) db.entries;
  entry_tags = keep_if (λ l. not (any (λ e. e == l.0) (child_entries db.entries u))) db.entry_tags;
}

unfoldable pub delete_direct_child_entries : Uuid → Uuid → Millis → Purge → Purge
unfolding child_entries list_entries
delete_direct_child_entries u parent now s =
    let listed = list_entries (child_entries s.db.entries u) parent now s in
    record listed { db = drop_entries u listed.db }

-- The statements of `delete_group_recursive` after its loop over the child groups.
unfoldable pub delete_self : Uuid → Option Uuid → Millis → Purge → Purge
unfolding delete_direct_child_entries
delete_self u parent now s =
    let emptied = delete_direct_child_entries u u now s in
    record emptied {
      db = record emptied.db {
        groups = keep_if (λ g. not (g.uuid == u)) emptied.db.groups;
        deleted_objects = record_tombstone u now emptied.db.deleted_objects;
      };
      deleted_groups = emptied.deleted_groups ++ (u, parent) ∷ [];
    }

-- `for child in children { delete_group_recursive(child)?; }`
unfoldable pub for_each : (Uuid → Purge → Option Purge) → List Uuid → Purge → Option Purge
for_each f [] s = some s
for_each f (c ∷ cs) s = f c s >>=? for_each f cs

-- `none` means that the recursion is deeper than `fuel`.
unfoldable pub delete_group_recursive : ℕ → Millis → Option Uuid → Uuid → Purge → Option Purge
unfolding for_each
delete_group_recursive zero now parent u s = none
delete_group_recursive (suc fuel) now parent u s =
    for_each (delete_group_recursive fuel now (some u)) (child_groups s.db.groups u) s >>=? λ s'.
    some (delete_self u parent now s')

-- The sweep at the end of a cascade.
abbrev pub sweep : Purge → Purge
sweep s = record s { db = gc_orphan_tags s.db }

unfoldable pub delete_group : ℕ → Db → Uuid → Millis → Option (Result Purge)
delete_group fuel db u now = elim (find_group db.groups u) [
  | none ↦ some (err (not_found group))
  | some g ↦
      delete_group_recursive fuel now g.parent_uuid u (start db) >>=? λ s. some (ok (sweep s))
]

unfoldable pub empty_recycle_bin : ℕ → Db → Millis → Option Purge
empty_recycle_bin fuel db now = elim (recycle_bin_uuid db.groups) [
  | none ↦ some (start db)
  | some bin ↦
      for_each (delete_group_recursive fuel now (some bin)) (child_groups db.groups bin) (start db)
      >>=? λ s. some (sweep (delete_direct_child_entries bin bin now s))
]

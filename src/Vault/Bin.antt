-- ===== src/Vault/Bin.antt =====
-- The recycle bin's designation (`set_recycle_bin`, `create_recycle_bin_group`,
-- `ensure_recycle_bin` of crates/keys-engine/src/mutations.rs; the accessors of meta.rs).
pub mod Designation
use keys_core.Base.{
  ℕ, Bool, true, false, Option, none, some, List, [], ◌∷◌, ◌++◌, map, ◌==◌, not, if◌then◌else◌,
  ◌&&◌,
}
use keys_core.Vault.Tables.{
  Uuid, Millis, Group, Db, not_found, sqlite, Result, ok, err, ◌>>=◌, ok_or, update_groups, group,
}
use keys_core.Vault.Queries.{group_exists, recycle_bin_uuid, root_uuid, next_sort_order}

-- UPDATE "group" SET is_recycle_bin = 0 WHERE is_recycle_bin = 1 AND uuid != ?
abbrev pub clear_unless : Uuid → Group → Group
clear_unless u g =
    if g.is_recycle_bin && not (g.uuid == u) then record g { is_recycle_bin = false } else g

abbrev pub set_flag : Group → Group
set_flag g = record g { is_recycle_bin = true }

unfoldable pub write_recycle_bin_group : Uuid → List Group → List Group
unfolding update_groups
write_recycle_bin_group u gs = update_groups u set_flag (map (clear_unless u) gs)

abbrev clear_flag : Group → Group
clear_flag g = if g.is_recycle_bin then record g { is_recycle_bin = false } else g

unfoldable pub clear_recycle_bin_group : List Group → List Group
clear_recycle_bin_group gs = map clear_flag gs

abbrev derived_enabled : Option Uuid → Bool
derived_enabled none = false
derived_enabled (some bin) = true

-- A stored blob of one byte decides; otherwise whether a bin group exists.
unfoldable pub read_enabled : Option (List ℕ) → Option Uuid → Bool
read_enabled none bin = derived_enabled bin
read_enabled (some []) bin = derived_enabled bin
read_enabled (some (b ∷ [])) bin = not (b == 0)
read_enabled (some (b ∷ c ∷ bs)) bin = derived_enabled bin

unfoldable pub read_recycle_bin_enabled : Db → Bool
unfolding read_enabled
read_recycle_bin_enabled db = read_enabled db.recycle_bin_enabled (recycle_bin_uuid db.groups)

unfoldable pub write_recycle_bin_enabled : Bool → Db → Db
write_recycle_bin_enabled enabled db = record db {
  recycle_bin_enabled = some ((if enabled then 1 else 0) ∷ []);
}

unfoldable pub write_recycle_bin_changed : Millis → Db → Db
write_recycle_bin_changed now db = record db { recycle_bin_changed = some now }

-- The last two statements of `set_recycle_bin` and of `create_recycle_bin_group`.
abbrev pub stamp : Bool → Millis → Db → Db
stamp enabled now db = write_recycle_bin_changed now (write_recycle_bin_enabled enabled db)

unfoldable pub set_recycle_bin : Db → Bool → Option Uuid → Millis → Result Db
unfolding write_recycle_bin_group clear_recycle_bin_group write_recycle_bin_enabled
    write_recycle_bin_changed
set_recycle_bin db enabled (some u) now =
    if group_exists db.groups u
    then ok (stamp enabled now (record db { groups = write_recycle_bin_group u db.groups }))
    else err (not_found group)
set_recycle_bin db enabled none now =
    ok (stamp enabled now (record db { groups = clear_recycle_bin_group db.groups }))

abbrev pub bin_row : Uuid → Uuid → ℕ → Millis → Group
bin_row u root order now = record {
  uuid = u;
  parent_uuid = some root;
  name = "Recycle Bin";
  icon_index = some 43;
  icon_custom_uuid = none;
  notes = "";
  created_at = now;
  modified_at = now;
  expires_at = none;
  is_recycle_bin = false;
  sort_order = order;
  location_changed_at = none;
}

-- INSERT INTO "group": a row whose uuid is taken is refused.
unfoldable pub insert_group : Group → List Group → Result (List Group)
insert_group g gs = if group_exists gs g.uuid then err sqlite else ok (gs ++ g ∷ [])

unfoldable pub create_recycle_bin_group : Db → Millis → Uuid → Result (Db × Uuid)
unfolding insert_group write_recycle_bin_group write_recycle_bin_enabled write_recycle_bin_changed
create_recycle_bin_group db now bin_uuid = do
  root ← ok_or (root_uuid db.groups) sqlite
  gs ← insert_group (bin_row bin_uuid root (next_sort_order db.groups root) now) db.groups
  ok (stamp true now (record db { groups = write_recycle_bin_group bin_uuid gs }), bin_uuid)

abbrev some_bin : Db × Uuid → Result (Db × Option Uuid)
some_bin (db, bin) = ok (db, some bin)

-- The `match` that `recycle_entry` and `ensure_recycle_bin` share.
unfoldable pub resolve_bin : Db → Millis → Uuid → Result (Db × Option Uuid)
unfolding create_recycle_bin_group read_recycle_bin_enabled
resolve_bin db now bin_uuid = elim (recycle_bin_uuid db.groups) [
  | some bin ↦ ok (db, some bin)
  | none ↦
      if read_recycle_bin_enabled db
      then create_recycle_bin_group db now bin_uuid >>= some_bin
      else ok (db, none)
]

unfoldable pub ensure_recycle_bin : Db → Millis → Uuid → Result (Db × Option Uuid)
unfolding resolve_bin
ensure_recycle_bin db now bin_uuid = resolve_bin db now bin_uuid

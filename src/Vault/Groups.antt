-- ===== src/Vault/Groups.antt =====
-- The group tree: `create_group`, `update_group`, `recycle_group`, `move_group` and
-- `restore_group` of crates/keys-engine/src/mutations.rs.
pub mod Ancestors
pub mod Moves
pub mod Inserts
pub mod Depth
pub mod Roots
pub mod Reorder
use keys_core.Base.{
  ℕ, zero, suc, Bool, true, false, String, Option, none, some, List, ◌==◌, if◌then◌else◌,
}
use keys_core.Vault.Tables.{
  Uuid, Millis, IconRef, builtin, custom, Group, Db, not_found, cycle_detected, Result, ok, err,
  ◌>>=◌, ◌>>◌, ok_or, require, find_group, update_groups, group, recycle_bin,
}
use keys_core.Vault.Queries.{group_exists, recycle_bin_uuid, parent_of, next_sort_order}
use keys_core.Vault.Bin.{insert_group}

abbrev pub icon_index_of : IconRef → Option ℕ
icon_index_of (builtin i) = some i
icon_index_of (custom u) = none

abbrev pub icon_custom_of : IconRef → Option Uuid
icon_custom_of (builtin i) = none
icon_custom_of (custom u) = some u

pub record NewGroupFields : Type 0 where
  pub name : String
  pub notes : String
  pub icon : IconRef

abbrev pub new_row : Db → Uuid → NewGroupFields → Millis → Uuid → Group
new_row db parent fields now new_uuid = record {
  uuid = new_uuid;
  parent_uuid = some parent;
  name = fields.name;
  icon_index = icon_index_of fields.icon;
  icon_custom_uuid = icon_custom_of fields.icon;
  notes = fields.notes;
  created_at = now;
  modified_at = now;
  expires_at = none;
  is_recycle_bin = false;
  sort_order = next_sort_order db.groups parent;
  location_changed_at = none;
}

unfoldable pub create_group : Db → Uuid → NewGroupFields → Millis → Uuid → Result (Db × Uuid)
unfolding insert_group
create_group db parent fields now new_uuid = do
  require (group_exists db.groups parent) (not_found group)
  gs ← insert_group (new_row db parent fields now new_uuid) db.groups
  ok (record db { groups = gs }, new_uuid)

-- A field that is `none` is left alone; `expires_at` may be set to NULL.
pub record GroupUpdate : Type 0 where
  pub name : Option String
  pub notes : Option String
  pub icon : Option IconRef
  pub expires_at : Option (Option Millis)

abbrev pub set_name : Option String → Group → Group
set_name none g = g
set_name (some s) g = record g { name = s }

abbrev pub set_notes : Option String → Group → Group
set_notes none g = g
set_notes (some s) g = record g { notes = s }

abbrev pub set_icon : Option IconRef → Group → Group
set_icon none g = g
set_icon (some i) g = record g { icon_index = icon_index_of i; icon_custom_uuid = icon_custom_of i }

abbrev pub set_expiry : Option (Option Millis) → Group → Group
set_expiry none g = g
set_expiry (some t) g = record g { expires_at = t }

abbrev pub touch : Millis → Group → Group
touch now g = record g { modified_at = now }

unfoldable pub update_group : Db → Uuid → GroupUpdate → Millis → Result Db
update_group db u upd now = do
  require (group_exists db.groups u) (not_found group)
  let named = update_groups u (set_name upd.name) db.groups
  let noted = update_groups u (set_notes upd.notes) named
  let pictured = update_groups u (set_icon upd.icon) noted
  let dated = update_groups u (set_expiry upd.expires_at) pictured
  ok (record db { groups = update_groups u (touch now) dated })

-- UPDATE "group" SET parent_uuid, modified_at
abbrev pub recycle_row : Uuid → Millis → Group → Group
recycle_row bin now g = record g { parent_uuid = some bin; modified_at = now }

unfoldable pub recycle_group : Db → Uuid → Millis → Result Db
recycle_group db u now = do
  require (group_exists db.groups u) (not_found group)
  bin ← ok_or (recycle_bin_uuid db.groups) (not_found recycle_bin)
  if bin == u
      then err cycle_detected
      else ok (record db { groups = update_groups u (recycle_row bin now) db.groups })

-- The loop `while let Some(cur) = cursor` of `move_group`: does it meet `u`? `none` means that
-- it still runs after `fuel` rounds.
unfoldable pub climb : List Group → Uuid → ℕ → Option Uuid → Option Bool
climb gs u fuel none = some false
climb gs u zero (some cur) = none
climb gs u (suc fuel) (some cur) =
    let rest = climb gs u fuel (parent_of gs cur) in if cur == u then some true else rest

pub record MoveGroupOutcome : Type 0 where
  pub from_parent : Uuid
  pub to_parent : Uuid

abbrev pub move_row : Uuid → ℕ → Millis → Group → Group
move_row parent order now g = record g {
  parent_uuid = some parent;
  sort_order = order;
  modified_at = now;
  location_changed_at = some now;
}

-- A group without a parent is its own sentinel.
abbrev or_self : Uuid → Option Uuid → Uuid
or_self u none = u
or_self u (some p) = p

-- The statement after the walk.
abbrev finish_move :
    Db → Uuid → Uuid → Millis → Group → Option Bool → Option (Result (Db × MoveGroupOutcome))
finish_move db u parent now g none = none
finish_move db u parent now g (some true) = some (err cycle_detected)
finish_move db u parent now g (some false) = some (
    ok (
      record db {
        groups = update_groups u (move_row parent (next_sort_order db.groups parent) now) db.groups;
      },
      record { from_parent = or_self u g.parent_uuid; to_parent = parent },
    ))

-- `none` means that the walk still runs after `fuel` rounds.
unfoldable pub move_group : ℕ → Db → Uuid → Uuid → Millis → Option (Result (Db × MoveGroupOutcome))
move_group fuel db u parent now =
    if u == parent then some (err cycle_detected) else elim (find_group db.groups u) [
      | none ↦ some (err (not_found group))
      | some g ↦
          if group_exists db.groups parent
          then finish_move db u parent now g (climb db.groups u fuel (some parent))
          else some (err (not_found group))
    ]

unfoldable pub restore_group :
    ℕ → Db → Uuid → Uuid → Millis → Option (Result (Db × MoveGroupOutcome))
unfolding move_group
restore_group fuel db u parent now = move_group fuel db u parent now

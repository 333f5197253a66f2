-- ===== src/Ingest/Locations.antt =====
-- The place of an entry that both sides hold
-- (`reconcile_entry_location` of crates/keys-engine/src/ingest.rs).
pub mod Agree
use keys_core.Base.{
  Bool, true, false, Option, none, some, ◌≡◌, refl, sym, ◌∙◌, ap, if◌then◌else◌, arith, Bool-cases,
  Option-cases, inl, inr, All-of,
}
use keys_core.Base.Order.{leq, later, later_comm, pair_ord, option_ord, int_ord, nat_ord}
use keys_core.Vault.Tables.{Uuid, Millis, Entry, Db, find_entry, update_entries}
use keys_core.Vault.Queries.{group_exists, group_in_bin_subtree}
use keys_core.Vault.Rows.{find_entry-update_self}
use keys_core.Vault.Entries.Flags.{FlagsMatch, FlagsMatch-update}
use keys_core.Ingest.{floored, floored_idem, then_ms_to_dt}

-- What the peer's entry says of its place: `location_changed`, `previous_parent_group`, and its group.
pub record PeerPlace : Type 0 where
  pub location_changed : Option Millis
  pub previous_parent : Option Uuid
  pub parent : Uuid

-- What decides between two places: the second of the move, the group, the group before.
abbrev pub Triple : Type 0
Triple = Option Millis × (Uuid × Option Uuid)

abbrev pub local_triple : Entry → Triple
local_triple e = (floored e.location_changed_at, (e.group_uuid, e.previous_parent_uuid))

abbrev pub peer_triple : PeerPlace → Triple
peer_triple p = (floored p.location_changed, (p.parent, p.previous_parent))

-- UPDATE entry SET previous_parent_uuid, group_uuid, is_recycled, location_changed_at
abbrev pub take_location : PeerPlace → Bool → Entry → Entry
take_location p in_bin e = record e {
  previous_parent_uuid = p.previous_parent;
  group_uuid = p.parent;
  is_recycled = in_bin;
  location_changed_at = floored p.location_changed;
}

unfoldable pub reconcile_entry_location : Db → Uuid → PeerPlace → Db × Bool
reconcile_entry_location db u p = elim (find_entry db.entries u) [
  | none ↦ (db, false)
  | some e ↦
      if leq (peer_triple p) (local_triple e)
      then (db, false)
      else (if group_exists db.groups p.parent
          then (
            record db {
              entries =
                  update_entries u (take_location p (group_in_bin_subtree db.groups p.parent))
                    db.entries;
            },
            true,
          )
          else (db, false))
]

-- The entry as the other side reads it (crates/keys-engine/src/projection.rs).
abbrev pub projected_place : (Millis → Bool) → Entry → PeerPlace
projected_place in_range e = record {
  location_changed = then_ms_to_dt in_range e.location_changed_at;
  previous_parent = e.previous_parent_uuid;
  parent = e.group_uuid;
}

-- ===== src/Ingest/Groups.antt =====
-- The peer's group tree in the mirror: `reconcile_peer_groups`, `reconcile_group_metadata`,
-- `reconcile_group_location`, `break_group_cycles` and `find_one_cycle` of
-- crates/keys-engine/src/ingest.rs. The peer's groups are another crate's records: the fields that the
-- passes read stand here.
pub mod Counting
pub mod Walks
pub mod Cycles
pub mod Adoption
pub mod Links
pub mod Replicas
pub mod NullIcon
pub mod Rooted
pub mod Succeeds
use keys_core.Base.{
  ℕ, zero, suc, Bool, true, false, String, Option, none, some, List, [], ◌∷◌, ◌++◌, ◌==◌, ◌^◌, ◌-◌,
  if◌then◌else◌, is_some_of, leb, pos,
}
use keys_core.Base.Order.{
  Ord, leq, later, earlier, nat_ord, int_ord, option_ord, pair_ord, string_ord,
}
use keys_core.Vault.Tables.{
  Uuid, Millis, Group, Result, ok, err, ◌>>=◌, sqlite, find_group, update_groups,
}
use keys_core.Vault.Queries.{group_exists, parent_of}
use keys_core.Ingest.{floor_to_second, floored}

pub record PeerGroup : Type 0 where
  pub id : Uuid
  pub name : String
  pub notes : String
  pub icon_id : ℕ
  pub custom_icon_uuid : Option Uuid
  pub creation_time : Option Millis
  pub last_modification_time : Option Millis
  pub expires : Bool
  pub expiry_time : Option Millis
  pub location_changed : Option Millis

mutual
  pub data PeerTree : Type 0 where
    node : PeerGroup → PeerTrees → PeerTree

  -- `Vec<Group>`.
  pub data PeerTrees : Type 0 where
    nil : PeerTrees
    cons : PeerTree → PeerTrees → PeerTrees

-- `dt_to_ms` and `expiry_ms` (crates/keys-engine/src/util/sql.rs).
abbrev dt_to_ms : Option Millis → Millis
dt_to_ms none = pos 0
dt_to_ms (some t) = t

abbrev expiry_ms : PeerGroup → Option Millis
expiry_ms g = if g.expires then g.expiry_time else none

-- A group of the peer with its parent and its sort_order.
abbrev pub Placed : Type 0
Placed = PeerGroup × Option Uuid × ℕ

-- `u32::try_from(idx).unwrap_or(u32::MAX)`
abbrev pub as_u32 : ℕ → ℕ
as_u32 idx = earlier idx (2 ^ 32 - 1)

unfoldable mutual
  pub collect : PeerTree → Option Uuid → ℕ → List Placed
  collect (PeerTree.node g kids) parent sort_order =
      (g, parent, sort_order) ∷ collect_children g.id 0 kids

  pub collect_children : Uuid → ℕ → PeerTrees → List Placed
  collect_children parent idx PeerTrees.nil = []
  collect_children parent idx (PeerTrees.cons t ts) =
      collect t (some parent) (as_u32 idx) ++ collect_children parent (suc idx) ts

-- The rows, and the lists of `IngestPeerOutcome` that the passes extend.
pub record Pass : Type 0 where
  pub groups : List Group
  pub groups_added : List Uuid
  pub groups_updated : List Uuid
  pub groups_moved : List Uuid

-- INSERT INTO "group", as an ordinary group.
abbrev pub adopted_row : PeerGroup → Uuid → ℕ → Group
adopted_row g parent sort_order = record {
  uuid = g.id;
  parent_uuid = some parent;
  name = g.name;
  icon_index = some g.icon_id;
  icon_custom_uuid = g.custom_icon_uuid;
  notes = g.notes;
  created_at = dt_to_ms g.creation_time;
  modified_at = dt_to_ms g.last_modification_time;
  expires_at = expiry_ms g;
  is_recycle_bin = false;
  sort_order = sort_order;
  location_changed_at = g.location_changed;
}

-- Pass 1.
unfoldable pub adopt_groups : List Placed → Pass → Pass
adopt_groups [] s = s
adopt_groups ((g, none, sort_order) ∷ flat) s = adopt_groups flat s
adopt_groups ((g, some parent, sort_order) ∷ flat) s =
    if group_exists s.groups g.id
    then adopt_groups flat s
    else adopt_groups flat (record s {
      groups = s.groups ++ adopted_row g parent sort_order ∷ [];
      groups_added = s.groups_added ++ g.id ∷ [];
    })

-- What decides between two versions of a group: the second of the change, then the values.
abbrev pub Generation : Type 0
Generation = Millis × (String × (String × (ℕ × Option Uuid)))

abbrev pub local_generation : Group → ℕ → Generation
local_generation row icon =
    (floor_to_second row.modified_at, (row.name, (row.notes, (icon, row.icon_custom_uuid))))

abbrev pub peer_generation : PeerGroup → Generation
peer_generation g = (
  floor_to_second (dt_to_ms g.last_modification_time),
  (g.name, (g.notes, (g.icon_id, g.custom_icon_uuid))),
)

-- UPDATE "group" SET name, notes, icon_index, icon_custom_uuid, modified_at
abbrev pub take_metadata : PeerGroup → Group → Group
take_metadata g row = record row {
  name = g.name;
  notes = g.notes;
  icon_index = some g.icon_id;
  icon_custom_uuid = g.custom_icon_uuid;
  modified_at = dt_to_ms g.last_modification_time;
}

-- The query reads icon_index as an integer, so that a row where it is NULL is an error.
unfoldable pub reconcile_group_metadata : PeerGroup → Pass → Result Pass
reconcile_group_metadata g s = elim (find_group s.groups g.id) [
  | none ↦ ok s
  | some row ↦ elim row.icon_index [
    | none ↦ err sqlite
    | some icon ↦
        if leq (peer_generation g) (local_generation row icon)
        then ok s
        else ok (record s {
          groups = update_groups g.id (take_metadata g) s.groups;
          groups_updated = s.groups_updated ++ g.id ∷ [];
        })
  ]
]

-- What decides between two places of a group: the second of the move, then the parent.
abbrev pub Place : Type 0
Place = Option Millis × Option Uuid

abbrev pub local_place : Group → Place
local_place row = (floored row.location_changed_at, row.parent_uuid)

abbrev pub peer_place : PeerGroup → Uuid → Place
peer_place g parent = (floored g.location_changed, some parent)

-- UPDATE "group" SET parent_uuid, location_changed_at
abbrev pub take_place : PeerGroup → Uuid → Group → Group
take_place g parent row = record row {
  parent_uuid = some parent;
  location_changed_at = floored g.location_changed;
}

unfoldable pub reconcile_group_location : PeerGroup → Uuid → Pass → Pass
reconcile_group_location g parent s = elim (find_group s.groups g.id) [
  | none ↦ s
  | some row ↦
      if leq (peer_place g parent) (local_place row)
      then s
      else (if is_some_of row.parent_uuid parent then s else record s {
        groups = update_groups g.id (take_place g parent) s.groups;
        groups_moved = s.groups_moved ++ g.id ∷ [];
      })
]

-- Pass 2.
abbrev place_in : PeerGroup → Option Uuid → Pass → Pass
place_in g none s = s
place_in g (some parent) s = reconcile_group_location g parent s

unfoldable pub reconcile_groups : List Placed → Pass → Result Pass
reconcile_groups [] s = ok s
reconcile_groups ((g, parent, sort_order) ∷ flat) s =
    reconcile_group_metadata g s >>= λ mid. reconcile_groups flat (place_in g parent mid)

-- `path.iter().position(|n| n == &cur)` and `path[pos..]`.
unfoldable pub from_position : Uuid → List Uuid → Option (List Uuid)
from_position cur [] = none
from_position cur (n ∷ path) = if n == cur then some (n ∷ path) else from_position cur path

-- The walk from one start: the cycle that it meets. The outer `none` means that it still runs after
-- `fuel` rounds.
unfoldable pub walk : ℕ → List Group → List Uuid → Uuid → Option (Option (List Uuid))
walk zero gs path cur = none
walk (suc fuel) gs path cur = elim (from_position cur path) [
  | some cycle ↦ some (some cycle)
  | none ↦ elim (parent_of gs cur) [
    | none ↦ some none
    | some parent ↦ walk fuel gs (path ++ cur ∷ []) parent
  ]
]

-- `starts` is the keys of the map, in the order of its iteration.
unfoldable pub find_one_cycle : ℕ → List Group → List Uuid → Option (Option (List Uuid))
find_one_cycle fuel gs [] = some none
find_one_cycle fuel gs (start ∷ starts) = elim (walk fuel gs [] start) [
  | none ↦ none
  | some (some cycle) ↦ some (some cycle)
  | some none ↦ find_one_cycle fuel gs starts
]

-- `cycle.iter().min()`, where the cycle is not empty.
unfoldable pub victim : Uuid → List Uuid → Uuid
victim least [] = least
victim least (u ∷ us) = victim (earlier least u) us

-- UPDATE "group" SET parent_uuid = ?1
abbrev pub reroot : Uuid → Group → Group
reroot root row = record row { parent_uuid = some root }

abbrev pub root_id : PeerTree → Uuid
root_id (PeerTree.node g kids) = g.id

module _ (keys : List Group → List Uuid) where
  -- A cycle without a member, at which the source would panic, is as if there were none.
  unfoldable pub break_group_cycles : ℕ → ℕ → Uuid → Pass → Option Pass
  break_group_cycles rounds zero root s = none
  break_group_cycles rounds (suc fuel) root s =
      elim (find_one_cycle rounds s.groups (keys s.groups)) [
        | none ↦ none
        | some none ↦ some s
        | some (some []) ↦ some s
        | some (some (u ∷ us)) ↦
            let v = victim u us in
            break_group_cycles rounds fuel root (record s {
              groups = update_groups v (reroot root) s.groups;
              groups_moved = s.groups_moved ++ v ∷ [];
            })
      ]

  abbrev finish : ℕ → Uuid → Result Pass → Option (Result Pass)
  finish fuel root (err e) = some (err e)
  finish fuel root (ok s) = elim (break_group_cycles fuel fuel root s) [
    | none ↦ none
    | some broken ↦ some (ok broken)
  ]

  unfoldable pub reconcile_peer_groups : ℕ → PeerTree → Pass → Option (Result Pass)
  unfolding collect adopt_groups reconcile_groups break_group_cycles
  reconcile_peer_groups fuel peer s =
      let flat = collect peer none 0 in
      finish fuel (root_id peer) (reconcile_groups flat (adopt_groups flat s))

-- ===== src/Vault/Entries/Flags.antt =====
-- The flag `is_recycled` of an entry, and whether its group is the recycle bin or below it
-- (`move_entry` and `restore_entry` of crates/keys-engine/src/mutations.rs).
use keys_core.Base.{
  ℕ, zero, suc, ◌<◌, Bool, true, false, Option, none, some, List, [], ◌∷◌, ◌==◌, ◌≡◌, refl, sym,
  arith, Bool-cases, Option-cases, inl, inr, ==_iff, All, All-of, All-map₂,
}
use keys_core.Vault.Tables.{
  Uuid, Millis, Group, Entry, Db, find_entry, update_entries, ok, Result-cases,
}
use keys_core.Vault.Queries.{
  group_exists, recycle_bin_uuid, root_uuid, walk_to_bin, max_walk, group_in_bin_subtree,
}
use keys_core.Vault.Entries.{
  relocate, restore_entry, restore_destination, clear_recycled, move_entry, MoveEntryOutcome,
}

abbrev pub FlagsMatch : List Group → List Entry → Type 0
FlagsMatch gs es = All (λ e. e.is_recycled ≡ group_in_bin_subtree gs e.group_uuid) es

abbrev pub EntriesPlaced : List Group → List Entry → Type 0
EntriesPlaced gs es = All (λ e. group_exists gs e.group_uuid ≡ true) es

walk_to_bin_self :
    (gs : List Group) (bin : Uuid) (n : ℕ) → 0 < n → walk_to_bin gs bin n (some bin) ≡ true
unfolding walk_to_bin
walk_to_bin_self gs bin zero h = absurd (omega arith)
walk_to_bin_self gs bin (suc n) h = ground arith

-- The bin is in its own subtree.
pub group_in_bin_subtree_self :
    (gs : List Group) (bin : Uuid)
    → recycle_bin_uuid gs ≡ some bin
    → group_in_bin_subtree gs bin ≡ true
unfolding group_in_bin_subtree
group_in_bin_subtree_self gs bin h =
    rw (h, group_in_bin_subtree) (walk_to_bin_self gs bin max_walk (unfold max_walk in omega arith))

-- The flag of one row matches its group.
abbrev pub Matches : List Group → Entry → Type 0
Matches gs e = e.is_recycled ≡ group_in_bin_subtree gs e.group_uuid

-- The update of the rows of `u` to rows whose flags match.
pub FlagsMatch-update :
    (gs : List Group) (f : Entry → Entry) (u : Uuid) (es : List Entry)
    → All (λ e. e.uuid ≡ u → Matches gs (f e)) es
    → FlagsMatch gs es
    → FlagsMatch gs (update_entries u f es)
unfolding update_entries
FlagsMatch-update gs f u [] good h = tt
FlagsMatch-update gs f u (e ∷ es) (good, goods) (h, hs) = elim (Bool-cases (e.uuid == u)) [
  | inl same ↦ rw same (good ((==_iff e.uuid u).0 same), FlagsMatch-update gs f u es goods hs)
  | inr other ↦ rw other (h, FlagsMatch-update gs f u es goods hs)
]

pub FlagsMatch-relocate :
    (gs : List Group) (dest : Uuid) (flag : Bool) (now : Millis) (u : Uuid) (es : List Entry)
    → flag ≡ group_in_bin_subtree gs dest
    → FlagsMatch gs es
    → FlagsMatch gs (update_entries u (relocate dest flag now) es)
FlagsMatch-relocate gs dest flag now u es is h =
    FlagsMatch-update gs (relocate dest flag now) u es (All-of _ (λ e _. is) es) h

-- The primary key: the row that a uuid finds is the row that has it.
abbrev pub IsKeyed : List Entry → Type 0
IsKeyed es = All (λ e. find_entry es e.uuid ≡ some e) es

FlagsMatch-clear :
    (gs : List Group) (u : Uuid) (es : List Entry) (e : Entry)
    → IsKeyed es
    → find_entry es u ≡ some e
    → group_in_bin_subtree gs e.group_uuid ≡ false
    → FlagsMatch gs es
    → FlagsMatch gs (update_entries u clear_recycled es)
FlagsMatch-clear gs u es e keyed found live h =
    FlagsMatch-update gs clear_recycled u es
      (All-map₂ _ _ _ (λ x at m is. cleared x (cc (at, found, is)) m) es keyed h) h
  where
    cleared : (x : Entry) → x ≡ e → Matches gs x → Matches gs (clear_recycled x)
    cleared x same m =
        let out : group_in_bin_subtree gs x.group_uuid ≡ false = rw same live in ground arith

-- Moving an entry keeps the flags right, whether it goes into the bin's subtree or out of it.
pub move_entry-FlagsMatch :
    (db : Db) (u dest : Uuid) (now : Millis) (db' : Db) (o : MoveEntryOutcome)
    → FlagsMatch db.groups db.entries
    → move_entry db u dest now ≡ ok (db', o)
    → FlagsMatch db'.groups db'.entries
unfolding move_entry
move_entry-FlagsMatch db u dest now db' o fm h = elim (Option-cases (find_entry db.entries u)) [
  | inl missing ↦ absurd (ground arith)
  | inr (e, found) ↦
      let f = relocate dest (group_in_bin_subtree db.groups dest) now in
      let same : db.groups ≡ db'.groups = ground arith in
      let moved : update_entries u f db.entries ≡ db'.entries = ground arith in
      rw (← same, ← moved) (FlagsMatch-relocate db.groups dest _ now u db.entries refl fm)
]

-- A destination of a restore is outside the bin's subtree if the root is.
restore_destination-outside :
    (gs : List Group) (previous : Option Uuid) (dest : Uuid)
    → ((root : Uuid) → root_uuid gs ≡ some root → group_in_bin_subtree gs root ≡ false)
    → restore_destination gs previous ≡ ok dest
    → group_in_bin_subtree gs dest ≡ false
unfolding restore_destination
restore_destination-outside gs none dest out h = out dest (ground arith)
restore_destination-outside gs (some prev) dest out h = ground (arith, out dest)

-- Restoring an entry keeps the flags right, on every branch, if the root group is outside the
-- bin's subtree.
pub restore_entry-FlagsMatch :
    (db : Db) (u : Uuid) (now : Millis) (db' : Db)
    → ((root : Uuid)
        → root_uuid db.groups ≡ some root
        → group_in_bin_subtree db.groups root ≡ false)
    → IsKeyed db.entries
    → FlagsMatch db.groups db.entries
    → restore_entry db u now ≡ ok db'
    → FlagsMatch db'.groups db'.entries
unfolding restore_entry
restore_entry-FlagsMatch db u now db' out keyed fm h =
    elim (Option-cases (find_entry db.entries u)) [
      | inl missing ↦ absurd (ground arith)
      | inr (e, found) ↦ elim (Bool-cases (group_in_bin_subtree db.groups e.group_uuid)) [
        | inr live ↦
            let same : db.groups ≡ db'.groups = ground arith in
            let cleared : update_entries u clear_recycled db.entries ≡ db'.entries = ground arith in
            rw (← same, ← cleared) (FlagsMatch-clear db.groups u db.entries e keyed found live fm)
        | inl binned ↦ elim (Result-cases (restore_destination db.groups e.previous_parent_uuid)) [
          | inl (er, failed) ↦ absurd (ground arith)
          | inr (dest, is) ↦
              let f = relocate dest false now in
              let same : db.groups ≡ db'.groups = ground arith in
              let moved : update_entries u f db.entries ≡ db'.entries = ground arith in
              let outside = restore_destination-outside db.groups _ dest out is in
              rw (← same, ← moved)
                (FlagsMatch-relocate db.groups dest false now u db.entries (sym outside) fm)
        ]
      ]
    ]

-- ===== src/Vault/Entries/Subtree.antt =====
-- Which groups the walk up the parents finds in the recycle bin's subtree, and the flags that go by it
-- (`group_in_bin_subtree` and `restore_entry` of crates/keys-engine/src/mutations.rs).
use keys_core.Base.{
  ℕ, zero, suc, ◌≤◌, ◌≡◌, ◌↔◌, sym, ◌∙◌, arith, subst, ◌⊎◌, true, false, none, some, List, length,
  ◌==◌, Bool-cases, Option-cases, inl, inr, ==_iff, All, All-imp,
}
use keys_core.Vault.Tables.{Uuid, Millis, Group, Entry, Db, ok}
use keys_core.Vault.Queries.{
  recycle_bin_uuid, root_uuid, parent_of, walk_to_bin, max_walk, group_in_bin_subtree,
}
use keys_core.Vault.Groups.Ancestors.{Ends, top, up, IsAncestor, self, above, height, IsTree}
use keys_core.Vault.Entries.{restore_entry}
use keys_core.Vault.Entries.Flags.{FlagsMatch, IsKeyed, restore_entry-FlagsMatch}
use keys_core.Ingest.Groups.Walks.{exists_of_parent}
use keys_core.Ingest.Materialize.Alive.{height_le}

-- The group is the recycle bin, or stands below it.
abbrev pub IsBelowBin : List Group → Uuid → Type 0
IsBelowBin gs u = (bin : Uuid) × (recycle_bin_uuid gs ≡ some bin) × IsAncestor gs bin u

-- An entry has the flag exactly when its group is the bin or stands below it.
abbrev pub AreFlagged : List Group → List Entry → Type 0
AreFlagged gs es = All (λ e. (e.is_recycled ≡ true) ↔ IsBelowBin gs e.group_uuid) es

module _ (gs : List Group) (bin : Uuid) where
  walk-IsAncestor : (n : ℕ) (u : Uuid) → walk_to_bin gs bin n (some u) ≡ true → IsAncestor gs bin u
  unfolding walk_to_bin
  walk-IsAncestor zero u h = cc
  walk-IsAncestor (suc n) u h = elim (Bool-cases (u == bin)) [
    | inl same ↦ self (sym ((==_iff u bin).0 same))
    | inr other ↦ elim (Option-cases (parent_of gs u)) [
      | inl root ↦ absurd (walk_none n (ground arith))
      | inr (p, e) ↦ above p e (walk-IsAncestor n p (ground arith))
    ]
  ]
    where
      walk_none : (k : ℕ) → ¬ (walk_to_bin gs bin k none ≡ true)
      walk_none zero h = cc
      walk_none (suc k) h = cc

  IsAncestor-walk :
      {u : Uuid} (n : ℕ)
      → IsAncestor gs bin u
      → (e : Ends gs u) → height e ≤ n
      → walk_to_bin gs bin n (some u) ≡ true
  unfolding walk_to_bin
  IsAncestor-walk zero k (top h) le = absurd (omega (arith, le))
  IsAncestor-walk zero k (up p h e) le = absurd (omega (arith, le))
  IsAncestor-walk {u} (suc n) (self i) e le = ground arith
  IsAncestor-walk {u} (suc n) (above p h k) (top root) le = absurd (cc)
  IsAncestor-walk {u} (suc n) (above p h k) (up q h' e) le =
      ground (arith, IsAncestor-walk n k' e (omega (arith, le)))
    where
      k' : IsAncestor gs bin q
      k' = subst (IsAncestor gs bin) (let same : p ≡ q = cc in same) k

module _ (gs : List Group) (t : IsTree gs) (few : length gs ≤ 10_000) where
  short : {u : Uuid} (e : Ends gs u) → height e ≤ max_walk
  unfolding max_walk
  short (top h) = omega arith
  short {u} (up p h e) = omega (arith, few, height_le gs (up p h e) t (exists_of_parent gs u p h))

  group_in_bin_subtree-IsBelowBin :
      (u : Uuid) → (group_in_bin_subtree gs u ≡ true) ↔ IsBelowBin gs u
  unfolding group_in_bin_subtree
  group_in_bin_subtree-IsBelowBin u = elim (Option-cases (recycle_bin_uuid gs)) [
    | inl missing ↦ (λ h. absurd (ground arith), λ b. absurd (ground (arith, b.1)))
    | inr (bin, is) ↦ (
      λ h. (bin, is, walk-IsAncestor gs bin max_walk u (ground arith)),
      λ b.
          (let same : bin ≡ b.0 = cc (is, b.1) in
            rw (is, group_in_bin_subtree)
              (IsAncestor-walk gs bin max_walk (rw same b.2) (t.ends u) (short (t.ends u)))),
    )
  ]

  FlagsMatch-AreFlagged : (es : List Entry) → FlagsMatch gs es → AreFlagged gs es
  FlagsMatch-AreFlagged es h =
      All-imp _ _
        (λ (e : Entry) (m : e.is_recycled ≡ group_in_bin_subtree gs e.group_uuid). (
          λ f. (group_in_bin_subtree-IsBelowBin e.group_uuid).0 (sym m ∙ f),
          λ b. m ∙ (group_in_bin_subtree-IsBelowBin e.group_uuid).1 b,
        ))
        es h

  AreFlagged-FlagsMatch : (es : List Entry) → AreFlagged gs es → FlagsMatch gs es
  AreFlagged-FlagsMatch es h =
      All-imp _ _
        (λ (e : Entry) (f : (e.is_recycled ≡ true) ↔ IsBelowBin gs e.group_uuid).
          matches e f (Bool-cases e.is_recycled)
            (Bool-cases (group_in_bin_subtree gs e.group_uuid)))
        es h
    where
      matches :
          (e : Entry)
          → ((e.is_recycled ≡ true) ↔ IsBelowBin gs e.group_uuid)
          → (e.is_recycled ≡ true) ⊎ (e.is_recycled ≡ false)
          → (group_in_bin_subtree gs e.group_uuid ≡ true)
            ⊎ (group_in_bin_subtree gs e.group_uuid ≡ false)
          → e.is_recycled ≡ group_in_bin_subtree gs e.group_uuid
      matches e f (inl flagged) _ =
          flagged ∙ sym ((group_in_bin_subtree-IsBelowBin e.group_uuid).1 (f.0 flagged))
      matches e f (inr clear) (inl below) =
          f.1 ((group_in_bin_subtree-IsBelowBin e.group_uuid).0 below) ∙ sym below
      matches e f (inr clear) (inr outside) = clear ∙ sym outside

-- Restoring an entry changes no group.
pub groups-restore_entry :
    (db : Db) (u : Uuid) (now : Millis) (db' : Db)
    → restore_entry db u now ≡ ok db'
    → db'.groups ≡ db.groups
unfolding restore_entry
groups-restore_entry db u now db' h = ground arith

-- Where every chain of parents ends and every parent is stored, there are at most 10,000 groups, the
-- root is not the recycle bin or below it, and every entry's row is the one that its id finds: if every
-- entry is flagged exactly when its group is the bin or stands below it, that is so after an entry was
-- restored, on every branch.
pub restore_entry-AreFlagged :
    (db : Db) (u : Uuid) (now : Millis) (db' : Db)
    → IsTree db.groups
    → length db.groups ≤ 10_000
    → ((root : Uuid) → root_uuid db.groups ≡ some root → ¬ IsBelowBin db.groups root)
    → IsKeyed db.entries
    → AreFlagged db.groups db.entries
    → restore_entry db u now ≡ ok db'
    → AreFlagged db'.groups db'.entries
restore_entry-AreFlagged db u now db' t few out keyed flagged h =
    let same = groups-restore_entry db u now db' h in
    let outside =
      λ (root : Uuid) (is : root_uuid db.groups ≡ some root). not_below root (out root is) in
    let after =
      restore_entry-FlagsMatch db u now db' outside keyed
        (AreFlagged-FlagsMatch db.groups t few db.entries flagged) h in
    subst (λ gs. AreFlagged gs db'.entries) (sym same)
      (FlagsMatch-AreFlagged db.groups t few db'.entries
        (subst (λ gs. FlagsMatch gs db'.entries) same after))
  where
    not_below :
        (root : Uuid) → ¬ IsBelowBin db.groups root → group_in_bin_subtree db.groups root ≡ false
    not_below root off = elim (Bool-cases (group_in_bin_subtree db.groups root)) [
      | inl below ↦ absurd (off ((group_in_bin_subtree-IsBelowBin db.groups t few root).0 below))
      | inr live ↦ live
    ]

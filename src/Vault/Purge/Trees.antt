-- ===== src/Vault/Purge/Trees.antt =====
-- The tree of groups after a deletion (crates/keys-engine/src/mutations.rs).
use keys_core.Base.{
  ℕ, not, none, some, List, [], ◌∷◌, ◌==◌, ◌≡◌, ◌≢◌, refl, sym, ap, ◌∙◌, subst, arith, Bool-cases,
  inl, inr, All, keep_if, ==_iff,
}
use keys_core.Vault.Tables.{Uuid, Millis, Group, Db, ok, find_group}
use keys_core.Vault.Queries.{parent_of, gc_orphan_tags}
use keys_core.Vault.Purge.{Purge, start, delete_group}
use keys_core.Vault.Purge.Induction.{groups-delete_self, delete_group-eq-ok}
use keys_core.Vault.Purge.Removal.{group_exists-remove_ne, childless_keeps}
use keys_core.Vault.Groups.Ancestors.{Ends, top, up, IsTree}

module _ (u : Uuid) where
  abbrev kept : List Group → List Group
  kept gs = keep_if (λ g. not (g.uuid == u)) gs

  parent_of-remove_self : (gs : List Group) → parent_of (kept gs) u ≡ none
  unfolding parent_of find_group
  parent_of-remove_self [] = refl
  parent_of-remove_self (g ∷ gs) = ground (arith, parent_of-remove_self gs)

  parent_of-remove_ne :
      (gs : List Group) (v : Uuid) → v ≢ u → parent_of (kept gs) v ≡ parent_of gs v
  unfolding parent_of find_group
  parent_of-remove_ne [] v ne = refl
  parent_of-remove_ne (g ∷ gs) v ne = ground (arith, ne, parent_of-remove_ne gs v ne)

  Ends-remove : (gs : List Group) {v : Uuid} → Ends gs v → Ends (kept gs) v
  Ends-remove gs {v} (top h) = elim (Bool-cases (v == u)) [
    | inl same ↦ top (
        subst (λ w. parent_of (kept gs) w ≡ none) (sym ((==_iff v u).0 same))
          (parent_of-remove_self gs))
    | inr other ↦ top (parent_of-remove_ne gs v (λ e. ground (arith, other, e)) ∙ h)
  ]
  Ends-remove gs {v} (up q h e) = elim (Bool-cases (v == u)) [
    | inl same ↦ top (
        subst (λ w. parent_of (kept gs) w ≡ none) (sym ((==_iff v u).0 same))
          (parent_of-remove_self gs))
    | inr other ↦
        up q (parent_of-remove_ne gs v (λ i. ground (arith, other, i)) ∙ h) (Ends-remove gs e)
  ]

  parent_of-childless :
      (gs : List Group) (v : Uuid) → All (λ g. g.parent_uuid ≢ some u) gs → parent_of gs v ≢ some u
  unfolding parent_of find_group
  parent_of-childless [] v h e = cc
  parent_of-childless (g ∷ gs) v (h, hs) e = elim (Bool-cases (g.uuid == v)) [
    | inl same ↦ h (rw (same, parent_of) at e)
    | inr other ↦ parent_of-childless gs v hs (rw (other, parent_of) at e)
  ]

  pub IsTree-remove :
      (gs : List Group) → All (λ g. g.parent_uuid ≢ some u) gs → IsTree gs → IsTree (kept gs)
  IsTree-remove gs childless t = record {
    ends = λ v. Ends-remove gs (t.ends v);
    parents = λ v q h. elim (Bool-cases (v == u)) [
      | inl same ↦ absurd (
          let gone : parent_of (kept gs) v ≡ none =
            subst (λ w. parent_of (kept gs) w ≡ none) (sym ((==_iff v u).0 same))
              (parent_of-remove_self gs) in
          let dead : none ≡ some q = sym gone ∙ h in cc)
      | inr other ↦
          (let old : parent_of gs v ≡ some q =
              sym (parent_of-remove_ne gs v (λ e. ground (arith, other, e))) ∙ h in
            group_exists-remove_ne gs u q
              (λ i. parent_of-childless gs v childless (old ∙ ap some i))
            ∙ t.parents v q old)
    ];
  }

-- Deleting a group with its subtree keeps the groups a tree.
pub delete_group-IsTree :
    (fuel : ℕ) (db : Db) (u : Uuid) (now : Millis) (s : Purge)
    → IsTree db.groups
    → delete_group fuel db u now ≡ some (ok s)
    → IsTree s.db.groups
delete_group-IsTree fuel db u now s t h =
    let (g, last, found, run, same) = delete_group-eq-ok fuel db u now s h in
    rw (← same) (
      unfold gc_orphan_tags in
      childless_keeps now (λ x. IsTree x.db.groups)
        (λ v p x childless k.
          rw (groups-delete_self v p now x) (IsTree-remove v x.db.groups childless k))
        fuel g.parent_uuid u (start db) last run t)

-- ===== src/Vault/Groups/Roots.antt =====
-- The rows without a parent, and the statements that write parents
-- (crates/keys-engine/src/mutations.rs).
use keys_core.Base.{
  Bool, none, some, List, [], ◌∷◌, ◌++◌, ◌==◌, ◌≡◌, sym, ◌∙◌, Bool-cases, inl, inr, All, All-append,
  All-keep_if, keep_if, map,
}
use keys_core.Vault.Tables.{Uuid, Group, update_groups}

-- No group but the root is without a parent.
abbrev pub IsRooted : Uuid → List Group → Type 0
IsRooted root gs = All (λ g. g.parent_uuid ≡ none → g.uuid ≡ root) gs

-- A change of rows that takes no parent away.
pub IsRooted-update :
    (root : Uuid) (f : Group → Group)
    → ((g : Group) → (f g).uuid ≡ g.uuid)
    → ((g : Group) → (f g).parent_uuid ≡ none → g.parent_uuid ≡ none)
    → (u : Uuid) (gs : List Group) → IsRooted root gs
    → IsRooted root (update_groups u f gs)
unfolding update_groups
IsRooted-update root f same takes u [] h = tt
IsRooted-update root f same takes u (g ∷ gs) (h, hs) = elim (Bool-cases (g.uuid == u)) [
  | inl its ↦ rw its ((λ e. same g ∙ h (takes g e)), IsRooted-update root f same takes u gs hs)
  | inr other ↦ rw other (h, IsRooted-update root f same takes u gs hs)
]

-- A change of rows that sets a parent.
pub IsRooted-place :
    (root p : Uuid) (f : Group → Group)
    → ((g : Group) → (f g).uuid ≡ g.uuid)
    → ((g : Group) → (f g).parent_uuid ≡ some p)
    → (u : Uuid) (gs : List Group) → IsRooted root gs
    → IsRooted root (update_groups u f gs)
IsRooted-place root p f same sets =
    IsRooted-update root f same (λ g e. absurd (let dead : some p ≡ none = sym (sets g) ∙ e in cc))

pub IsRooted-map :
    (root : Uuid) (f : Group → Group)
    → ((g : Group) → ((f g).uuid ≡ g.uuid) × ((f g).parent_uuid ≡ g.parent_uuid))
    → (gs : List Group) → IsRooted root gs
    → IsRooted root (map f gs)
IsRooted-map root f same [] h = tt
IsRooted-map root f same (g ∷ gs) (h, hs) =
    ((λ e. (same g).0 ∙ h (sym (same g).1 ∙ e)), IsRooted-map root f same gs hs)

-- A new row below some group.
pub IsRooted-insert :
    (root p : Uuid) (g : Group) (gs : List Group)
    → g.parent_uuid ≡ some p
    → IsRooted root gs
    → IsRooted root (gs ++ g ∷ [])
IsRooted-insert root p g gs below h =
    All-append _ gs (g ∷ []) h ((λ e. absurd (let dead : some p ≡ none = sym below ∙ e in cc)), tt)

pub IsRooted-remove :
    (root : Uuid) (q : Group → Bool) (gs : List Group)
    → IsRooted root gs
    → IsRooted root (keep_if q gs)
IsRooted-remove root q gs h = All-keep_if _ q gs h

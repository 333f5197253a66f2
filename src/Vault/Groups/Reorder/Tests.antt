-- ===== src/Vault/Groups/Reorder/Tests.antt =====
-- A move to the end among siblings with equal sort orders
-- (crates/keys-engine/src/mutations.rs).
use keys_core.Base.{List, pos, none, some, false, [], ◌∷◌, map, ◌≡◌, refl, arith}
use keys_core.Vault.Tables.{Uuid, Db, ok, find_group}
use keys_core.Vault.Tests.Samples.{row, mirror}
use keys_core.Vault.Groups.Reorder.{
  less_text, goes_first, insert_sibling, sort_siblings, siblings, reorder_group,
}
use keys_core.Vault.Groups.Reorder.Sorting.{IsDistinct}
use keys_core.Vault.Groups.Reorder.Moving.{IsMove}
use keys_core.Vault.Groups.Reorder.Listing.{reorder_group-siblings}

-- 4, 3 and 5 below the root, listed as 3, 4, 5.
abbrev family : Db
family =
    mirror
      (row 1 none false 0
        ∷ row 4 (some 1) false 0
        ∷ row 3 (some 1) false 0
        ∷ row 5 (some 1) false 7
        ∷ [])
      []

reordered : siblings family.groups 1 ≡ 3 ∷ 4 ∷ 5 ∷ []
unfolding siblings sort_siblings insert_sibling goes_first less_text
reordered = refl

family-IsDistinct : IsDistinct family.groups
family-IsDistinct = (
  ((λ e. ground arith), ((λ e. ground arith), ((λ e. ground arith), tt))),
  (((λ e. ground arith), ((λ e. ground arith), tt)), (((λ e. ground arith), tt), (tt, tt))),
)

reorder_group-siblings_example :
    (db' : Db) × (order : List Uuid) × IsMove 3 9 (siblings family.groups 1) order
    × (reorder_group family 3 9 (pos 5) ≡ ok (db', order))
    × (siblings db'.groups 1 ≡ order)
    × (map (λ s. s.parent_uuid) db'.groups ≡ map (λ s. s.parent_uuid) family.groups)
unfolding find_group
reorder_group-siblings_example =
    reorder_group-siblings family 3 9 (pos 5) (row 3 (some 1) false 0) 1 family-IsDistinct refl refl

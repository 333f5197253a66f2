-- ===== src/Vault/Groups/Reorder.antt =====
-- The order of a group's siblings: `reorder_group` of crates/keys-engine/src/mutations.rs.
pub mod Sorting
pub mod Ranks
pub mod Moving
pub mod Listing
pub mod Tests
use keys_core.Base.{
  ℕ, zero, suc, Bool, true, false, not, ◌&&◌, ◌||◌, Option, none, some, List, [], ◌∷◌, map, ◌==◌,
  ltb, leb, if◌then◌else◌, keep_if, length, codes, is_some_of,
}
use keys_core.Vault.Tables.{
  Uuid, Millis, Group, Db, not_found, group, Result, ok, ◌>>=◌, ok_or, find_group, update_groups,
}

-- SQLite compares text by its bytes, which for UTF-8 is by code points.
unfoldable pub less_text : List ℕ → List ℕ → Bool
less_text xs [] = false
less_text [] (y ∷ ys) = true
less_text (x ∷ xs) (y ∷ ys) = ltb x y || (x == y && less_text xs ys)

-- ORDER BY sort_order ASC, name ASC, uuid ASC
unfoldable pub goes_first : Group → Group → Bool
goes_first a b =
    ltb a.sort_order b.sort_order
    || (a.sort_order == b.sort_order
        && (less_text (codes a.name) (codes b.name)
            || (not (less_text (codes b.name) (codes a.name)) && leb a.uuid b.uuid)))

unfoldable pub insert_sibling : Group → List Group → List Group
insert_sibling g [] = g ∷ []
insert_sibling g (h ∷ hs) =
    let rest = insert_sibling g hs in if goes_first g h then g ∷ h ∷ hs else h ∷ rest

unfoldable pub sort_siblings : List Group → List Group
sort_siblings [] = []
sort_siblings (g ∷ gs) = insert_sibling g (sort_siblings gs)

-- WHERE parent_uuid = ?
unfoldable pub siblings : List Group → Uuid → List Uuid
siblings gs parent =
    map (λ g. g.uuid) (sort_siblings (keep_if (λ g. is_some_of g.parent_uuid parent) gs))

-- `iter().position(|s| s == …)`.
unfoldable pub position : Uuid → List Uuid → Option ℕ
position u [] = none
position u (v ∷ vs) =
    let rest = position u vs in
    if v == u then some 0 else elim rest [ none ↦ none | some i ↦ some (suc i) ]

-- `Vec::remove` and `Vec::insert`, within their bounds.
unfoldable pub remove : ℕ → List Uuid → List Uuid
remove i [] = []
remove zero (v ∷ vs) = vs
remove (suc i) (v ∷ vs) = v ∷ remove i vs

unfoldable pub insert : ℕ → Uuid → List Uuid → List Uuid
insert i u [] = u ∷ []
insert zero u (v ∷ vs) = u ∷ v ∷ vs
insert (suc i) u (v ∷ vs) = v ∷ insert i u vs

-- The target put at the position, or at the end beyond it.
abbrev pub clamped : ℕ → List Uuid → ℕ
clamped new_position rest = if leb new_position (length rest) then new_position else length rest

abbrev pub placed_in : Uuid → ℕ → List Uuid → List Uuid
placed_in u new_position rest = insert (clamped new_position rest) u rest

abbrev pub with_sort_order : ℕ → Group → Group
with_sort_order pos g = record g { sort_order = pos }

-- `for (idx, sibling_uuid) in siblings.iter().enumerate()`.
unfoldable pub renumber_siblings : ℕ → List Uuid → List Group → List Group
renumber_siblings idx [] gs = gs
renumber_siblings idx (u ∷ us) gs =
    renumber_siblings (suc idx) us (update_groups u (with_sort_order idx) gs)

abbrev pub touched : Millis → Group → Group
touched now g = record g { modified_at = now }

unfoldable pub reorder_group : Db → Uuid → ℕ → Millis → Result (Db × List Uuid)
reorder_group db u new_position now = ok_or (find_group db.groups u) (not_found group) >>= λ g.
    ok_or g.parent_uuid (not_found group) >>= λ parent.
    ok_or (position u (siblings db.groups parent)) (not_found group) >>= λ current.
    let order = placed_in u new_position (remove current (siblings db.groups parent)) in
    ok (
      record db { groups = update_groups u (touched now) (renumber_siblings 0 order db.groups) },
      order,
    )

-- ===== src/Vault/Purge/Induction.antt =====
-- Rules for the recursion of `delete_group_recursive`: what every step keeps, and that it returns
-- (crates/keys-engine/src/mutations.rs).
use keys_core.Base.{
  ℕ, zero, suc, ◌<◌, ◌≤◌, not, Option, none, some, List, [], ◌∷◌, ◌==◌, ◌≡◌, ◌≢◌, refl, arith,
  Option-cases, inl, inr, All, All-keep_if, keep_if, >>=?-eq-some,
}
use keys_core.Vault.Tables.{Uuid, Millis, Group, Db, find_group, ok}
use keys_core.Vault.Queries.{recycle_bin_uuid, child_groups}
use keys_core.Vault.Purge.{
  delete_group, empty_recycle_bin, start, sweep, Purge, child_entries, list_entries,
  delete_direct_child_entries, delete_self, for_each, delete_group_recursive,
}

-- What each call keeps, the loop keeps.
module _ {ℓ} (I : Purge → Type ℓ) where
  pub for_each_keeps :
      (f : Uuid → Purge → Option Purge)
      → ((c : Uuid) (s s' : Purge) → f c s ≡ some s' → I s → I s')
      → (cs : List Uuid) (s s' : Purge) → for_each f cs s ≡ some s'
      → I s
      → I s'
  unfolding for_each
  for_each_keeps f keeps [] s s' h i = let same : s ≡ s' = ground arith in rw (← same) i
  for_each_keeps f keeps (c ∷ cs) s s' h i =
      let (mid, first, rest) = >>=?-eq-some (f c s) (for_each f cs) h in
      for_each_keeps f keeps cs mid s' rest (keeps c s mid first i)

-- What `delete_self` keeps, the whole recursion keeps.
module _ {ℓ} (now : Millis) (I : Purge → Type ℓ)
    (step : (u : Uuid) (parent : Option Uuid) (s : Purge)
      → I s
      → I (delete_self u parent now s)) where
  pub delete_group_recursive_keeps :
      (fuel : ℕ) (parent : Option Uuid) (u : Uuid) (s s' : Purge)
      → delete_group_recursive fuel now parent u s ≡ some s'
      → I s
      → I s'
  unfolding delete_group_recursive
  delete_group_recursive_keeps zero parent u s s' h i = cc
  delete_group_recursive_keeps (suc fuel) parent u s s' h i =
      let (mid, children, last) =
        >>=?-eq-some
          (for_each (delete_group_recursive fuel now (some u)) (child_groups s.db.groups u) s)
          (λ x. some (delete_self u parent now x)) h in
      let done : delete_self u parent now mid ≡ s' = ground arith in
      rw (← done) (
        step u parent mid (
          for_each_keeps I (delete_group_recursive fuel now (some u))
            (λ c a b. delete_group_recursive_keeps fuel (some u) c a b) (child_groups s.db.groups u)
            s mid children i))

  pub children_keep :
      (fuel : ℕ) (parent : Option Uuid) (cs : List Uuid) (s s' : Purge)
      → for_each (delete_group_recursive fuel now parent) cs s ≡ some s'
      → I s
      → I s'
  children_keep fuel parent cs s s' h i =
      for_each_keeps I (delete_group_recursive fuel now parent)
        (λ c a b. delete_group_recursive_keeps fuel parent c a b) cs s s' h i

pub list_entries-rows :
    (es : List Uuid) (parent : Uuid) (now : Millis) (s : Purge)
    → ((list_entries es parent now s).db.groups ≡ s.db.groups)
      × ((list_entries es parent now s).db.entries ≡ s.db.entries)
unfolding list_entries
list_entries-rows [] parent now s = (refl, refl)
list_entries-rows (e ∷ es) parent now s = list_entries-rows es parent now _

-- The rows that `delete_self` leaves.
pub groups-delete_self :
    (u : Uuid) (parent : Option Uuid) (now : Millis) (s : Purge)
    → (delete_self u parent now s).db.groups ≡ keep_if (λ g. not (g.uuid == u)) s.db.groups
unfolding delete_self
groups-delete_self u parent now s =
    rw ((list_entries-rows (child_entries s.db.entries u) u now s).0)

pub entries-delete_direct_child_entries :
    (u parent : Uuid) (now : Millis) (s : Purge)
    → (delete_direct_child_entries u parent now s).db.entries
      ≡ keep_if (λ e. not (e.group_uuid == u)) s.db.entries
unfolding delete_direct_child_entries
entries-delete_direct_child_entries u parent now s =
    rw ((list_entries-rows (child_entries s.db.entries u) parent now s).1)

pub entries-delete_self :
    (u : Uuid) (parent : Option Uuid) (now : Millis) (s : Purge)
    → (delete_self u parent now s).db.entries ≡ keep_if (λ e. not (e.group_uuid == u)) s.db.entries
unfolding delete_self
entries-delete_self u parent now s =
    rw ((list_entries-rows (child_entries s.db.entries u) u now s).1)

-- A rank that falls from a group to its children.
abbrev pub IsRanked : (Uuid → ℕ) → List Group → Type 0
IsRanked rank gs = All (λ g. (p : Uuid) → g.parent_uuid ≡ some p → rank g.uuid < rank p) gs

child_groups-lt :
    (rank : Uuid → ℕ) (gs : List Group) (u : Uuid) (n : ℕ)
    → rank u ≤ n
    → IsRanked rank gs
    → All (λ c. rank c < n) (child_groups gs u)
unfolding child_groups
child_groups-lt rank [] u n le h = tt
child_groups-lt rank (g ∷ gs) u n le (h, hs) =
    ground (arith, h u, child_groups-lt rank gs u n le hs)

module _ (now : Millis) (rank : Uuid → ℕ) where
  keeps-IsRanked :
      (u : Uuid) (parent : Option Uuid) (s : Purge)
      → IsRanked rank s.db.groups
      → IsRanked rank (delete_self u parent now s).db.groups
  keeps-IsRanked u parent s h =
      rw (groups-delete_self u parent now s) (All-keep_if _ _ s.db.groups h)

  children_return :
      (fuel : ℕ) (parent : Option Uuid)
      → ((c : Uuid) (s : Purge)
          → IsRanked rank s.db.groups
          → rank c < fuel
          → delete_group_recursive fuel now parent c s ≢ none)
      → (cs : List Uuid) (s : Purge) → IsRanked rank s.db.groups
      → All (λ c. rank c < fuel) cs
      → for_each (delete_group_recursive fuel now parent) cs s ≢ none
  unfolding for_each
  children_return fuel parent ih [] s h lts = cc
  children_return fuel parent ih (c ∷ cs) s h (lt, lts) =
      elim (Option-cases (delete_group_recursive fuel now parent c s)) [
        | inl stuck ↦ absurd (ih c s h lt stuck)
        | inr (mid, first) ↦
            let h' =
              delete_group_recursive_keeps now (λ x. IsRanked rank x.db.groups) keeps-IsRanked fuel
                parent c s mid first h in
            rw first (children_return fuel parent ih cs mid h' lts)
      ]

  -- The recursion returns when the fuel is above the rank of its group.
  pub delete_group_recursive_returns :
      (fuel : ℕ) (parent : Option Uuid) (u : Uuid) (s : Purge)
      → IsRanked rank s.db.groups
      → rank u < fuel
      → delete_group_recursive fuel now parent u s ≢ none
  unfolding delete_group_recursive
  delete_group_recursive_returns zero parent u s h lt = absurd (omega arith)
  delete_group_recursive_returns (suc fuel) parent u s h lt =
      elim (Option-cases
        (for_each (delete_group_recursive fuel now (some u)) (child_groups s.db.groups u) s)) [
          | inl stuck ↦ absurd (
              children_return fuel (some u)
                (λ c x. delete_group_recursive_returns fuel (some u) c x)
                (child_groups s.db.groups u) s h
                (child_groups-lt rank s.db.groups u fuel (omega arith) h) stuck)
          | inr (mid, e) ↦ rw e (cc)
        ]

-- The run of the recursion behind a deletion that succeeds.
pub delete_group-eq-ok :
    (fuel : ℕ) (db : Db) (u : Uuid) (now : Millis) (s : Purge)
    → delete_group fuel db u now ≡ some (ok s)
    → (g : Group) × (last : Purge) × (find_group db.groups u ≡ some g)
      × (delete_group_recursive fuel now g.parent_uuid u (start db) ≡ some last)
      × (sweep last ≡ s)
unfolding delete_group
delete_group-eq-ok fuel db u now s h = elim (Option-cases (find_group db.groups u)) [
  | inl missing ↦ absurd (ground arith)
  | inr (g, found) ↦
      elim (Option-cases (delete_group_recursive fuel now g.parent_uuid u (start db))) [
        | inl stuck ↦ absurd (ground arith)
        | inr (last, run) ↦ (g, last, found, run, ground arith)
      ]
]

-- The same for the recycle bin.
pub empty_recycle_bin-eq-some :
    (fuel : ℕ) (db : Db) (now : Millis) (bin : Uuid) (s : Purge)
    → recycle_bin_uuid db.groups ≡ some bin
    → empty_recycle_bin fuel db now ≡ some s
    → (last : Purge) × (for_each
          (delete_group_recursive fuel now (some bin))
          (child_groups db.groups bin)
          (start db)
        ≡ some last)
      × (sweep (delete_direct_child_entries bin bin now last) ≡ s)
unfolding empty_recycle_bin
empty_recycle_bin-eq-some fuel db now bin s is_bin h =
    elim (Option-cases (
      for_each (delete_group_recursive fuel now (some bin)) (child_groups db.groups bin)
        (start db))) [
          | inl stuck ↦ absurd (ground arith)
          | inr (last, run) ↦ (last, run, ground arith)
        ]

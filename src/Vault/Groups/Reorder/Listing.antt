-- ===== src/Vault/Groups/Reorder/Listing.antt =====
-- The siblings as they are listed after `reorder_group` (crates/keys-engine/src/mutations.rs).
use keys_core.Base.{
  ℕ, ◌≡◌, ◌≢◌, refl, sym, ap, ap₂, ◌∙◌, subst, arith, Bool, true, false, Option, none, some, List,
  [], ◌∷◌, map, ◌==◌, if◌then◌else◌, keep_if, any, is_some_of, length, length-map, All, All-keep_if,
  Bool-cases, inl, inr, ==_refl,
}
use keys_core.Vault.Tables.{Uuid, Millis, Group, Db, ok, find_group, update_groups}
use keys_core.Vault.Groups.Reorder.{
  sort_siblings, siblings, remove, placed_in, clamped, touched, renumber_siblings, reorder_group,
}
use keys_core.Vault.Groups.Reorder.Moving.{
  IsMove, placed_in-IsMove, length-insert, any-insert, length-remove, any-remove, position-some,
}
use keys_core.Vault.Groups.Reorder.Sorting.{IsDistinct, holds-sort_siblings, length-sort_siblings}
use keys_core.Vault.Groups.Reorder.Ranks.{
  nth, IsPlaced, listing_placed, place, placed, renumber_siblings-map, nth-place,
}

-- The row as the statements leave it.
abbrev final : Uuid → Millis → List Uuid → Group → Group
final u now order g =
    let h = placed (place 0 order g.uuid) g in if h.uuid == u then touched now h else h

module _ (u : Uuid) (now : Millis) (order : List Uuid) where
  final_eq :
      (gs : List Group)
      → update_groups u (touched now) (renumber_siblings 0 order gs) ≡ map (final u now order) gs
  unfolding update_groups
  final_eq gs = ap (update_groups u (touched now)) (renumber_siblings-map 0 order gs) ∙ each gs
    where
      each :
          (xs : List Group)
          → update_groups u (touched now) (map (λ g. placed (place 0 order g.uuid) g) xs)
            ≡ map (final u now order) xs
      each [] = refl
      each (x ∷ xs) = ap (λ t. final u now order x ∷ t) (each xs)

  placed_keeps :
      (o : Option ℕ) (g : Group)
      → ((placed o g).uuid ≡ g.uuid) × ((placed o g).parent_uuid ≡ g.parent_uuid)
  placed_keeps none g = (refl, refl)
  placed_keeps (some i) g = (refl, refl)

  touch_keeps :
      (b : Bool) (h : Group)
      → ((if b then touched now h else h).uuid ≡ h.uuid)
        × ((if b then touched now h else h).parent_uuid ≡ h.parent_uuid)
        × ((if b then touched now h else h).sort_order ≡ h.sort_order)
  touch_keeps true h = (refl, refl, refl)
  touch_keeps false h = (refl, refl, refl)

  final_keeps :
      (g : Group)
      → ((final u now order g).uuid ≡ g.uuid) × ((final u now order g).parent_uuid ≡ g.parent_uuid)
  final_keeps g =
      let h = placed (place 0 order g.uuid) g in
      let (a, b) = placed_keeps (place 0 order g.uuid) g in
      let (p, q, r) = touch_keeps (h.uuid == u) h in (p ∙ a, q ∙ b)

  final-IsPlaced :
      (g : Group) → any (λ v. v == g.uuid) order ≡ true → IsPlaced order (final u now order g)
  final-IsPlaced g h =
      let (i, at, is) = nth-place 0 order g.uuid h in
      let (p, q, r) =
        touch_keeps ((placed (place 0 order g.uuid) g).uuid == u)
          (placed (place 0 order g.uuid) g) in
      let so : (final u now order g).sort_order ≡ i =
        r ∙ ap (λ o. (placed o g).sort_order) at ∙ omega arith in
      ap (λ j. nth j order) so ∙ is ∙ ap some (sym (final_keeps g).0)

  IsDistinct-final : (gs : List Group) → IsDistinct gs → IsDistinct (map (final u now order) gs)
  IsDistinct-final [] d = tt
  IsDistinct-final (g ∷ gs) (h, d) = (others gs h, IsDistinct-final gs d)
    where
      others :
          (xs : List Group)
          → All (λ s. s.uuid ≢ g.uuid) xs
          → All (λ s. s.uuid ≢ (final u now order g).uuid) (map (final u now order) xs)
      others [] k = tt
      others (x ∷ xs) (k, ks) =
          ((λ e. k (sym (final_keeps x).0 ∙ e ∙ (final_keeps g).0)), others xs ks)

keep_if-true :
    (p : Group → Bool) (g : Group) (gs : List Group)
    → p g ≡ true
    → keep_if p (g ∷ gs) ≡ g ∷ keep_if p gs
keep_if-true p g gs h = ground (arith, h)

keep_if-false :
    (p : Group → Bool) (g : Group) (gs : List Group)
    → p g ≡ false
    → keep_if p (g ∷ gs) ≡ keep_if p gs
keep_if-false p g gs h = ground (arith, h)

holds-found :
    (gs : List Group) (u p : Uuid) (g : Group)
    → find_group gs u ≡ some g
    → g.parent_uuid ≡ some p
    → any (λ v. v == u) (map (λ s. s.uuid) (keep_if (λ s. is_some_of s.parent_uuid p) gs)) ≡ true
unfolding find_group
holds-found [] u p g h e = absurd cc
holds-found (x ∷ gs) u p g h e = elim (Bool-cases (is_some_of x.parent_uuid p)) [
  | inl its ↦
      ap (λ l. any (λ v. v == u) (map (λ s. s.uuid) l))
        (keep_if-true (λ s. is_some_of s.parent_uuid p) x gs its)
      ∙ elim (Bool-cases (x.uuid == u)) [
        | inl same ↦ rw same refl
        | inr other ↦ rw other (holds-found gs u p g (rw (other, find_group) at h) e)
      ]
  | inr another ↦
      ap (λ l. any (λ v. v == u) (map (λ s. s.uuid) l))
        (keep_if-false (λ s. is_some_of s.parent_uuid p) x gs another)
      ∙ elim (Bool-cases (x.uuid == u)) [
        | inl same ↦ absurd (
            let found : some x ≡ some g = rw (same, find_group) at h in
            let eq : x ≡ g = cc in
            let its : is_some_of x.parent_uuid p ≡ true =
              ap (λ s. is_some_of s.parent_uuid p) eq ∙ ap (λ o. is_some_of o p) e ∙ ==_refl p in
            let dead : true ≡ false = sym its ∙ another in cc)
        | inr other ↦ holds-found gs u p g (rw (other, find_group) at h) e
      ]
]

All-holds :
    (gs : List Group) (us : List Uuid)
    → ((v : Uuid) → any (λ w. w == v) (map (λ s. s.uuid) gs) ≡ true → any (λ w. w == v) us ≡ true)
    → All (λ g. any (λ w. w == g.uuid) us ≡ true) gs
All-holds [] us h = tt
All-holds (g ∷ gs) us h =
    (h g.uuid (rw (==_refl g.uuid) refl), All-holds gs us (λ v k. h v (ground (arith, k))))

IsDistinct-keep_if :
    (p : Group → Bool) (gs : List Group) → IsDistinct gs → IsDistinct (keep_if p gs)
IsDistinct-keep_if p [] d = tt
IsDistinct-keep_if p (g ∷ gs) (h, d) = elim (Bool-cases (p g)) [
  | inl its ↦
      subst IsDistinct (sym (keep_if-true p g gs its))
        (All-keep_if (λ s. s.uuid ≢ g.uuid) p gs h, IsDistinct-keep_if p gs d)
  | inr other ↦ subst IsDistinct (sym (keep_if-false p g gs other)) (IsDistinct-keep_if p gs d)
]

keep_if-map :
    (p : Group → Bool) (f : Group → Group)
    → ((g : Group) → p (f g) ≡ p g)
    → (gs : List Group) → keep_if p (map f gs) ≡ map f (keep_if p gs)
keep_if-map p f same [] = refl
keep_if-map p f same (g ∷ gs) = elim (Bool-cases (p g)) [
  | inl its ↦
      keep_if-true p (f g) (map f gs) (same g ∙ its)
      ∙ ap (λ t. f g ∷ t) (keep_if-map p f same gs)
      ∙ ap (map f) (sym (keep_if-true p g gs its))
  | inr other ↦
      keep_if-false p (f g) (map f gs) (same g ∙ other)
      ∙ keep_if-map p f same gs
      ∙ ap (map f) (sym (keep_if-false p g gs other))
]

-- The children of a parent, as the order places them.
children_listed :
    (u : Uuid) (now : Millis) (order : List Uuid) (gs : List Group) (p : Uuid)
    → IsDistinct gs
    → All (λ g. any (λ w. w == g.uuid) order ≡ true) (keep_if (λ s. is_some_of s.parent_uuid p) gs)
    → length (keep_if (λ s. is_some_of s.parent_uuid p) gs) ≡ length order
    → siblings (map (final u now order) gs) p ≡ order
unfolding siblings
children_listed u now order gs p d h n =
    let kids = keep_if (λ s. is_some_of s.parent_uuid p) gs in
    ap (λ l. map (λ g. g.uuid) (sort_siblings l))
      (keep_if-map (λ s. is_some_of s.parent_uuid p) (final u now order)
        (λ g. ap (λ o. is_some_of o p) (final_keeps u now order g).1) gs)
    ∙ listing_placed order (map (final u now order) kids) (each kids h)
        (IsDistinct-final u now order kids
          (IsDistinct-keep_if (λ s. is_some_of s.parent_uuid p) gs d))
        (length-map (final u now order) kids ∙ n)
  where
    each :
        (xs : List Group)
        → All (λ g. any (λ w. w == g.uuid) order ≡ true) xs
        → All (IsPlaced order) (map (final u now order) xs)
    each [] k = tt
    each (x ∷ xs) (k, ks) = (final-IsPlaced u now order x k, each xs ks)

parents_kept :
    (u : Uuid) (now : Millis) (order : List Uuid) (gs : List Group)
    → map (λ s. s.parent_uuid) (map (final u now order) gs) ≡ map (λ s. s.parent_uuid) gs
parents_kept u now order [] = refl
parents_kept u now order (g ∷ gs) =
    ap₂ (λ a t. a ∷ t) (final_keeps u now order g).1 (parents_kept u now order gs)

holds-siblings :
    (v : Uuid) (gs : List Group) (q : Uuid)
    → any (λ w. w == v) (siblings gs q)
      ≡ any (λ w. w == v) (map (λ s. s.uuid) (keep_if (λ s. is_some_of s.parent_uuid q) gs))
unfolding siblings
holds-siblings v gs q = holds-sort_siblings v (keep_if (λ s. is_some_of s.parent_uuid q) gs)

length-siblings :
    (gs : List Group) (q : Uuid)
    → length (siblings gs q) ≡ length (keep_if (λ s. is_some_of s.parent_uuid q) gs)
unfolding siblings
length-siblings gs q =
    length-map (λ (s : Group). s.uuid)
      (sort_siblings (keep_if (λ s. is_some_of s.parent_uuid q) gs))
    ∙ length-sort_siblings (keep_if (λ s. is_some_of s.parent_uuid q) gs)

-- With every UUID once: for a group that has a parent, reorder_group succeeds. The order that it returns
-- is that of the siblings before with the group taken out and put in with as many siblings before it as
-- the position says, or at the end if there are fewer; it is the order in which the siblings are listed
-- afterwards; no group changes its parent.
pub reorder_group-siblings :
    (db : Db) (u : Uuid) (new_position : ℕ) (now : Millis) (g : Group) (p : Uuid)
    → IsDistinct db.groups
    → find_group db.groups u ≡ some g
    → g.parent_uuid ≡ some p
    → (db' : Db) × (order : List Uuid) × IsMove u new_position (siblings db.groups p) order
      × (reorder_group db u new_position now ≡ ok (db', order))
      × (siblings db'.groups p ≡ order)
      × (map (λ s. s.parent_uuid) db'.groups ≡ map (λ s. s.parent_uuid) db.groups)
unfolding reorder_group
reorder_group-siblings db u new_position now g p d found parent =
    let kids = keep_if (λ s. is_some_of s.parent_uuid p) db.groups in
    let (current, at) =
      position-some u (siblings db.groups p)
        (holds-siblings u db.groups p ∙ holds-found db.groups u p g found parent) in
    let rest = remove current (siblings db.groups p) in
    let order = placed_in u new_position rest in
    let same = final_eq u now order db.groups in
    let held = All-holds kids order (λ v k.
      any-insert v (clamped new_position rest) u rest
      ∙ sym (any-remove v u (siblings db.groups p) current at)
      ∙ holds-siblings v db.groups p
      ∙ k) in
    let count : length kids ≡ length order =
      sym (length-siblings db.groups p)
      ∙ sym (length-remove u (siblings db.groups p) current at)
      ∙ sym (length-insert (clamped new_position rest) u rest) in
    (
      record db { groups = update_groups u (touched now) (renumber_siblings 0 order db.groups) },
      order,
      placed_in-IsMove u new_position (siblings db.groups p) current at,
      rw (found, parent, at) refl,
      ap (λ gs. siblings gs p) same ∙ children_listed u now order db.groups p d held count,
      ap (map (λ s. s.parent_uuid)) same ∙ parents_kept u now order db.groups,
    )

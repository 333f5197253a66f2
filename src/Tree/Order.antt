-- ===== src/Tree/Order.antt =====
-- The walks against the list of all entries in the order of the tree
-- (crates/keys-engine/src/util/tree.rs, `swap_entry_in_tree` of crates/keys-engine/src/reconcile.rs).
use keys_core.Base.{
  ℕ, ◌≡◌, refl, sym, ap, ap₂, ◌∙◌, arith, true, false, Option, none, some, List, [], ◌∷◌, ◌++◌, map,
  ◌==◌, if◌then◌else◌, append_assoc, append-nil, Bool-cases, Option-cases, inl, inr,
}
use mathlib.Core.Option
use keys_core.Tree.{
  Group, Groups, find, held_by, find_entry_with_parent, find_below, contains_entry, walk, walk_all,
  collect_entries_with_parent, replace, swap_entry_in_tree, swap_below, put_back, or_else,
}

-- Every entry with its group: a group's own entries first, then those of its children.
unfoldable mutual
  pub entries_of : {E : Type 0} → Group E → List (E × ℕ)
  entries_of (Group.node g es gs) = map (λ e. (e, g)) es ++ entries_below gs

  pub entries_below : {E : Type 0} → Groups E → List (E × ℕ)
  entries_below Groups.nil = []
  entries_below (Groups.cons g gs) = entries_of g ++ entries_below gs

module _ {E : Type 0} (id : E → ℕ) where
  -- The first of a list with an id, with its group.
  unfoldable pub first : ℕ → List (E × ℕ) → Option (E × ℕ)
  first target [] = none
  first target (h ∷ hs) = if id h.0 == target then some h else first target hs

  -- A list with the first entry of that id replaced, in its group.
  unfoldable pub replace_first : E → List (E × ℕ) → List (E × ℕ)
  replace_first r [] = []
  replace_first r (h ∷ hs) = if id h.0 == id r then (r, h.1) ∷ hs else h ∷ replace_first r hs

  first-append :
      (t : ℕ) (xs ys : List (E × ℕ)) → first t (xs ++ ys) ≡ or_else id (first t xs) (first t ys)
  unfolding first
  first-append t [] ys = refl
  first-append t (h ∷ hs) ys = ground (arith, first-append t hs ys)

  first-map :
      (t g : ℕ) (es : List E) → first t (map (λ e. (e, g)) es) ≡ held_by id g (find id t es) none
  unfolding first find
  first-map t g [] = refl
  first-map t g (e ∷ es) = ground (arith, first-map t g es)

  held_by-or_else :
      (g : ℕ) (o : Option E) (b : Option (E × ℕ))
      → held_by id g o b ≡ or_else id (held_by id g o none) b
  held_by-or_else g none b = refl
  held_by-or_else g (some e) b = refl

  mutual
    unfolding find_entry_with_parent entries_of first

    find-first : (t : ℕ) (g : Group E) → find_entry_with_parent id t g ≡ first t (entries_of g)
    find-first t (Group.node g es gs) =
        held_by-or_else g (find id t es) (find_below id t gs)
        ∙ ap₂ (or_else id) (sym (first-map t g es)) (find_below-first t gs)
        ∙ sym (first-append t (map (λ e. (e, g)) es) (entries_below gs))

    find_below-first : (t : ℕ) (gs : Groups E) → find_below id t gs ≡ first t (entries_below gs)
    find_below-first t Groups.nil = refl
    find_below-first t (Groups.cons g gs) =
        ap₂ (or_else id) (find-first t g) (find_below-first t gs)
        ∙ sym (first-append t (entries_of g) (entries_below gs))

  mutual
    unfolding walk entries_of

    walk-entries : (g : Group E) (out : List (E × ℕ)) → walk id g out ≡ out ++ entries_of g
    walk-entries (Group.node g es gs) out =
        walk_all-entries gs (out ++ map (λ e. (e, g)) es)
        ∙ append_assoc out (map (λ e. (e, g)) es) (entries_below gs)

    walk_all-entries :
        (gs : Groups E) (out : List (E × ℕ)) → walk_all id gs out ≡ out ++ entries_below gs
    walk_all-entries Groups.nil out = sym (append-nil out)
    walk_all-entries (Groups.cons g gs) out =
        walk_all-entries gs (walk id g out)
        ∙ ap (λ l. l ++ entries_below gs) (walk-entries g out)
        ∙ append_assoc out (entries_of g) (entries_below gs)

  -- The search for an id gives the first entry of that id, with its group, of the list that the
  -- collection makes.
  pub find_entry_with_parent-collect :
      (target : ℕ) (g : Group E)
      → find_entry_with_parent id target g ≡ first target (collect_entries_with_parent id g)
  unfolding collect_entries_with_parent
  find_entry_with_parent-collect target g =
      find-first target g ∙ ap (first target) (sym (walk-entries g []))

  replace_first-miss :
      (r : E) (xs ys : List (E × ℕ))
      → first (id r) xs ≡ none
      → replace_first r (xs ++ ys) ≡ xs ++ replace_first r ys
  unfolding first replace_first
  replace_first-miss r [] ys h = refl
  replace_first-miss r (x ∷ xs) ys h = ground (arith, replace_first-miss r xs ys)

  replace_first-hit :
      (r : E) (xs ys : List (E × ℕ)) (h : E × ℕ)
      → first (id r) xs ≡ some h
      → replace_first r (xs ++ ys) ≡ replace_first r xs ++ ys
  unfolding first replace_first
  replace_first-hit r [] ys h e = cc
  replace_first-hit r (x ∷ xs) ys h e = ground (arith, replace_first-hit r xs ys h)

  some_inj : {A : Type 0} {a b : A} → some a ≡ some b → a ≡ b
  some_inj h = cc

  map-none : {A B : Type 0} (f : A → B) (o : Option A) → Option.map f o ≡ none → o ≡ none
  map-none f none h = refl
  map-none f (some a) h = cc

  map-some :
      {A B : Type 0} {f : A → B} (o : Option A) {b : B}
      → Option.map f o ≡ some b
      → (a : A) × (o ≡ some a) × (f a ≡ b)
  map-some none h = cc
  map-some (some a) h = (a, refl, some_inj h)

  replace-miss :
      (r : E) (g : ℕ) (es : List E)
      → replace id r es ≡ none
      → first (id r) (map (λ e. (e, g)) es) ≡ none
  unfolding first replace
  replace-miss r g [] h = refl
  replace-miss r g (e ∷ es) h = elim (Bool-cases (id e == id r)) [
    | inl same ↦ absurd (let dead = rw same at h in ground (arith, dead))
    | inr other ↦ rw other (replace-miss r g es (map-none _ (replace id r es) (rw other at h)))
  ]

  replace-hit :
      (r : E) (g : ℕ) (es es' : List E) (ys : List (E × ℕ))
      → replace id r es ≡ some es'
      → map (λ e. (e, g)) es' ++ ys ≡ replace_first r (map (λ e. (e, g)) es ++ ys)
  unfolding replace_first replace
  replace-hit r g [] es' ys h = cc
  replace-hit r g (e ∷ es) es' ys h = elim (Bool-cases (id e == id r)) [
    | inl same ↦ rw same (ap (λ l. map (λ e. (e, g)) l ++ ys) (sym (some_inj (rw same at h))))
    | inr other ↦
        let (l, hit, whole) = map-some (replace id r es) (rw other at h) in
        rw (other, ← whole) (ap (λ t. (e, g) ∷ t) (replace-hit r g es l ys hit))
  ]

  missing :
      (r : E) (g : Group E)
      → contains_entry id (id r) g ≡ false
      → first (id r) (entries_of g) ≡ none
  unfolding contains_entry
  missing r g h = ground (arith, find-first (id r) g)

  present :
      (r : E) (g : Group E)
      → contains_entry id (id r) g ≡ true
      → (h : E × ℕ) × (first (id r) (entries_of g) ≡ some h)
  unfolding contains_entry
  present r g h = elim (Option-cases (find_entry_with_parent id (id r) g)) [
    | inl missed ↦ absurd (let dead = rw (contains_entry, missed) at h in ground (arith, dead))
    | inr (hit, there) ↦ (hit, sym (find-first (id r) g) ∙ there)
  ]

  mutual
    unfolding swap_entry_in_tree entries_of replace_first

    swap-entries :
        (r : E) (g : Group E)
        → entries_of (swap_entry_in_tree id r g) ≡ replace_first r (entries_of g)
    swap-entries r (Group.node g es gs) = elim (Option-cases (replace id r es)) [
      | inl missed ↦
          ap (λ o. entries_of (put_back id g es gs (swap_below id r gs) o)) missed
          ∙ ap (λ l. map (λ e. (e, g)) es ++ l) (swap_below-entries r gs)
          ∙ sym (
              replace_first-miss r (map (λ e. (e, g)) es) (entries_below gs)
                (replace-miss r g es missed))
      | inr (es', hit) ↦
          ap (λ o. entries_of (put_back id g es gs (swap_below id r gs) o)) hit
          ∙ replace-hit r g es es' (entries_below gs) hit
    ]

    swap_below-entries :
        (r : E) (gs : Groups E)
        → entries_below (swap_below id r gs) ≡ replace_first r (entries_below gs)
    swap_below-entries r Groups.nil = refl
    swap_below-entries r (Groups.cons g gs) = elim (Bool-cases (contains_entry id (id r) g)) [
      | inr missed ↦
          ap
            (λ b. entries_below (
              if b
              then Groups.cons (swap_entry_in_tree id r g) gs
              else Groups.cons g (swap_below id r gs)))
            missed
          ∙ ap (λ l. entries_of g ++ l) (swap_below-entries r gs)
          ∙ sym (replace_first-miss r (entries_of g) (entries_below gs) (missing r g missed))
      | inl hit ↦
          ap
            (λ b. entries_below (
              if b
              then Groups.cons (swap_entry_in_tree id r g) gs
              else Groups.cons g (swap_below id r gs)))
            hit
          ∙ ap (λ l. l ++ entries_below gs) (swap-entries r g)
          ∙ sym (
              let (h, there) = present r g hit in
              replace_first-hit r (entries_of g) (entries_below gs) h there)
    ]

  -- The swap replaces the first entry of the replacement's id where it stands, and nothing else.
  pub swap_entry_in_tree-collect :
      (r : E) (g : Group E)
      → collect_entries_with_parent id (swap_entry_in_tree id r g)
        ≡ replace_first r (collect_entries_with_parent id g)
  unfolding collect_entries_with_parent
  swap_entry_in_tree-collect r g =
      walk-entries (swap_entry_in_tree id r g) []
      ∙ swap-entries r g
      ∙ ap (replace_first r) (sym (walk-entries g []))

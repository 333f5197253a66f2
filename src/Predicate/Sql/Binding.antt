-- ===== src/Predicate/Sql/Binding.antt =====
-- Placeholders and bound values (`compile` of crates/keys-engine/src/predicate_sql.rs).
use keys_core.Base.{
  ℕ, suc, ◌+◌, ℤ, ◌≡◌, refl, subst, sym, ◌∙◌, arith, List, [], ◌∷◌, ◌++◌, length, length-append,
  length-map, codes, ◌==◌, if◌then◌else◌,
}
use keys_core.Predicate.{Predicate, Predicates}
use keys_core.Predicate.Sql.{
  Value, CompiledPredicate, Result, ◌>>=◌, tag_exists_sql, join, repeat_for, parenthesised,
  like_contains, tag_set, any_tag_sql, all_tags_sql, compile, compile_junction, compile_children,
}

-- The placeholders of a text.
unfoldable pub placeholders : List ℕ → ℕ
placeholders [] = 0
placeholders (c ∷ cs) = if c == b'?' then suc (placeholders cs) else placeholders cs

placeholders-append : (s t : List ℕ) → placeholders (s ++ t) ≡ placeholders s + placeholders t
unfolding placeholders
placeholders-append [] t = omega arith
placeholders-append (c ∷ s) t = ground (arith, placeholders-append s t)

-- The placeholders of several texts.
abbrev total : List (List ℕ) → ℕ
total [] = 0
total (p ∷ ps) = placeholders p + total ps

placeholders-join :
    (sep : List ℕ) (ps : List (List ℕ))
    → placeholders sep ≡ 0
    → placeholders (join sep ps) ≡ total ps
unfolding join placeholders
placeholders-join sep [] h = refl
placeholders-join sep (p ∷ []) h = omega arith
placeholders-join sep (p ∷ q ∷ ps) h =
    placeholders-append (p ++ sep) (join sep (q ∷ ps))
    ∙ omega (arith, placeholders-append p sep, placeholders-join sep (q ∷ ps) h)

total-repeat_for :
    {A : Type 0} (t : List ℕ) (xs : List A)
    → placeholders t ≡ 1
    → total (repeat_for t xs) ≡ length xs
unfolding repeat_for
total-repeat_for t [] h = refl
total-repeat_for t (x ∷ xs) h = omega (arith, total-repeat_for t xs h)

placeholders-parenthesised : (t : List ℕ) → placeholders (parenthesised t) ≡ placeholders t
unfolding parenthesised placeholders
placeholders-parenthesised t = omega (arith, placeholders-append t (b')' ∷ []))

placeholders-any_tag_sql : (ts : List (List ℕ)) → placeholders (any_tag_sql ts) ≡ length ts
unfolding any_tag_sql placeholders
placeholders-any_tag_sql ts =
    placeholders-append (join (codes ", ") (repeat_for (codes "?") ts)) (codes ")))")
    ∙ omega (
      arith,
      placeholders-join (codes ", ") (repeat_for (codes "?") ts) refl,
      total-repeat_for (codes "?") ts refl,
    )

placeholders-all_tags_sql : (ts : List (List ℕ)) → placeholders (all_tags_sql ts) ≡ length ts
unfolding all_tags_sql placeholders tag_exists_sql
placeholders-all_tags_sql ts =
    placeholders-parenthesised (join (codes " AND ") (repeat_for tag_exists_sql ts))
    ∙ placeholders-join (codes " AND ") (repeat_for tag_exists_sql ts) refl
    ∙ total-repeat_for tag_exists_sql ts refl

-- A predicate on what a run returns, if it returns.
abbrev Holds : {A : Type 0} → (A → Type 0) → Result A → Type 0
Holds P (Result.ok a) = P a
Holds P (Result.err e) = Unit

Holds-bind :
    {A B : Type 0} (P : A → Type 0) (Q : B → Type 0) (r : Result A) (k : A → Result B)
    → Holds P r
    → ((a : A) → P a → Holds Q (k a))
    → Holds Q (r >>= k)
Holds-bind P Q (Result.ok a) k h f = f a h
Holds-bind P Q (Result.err e) k h f = tt

Holds-ok : {A : Type 0} (P : A → Type 0) (r : Result A) {a : A} → Holds P r → r ≡ Result.ok a → P a
Holds-ok P (Result.ok b) h e = subst (Holds P) e h
Holds-ok P (Result.err x) h e = cc

abbrev IsBound : {F : Type 0} → CompiledPredicate F → Type 0
IsBound c = placeholders c.where_sql ≡ length c.params

abbrev AreBound : {F : Type 0} → List (List ℕ) × List (Value F) → Type 0
AreBound r = total r.0 ≡ length r.1

like_contains-IsBound :
    (F : Type 0) (column s : List ℕ)
    → placeholders column ≡ 0
    → IsBound (like_contains {F = F} column s)
unfolding like_contains placeholders
like_contains-IsBound F column s h =
    placeholders-parenthesised (column ++ codes " LIKE ? ESCAPE '\\'")
    ∙ placeholders-append column (codes " LIKE ? ESCAPE '\\'")
    ∙ omega (arith, h)

tag_set-IsBound :
    (F : Type 0) (sql : List ℕ) (ts : List (List ℕ))
    → placeholders sql ≡ length ts
    → Holds IsBound (tag_set {F = F} sql ts)
unfolding tag_set
tag_set-IsBound F sql [] h = tt
tag_set-IsBound F sql (t ∷ ts) h = h ∙ sym (length-map Value.text (t ∷ ts))

module _ {J F : Type 0} (now_ms : ℤ) where
  mutual
    unfolding compile placeholders tag_exists_sql

    compile-IsBound : (p : Predicate J F) → Holds IsBound (compile now_ms p)
    compile-IsBound (Predicate.and ps) = compile_junction-IsBound ps (codes "AND") refl
    compile-IsBound (Predicate.or ps) = compile_junction-IsBound ps (codes "OR") refl
    compile-IsBound (Predicate.not p) =
        Holds-bind IsBound IsBound (compile now_ms p) _ (compile-IsBound p)
          λ c h. placeholders-append c.where_sql (codes ")") ∙ omega (arith, h)
    compile-IsBound (Predicate.title_contains s) =
        like_contains-IsBound F (codes "entry.title") s refl
    compile-IsBound (Predicate.url_contains s) = like_contains-IsBound F (codes "entry.url") s refl
    compile-IsBound (Predicate.username_contains s) =
        like_contains-IsBound F (codes "entry.username") s refl
    compile-IsBound (Predicate.url_host_equals h) = refl
    compile-IsBound (Predicate.tag_equals t) = refl
    compile-IsBound (Predicate.tag_has_any ts) =
        tag_set-IsBound F _ ts (placeholders-any_tag_sql ts)
    compile-IsBound (Predicate.tag_has_all ts) =
        tag_set-IsBound F _ ts (placeholders-all_tags_sql ts)
    compile-IsBound (Predicate.modified_within d) = refl
    compile-IsBound (Predicate.modified_before t) = refl
    compile-IsBound Predicate.expired = refl
    compile-IsBound (Predicate.expiring_within d) = refl
    compile-IsBound (Predicate.strength_below b) = refl
    compile-IsBound (Predicate.entropy_below bits) = refl
    compile-IsBound Predicate.duplicates = refl
    compile-IsBound (Predicate.group u) = refl
    compile-IsBound (Predicate.unknown j) = tt

    compile_junction-IsBound :
        (ps : Predicates J F) (op : List ℕ)
        → placeholders (b' ' ∷ op ++ b' ' ∷ []) ≡ 0
        → Holds IsBound (compile_junction now_ms ps op)
    compile_junction-IsBound Predicates.nil op none_there = tt
    compile_junction-IsBound (Predicates.cons p ps) op none_there =
        Holds-bind IsBound IsBound (compile now_ms p) _ (compile-IsBound p) λ c h.
          Holds-bind AreBound IsBound (compile_children now_ms ps) _ (compile_children-AreBound ps)
            λ rest hs.
              placeholders-parenthesised (join (b' ' ∷ op ++ b' ' ∷ []) (c.where_sql ∷ rest.0))
              ∙ placeholders-join (b' ' ∷ op ++ b' ' ∷ []) (c.where_sql ∷ rest.0) none_there
              ∙ omega (arith, h, hs, length-append c.params rest.1)

    compile_children-AreBound : (ps : Predicates J F) → Holds AreBound (compile_children now_ms ps)
    compile_children-AreBound Predicates.nil = refl
    compile_children-AreBound (Predicates.cons p ps) =
        Holds-bind IsBound AreBound (compile now_ms p) _ (compile-IsBound p) λ c h.
          Holds-bind AreBound AreBound (compile_children now_ms ps) _ (compile_children-AreBound ps)
            λ rest hs. omega (arith, h, hs, length-append c.params rest.1)

-- A compiled predicate binds exactly as many values as its text has placeholders.
pub compile-placeholders :
    {J F : Type 0} (now_ms : ℤ) (p : Predicate J F) (c : CompiledPredicate F)
    → compile now_ms p ≡ Result.ok c
    → placeholders c.where_sql ≡ length c.params
compile-placeholders now_ms p c h = Holds-ok IsBound (compile now_ms p) (compile-IsBound now_ms p) h

-- ===== src/Predicate/Sql/Shape.antt =====
-- The text of a compiled predicate and the predicate's shape (`compile` of
-- crates/keys-engine/src/predicate_sql.rs).
use keys_core.Base.{ℕ, ℤ, pos, ◌≡◌, refl, sym, ap, ap₂, ◌∙◌, List, [], ◌∷◌, ◌++◌, codes}
use keys_core.Predicate.{StrengthBucket, Predicate, Predicates}
use keys_core.Predicate.Sql.{
  Value, CompiledPredicate, Result, ◌>>=◌, tag_exists_sql, join, repeat_for, parenthesised,
  like_contains, tag_set, any_tag_sql, all_tags_sql, compile, compile_junction, compile_children,
  fixed,
}

abbrev no_tags : List (List ℕ) → List (List ℕ)
no_tags [] = []
no_tags (t ∷ ts) = [] ∷ no_tags ts

-- A predicate without its values: the texts, numbers and durations are gone, the lists of tags keep
-- their lengths.
unfoldable mutual
  pub blank : {J F : Type 0} → F → Predicate J F → Predicate J F
  blank f (Predicate.and ps) = Predicate.and (blanks f ps)
  blank f (Predicate.or ps) = Predicate.or (blanks f ps)
  blank f (Predicate.not p) = Predicate.not (blank f p)
  blank f (Predicate.title_contains s) = Predicate.title_contains []
  blank f (Predicate.url_contains s) = Predicate.url_contains []
  blank f (Predicate.username_contains s) = Predicate.username_contains []
  blank f (Predicate.url_host_equals h) = Predicate.url_host_equals []
  blank f (Predicate.tag_equals t) = Predicate.tag_equals []
  blank f (Predicate.tag_has_any ts) = Predicate.tag_has_any (no_tags ts)
  blank f (Predicate.tag_has_all ts) = Predicate.tag_has_all (no_tags ts)
  blank f (Predicate.modified_within d) = Predicate.modified_within (record { secs = 0; nanos = 0 })
  blank f (Predicate.modified_before t) = Predicate.modified_before (pos 0)
  blank f Predicate.expired = Predicate.expired
  blank f (Predicate.expiring_within d) = Predicate.expiring_within (record { secs = 0; nanos = 0 })
  blank f (Predicate.strength_below b) = Predicate.strength_below StrengthBucket.very_weak
  blank f (Predicate.entropy_below bits) = Predicate.entropy_below f
  blank f Predicate.duplicates = Predicate.duplicates
  blank f (Predicate.group u) = Predicate.group []
  blank f (Predicate.unknown j) = Predicate.unknown j

  pub blanks : {J F : Type 0} → F → Predicates J F → Predicates J F
  blanks f Predicates.nil = Predicates.nil
  blanks f (Predicates.cons p ps) = Predicates.cons (blank f p) (blanks f ps)

-- The text of a result, or its error.
abbrev pub text_of : {F : Type 0} → Result (CompiledPredicate F) → Result (List ℕ)
text_of (Result.ok c) = Result.ok c.where_sql
text_of (Result.err e) = Result.err e

abbrev texts_of : {F : Type 0} → Result (List (List ℕ) × List (Value F)) → Result (List (List ℕ))
texts_of (Result.ok r) = Result.ok r.0
texts_of (Result.err e) = Result.err e

repeat_for-no_tags : (t : List ℕ) (ts : List (List ℕ)) → repeat_for t (no_tags ts) ≡ repeat_for t ts
unfolding repeat_for
repeat_for-no_tags t [] = refl
repeat_for-no_tags t (x ∷ xs) = ap (λ r. t ∷ r) (repeat_for-no_tags t xs)

text_of-tag_set :
    (F : Type 0) (sql sql' : List ℕ) (ts : List (List ℕ))
    → sql ≡ sql'
    → text_of (tag_set {F = F} sql' (no_tags ts)) ≡ text_of (tag_set {F = F} sql ts)
unfolding tag_set
text_of-tag_set F sql sql' [] e = refl
text_of-tag_set F sql sql' (t ∷ ts) e = ap Result.ok (sym e)

any_tag_sql-no_tags : (ts : List (List ℕ)) → any_tag_sql ts ≡ any_tag_sql (no_tags ts)
unfolding any_tag_sql
any_tag_sql-no_tags ts = rw (repeat_for-no_tags (codes "?") ts) refl

all_tags_sql-no_tags : (ts : List (List ℕ)) → all_tags_sql ts ≡ all_tags_sql (no_tags ts)
unfolding all_tags_sql
all_tags_sql-no_tags ts = rw (repeat_for-no_tags tag_exists_sql ts) refl

module _ {F : Type 0} where
  -- What each step makes of its text depends on the text alone.
  text_of-not :
      (r : Result (CompiledPredicate F))
      → text_of (r >>= λ inner. fixed (codes "(NOT " ++ inner.where_sql ++ codes ")") inner.params)
        ≡ (text_of r >>= λ t. Result.ok (codes "(NOT " ++ t ++ codes ")"))
  text_of-not (Result.ok c) = refl
  text_of-not (Result.err e) = refl

  text_of-junction :
      (op : List ℕ) (r : Result (CompiledPredicate F))
      (rs : Result (List (List ℕ) × List (Value F)))
      → text_of (
          r >>= λ c. rs >>= λ rest.
          fixed (parenthesised (join op (c.where_sql ∷ rest.0))) (c.params ++ rest.1))
        ≡ (text_of r >>= λ t. texts_of rs >>= λ ts. Result.ok (parenthesised (join op (t ∷ ts))))
  text_of-junction op (Result.ok c) (Result.ok rest) = refl
  text_of-junction op (Result.ok c) (Result.err e) = refl
  text_of-junction op (Result.err e) rs = refl

  texts_of-children :
      (r : Result (CompiledPredicate F)) (rs : Result (List (List ℕ) × List (Value F)))
      → texts_of (r >>= λ c. rs >>= λ rest. Result.ok (c.where_sql ∷ rest.0, c.params ++ rest.1))
        ≡ (text_of r >>= λ t. texts_of rs >>= λ ts. Result.ok (t ∷ ts))
  texts_of-children (Result.ok c) (Result.ok rest) = refl
  texts_of-children (Result.ok c) (Result.err e) = refl
  texts_of-children (Result.err e) rs = refl

module _ {J F : Type 0} (f : F) (now later : ℤ) where
  mutual
    unfolding compile blank like_contains

    text_of-blank :
        (p : Predicate J F) → text_of (compile later (blank f p)) ≡ text_of (compile now p)
    text_of-blank (Predicate.and ps) = junction-blank (codes "AND") ps
    text_of-blank (Predicate.or ps) = junction-blank (codes "OR") ps
    text_of-blank (Predicate.not p) =
        text_of-not (compile later (blank f p))
        ∙ ap (λ r. r >>= λ t. Result.ok (codes "(NOT " ++ t ++ codes ")")) (text_of-blank p)
        ∙ sym (text_of-not (compile now p))
    text_of-blank (Predicate.title_contains s) = refl
    text_of-blank (Predicate.url_contains s) = refl
    text_of-blank (Predicate.username_contains s) = refl
    text_of-blank (Predicate.url_host_equals h) = refl
    text_of-blank (Predicate.tag_equals t) = refl
    text_of-blank (Predicate.tag_has_any ts) = text_of-tag_set F _ _ ts (any_tag_sql-no_tags ts)
    text_of-blank (Predicate.tag_has_all ts) = text_of-tag_set F _ _ ts (all_tags_sql-no_tags ts)
    text_of-blank (Predicate.modified_within d) = refl
    text_of-blank (Predicate.modified_before t) = refl
    text_of-blank Predicate.expired = refl
    text_of-blank (Predicate.expiring_within d) = refl
    text_of-blank (Predicate.strength_below b) = refl
    text_of-blank (Predicate.entropy_below bits) = refl
    text_of-blank Predicate.duplicates = refl
    text_of-blank (Predicate.group u) = refl
    text_of-blank (Predicate.unknown j) = refl

    junction-blank :
        (op : List ℕ) (ps : Predicates J F)
        → text_of (compile_junction later (blanks f ps) op) ≡ text_of (compile_junction now ps op)
    junction-blank op Predicates.nil = refl
    junction-blank op (Predicates.cons p ps) =
        text_of-junction (b' ' ∷ op ++ b' ' ∷ []) (compile later (blank f p))
          (compile_children later (blanks f ps))
        ∙ ap₂
            (λ r rs. r >>= λ t.
              rs >>= λ ts. Result.ok (parenthesised (join (b' ' ∷ op ++ b' ' ∷ []) (t ∷ ts))))
            (text_of-blank p) (children-blank ps)
        ∙ sym (text_of-junction (b' ' ∷ op ++ b' ' ∷ []) (compile now p) (compile_children now ps))

    children-blank :
        (ps : Predicates J F)
        → texts_of (compile_children later (blanks f ps)) ≡ texts_of (compile_children now ps)
    children-blank Predicates.nil = refl
    children-blank (Predicates.cons p ps) =
        texts_of-children (compile later (blank f p)) (compile_children later (blanks f ps))
        ∙ ap₂ (λ r rs. r >>= λ t. rs >>= λ ts. Result.ok (t ∷ ts)) (text_of-blank p)
            (children-blank ps)
        ∙ sym (texts_of-children (compile now p) (compile_children now ps))

-- Two predicates that differ only in their values, compiled at any two times, give the same text or
-- the same error: no value and no time reaches the text.
pub compile-shape :
    {J F : Type 0} (f : F) (now later : ℤ) (p q : Predicate J F)
    → blank f p ≡ blank f q
    → text_of (compile now p) ≡ text_of (compile later q)
compile-shape f now later p q e =
    sym (text_of-blank f now now p)
    ∙ ap (λ r. text_of (compile now r)) e
    ∙ text_of-blank f later now q

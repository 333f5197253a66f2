-- ===== src/Predicate/Sql/Refusal.antt =====
-- The predicates that the compiler refuses (crates/keys-engine/src/predicate_sql.rs,
-- crates/keys-engine/src/predicate.rs).
use keys_core.Base.{ℤ, ◌≡◌, refl, ap₂, ◌∙◌, Bool, true, false, ◌&&◌, [], ◌∷◌}
use keys_core.Predicate.{Predicate, Predicates, is_evaluable, all_evaluable}
use keys_core.Predicate.Sql.{Result, ◌>>=◌, tag_set, compile, compile_children}

-- No conjunction, disjunction or set of tags is empty.
unfoldable mutual
  pub has_children : {J F : Type 0} → Predicate J F → Bool
  has_children (Predicate.and Predicates.nil) = false
  has_children (Predicate.and (Predicates.cons p ps)) = has_children p && all_have_children ps
  has_children (Predicate.or Predicates.nil) = false
  has_children (Predicate.or (Predicates.cons p ps)) = has_children p && all_have_children ps
  has_children (Predicate.not p) = has_children p
  has_children (Predicate.tag_has_any []) = false
  has_children (Predicate.tag_has_all []) = false
  has_children _ = true

  pub all_have_children : {J F : Type 0} → Predicates J F → Bool
  all_have_children Predicates.nil = true
  all_have_children (Predicates.cons p ps) = has_children p && all_have_children ps

abbrev pub is_ok : {A : Type 0} → Result A → Bool
is_ok (Result.ok a) = true
is_ok (Result.err e) = false

is_ok-bind :
    {A B : Type 0} (r : Result A) (k : A → Result B) (b : Bool)
    → ((a : A) → is_ok (k a) ≡ b)
    → is_ok (r >>= k) ≡ (is_ok r && b)
is_ok-bind (Result.ok a) k b h = h a
is_ok-bind (Result.err e) k b h = refl

and_true : (a : Bool) → (a && true) ≡ a
and_true true = refl
and_true false = refl

swap4 : (a b c d : Bool) → ((a && b) && (c && d)) ≡ ((a && c) && (b && d))
swap4 true true c d = refl
swap4 true false true d = refl
swap4 true false false d = refl
swap4 false b c d = refl

is_ok-both :
    {A B C : Type 0} (r : Result A) (rs : Result B) (k : A → B → Result C)
    → ((a : A) (b : B) → is_ok (k a b) ≡ true)
    → (e e' h h' : Bool) → is_ok r ≡ (e && h)
    → is_ok rs ≡ (e' && h')
    → is_ok (r >>= λ a. rs >>= λ b. k a b) ≡ ((e && e') && (h && h'))
is_ok-both r rs k f e e' h h' x y =
    is_ok-bind r _ (is_ok rs) (λ a. is_ok-bind rs _ true (λ b. f a b) ∙ and_true _)
    ∙ ap₂ (λ a b. a && b) x y
    ∙ swap4 e h e' h'

module _ {J F : Type 0} (now_ms : ℤ) where
  mutual
    unfolding compile is_evaluable has_children tag_set

    is_ok-compile :
        (p : Predicate J F) → is_ok (compile now_ms p) ≡ (is_evaluable p && has_children p)
    is_ok-compile (Predicate.and Predicates.nil) = refl
    is_ok-compile (Predicate.and (Predicates.cons p ps)) =
        is_ok-both (compile now_ms p) (compile_children now_ms ps) _ (λ c rest. refl)
          (is_evaluable p) (all_evaluable ps) (has_children p) (all_have_children ps)
          (is_ok-compile p) (is_ok-children ps)
    is_ok-compile (Predicate.or Predicates.nil) = refl
    is_ok-compile (Predicate.or (Predicates.cons p ps)) =
        is_ok-both (compile now_ms p) (compile_children now_ms ps) _ (λ c rest. refl)
          (is_evaluable p) (all_evaluable ps) (has_children p) (all_have_children ps)
          (is_ok-compile p) (is_ok-children ps)
    is_ok-compile (Predicate.not p) =
        is_ok-bind (compile now_ms p) _ true (λ c. refl) ∙ and_true _ ∙ is_ok-compile p
    is_ok-compile (Predicate.title_contains s) = refl
    is_ok-compile (Predicate.url_contains s) = refl
    is_ok-compile (Predicate.username_contains s) = refl
    is_ok-compile (Predicate.url_host_equals h) = refl
    is_ok-compile (Predicate.tag_equals t) = refl
    is_ok-compile (Predicate.tag_has_any []) = refl
    is_ok-compile (Predicate.tag_has_any (t ∷ ts)) = refl
    is_ok-compile (Predicate.tag_has_all []) = refl
    is_ok-compile (Predicate.tag_has_all (t ∷ ts)) = refl
    is_ok-compile (Predicate.modified_within d) = refl
    is_ok-compile (Predicate.modified_before t) = refl
    is_ok-compile Predicate.expired = refl
    is_ok-compile (Predicate.expiring_within d) = refl
    is_ok-compile (Predicate.strength_below b) = refl
    is_ok-compile (Predicate.entropy_below bits) = refl
    is_ok-compile Predicate.duplicates = refl
    is_ok-compile (Predicate.group u) = refl
    is_ok-compile (Predicate.unknown j) = refl

    is_ok-children :
        (ps : Predicates J F)
        → is_ok (compile_children now_ms ps) ≡ (all_evaluable ps && all_have_children ps)
    is_ok-children Predicates.nil = refl
    is_ok-children (Predicates.cons p ps) =
        is_ok-both (compile now_ms p) (compile_children now_ms ps) _ (λ c rest. refl)
          (is_evaluable p) (all_evaluable ps) (has_children p) (all_have_children ps)
          (is_ok-compile p) (is_ok-children ps)

-- A predicate compiles exactly when no node is unknown and no conjunction, disjunction or set of tags
-- is empty.
pub compile-is_ok :
    {J F : Type 0} (now_ms : ℤ) (p : Predicate J F)
    → is_ok (compile now_ms p) ≡ (is_evaluable p && has_children p)
compile-is_ok now_ms p = is_ok-compile now_ms p

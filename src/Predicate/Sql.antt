-- ===== src/Predicate/Sql.antt =====
-- The predicate compiler (crates/keys-engine/src/predicate_sql.rs): from a predicate to the text of a
-- WHERE clause and the values to bind.
pub mod Escape
pub mod Binding
pub mod Shape
pub mod Refusal
use keys_core.Base.{
  ℕ, zero, suc, ◌+◌, ◌*◌, ◌/◌, ◌^◌, ℤ, pos, negsuc, saturating_add, saturating_sub, i64_max, Bool,
  true, false, List, [], ◌∷◌, ◌++◌, map, length, codes, String, leb, ◌==◌, ◌||◌, if◌then◌else◌,
}
use keys_core.Predicate.{StrengthBucket, Duration, Predicate, Predicates}

-- `rusqlite::types::Value`, as far as the compiler makes it.
pub data Value (F : Type 0) : Type 0 where
  text : List ℕ → Value F
  integer : ℤ → Value F
  real : F → Value F

pub record CompiledPredicate (F : Type 0) : Type 0 where
  pub where_sql : List ℕ
  pub params : List (Value F)

pub data CompileError : Type 0 where
  not_evaluable : CompileError
  empty_and_or : CompileError

pub data Result (A : Type 0) : Type 0 where
  ok : A → Result A
  err : CompileError → Result A

infixl 5 ◌>>=◌
abbrev pub ◌>>=◌ : {A B : Type 0} → Result A → (A → Result B) → Result B
ok a >>= k = k a
err e >>= k = err e

unfoldable pub escape_like : List ℕ → List ℕ
escape_like [] = []
escape_like (c ∷ cs) =
    let rest = escape_like cs in
    if c == b'\\' || c == b'%' || c == b'_' then b'\\' ∷ c ∷ rest else c ∷ rest

-- `d.as_millis()`, in the range of an i64.
unfoldable pub duration_ms : Duration → ℤ
duration_ms d =
    let ms = d.secs * 1000 + d.nanos / 1000000 in pos (if leb ms i64_max then ms else i64_max)

unfoldable pub strength : StrengthBucket → ℕ
strength StrengthBucket.very_weak = 0
strength StrengthBucket.weak = 1
strength StrengthBucket.reasonable = 2
strength StrengthBucket.strong = 3
strength StrengthBucket.very_strong = 4

unfoldable pub tag_exists_sql : List ℕ
tag_exists_sql =
    codes
      "(EXISTS (SELECT 1 FROM entry_tag JOIN tag ON entry_tag.tag_id = tag.id WHERE entry_tag.entry_uuid = entry.uuid AND tag.name = ?))"

-- `parts.join(separator)`.
unfoldable pub join : List ℕ → List (List ℕ) → List ℕ
join sep [] = []
join sep (p ∷ []) = p
join sep (p ∷ q ∷ ps) = p ++ sep ++ join sep (q ∷ ps)

-- The same text for each element of a list.
unfoldable pub repeat_for : {A : Type 0} → List ℕ → List A → List (List ℕ)
repeat_for t [] = []
repeat_for t (x ∷ xs) = t ∷ repeat_for t xs

unfoldable pub parenthesised : List ℕ → List ℕ
parenthesised t = b'(' ∷ t ++ b')' ∷ []

unfoldable pub any_tag_sql : List (List ℕ) → List ℕ
any_tag_sql tags =
    codes
      "(EXISTS (SELECT 1 FROM entry_tag JOIN tag ON entry_tag.tag_id = tag.id WHERE entry_tag.entry_uuid = entry.uuid AND tag.name IN ("
    ++ join (codes ", ") (repeat_for (codes "?") tags)
    ++ codes ")))"

unfoldable pub all_tags_sql : List (List ℕ) → List ℕ
all_tags_sql tags = parenthesised (join (codes " AND ") (repeat_for tag_exists_sql tags))

module _ {F : Type 0} where
  unfoldable pub like_contains : List ℕ → List ℕ → CompiledPredicate F
  like_contains column substring = record {
    where_sql = parenthesised (column ++ codes " LIKE ? ESCAPE '\\'");
    params = Value.text (b'%' ∷ escape_like substring ++ b'%' ∷ []) ∷ [];
  }

  abbrev pub fixed : List ℕ → List (Value F) → Result (CompiledPredicate F)
  fixed sql values = ok (record { where_sql = sql; params = values })

  unfoldable pub tag_set : List ℕ → List (List ℕ) → Result (CompiledPredicate F)
  tag_set sql [] = err CompileError.empty_and_or
  tag_set sql (t ∷ ts) = fixed sql (map Value.text (t ∷ ts))

module _ {J F : Type 0} (now_ms : ℤ) where
  unfoldable mutual
    pub compile : Predicate J F → Result (CompiledPredicate F)
    compile (Predicate.and ps) = compile_junction ps (codes "AND")
    compile (Predicate.or ps) = compile_junction ps (codes "OR")
    compile (Predicate.not p) =
        compile p >>= λ inner. fixed (codes "(NOT " ++ inner.where_sql ++ codes ")") inner.params
    compile (Predicate.title_contains s) = ok (like_contains (codes "entry.title") s)
    compile (Predicate.url_contains s) = ok (like_contains (codes "entry.url") s)
    compile (Predicate.username_contains s) = ok (like_contains (codes "entry.username") s)
    compile (Predicate.url_host_equals h) = fixed (codes "(entry.url_host = ?)") (Value.text h ∷ [])
    compile (Predicate.tag_equals t) = fixed tag_exists_sql (Value.text t ∷ [])
    compile (Predicate.tag_has_any ts) = tag_set (any_tag_sql ts) ts
    compile (Predicate.tag_has_all ts) = tag_set (all_tags_sql ts) ts
    compile (Predicate.modified_within d) =
        fixed (codes "(entry.modified_at >= ?)")
          (Value.integer (saturating_sub now_ms (duration_ms d)) ∷ [])
    compile (Predicate.modified_before t) =
        fixed (codes "(entry.modified_at < ?)") (Value.integer t ∷ [])
    compile Predicate.expired =
        fixed (codes "(entry.expires_at IS NOT NULL AND entry.expires_at < ?)")
          (Value.integer now_ms ∷ [])
    compile (Predicate.expiring_within d) =
        fixed
          (codes
            "(entry.expires_at IS NOT NULL AND entry.expires_at >= ? AND entry.expires_at <= ?)")
          (Value.integer now_ms ∷ Value.integer (saturating_add now_ms (duration_ms d)) ∷ [])
    compile (Predicate.strength_below b) =
        fixed
          (codes
            "(entry.password_strength_bucket IS NOT NULL AND entry.password_strength_bucket < ?)")
          (Value.integer (pos (strength b)) ∷ [])
    compile (Predicate.entropy_below bits) =
        fixed (codes "(entry.password_entropy IS NOT NULL AND entry.password_entropy < ?)")
          (Value.real bits ∷ [])
    compile Predicate.duplicates =
        fixed
          (codes
            "(entry.password_fingerprint IS NOT NULL AND entry.password_fingerprint IN ( SELECT password_fingerprint FROM entry WHERE password_fingerprint IS NOT NULL GROUP BY password_fingerprint HAVING COUNT(*) > 1))")
          []
    compile (Predicate.group u) = fixed (codes "(entry.group_uuid = ?)") (Value.text u ∷ [])
    compile (Predicate.unknown j) = err CompileError.not_evaluable

    pub compile_junction : Predicates J F → List ℕ → Result (CompiledPredicate F)
    compile_junction Predicates.nil op = err CompileError.empty_and_or
    compile_junction (Predicates.cons p ps) op = compile p >>= λ c. compile_children ps >>= λ rest.
        fixed (parenthesised (join (b' ' ∷ op ++ b' ' ∷ []) (c.where_sql ∷ rest.0)))
          (c.params ++ rest.1)

    -- The loop over the children after the first: their texts and their values.
    pub compile_children : Predicates J F → Result (List (List ℕ) × List (Value F))
    compile_children Predicates.nil = ok ([], [])
    compile_children (Predicates.cons p ps) = compile p >>= λ c.
        compile_children ps >>= λ rest. ok (c.where_sql ∷ rest.0, c.params ++ rest.1)

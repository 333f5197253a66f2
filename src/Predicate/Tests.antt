-- ===== src/Predicate/Tests.antt =====
-- Runs of the predicate compiler (crates/keys-engine/src/predicate_sql.rs).
use keys_core.Base.{
  eq_text, ℕ, pos, ◌≡◌, refl, some, ◌==◌, if◌then◌else◌, List, [], ◌∷◌, codes, length,
}
use keys_core.Predicate.{Predicate, Predicates}
use keys_core.Predicate.Wire
use keys_core.Predicate.Wire.{
  KnownPredicate, Serde, is_unknown_type_error, deserialize, known_type_discriminators,
}
use keys_core.Predicate.Sql.{
  Value, CompiledPredicate, Result, like_contains, compile, escape_like, parenthesised, join,
}
use keys_core.Predicate.Sql.Binding.{placeholders, compile-placeholders}
use keys_core.Predicate.Sql.Shape.{blank, text_of, compile-shape}

-- JSON values and floats, for the runs.
abbrev Sample : Type 0
Sample = Predicate ℕ ℕ

abbrev title_and_expiry : List ℕ → Sample
title_and_expiry s = Predicate.and (
    Predicates.cons (Predicate.title_contains s)
      (Predicates.cons (Predicate.not Predicate.expired) Predicates.nil))

abbrev compiled : CompiledPredicate ℕ
compiled = record {
  where_sql =
      codes
        "((entry.title LIKE ? ESCAPE '\\') AND (NOT (entry.expires_at IS NOT NULL AND entry.expires_at < ?)))";
  params = Value.text (codes "%50\\%%") ∷ Value.integer (pos 7) ∷ [];
}

compiles : compile (pos 7) (title_and_expiry (codes "50%")) ≡ Result.ok compiled
unfolding compile like_contains escape_like parenthesised join
compiles = refl

compile-placeholders_example : placeholders compiled.where_sql ≡ length compiled.params
compile-placeholders_example =
    compile-placeholders (pos 7) (title_and_expiry (codes "50%")) compiled compiles

same_shape : blank 0 (title_and_expiry (codes "a' OR 1=1")) ≡ blank 0 (title_and_expiry (codes "b"))
unfolding blank
same_shape = refl

compile-shape_example :
    text_of (compile (pos 7) (title_and_expiry (codes "a' OR 1=1")))
    ≡ text_of (compile (pos 9) (title_and_expiry (codes "b")))
compile-shape_example =
    compile-shape 0 (pos 7) (pos 9) (title_and_expiry (codes "a' OR 1=1"))
      (title_and_expiry (codes "b")) same_shape

-- Documents are numbers: 7 is the text of `expired`, and all others have a type that is not known.
abbrev serde : Serde ℕ ℕ ℕ
serde = record {
  type_str = λ j. if j == 7 then some (codes "expired") else some (codes "matches_regex");
  to_value = λ k. 7;
  from_value = λ j. if j == 7 then Wire.Result.ok KnownPredicate.expired else Wire.Result.err j;
}

strange_kept : deserialize serde 3 ≡ Wire.Result.ok (Predicate.unknown 3)
unfolding deserialize is_unknown_type_error eq_text known_type_discriminators
strange_kept = refl

-- ===== src/Predicate/Wire.antt =====
-- The wire format of predicates (crates/keys-engine/src/predicate.rs): the tagged union that serde
-- derives is another crate's code, a parameter, and so is the reading of a JSON object's "type".
pub mod Unknown
use keys_core.Base.{
  eq_text, ℕ, ℤ, Bool, true, false, Option, none, some, List, [], ◌∷◌, ◌≡◌, refl, codes,
  if◌then◌else◌, any, Bool-cases, inl, inr, sym, ap, ◌∙◌, subst, ◌⊎◌,
}
use mathlib.Core.Option
use keys_core.Predicate.{StrengthBucket, Duration, Predicate, Predicates, is_evaluable}

pub data KnownPredicate (J F : Type 0) : Type 0 where
  and : Predicates J F → KnownPredicate J F
  or : Predicates J F → KnownPredicate J F
  not : Predicate J F → KnownPredicate J F
  title_contains : List ℕ → KnownPredicate J F
  url_contains : List ℕ → KnownPredicate J F
  username_contains : List ℕ → KnownPredicate J F
  url_host_equals : List ℕ → KnownPredicate J F
  tag_equals : List ℕ → KnownPredicate J F
  tag_has_any : List (List ℕ) → KnownPredicate J F
  tag_has_all : List (List ℕ) → KnownPredicate J F
  modified_within : Duration → KnownPredicate J F
  modified_before : ℤ → KnownPredicate J F
  expired : KnownPredicate J F
  expiring_within : Duration → KnownPredicate J F
  strength_below : StrengthBucket → KnownPredicate J F
  entropy_below : F → KnownPredicate J F
  duplicates : KnownPredicate J F
  group : List ℕ → KnownPredicate J F

-- `Result` with serde's error.
pub data Result (E A : Type 0) : Type 0 where
  ok : A → Result E A
  err : E → Result E A

module _ {J F : Type 0} where
  -- `From<KnownPredicate> for Predicate`.
  unfoldable pub from_known : KnownPredicate J F → Predicate J F
  from_known (KnownPredicate.and x) = Predicate.and x
  from_known (KnownPredicate.or x) = Predicate.or x
  from_known (KnownPredicate.not x) = Predicate.not x
  from_known (KnownPredicate.title_contains x) = Predicate.title_contains x
  from_known (KnownPredicate.url_contains x) = Predicate.url_contains x
  from_known (KnownPredicate.username_contains x) = Predicate.username_contains x
  from_known (KnownPredicate.url_host_equals x) = Predicate.url_host_equals x
  from_known (KnownPredicate.tag_equals x) = Predicate.tag_equals x
  from_known (KnownPredicate.tag_has_any x) = Predicate.tag_has_any x
  from_known (KnownPredicate.tag_has_all x) = Predicate.tag_has_all x
  from_known (KnownPredicate.modified_within x) = Predicate.modified_within x
  from_known (KnownPredicate.modified_before x) = Predicate.modified_before x
  from_known KnownPredicate.expired = Predicate.expired
  from_known (KnownPredicate.expiring_within x) = Predicate.expiring_within x
  from_known (KnownPredicate.strength_below x) = Predicate.strength_below x
  from_known (KnownPredicate.entropy_below x) = Predicate.entropy_below x
  from_known KnownPredicate.duplicates = Predicate.duplicates
  from_known (KnownPredicate.group x) = Predicate.group x

  unfoldable pub as_known : Predicate J F → Option (KnownPredicate J F)
  as_known (Predicate.and x) = some (KnownPredicate.and x)
  as_known (Predicate.or x) = some (KnownPredicate.or x)
  as_known (Predicate.not x) = some (KnownPredicate.not x)
  as_known (Predicate.title_contains x) = some (KnownPredicate.title_contains x)
  as_known (Predicate.url_contains x) = some (KnownPredicate.url_contains x)
  as_known (Predicate.username_contains x) = some (KnownPredicate.username_contains x)
  as_known (Predicate.url_host_equals x) = some (KnownPredicate.url_host_equals x)
  as_known (Predicate.tag_equals x) = some (KnownPredicate.tag_equals x)
  as_known (Predicate.tag_has_any x) = some (KnownPredicate.tag_has_any x)
  as_known (Predicate.tag_has_all x) = some (KnownPredicate.tag_has_all x)
  as_known (Predicate.modified_within x) = some (KnownPredicate.modified_within x)
  as_known (Predicate.modified_before x) = some (KnownPredicate.modified_before x)
  as_known Predicate.expired = some KnownPredicate.expired
  as_known (Predicate.expiring_within x) = some (KnownPredicate.expiring_within x)
  as_known (Predicate.strength_below x) = some (KnownPredicate.strength_below x)
  as_known (Predicate.entropy_below x) = some (KnownPredicate.entropy_below x)
  as_known Predicate.duplicates = some KnownPredicate.duplicates
  as_known (Predicate.group x) = some (KnownPredicate.group x)
  as_known (Predicate.unknown j) = none

  -- `if let Self::Unknown(value) = self`.
  unfoldable pub unknown_value : Predicate J F → Option J
  unknown_value (Predicate.unknown value) = some value
  unknown_value _ = none

unfoldable pub known_type_discriminators : List (List ℕ)
known_type_discriminators =
    codes "and"
    ∷ codes "or"
    ∷ codes "not"
    ∷ codes "title_contains"
    ∷ codes "url_contains"
    ∷ codes "username_contains"
    ∷ codes "url_host_equals"
    ∷ codes "tag_equals"
    ∷ codes "tag_has_any"
    ∷ codes "tag_has_all"
    ∷ codes "modified_within"
    ∷ codes "modified_before"
    ∷ codes "expired"
    ∷ codes "expiring_within"
    ∷ codes "strength_below"
    ∷ codes "entropy_below"
    ∷ codes "duplicates"
    ∷ codes "group"
    ∷ []

-- The "type" of a JSON object, if it is a string, and serde's derived reader and writer.
pub record Serde (J F E : Type 0) : Type 0 where
  pub type_str : J → Option (List ℕ)
  pub to_value : KnownPredicate J F → J
  pub from_value : J → Result E (KnownPredicate J F)

module _ {J F E : Type 0} (s : Serde J F E) where
  unfoldable pub is_unknown_type_error : J → Bool
  is_unknown_type_error value = elim (s.type_str value) [
    | none ↦ false
    | some type_str ↦ (if any (eq_text type_str) known_type_discriminators then false else true)
  ]

  -- `none` stands for the `expect` that a known variant converts.
  unfoldable pub serialize : Predicate J F → Option J
  serialize p = elim (unknown_value p) [
    | some value ↦ some value
    | none ↦ Option.map s.to_value (as_known p)
  ]

  unfoldable pub deserialize : J → Result E (Predicate J F)
  deserialize value = elim (s.from_value value) [
    | ok known ↦ ok (from_known known)
    | err known_err ↦
        if is_unknown_type_error value then ok (Predicate.unknown value) else err known_err
  ]

from_known-some :
    {J F : Type 0} {a k : KnownPredicate J F} → some a ≡ some k → from_known k ≡ from_known a
from_known-some h = cc

as_known-from_known :
    {J F : Type 0} (p : Predicate J F) (k : KnownPredicate J F)
    → as_known p ≡ some k
    → from_known k ≡ p
unfolding as_known from_known
as_known-from_known (Predicate.and x) k h = from_known-some h
as_known-from_known (Predicate.or x) k h = from_known-some h
as_known-from_known (Predicate.not x) k h = from_known-some h
as_known-from_known (Predicate.title_contains x) k h = from_known-some h
as_known-from_known (Predicate.url_contains x) k h = from_known-some h
as_known-from_known (Predicate.username_contains x) k h = from_known-some h
as_known-from_known (Predicate.url_host_equals x) k h = from_known-some h
as_known-from_known (Predicate.tag_equals x) k h = from_known-some h
as_known-from_known (Predicate.tag_has_any x) k h = from_known-some h
as_known-from_known (Predicate.tag_has_all x) k h = from_known-some h
as_known-from_known (Predicate.modified_within x) k h = from_known-some h
as_known-from_known (Predicate.modified_before x) k h = from_known-some h
as_known-from_known Predicate.expired k h = from_known-some h
as_known-from_known (Predicate.expiring_within x) k h = from_known-some h
as_known-from_known (Predicate.strength_below x) k h = from_known-some h
as_known-from_known (Predicate.entropy_below x) k h = from_known-some h
as_known-from_known Predicate.duplicates k h = from_known-some h
as_known-from_known (Predicate.group x) k h = from_known-some h
as_known-from_known (Predicate.unknown x) k h = cc

unknown_value-from_known :
    {J F : Type 0} (k : KnownPredicate J F) → unknown_value (from_known k) ≡ none
unfolding unknown_value from_known
unknown_value-from_known (KnownPredicate.and x) = refl
unknown_value-from_known (KnownPredicate.or x) = refl
unknown_value-from_known (KnownPredicate.not x) = refl
unknown_value-from_known (KnownPredicate.title_contains x) = refl
unknown_value-from_known (KnownPredicate.url_contains x) = refl
unknown_value-from_known (KnownPredicate.username_contains x) = refl
unknown_value-from_known (KnownPredicate.url_host_equals x) = refl
unknown_value-from_known (KnownPredicate.tag_equals x) = refl
unknown_value-from_known (KnownPredicate.tag_has_any x) = refl
unknown_value-from_known (KnownPredicate.tag_has_all x) = refl
unknown_value-from_known (KnownPredicate.modified_within x) = refl
unknown_value-from_known (KnownPredicate.modified_before x) = refl
unknown_value-from_known KnownPredicate.expired = refl
unknown_value-from_known (KnownPredicate.expiring_within x) = refl
unknown_value-from_known (KnownPredicate.strength_below x) = refl
unknown_value-from_known (KnownPredicate.entropy_below x) = refl
unknown_value-from_known KnownPredicate.duplicates = refl
unknown_value-from_known (KnownPredicate.group x) = refl

pub Result-cases :
    {E A : Type 0} (r : Result E A) → ((a : A) × (r ≡ Result.ok a)) ⊎ ((e : E) × (r ≡ Result.err e))
Result-cases (Result.ok a) = inl (a, refl)
Result-cases (Result.err e) = inr (e, refl)

pub ok_inj : {E A : Type 0} {a b : A} → ◌≡◌ {A = Result E A} (Result.ok a) (Result.ok b) → a ≡ b
ok_inj h = cc

pub ok_clash :
    {E A : Type 0} {e : E} {b : A} → ◌≡◌ {A = Result E A} (Result.err e) (Result.ok b) → ⊥
ok_clash h = cc

pub unknown_inj :
    {J F : Type 0} {a b : J}
    → ◌≡◌ {A = Predicate J F} (Predicate.unknown a) (Predicate.unknown b)
    → a ≡ b
unknown_inj h = cc

pub some_clash :
    {J F : Type 0} (kept : J) (k : KnownPredicate J F) → from_known k ≡ Predicate.unknown kept → ⊥
unfolding unknown_value
some_clash kept k h =
    let clash : none ≡ some kept = sym (unknown_value-from_known k) ∙ ap unknown_value h in cc

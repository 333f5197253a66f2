-- ===== src/Predicate/Wire/Unknown.antt =====
-- Which documents are kept as unknown (`Deserialize` and `is_unknown_type_error` of
-- crates/keys-engine/src/predicate.rs).
use keys_core.Base.{ℕ, some, List, [], ◌∷◌, ◌≡◌, ◌≢◌, codes}
use keys_core.Predicate.{Predicate}
use keys_core.Predicate.Wire.{KnownPredicate, Serde}

-- The variants of the tagged union, without their fields.
pub data Variant : Type 0 where
  and or not title_contains url_contains username_contains url_host_equals : Variant
  tag_equals tag_has_any tag_has_all modified_within modified_before : Variant
  expired expiring_within strength_below entropy_below duplicates group : Variant

abbrev pub variant_of : {J F : Type 0} → KnownPredicate J F → Variant
variant_of (KnownPredicate.and x) = Variant.and
variant_of (KnownPredicate.or x) = Variant.or
variant_of (KnownPredicate.not x) = Variant.not
variant_of (KnownPredicate.title_contains x) = Variant.title_contains
variant_of (KnownPredicate.url_contains x) = Variant.url_contains
variant_of (KnownPredicate.username_contains x) = Variant.username_contains
variant_of (KnownPredicate.url_host_equals x) = Variant.url_host_equals
variant_of (KnownPredicate.tag_equals x) = Variant.tag_equals
variant_of (KnownPredicate.tag_has_any x) = Variant.tag_has_any
variant_of (KnownPredicate.tag_has_all x) = Variant.tag_has_all
variant_of (KnownPredicate.modified_within x) = Variant.modified_within
variant_of (KnownPredicate.modified_before x) = Variant.modified_before
variant_of KnownPredicate.expired = Variant.expired
variant_of (KnownPredicate.expiring_within x) = Variant.expiring_within
variant_of (KnownPredicate.strength_below x) = Variant.strength_below
variant_of (KnownPredicate.entropy_below x) = Variant.entropy_below
variant_of KnownPredicate.duplicates = Variant.duplicates
variant_of (KnownPredicate.group x) = Variant.group

-- Its name on the wire, by `#[serde(tag = "type", rename_all = "snake_case")]`.
abbrev pub tag : Variant → List ℕ
tag Variant.and = codes "and"
tag Variant.or = codes "or"
tag Variant.not = codes "not"
tag Variant.title_contains = codes "title_contains"
tag Variant.url_contains = codes "url_contains"
tag Variant.username_contains = codes "username_contains"
tag Variant.url_host_equals = codes "url_host_equals"
tag Variant.tag_equals = codes "tag_equals"
tag Variant.tag_has_any = codes "tag_has_any"
tag Variant.tag_has_all = codes "tag_has_all"
tag Variant.modified_within = codes "modified_within"
tag Variant.modified_before = codes "modified_before"
tag Variant.expired = codes "expired"
tag Variant.expiring_within = codes "expiring_within"
tag Variant.strength_below = codes "strength_below"
tag Variant.entropy_below = codes "entropy_below"
tag Variant.duplicates = codes "duplicates"
tag Variant.group = codes "group"

variants : List Variant
variants =
    Variant.and ∷ Variant.or ∷ Variant.not ∷ Variant.title_contains ∷ Variant.url_contains
    ∷ Variant.username_contains ∷ Variant.url_host_equals ∷ Variant.tag_equals ∷ Variant.tag_has_any
    ∷ Variant.tag_has_all ∷ Variant.modified_within ∷ Variant.modified_before ∷ Variant.expired
    ∷ Variant.expiring_within ∷ Variant.strength_below ∷ Variant.entropy_below ∷ Variant.duplicates
    ∷ Variant.group ∷ []

-- The "type" of the value is a string and no variant's name.
pub record IsStrange {J F E : Type 0} (s : Serde J F E) (value : J) : Type 0 where
  pub type_str : List ℕ
  pub typed : s.type_str value ≡ some type_str
  pub strange : (v : Variant) → tag v ≢ type_str

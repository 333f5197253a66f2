-- ===== src/Base/Order.antt =====
-- Rust's `Ord` as the merge rules use it: on integers, options (`None` first), tuples (the first
-- difference decides) and strings (by their code points, which is the order of their UTF-8 bytes).
use Prim.Native.Nat.{ℕ}
use Prim.Native.Char.{code}
use Prim.Native.String.{String}
use mathlib.Core.Path.{◌≡◌, refl, ap, ap₂}
use mathlib.Core.Logic.{◌⊎◌, inl, inr}
use mathlib.Core.Bool.{Bool, true, false}
use mathlib.Core.Option.{Option, none, some}
use native.Mathlib.Omega.{arith}
use text.Mathlib.TextEquality.{Char-path}
use keys_core.Base.Tests.{leb, if◌then◌else◌, Bool-cases}
use keys_core.Base.Int.{ℤ, pos, negsuc, ◌≤ℤ◌}

-- `a <= b`, with the laws of a total order.
pub record Ord {ℓ} (A : Type ℓ) : Type ℓ where
  pub leq : A → A → Bool
  pub leq_total : (a b : A) → (leq a b ≡ true) ⊎ (leq b a ≡ true)
  pub leq_antisym : (a b : A) → leq a b ≡ true → leq b a ≡ true → a ≡ b
  pub leq_trans : (a b c : A) → leq a b ≡ true → leq b c ≡ true → leq a c ≡ true

module _ {ℓ} {A : Type ℓ} ⦃o : Ord A⦄ where
  abbrev pub leq : A → A → Bool
  leq = o.leq

  leq_refl : (a : A) → leq a a ≡ true
  leq_refl a = elim (o.leq_total a a) [ inl h ↦ h | inr h ↦ h ]

  unfoldable pub later : A → A → A
  later a b = if leq b a then a else b

  -- `Ord::min`.
  unfoldable pub earlier : A → A → A
  earlier a b = if leq a b then a else b

  pub later_comm : (a b : A) → later a b ≡ later b a
  unfolding later
  later_comm a b = ground (arith, o.leq_total a b, o.leq_antisym a b)

  pub earlier_comm : (a b : A) → earlier a b ≡ earlier b a
  unfolding earlier
  earlier_comm a b = ground (arith, o.leq_total a b, o.leq_antisym a b)

  pub later_idem : (a : A) → later a a ≡ a
  unfolding later
  later_idem a = rw (leq_refl a) refl

  pub earlier_idem : (a : A) → earlier a a ≡ a
  unfolding earlier
  earlier_idem a = rw (leq_refl a) refl

  pub later_assoc : (a b c : A) → later (later a b) c ≡ later a (later b c)
  unfolding later
  later_assoc a b c = ground (
    arith,
    o.leq_total a b,
    o.leq_total b c,
    o.leq_total a c,
    o.leq_trans c b a,
    o.leq_trans a b c,
    o.leq_antisym a c,
  )

  pub earlier_assoc : (a b c : A) → earlier (earlier a b) c ≡ earlier a (earlier b c)
  unfolding earlier
  earlier_assoc a b c = ground (
    arith,
    o.leq_total a b,
    o.leq_total b c,
    o.leq_total a c,
    o.leq_trans c b a,
    o.leq_trans a b c,
    o.leq_antisym a c,
  )

pub leb_total : (a b : ℕ) → (leb a b ≡ true) ⊎ (leb b a ≡ true)
leb_total a b = elim (Bool-cases (leb a b)) [ inl h ↦ inl h | inr h ↦ inr (ground arith) ]

pub leb_antisym : (a b : ℕ) → leb a b ≡ true → leb b a ≡ true → a ≡ b
leb_antisym a b h k = ground arith

pub leb_trans : (a b c : ℕ) → leb a b ≡ true → leb b c ≡ true → leb a c ≡ true
leb_trans a b c h k = ground arith

instance abbrev pub nat_ord : Ord ℕ
nat_ord = record {
  leq = leb;
  leq_total = leb_total;
  leq_antisym = leb_antisym;
  leq_trans = leb_trans;
}

abbrev pub leb_ℤ : ℤ → ℤ → Bool
leb_ℤ (pos m) (pos n) = leb m n
leb_ℤ (pos m) (negsuc n) = false
leb_ℤ (negsuc m) (pos n) = true
leb_ℤ (negsuc m) (negsuc n) = leb n m

pub leb_ℤ-total : (a b : ℤ) → (leb_ℤ a b ≡ true) ⊎ (leb_ℤ b a ≡ true)
leb_ℤ-total (pos m) (pos n) = leb_total m n
leb_ℤ-total (pos m) (negsuc n) = inr refl
leb_ℤ-total (negsuc m) (pos n) = inl refl
leb_ℤ-total (negsuc m) (negsuc n) = leb_total n m

pub leb_ℤ-antisym : (a b : ℤ) → leb_ℤ a b ≡ true → leb_ℤ b a ≡ true → a ≡ b
leb_ℤ-antisym (pos m) (pos n) h k = ap pos (leb_antisym m n h k)
leb_ℤ-antisym (pos m) (negsuc n) h k = cc
leb_ℤ-antisym (negsuc m) (pos n) h k = cc
leb_ℤ-antisym (negsuc m) (negsuc n) h k = ap negsuc (leb_antisym m n k h)

pub leb_ℤ-trans : (a b c : ℤ) → leb_ℤ a b ≡ true → leb_ℤ b c ≡ true → leb_ℤ a c ≡ true
leb_ℤ-trans (pos l) (pos m) (pos n) h k = leb_trans l m n h k
leb_ℤ-trans (pos l) (pos m) (negsuc n) h k = cc
leb_ℤ-trans (pos l) (negsuc m) c h k = cc
leb_ℤ-trans (negsuc l) b (pos n) h k = refl
leb_ℤ-trans (negsuc l) (pos m) (negsuc n) h k = cc
leb_ℤ-trans (negsuc l) (negsuc m) (negsuc n) h k = leb_trans n m l k h

pub leb_ℤ-le : (a b : ℤ) → leb_ℤ a b ≡ true → a ≤ℤ b
leb_ℤ-le (pos m) (pos n) h = ground arith
leb_ℤ-le (pos m) (negsuc n) h = cc
leb_ℤ-le (negsuc m) (pos n) h = omega arith
leb_ℤ-le (negsuc m) (negsuc n) h = ground arith

pub le-leb_ℤ : (a b : ℤ) → a ≤ℤ b → leb_ℤ a b ≡ true
le-leb_ℤ (pos m) (pos n) h = ground arith
le-leb_ℤ (pos m) (negsuc n) h = absurd (omega arith)
le-leb_ℤ (negsuc m) (pos n) h = refl
le-leb_ℤ (negsuc m) (negsuc n) h = ground arith

instance abbrev pub int_ord : Ord ℤ
int_ord = record {
  leq = leb_ℤ;
  leq_total = leb_ℤ-total;
  leq_antisym = leb_ℤ-antisym;
  leq_trans = leb_ℤ-trans;
}

module _ {ℓ} {A : Type ℓ} ⦃o : Ord A⦄ where
  abbrev pub leb_option : Option A → Option A → Bool
  leb_option none b = true
  leb_option (some a) none = false
  leb_option (some a) (some b) = o.leq a b

  pub leb_option-total : (a b : Option A) → (leb_option a b ≡ true) ⊎ (leb_option b a ≡ true)
  leb_option-total none b = inl refl
  leb_option-total (some a) none = inr refl
  leb_option-total (some a) (some b) = o.leq_total a b

  pub leb_option-antisym : (a b : Option A) → leb_option a b ≡ true → leb_option b a ≡ true → a ≡ b
  leb_option-antisym none none h k = refl
  leb_option-antisym none (some b) h k = cc
  leb_option-antisym (some a) none h k = cc
  leb_option-antisym (some a) (some b) h k = ap some (o.leq_antisym a b h k)

  pub leb_option_trans :
      (a b c : Option A) → leb_option a b ≡ true → leb_option b c ≡ true → leb_option a c ≡ true
  leb_option_trans none b c h k = refl
  leb_option_trans (some a) none c h k = cc
  leb_option_trans (some a) (some b) none h k = cc
  leb_option_trans (some a) (some b) (some c) h k = o.leq_trans a b c h k

  instance abbrev pub option_ord : Ord (Option A)
  option_ord = record {
    leq = leb_option;
    leq_total = leb_option-total;
    leq_antisym = leb_option-antisym;
    leq_trans = leb_option_trans;
  }

module _ {ℓ κ} {A : Type ℓ} {B : Type κ} ⦃o : Ord A⦄ ⦃q : Ord B⦄ where
  abbrev pub leb_pair : A × B → A × B → Bool
  leb_pair (a, b) (c, d) = if o.leq c a then (if o.leq a c then q.leq b d else false) else true

  pub leb_pair-total : (x y : A × B) → (leb_pair x y ≡ true) ⊎ (leb_pair y x ≡ true)
  leb_pair-total (a, b) (c, d) = elim (o.leq_total a c) [
    | inl h ↦ elim (Bool-cases (o.leq c a)) [
      | inl k ↦ rw (h, k) (q.leq_total b d)
      | inr k ↦ inl (rw k refl)
    ]
    | inr h ↦ elim (Bool-cases (o.leq a c)) [
      | inl k ↦ rw (h, k) (q.leq_total b d)
      | inr k ↦ inr (rw k refl)
    ]
  ]

  pub leb_pair-antisym : (x y : A × B) → leb_pair x y ≡ true → leb_pair y x ≡ true → x ≡ y
  leb_pair-antisym (a, b) (c, d) h k = elim (Bool-cases (o.leq c a)) [
    | inl ca ↦ elim (Bool-cases (o.leq a c)) [
      | inl ac ↦
          ap₂ (λ u v. (u, v)) (o.leq_antisym a c ac ca)
            (q.leq_antisym b d (ground arith) (ground arith))
      | inr ac ↦ absurd (ground arith)
    ]
    | inr ca ↦ elim (o.leq_total a c) [
      | inl ac ↦ absurd (ground arith)
      | inr back ↦ absurd (cc (back, ca))
    ]
  ]

  pub leb_pair_trans :
      (x y z : A × B) → leb_pair x y ≡ true → leb_pair y z ≡ true → leb_pair x z ≡ true
  leb_pair_trans (a, b) (c, d) (e, f) h k = ground (
    arith,
    o.leq_total a c,
    o.leq_total c e,
    o.leq_trans c e a,
    o.leq_trans e a c,
    o.leq_trans a c e,
    q.leq_trans b d f,
  )

  instance abbrev pub pair_ord : Ord (A × B)
  pair_ord = record {
    leq = leb_pair;
    leq_total = leb_pair-total;
    leq_antisym = leb_pair-antisym;
    leq_trans = leb_pair_trans;
  }

abbrev pub leb_string : String → String → Bool
leb_string String.[] t = true
leb_string (String.◌∷◌ c s) String.[] = false
leb_string (String.◌∷◌ c s) (String.◌∷◌ d t) =
    let rest = leb_string s t in
    if leb (code d) (code c) then (if leb (code c) (code d) then rest else false) else true

pub leb_string-total : (s t : String) → (leb_string s t ≡ true) ⊎ (leb_string t s ≡ true)
leb_string-total String.[] t = inl refl
leb_string-total (String.◌∷◌ c s) String.[] = inr refl
leb_string-total (String.◌∷◌ c s) (String.◌∷◌ d t) = elim (leb_string-total s t) [
  | inl h ↦ elim (Bool-cases (leb (code d) (code c))) [
    | inl k ↦ elim (Bool-cases (leb (code c) (code d))) [
      | inl l ↦ inl (rw (k, l) h)
      | inr l ↦ inr (rw (k, l) refl)
    ]
    | inr k ↦ inl (rw k refl)
  ]
  | inr h ↦ elim (Bool-cases (leb (code c) (code d))) [
    | inl k ↦ elim (Bool-cases (leb (code d) (code c))) [
      | inl l ↦ inr (rw (k, l) h)
      | inr l ↦ inl (rw (k, l) refl)
    ]
    | inr k ↦ inr (rw k refl)
  ]
]

pub leb_string-antisym : (s t : String) → leb_string s t ≡ true → leb_string t s ≡ true → s ≡ t
leb_string-antisym String.[] String.[] h k = refl
leb_string-antisym String.[] (String.◌∷◌ d t) h k = cc
leb_string-antisym (String.◌∷◌ c s) String.[] h k = cc
leb_string-antisym (String.◌∷◌ c s) (String.◌∷◌ d t) h k =
    let same : code c ≡ code d = ground arith in
    ap₂ String.◌∷◌ (Char-path c d same) (leb_string-antisym s t (ground arith) (ground arith))

pub leb_string_trans :
    (s t r : String) → leb_string s t ≡ true → leb_string t r ≡ true → leb_string s r ≡ true
leb_string_trans String.[] t r h k = refl
leb_string_trans (String.◌∷◌ c s) String.[] r h k = cc
leb_string_trans (String.◌∷◌ c s) (String.◌∷◌ d t) String.[] h k = cc
leb_string_trans (String.◌∷◌ c s) (String.◌∷◌ d t) (String.◌∷◌ e r) h k =
    ground (arith, leb_string_trans s t r)

instance abbrev pub string_ord : Ord String
string_ord = record {
  leq = leb_string;
  leq_total = leb_string-total;
  leq_antisym = leb_string-antisym;
  leq_trans = leb_string_trans;
}

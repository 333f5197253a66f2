-- ===== src/Settings/Scalars.antt =====
-- Settings written and read back (crates/keys-engine/src/meta.rs).
use keys_core.Base.{
  ℕ, zero, suc, ◌-◌, ◌*◌, ◌/◌, ◌<◌, ◌≡◌, refl, sym, ap, subst, ◌∙◌, arith, ℤ, pos, negsuc, true,
  false, some, List, [], ◌∷◌, ltb, if◌then◌else◌, length, eq_text, Bool-cases, inl, inr, ==_refl,
}
use keys_core.Base.Fallible.{ok, ◌>>=◌}
use keys_core.Settings.{
  Text, Settings, drop_key, set_blob, get_blob, to_le_bytes, from_le_bytes, size, wrapped,
  unwrapped, set_i32, set_i64, as_array, decoded, get_i32, get_i64, key_history_max_items,
  key_history_max_size, unwrap_or, read_history_max_items, read_history_max_size,
  write_history_max_items, write_history_max_size,
}

eq_text_refl : (k : Text) → eq_text k k ≡ true
unfolding eq_text
eq_text_refl [] = refl
eq_text_refl (c ∷ cs) = rw (==_refl c, eq_text_refl cs) refl

eq_text-eq : (j k : Text) → eq_text j k ≡ true → j ≡ k
unfolding eq_text
eq_text-eq [] [] h = refl
eq_text-eq [] (d ∷ ds) h = absurd cc
eq_text-eq (c ∷ cs) [] h = absurd cc
eq_text-eq (c ∷ cs) (d ∷ ds) h =
    let head : c ≡ d = ground (arith, h) in
    let tail : eq_text cs ds ≡ true = ground (arith, h) in
    rw head (ap (λ t. d ∷ t) (eq_text-eq cs ds tail))

get_blob-set_self : (k : Text) (v : List ℕ) (s : Settings) → get_blob k (set_blob k v s) ≡ some v
unfolding set_blob drop_key get_blob
get_blob-set_self k v [] = rw (eq_text_refl k) refl
get_blob-set_self k v (r ∷ rs) = elim (Bool-cases (eq_text r.0 k)) [
  | inl same ↦ rw (same, set_blob, drop_key) (get_blob-set_self k v rs)
  | inr other ↦ rw (other, set_blob, drop_key) (rw (other, get_blob) (get_blob-set_self k v rs))
]

get_blob-set_other :
    (j k : Text) (v : List ℕ) (s : Settings)
    → eq_text k j ≡ false
    → get_blob j (set_blob k v s) ≡ get_blob j s
unfolding set_blob drop_key get_blob
get_blob-set_other j k v [] h = rw h refl
get_blob-set_other j k v (r ∷ rs) h = elim (Bool-cases (eq_text r.0 k)) [
  | inl same ↦
      (let off : eq_text r.0 j ≡ false =
          subst (λ t. eq_text t j ≡ false) (sym (eq_text-eq r.0 k same)) h in
        rw (same, set_blob, drop_key)
          (get_blob-set_other j k v rs h ∙ sym (rw (off, get_blob) refl)))
  | inr other ↦
      rw (other, set_blob, drop_key)
        (ap (λ t. if eq_text r.0 j then some r.1 else t) (get_blob-set_other j k v rs h))
]

length-to_le_bytes : (n u : ℕ) → length (to_le_bytes n u) ≡ n
unfolding to_le_bytes
length-to_le_bytes zero u = refl
length-to_le_bytes (suc n) u = ap suc (length-to_le_bytes n (u / 256))

from_le_bytes-to_le_bytes : (n u : ℕ) → u < size n → from_le_bytes (to_le_bytes n u) ≡ u
unfolding to_le_bytes from_le_bytes
from_le_bytes-to_le_bytes zero u h = omega (arith, h)
from_le_bytes-to_le_bytes (suc n) u h =
    let rest = from_le_bytes-to_le_bytes n (u / 256) (omega (arith, h)) in omega (arith, rest)

-- The integers of n bytes.
abbrev pub Fits : ℕ → ℤ → Type 0
Fits n (pos a) = a < size n / 2
Fits n (negsuc a) = a < size n / 2

wrapped-lt : (n : ℕ) (v : ℤ) → Fits (suc n) v → wrapped (suc n) v < size (suc n)
unfolding wrapped
wrapped-lt n (pos a) h = omega (arith, h)
wrapped-lt n (negsuc a) h = omega (arith, h)

unwrapped-wrapped : (n : ℕ) (v : ℤ) → Fits (suc n) v → unwrapped (suc n) (wrapped (suc n) v) ≡ v
unfolding wrapped unwrapped
unwrapped-wrapped n (pos a) h = ground (arith, h)
unwrapped-wrapped n (negsuc a) h =
    let high : ltb (256 * size n - 1 - a) (256 * size n / 2) ≡ false = ground (arith, h) in
    let back : 256 * size n - 1 - (256 * size n - 1 - a) ≡ a = omega (arith, h) in
    rw (high, unwrapped) (ap negsuc back)

get_i32-set_i32 :
    (k : Text) (v : ℤ) (s : Settings) → Fits 4 v → get_i32 k (set_i32 k v s) ≡ ok (some v)
unfolding get_i32 set_i32
get_i32-set_i32 k v s h =
    ap (λ b. as_array 4 k b >>= λ bytes. ok (decoded 4 bytes))
      (get_blob-set_self k (to_le_bytes 4 (wrapped 4 v)) s)
    ∙ rw (length-to_le_bytes 4 (wrapped 4 v)) (
        ap (λ u. ok (some (unwrapped 4 u)))
          (from_le_bytes-to_le_bytes 4 (wrapped 4 v) (wrapped-lt 3 v h)))
    ∙ ap (λ w. ok (some w)) (unwrapped-wrapped 3 v h)

get_i64-set_i64 :
    (k : Text) (v : ℤ) (s : Settings) → Fits 8 v → get_i64 k (set_i64 k v s) ≡ ok (some v)
unfolding get_i64 set_i64
get_i64-set_i64 k v s h =
    ap (λ b. as_array 8 k b >>= λ bytes. ok (decoded 8 bytes))
      (get_blob-set_self k (to_le_bytes 8 (wrapped 8 v)) s)
    ∙ rw (length-to_le_bytes 8 (wrapped 8 v)) (
        ap (λ u. ok (some (unwrapped 8 u)))
          (from_le_bytes-to_le_bytes 8 (wrapped 8 v) (wrapped-lt 7 v h)))
    ∙ ap (λ w. ok (some w)) (unwrapped-wrapped 7 v h)

-- For an i32 and an i64: after both history caps are written, in either order, each is read as it was
-- written, negative ones included.
pub read_history_caps-write :
    (items bytes default : ℤ) (s : Settings)
    → Fits 4 items
    → Fits 8 bytes
    → (read_history_max_items default
          (write_history_max_size bytes (write_history_max_items items s))
        ≡ ok items)
      × (read_history_max_size default
            (write_history_max_size bytes (write_history_max_items items s))
          ≡ ok bytes)
      × (read_history_max_items default
            (write_history_max_items items (write_history_max_size bytes s))
          ≡ ok items)
      × (read_history_max_size default
            (write_history_max_items items (write_history_max_size bytes s))
          ≡ ok bytes)
unfolding read_history_max_items read_history_max_size write_history_max_items
    write_history_max_size get_i32 get_i64 set_i32 set_i64 eq_text
read_history_caps-write items bytes default s fi fb = (
  ap
        (λ b. (as_array 4 key_history_max_items b >>= λ a. ok (decoded 4 a)) >>= λ v.
          ok (unwrap_or default v))
        (get_blob-set_other key_history_max_items key_history_max_size _ _ refl)
      ∙ ap (λ r. r >>= λ v. ok (unwrap_or default v))
          (get_i32-set_i32 key_history_max_items items s fi),
  ap (λ r. r >>= λ v. ok (unwrap_or default v)) (get_i64-set_i64 key_history_max_size bytes _ fb),
  ap (λ r. r >>= λ v. ok (unwrap_or default v)) (get_i32-set_i32 key_history_max_items items _ fi),
  ap
        (λ b. (as_array 8 key_history_max_size b >>= λ a. ok (decoded 8 a)) >>= λ v.
          ok (unwrap_or default v))
        (get_blob-set_other key_history_max_size key_history_max_items _ _ refl)
      ∙ ap (λ r. r >>= λ v. ok (unwrap_or default v))
          (get_i64-set_i64 key_history_max_size bytes s fb),
)

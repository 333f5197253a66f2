-- ===== src/Uuids/Distinct.antt =====
-- Ids of two sources (crates/keys-engine/src/uuid_source.rs).
use keys_core.Base.{
  ℕ, zero, suc, ◌+◌, ◌%◌, ◌<◌, ◌≤◌, ◌≡◌, ◌≢◌, refl, sym, ◌∙◌, subst, arith, List, [], ◌∷◌, ◌++◌,
  All,
}
use keys_core.Uuids.{new, u64_size, next_uuid, draws}

module _ {U : Type 0} where
  -- No value occurs twice.
  abbrev pub IsDistinct : List U → Type 0
  IsDistinct [] = Unit
  IsDistinct (u ∷ us) = All (λ v. v ≢ u) us × IsDistinct us

  pub IsDistinct-append :
      (xs ys : List U)
      → IsDistinct xs
      → IsDistinct ys
      → All (λ x. All (λ y. y ≢ x) ys) xs
      → IsDistinct (xs ++ ys)
  IsDistinct-append [] ys dx dy h = dy
  IsDistinct-append (x ∷ xs) ys (k, dx) dy (h, hs) = (join xs k, IsDistinct-append xs ys dx dy hs)
    where
      join : (zs : List U) → All (λ v. v ≢ x) zs → All (λ v. v ≢ x) (zs ++ ys)
      join [] ks = h
      join (z ∷ zs) (a, ks) = (a, join zs ks)

-- Two pairs of u64 with the same id are the same pair.
abbrev pub IsInjective : {U : Type 0} → (ℕ → ℕ → U) → Type 0
IsInjective pair =
    (a b c d : ℕ)
    → a < u64_size
    → b < u64_size
    → c < u64_size
    → d < u64_size
    → pair a b ≡ pair c d
    → (a ≡ c) × (b ≡ d)

module _ {U : Type 0} (pair : ℕ → ℕ → U) where
  -- An id of a source, from a count on.
  abbrev IsDrawn : ℕ → ℕ → U → Type 0
  IsDrawn seed low u = (n : ℕ) × (low ≤ n) × (n < u64_size) × (u ≡ pair seed n)

  later :
      (seed low high : ℕ) (us : List U)
      → low ≤ high
      → All (IsDrawn seed high) us
      → All (IsDrawn seed low) us
  later seed low high [] h d = tt
  later seed low high (u ∷ us) h ((n, above, below, is), d) =
      ((n, omega (arith, h, above), below, is), later seed low high us h d)

  -- The counter after one draw, when another follows.
  counted : (n c : ℕ) → c + suc (suc n) ≤ u64_size → (c + 1) % u64_size ≡ suc c
  counted n c h = omega (arith, h)

  draws-IsDrawn :
      (n seed c : ℕ)
      → c + n ≤ u64_size
      → All (IsDrawn seed c) (draws pair n (record { seed = seed; counter = c }))
  unfolding draws next_uuid
  draws-IsDrawn zero seed c h = tt
  draws-IsDrawn (suc zero) seed c h = ((c, omega arith, omega (arith, h), refl), tt)
  draws-IsDrawn (suc (suc n)) seed c h = (
    (c, omega arith, omega (arith, h), refl),
    subst (λ k. All (IsDrawn seed c) (draws pair (suc n) (record { seed = seed; counter = k })))
        (sym (counted n c h))
        (later seed c (suc c) (draws pair (suc n) (record { seed = seed; counter = suc c }))
          (omega arith) (draws-IsDrawn (suc n) seed (suc c) (omega (arith, h)))),
  )

  apart :
      (seed c : ℕ) (us : List U)
      → IsInjective pair
      → seed < u64_size
      → c < u64_size
      → All (IsDrawn seed (suc c)) us
      → All (λ v. v ≢ pair seed c) us
  apart seed c [] inj s k d = tt
  apart seed c (u ∷ us) inj s k ((n, above, below, is), d) = (
    (λ e. let (a, b) = inj seed n seed c s below s k (sym is ∙ e) in omega (arith, above, b)),
    apart seed c us inj s k d,
  )

  draws-IsDistinct_from :
      (n seed c : ℕ)
      → IsInjective pair
      → seed < u64_size
      → c + n ≤ u64_size
      → IsDistinct (draws pair n (record { seed = seed; counter = c }))
  unfolding draws next_uuid
  draws-IsDistinct_from zero seed c inj s h = tt
  draws-IsDistinct_from (suc zero) seed c inj s h = (tt, tt)
  draws-IsDistinct_from (suc (suc n)) seed c inj s h =
      subst
        (λ k. IsDistinct (pair seed c ∷ draws pair (suc n) (record { seed = seed; counter = k })))
        (sym (counted n c h))
        (
          apart seed c (draws pair (suc n) (record { seed = seed; counter = suc c })) inj s
              (omega (arith, h)) (draws-IsDrawn (suc n) seed (suc c) (omega (arith, h))),
          draws-IsDistinct_from (suc n) seed (suc c) inj s (omega (arith, h)),
        )

  across :
      (s t : ℕ) (xs ys : List U)
      → IsInjective pair
      → s < u64_size
      → t < u64_size
      → s ≢ t
      → All (IsDrawn s 0) xs
      → All (IsDrawn t 0) ys
      → All (λ x. All (λ y. y ≢ x) ys) xs
  across s t [] ys inj hs ht ne dx dy = tt
  across s t (x ∷ xs) ys inj hs ht ne ((n, above, below, is), dx) dy =
      (one ys dy, across s t xs ys inj hs ht ne dx dy)
    where
      one : (zs : List U) → All (IsDrawn t 0) zs → All (λ y. y ≢ x) zs
      one [] d = tt
      one (z ∷ zs) ((m, a, b, made), d) =
          ((λ e. let (p, q) = inj s n t m hs below ht b (sym is ∙ sym e ∙ made) in ne p), one zs d)

  -- When pairs of u64 make distinct ids: up to 2 ^ 64 ids of a fresh source and up to 2 ^ 64 ids of a
  -- fresh source with another seed are all distinct, within each source and across the two.
  pub draws-IsDistinct :
      (m n s t : ℕ)
      → IsInjective pair
      → m ≤ u64_size
      → n ≤ u64_size
      → s < u64_size
      → t < u64_size
      → s ≢ t
      → IsDistinct (draws pair m (new s) ++ draws pair n (new t))
  unfolding new
  draws-IsDistinct m n s t inj hm hn hs ht ne =
      IsDistinct-append (draws pair m (new s)) (draws pair n (new t))
        (draws-IsDistinct_from m s 0 inj hs (omega (arith, hm)))
        (draws-IsDistinct_from n t 0 inj ht (omega (arith, hn)))
        (across s t (draws pair m (new s)) (draws pair n (new t)) inj hs ht ne
          (draws-IsDrawn m s 0 (omega (arith, hm))) (draws-IsDrawn n t 0 (omega (arith, hn))))

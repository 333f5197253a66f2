-- ===== src/Urls/Agree.antt =====
-- The domain of a credential and the candidates of a page
-- (`credential_domain` and `domain_candidates` of crates/keys-engine/src/url_matcher.rs).
use keys_core.Base.{
  Option, some, List, ◌++◌, ◌≡◌, sym, ◌∙◌, ap, subst, arith, map, length, Option-cases, inl, inr,
}
use keys_core.Urls.{
  Text, Crates, named, ip, split_dots, join_dots, walk, normalise_host, domain_candidates,
  credential_domain,
}
use keys_core.Urls.Labels.{
  split_dots-∷, join_dots-split_dots, ends_from, walk-ends, last, last-ends,
}

-- A registrable domain is the last labels of its host: what the public suffix list's lookup returns.
abbrev pub IsSuffixList : {Url : Type 0} → Crates Url → Type 0
IsSuffixList c =
    (host reg : Text)
    → c.psl_domain host ≡ some reg
    → (pre : List Text) × (split_dots host ≡ pre ++ split_dots reg)

module _ {Url : Type 0} (c : Crates Url) where
  -- With a suffix list whose domains are the last labels of their hosts: the candidates of a page whose
  -- host has a registrable domain are the host and what is left of it label by label, down to that
  -- domain and no further.
  pub domain_candidates-ends :
      (s host reg : Text)
      → IsSuffixList c
      → normalise_host c s ≡ some (named host)
      → c.psl_domain host ≡ some reg
      → (pre : List Text) × (split_dots host ≡ pre ++ split_dots reg)
        × (domain_candidates c s ≡ map join_dots (ends_from pre (split_dots reg)))
  unfolding domain_candidates
  domain_candidates-ends s host reg suffix is found =
      let (pre, split) = suffix host reg found in
      let (l, ls, labels) = split_dots-∷ reg in
      let walked : walk c (length (split_dots reg)) (split_dots host)
          ≡ map join_dots (ends_from pre (split_dots reg)) =
        rw split (
          subst (λ x. walk c (length x) (pre ++ x) ≡ map join_dots (ends_from pre x)) (sym labels)
            (walk-ends c pre l ls)) in
      (pre, split, rw (is, found, domain_candidates) walked)

  -- With a suffix list whose domains are the last labels of their hosts: where a credential for a site
  -- is filed under a domain, that domain is the last candidate of the site.
  pub credential_domain-last :
      (s d : Text)
      → IsSuffixList c
      → credential_domain c s ≡ some d
      → last (domain_candidates c s) ≡ some d
  unfolding credential_domain domain_candidates
  credential_domain-last s d suffix h = elim (Option-cases (normalise_host c s)) [
    | inl nowhere ↦ absurd (ground arith)
    | inr (ip a, is) ↦ ground arith
    | inr (named host, is) ↦ elim (Option-cases (c.psl_domain host)) [
      | inl none_is ↦ ground arith
      | inr (reg, found) ↦
          let (pre, split, all) = domain_candidates-ends s host reg suffix is found in
          let same : reg ≡ d = ground arith in
          all_last all (last-ends pre (split_dots reg) ∙ ap some (join_dots-split_dots reg ∙ same))
    ]
  ]
    where
      all_last : {xs ys : List Text} {o : Option Text} → xs ≡ ys → last ys ≡ o → last xs ≡ o
      all_last i k = ap last i ∙ k

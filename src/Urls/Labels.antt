-- ===== src/Urls/Labels.antt =====
-- The labels of a host, and the walk over them (crates/keys-engine/src/url_matcher.rs).
use keys_core.Base.{
  ℕ, Option, none, some, List, [], ◌∷◌, ◌++◌, ◌==◌, ◌≡◌, refl, sym, ◌∙◌, ap, arith, map, length,
  length-append, Bool-cases, inl, inr, subst, ==_iff,
}
use keys_core.Urls.{Text, Crates, split_dots, join_dots, onto_head, walk}

pub split_dots-∷ : (t : Text) → (l : Text) × (ls : List Text) × (split_dots t ≡ l ∷ ls)
unfolding split_dots
split_dots-∷ [] = ([], [], refl)
split_dots-∷ (c ∷ cs) =
    let (l, ls, is) = split_dots-∷ cs in
    elim (Bool-cases (c == b'.')) [
      | inl dot ↦ ([], split_dots cs, rw dot refl)
      | inr other ↦ (c ∷ l, ls, rw (other, is) refl)
    ]

join_dots-onto_head :
    (c : ℕ) (l : Text) (ls : List Text) → join_dots (onto_head c (l ∷ ls)) ≡ c ∷ join_dots (l ∷ ls)
unfolding join_dots
join_dots-onto_head c l [] = refl
join_dots-onto_head c l (m ∷ ls) = refl

join_dots-empty : (l : Text) (ls : List Text) → join_dots ([] ∷ l ∷ ls) ≡ b'.' ∷ join_dots (l ∷ ls)
unfolding join_dots
join_dots-empty l ls = refl

-- A text is put together again from its labels.
pub join_dots-split_dots : (t : Text) → join_dots (split_dots t) ≡ t
unfolding split_dots join_dots
join_dots-split_dots [] = refl
join_dots-split_dots (c ∷ cs) =
    let (l, ls, is) = split_dots-∷ cs in
    let rest = join_dots-split_dots cs in
    elim (Bool-cases (c == b'.')) [
      | inl dot ↦
          let joined : join_dots ([] ∷ split_dots cs) ≡ b'.' ∷ join_dots (split_dots cs) =
            subst (λ x. join_dots ([] ∷ x) ≡ b'.' ∷ join_dots x) (sym is) (join_dots-empty l ls) in
          rw dot (joined ∙ ap (λ t. b'.' ∷ t) rest ∙ ap (λ x. x ∷ cs) (sym ((==_iff c b'.').0 dot)))
      | inr other ↦
          let joined : join_dots (onto_head c (split_dots cs)) ≡ c ∷ join_dots (split_dots cs) =
            subst (λ x. join_dots (onto_head c x) ≡ c ∷ join_dots x) (sym is)
              (join_dots-onto_head c l ls) in
          rw other (joined ∙ ap (λ t. c ∷ t) rest)
    ]

-- The ends of a list of labels, from the whole down to `ls`.
abbrev pub ends_from : List Text → List Text → List (List Text)
ends_from [] ls = ls ∷ []
ends_from (p ∷ pre) ls = (p ∷ pre ++ ls) ∷ ends_from pre ls

-- The walk gives every end of the labels that has at least those of the registrable domain.
pub walk-ends :
    {Url : Type 0} (c : Crates Url) (pre : List Text) (l : Text) (ls : List Text)
    → walk c (length (l ∷ ls)) (pre ++ l ∷ ls) ≡ map join_dots (ends_from pre (l ∷ ls))
unfolding walk
walk-ends c [] l ls = ground arith
walk-ends c (p ∷ pre) l ls = ground (arith, walk-ends c pre l ls, length-append pre (l ∷ ls))

-- The last of a list.
abbrev pub last : List Text → Option Text
last [] = none
last (t ∷ []) = some t
last (t ∷ s ∷ ts) = last (s ∷ ts)

pub last-ends :
    (pre : List Text) (ls : List Text)
    → last (map join_dots (ends_from pre ls)) ≡ some (join_dots ls)
last-ends [] ls = refl
last-ends (p ∷ []) ls = refl
last-ends (p ∷ q ∷ pre) ls = last-ends (q ∷ pre) ls

-- ===== src/Predicate/Sql/Escape.antt =====
-- Substrings in LIKE patterns (`escape_like` and `like_contains` of
-- crates/keys-engine/src/predicate_sql.rs).
use keys_core.Base.{
  ℕ, ◌≡◌, refl, arith, false, Option, none, some, List, [], ◌∷◌, ◌++◌, map, ◌==◌, ◌||◌,
  if◌then◌else◌, ◌>>=?◌, Bool-cases, inl, inr,
}
use keys_core.Predicate.Sql.{Value, escape_like, like_contains}

-- What SQLite documents of a LIKE pattern under `ESCAPE '\'`: `%` is any text, `_` any character, and
-- a backslash makes the next character stand for itself; a backslash at the end is an error.
pub data Token : Type 0 where
  any_text : Token
  any_char : Token
  literal : ℕ → Token

unfoldable pub token : ℕ → Token
token c =
    if c == b'%' then Token.any_text else (if c == b'_' then Token.any_char else Token.literal c)

unfoldable pub like_tokens : List ℕ → Option (List Token)
like_tokens [] = some []
like_tokens (c ∷ []) = if c == b'\\' then none else some (token c ∷ [])
like_tokens (c ∷ d ∷ cs) =
    let escaped = like_tokens cs in
    let rest = like_tokens (d ∷ cs) in
    if c == b'\\'
    then (escaped >>=? λ ts. some (Token.literal d ∷ ts))
    else (rest >>=? λ ts. some (token c ∷ ts))

abbrev tail_tokens : List Token
tail_tokens = Token.any_text ∷ []

tokens_plain :
    (c : ℕ) (cs : List ℕ) (ts : List Token)
    → (c == b'\\' || c == b'%' || c == b'_') ≡ false
    → like_tokens cs ≡ some ts
    → like_tokens (c ∷ cs) ≡ some (Token.literal c ∷ ts)
unfolding like_tokens token
tokens_plain c [] ts h e = ground (arith, e)
tokens_plain c (d ∷ cs) ts h e = ground (arith, e)

tokens_any :
    (cs : List ℕ) (ts : List Token)
    → like_tokens cs ≡ some ts
    → like_tokens (b'%' ∷ cs) ≡ some (Token.any_text ∷ ts)
unfolding like_tokens token
tokens_any [] ts e = ground (arith, e)
tokens_any (d ∷ cs) ts e = rw e refl

escaped-tokens :
    (s : List ℕ)
    → like_tokens (escape_like s ++ b'%' ∷ []) ≡ some (map Token.literal s ++ tail_tokens)
unfolding escape_like like_tokens token
escaped-tokens [] = refl
escaped-tokens (c ∷ cs) = elim (Bool-cases (c == b'\\' || c == b'%' || c == b'_')) [
  | inl special ↦ rw (special, escaped-tokens cs) refl
  | inr plain ↦ rw plain (
      tokens_plain c (escape_like cs ++ b'%' ∷ []) (map Token.literal cs ++ tail_tokens) plain
        (escaped-tokens cs))
]

-- The pattern that a substring is bound as means: any text, the substring's characters each as
-- itself, any text. No character of the substring acts as a wildcard or as an escape.
pub like_contains-tokens :
    {F : Type 0} (column s : List ℕ)
    → (pattern : List ℕ) × ((like_contains {F = F} column s).params ≡ Value.text pattern ∷ [])
      × (like_tokens pattern ≡ some (Token.any_text ∷ map Token.literal s ++ Token.any_text ∷ []))
unfolding like_contains like_tokens token
like_contains-tokens column s = (
  b'%' ∷ escape_like s ++ b'%' ∷ [],
  refl,
  tokens_any (escape_like s ++ b'%' ∷ []) _ (escaped-tokens s),
)

-- ===== src/Base/Fallible.antt =====
-- The results of fallible code, with the error as a parameter.
use mathlib.Core.Path.{◌≡◌, refl}

-- `Result<_, Er>`.
pub data Result (Er A : Type 0) : Type 0 where
  ok : A → Result Er A
  err : Er → Result Er A

infixl 5 ◌>>=◌
abbrev pub ◌>>=◌ : {Er A B : Type 0} → Result Er A → (A → Result Er B) → Result Er B
ok a >>= k = k a
err e >>= k = err e

pub >>=-eq-ok :
    {Er A B : Type 0} (r : Result Er A) (k : A → Result Er B) {b : B}
    → (r >>= k) ≡ ok b
    → (a : A) × (r ≡ ok a) × (k a ≡ ok b)
>>=-eq-ok (ok a) k h = (a, refl, h)
>>=-eq-ok (err e) k h = cc

pub >>=-ap :
    {Er A B : Type 0} (r : Result Er A) (k l : A → Result Er B)
    → ((a : A) → k a ≡ l a)
    → (r >>= k) ≡ (r >>= l)
>>=-ap (ok a) k l h = h a
>>=-ap (err e) k l h = refl

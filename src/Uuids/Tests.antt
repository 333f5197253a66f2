-- ===== src/Uuids/Tests.antt =====
-- Draws of two sources (crates/keys-engine/src/uuid_source.rs).
use keys_core.Base.{ℕ, ◌≡◌, refl, [], ◌∷◌, ap}
use keys_core.Uuids.{new, next_uuid, draws}
use keys_core.Uuids.Distinct.{IsInjective}

abbrev pair : ℕ → ℕ → ℕ × ℕ
pair a b = (a, b)

pair-IsInjective : IsInjective pair
pair-IsInjective a b c d ha hb hc hd e = (ap (λ p. p.0) e, ap (λ p. p.1) e)

drawn : draws pair 2 (new 7) ≡ (7, 0) ∷ (7, 1) ∷ []
unfolding draws next_uuid new
drawn = refl

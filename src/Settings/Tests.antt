-- ===== src/Settings/Tests.antt =====
-- Caps of one item and of no limit (crates/keys-engine/src/meta.rs).
use keys_core.Base.{◌≡◌, refl, [], ◌∷◌, codes, eq_text}
use keys_core.Base.Fallible.{err}
use keys_core.Settings.{get_blob, get_i64, wrong_length}

short_value : get_i64 (codes "k") ((codes "k", 1 ∷ []) ∷ []) ≡ err (wrong_length (codes "k") 8 1)
unfolding get_i64 get_blob eq_text
short_value = refl

-- ===== src/Settings.antt =====
-- The scalar settings of crates/keys-engine/src/meta.rs, and the two history caps among them. The
-- setting table is a list of rows; a key is the list of its code points, and a value a list of bytes.
pub mod Scalars
pub mod Tests
use keys_core.Base.{
  ℕ, zero, suc, ◌+◌, ◌-◌, ◌*◌, ◌/◌, ◌%◌, ℤ, pos, negsuc, Bool, true, false, not, Option, none, some,
  List, [], ◌∷◌, ◌++◌, ◌==◌, ltb, if◌then◌else◌, keep_if, length, codes, eq_text,
}
use keys_core.Base.Fallible.{Result, ok, err, ◌>>=◌}

abbrev pub Text : Type 0
Text = List ℕ

abbrev pub Settings : Type 0
Settings = List (Text × List ℕ)

-- `SchemaInvariant`, with the key, the number of bytes that is wanted, and the number that is there.
pub data SettingError : Type 0 where
  wrong_length : Text → ℕ → ℕ → SettingError

unfoldable pub drop_key : Text → Settings → Settings
drop_key key [] = []
drop_key key (r ∷ rs) = let rest = drop_key key rs in if eq_text r.0 key then rest else r ∷ rest

-- INSERT OR REPLACE
unfoldable pub set_blob : Text → List ℕ → Settings → Settings
set_blob key value s = drop_key key s ++ (key, value) ∷ []

unfoldable pub get_blob : Text → Settings → Option (List ℕ)
get_blob key [] = none
get_blob key (r ∷ rs) = let rest = get_blob key rs in if eq_text r.0 key then some r.1 else rest

-- `to_le_bytes` and `from_le_bytes` of an unsigned integer of n bytes.
unfoldable pub to_le_bytes : ℕ → ℕ → List ℕ
to_le_bytes zero u = []
to_le_bytes (suc n) u = u % 256 ∷ to_le_bytes n (u / 256)

unfoldable pub from_le_bytes : List ℕ → ℕ
from_le_bytes [] = 0
from_le_bytes (b ∷ bs) = b + 256 * from_le_bytes bs

-- 256 ^ n
abbrev pub size : ℕ → ℕ
size zero = 1
size (suc n) = 256 * size n

-- The two's complement of n bytes.
unfoldable pub wrapped : ℕ → ℤ → ℕ
wrapped n (pos a) = a
wrapped n (negsuc a) = size n - 1 - a

unfoldable pub unwrapped : ℕ → ℕ → ℤ
unwrapped n u = if ltb u (size n / 2) then pos u else negsuc (size n - 1 - u)

-- `set_i32` and `set_i64` have 4 and 8 bytes.
abbrev pub set_int : ℕ → Text → ℤ → Settings → Settings
set_int n key value s = set_blob key (to_le_bytes n (wrapped n value)) s

unfoldable pub set_i32 : Text → ℤ → Settings → Settings
set_i32 key value s = set_int 4 key value s

unfoldable pub set_i64 : Text → ℤ → Settings → Settings
set_i64 key value s = set_int 8 key value s

unfoldable pub set_u32 : Text → ℕ → Settings → Settings
set_u32 key value s = set_blob key (to_le_bytes 4 value) s

-- The bytes as an array of n.
abbrev pub as_array : ℕ → Text → Option (List ℕ) → Result SettingError (Option (List ℕ))
as_array n key none = ok none
as_array n key (some bytes) =
    if length bytes == n then ok (some bytes) else err (wrong_length key n (length bytes))

abbrev pub decoded : ℕ → Option (List ℕ) → Option ℤ
decoded n none = none
decoded n (some bytes) = some (unwrapped n (from_le_bytes bytes))

unfoldable pub get_i32 : Text → Settings → Result SettingError (Option ℤ)
get_i32 key s = as_array 4 key (get_blob key s) >>= λ bytes. ok (decoded 4 bytes)

unfoldable pub get_i64 : Text → Settings → Result SettingError (Option ℤ)
get_i64 key s = as_array 8 key (get_blob key s) >>= λ bytes. ok (decoded 8 bytes)

abbrev pub decoded_u32 : Option (List ℕ) → Option ℕ
decoded_u32 none = none
decoded_u32 (some bytes) = some (from_le_bytes bytes)

unfoldable pub get_u32 : Text → Settings → Result SettingError (Option ℕ)
get_u32 key s = as_array 4 key (get_blob key s) >>= λ bytes. ok (decoded_u32 bytes)

abbrev pub key_history_max_items : Text
key_history_max_items = codes "meta.history_max_items"

abbrev pub key_history_max_size : Text
key_history_max_size = codes "meta.history_max_size"

-- `unwrap_or_else` with the default of another crate's `Meta`.
abbrev pub unwrap_or : ℤ → Option ℤ → ℤ
unwrap_or default none = default
unwrap_or default (some v) = v

unfoldable pub read_history_max_items : ℤ → Settings → Result SettingError ℤ
read_history_max_items default s = get_i32 key_history_max_items s >>= λ v. ok (unwrap_or default v)

unfoldable pub read_history_max_size : ℤ → Settings → Result SettingError ℤ
read_history_max_size default s = get_i64 key_history_max_size s >>= λ v. ok (unwrap_or default v)

unfoldable pub write_history_max_items : ℤ → Settings → Settings
write_history_max_items value s = set_i32 key_history_max_items value s

unfoldable pub write_history_max_size : ℤ → Settings → Settings
write_history_max_size value s = set_i64 key_history_max_size value s

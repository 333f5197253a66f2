-- ===== src/Vault/Tables.antt =====
-- The mirror's tables (crates/keys-engine/src/migrations/*.sql) as lists of rows in rowid order,
-- the statements that mutations.rs runs on them, and its results.
use keys_core.Base.{
  ◌⊎◌, inl, inr, ◌≡◌, refl, ℕ, ℤ, Bool, true, false, String, Option, none, some, List, [], ◌∷◌,
  ◌==◌, if◌then◌else◌,
}

-- A UUID is its 128-bit value: the columns hold its canonical text, which the engine wrote itself.
abbrev pub Uuid : Type 0
Uuid = ℕ

abbrev pub Millis : Type 0
Millis = ℤ

-- crates/keys-engine/src/model.rs
pub data IconRef : Type 0 where
  builtin : ℕ → IconRef
  custom : Uuid → IconRef

-- A row of "group".
pub record Group : Type 0 where
  pub uuid : Uuid
  pub parent_uuid : Option Uuid
  pub name : String
  pub icon_index : Option ℕ
  pub icon_custom_uuid : Option Uuid
  pub notes : String
  pub created_at : Millis
  pub modified_at : Millis
  pub expires_at : Option Millis
  pub is_recycle_bin : Bool
  pub sort_order : ℕ
  pub location_changed_at : Option Millis

-- A row of entry: the columns of its place in the tree, and its title.
pub record Entry : Type 0 where
  pub uuid : Uuid
  pub group_uuid : Uuid
  pub title : String
  pub modified_at : Millis
  pub is_recycled : Bool
  pub previous_parent_uuid : Option Uuid
  pub location_changed_at : Option Millis

pub record Db : Type 0 where
  pub groups : List Group
  pub entries : List Entry
  -- tag (id, name) and entry_tag (entry_uuid, tag_id)
  pub tags : List (ℕ × String)
  pub entry_tags : List (Uuid × ℕ)
  -- meta_deleted_object (uuid, deleted_at), where the time may be NULL
  pub deleted_objects : List (Uuid × Option Millis)
  -- setting rows 'meta.recycle_bin_enabled' (a blob) and 'meta.recycle_bin_changed'
  pub recycle_bin_enabled : Option (List ℕ)
  pub recycle_bin_changed : Option Millis

-- The entity that `EngineError::NotFound` names.
pub data Entity : Type 0 where
  entry group recycle_bin : Entity

-- The cases of `EngineError` that these operations return; `sqlite` is a refused statement.
pub data EngineError : Type 0 where
  not_found : Entity → EngineError
  cycle_detected : EngineError
  sqlite : EngineError

-- A call in one transaction: an error rolls it back, so that no state comes with it.
pub data Result {ℓ} (A : Type ℓ) : Type ℓ where
  ok : A → Result A
  err : EngineError → Result A

infixl 5 ◌>>=◌ ◌>>◌
abbrev pub ◌>>=◌ {ℓ κ} : {A : Type ℓ} {B : Type κ} → Result A → (A → Result B) → Result B
ok a >>= k = k a
err e >>= k = err e

abbrev pub ◌>>◌ {ℓ} : {B : Type ℓ} → Result (Unit {0}) → Result B → Result B
m >> k = m >>= λ _. k

-- `.ok_or(error)?` on an optional row.
abbrev pub ok_or {ℓ} : {A : Type ℓ} → Option A → EngineError → Result A
ok_or none e = err e
ok_or (some a) e = ok a

pub Result-cases {ℓ} :
    {A : Type ℓ} (r : Result A) → ((e : EngineError) × (r ≡ err e)) ⊎ ((a : A) × (r ≡ ok a))
Result-cases (err e) = inl (e, refl)
Result-cases (ok a) = inr (a, refl)

abbrev pub require : Bool → EngineError → Result (Unit {0})
require true e = ok tt
require false e = err e

-- SELECT … WHERE uuid = ?
unfoldable pub find_group : List Group → Uuid → Option Group
find_group [] u = none
find_group (g ∷ gs) u = if g.uuid == u then some g else find_group gs u

unfoldable pub find_entry : List Entry → Uuid → Option Entry
find_entry [] u = none
find_entry (e ∷ es) u = if e.uuid == u then some e else find_entry es u

-- UPDATE … WHERE uuid = ?
unfoldable pub update_groups : Uuid → (Group → Group) → List Group → List Group
update_groups u f [] = []
update_groups u f (g ∷ gs) = (if g.uuid == u then f g else g) ∷ update_groups u f gs

unfoldable pub update_entries : Uuid → (Entry → Entry) → List Entry → List Entry
update_entries u f [] = []
update_entries u f (e ∷ es) = (if e.uuid == u then f e else e) ∷ update_entries u f es

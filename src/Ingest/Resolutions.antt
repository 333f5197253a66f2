-- ===== src/Ingest/Resolutions.antt =====
-- Conflicts that a side has resolved: `resolution_times` and the conflict arm of `ingest_peer`
-- (crates/keys-engine/src/ingest.rs). The parser of the records is another crate's: its result stands
-- here, without records where it fails.
use keys_core.Base.{
  Bool, true, false, Option, none, some, List, [], ◌∷◌, ◌==◌, ◌&&◌, ◌≡◌, ◌≢◌, refl, sym, ap, not,
  if◌then◌else◌, arith, Bool-cases, inl, inr, ◌⊎◌, ◌∙◌, ==_iff, ==_refl, ◌≤ℤ◌,
}
use keys_core.Base.Order.{later, later_assoc, int_ord, leb_ℤ-le, le-leb_ℤ}
use keys_core.Vault.Tables.{Uuid, Millis}
use keys_core.Ingest.{floor_to_second, edited_after}

-- A map from an entry to the time of its resolution, as its entries.
abbrev pub Times : Type 0
Times = List (Uuid × Millis)

-- `HashMap::get(&uuid).copied()`
unfoldable pub time_of : Uuid → Times → Option Millis
time_of u [] = none
time_of u ((v, t) ∷ ts) = let rest = time_of u ts in if v == u then some t else rest

-- `HashMap::entry(uuid).and_modify(later).or_insert(floored)`; `if floored > *t` takes the later.
unfoldable pub fold_time : Uuid → Millis → Times → Times
unfolding later
fold_time u t [] = (u, t) ∷ []
fold_time u t ((v, s) ∷ ts) = if v == u then (v, later s t) ∷ ts else (v, s) ∷ fold_time u t ts

unfoldable pub resolution_times_from : Times → Times → Times
unfolding fold_time
resolution_times_from out [] = out
resolution_times_from out ((u, resolved_at) ∷ records) =
    resolution_times_from (fold_time u (floor_to_second resolved_at) out) records

unfoldable pub resolution_times : Times → Times
unfolding resolution_times_from
resolution_times records = resolution_times_from [] records

-- What becomes of a conflict: the own value stays, the peer's is taken, or it is parked.
pub data Decision : Type 0 where
  keep adopt hold : Decision

abbrev is_some {ℓ} : {A : Type ℓ} → Option A → Bool
is_some none = false
is_some (some a) = true

-- A side has resolved the conflict, and the other side has not edited the entry since.
unfoldable pub resolution_holds : Option Millis → Option Millis → Bool
resolution_holds resolved_at mtime = is_some resolved_at && not (edited_after mtime resolved_at)

unfoldable pub decide_conflict :
    Option Millis → Option Millis → Option Millis → Option Millis → Decision
unfolding resolution_holds
decide_conflict local_mtime peer_mtime local_resolved_at peer_resolved_at =
    if resolution_holds local_resolved_at peer_mtime
    then keep
    else (if resolution_holds peer_resolved_at local_mtime then adopt else hold)

-- A side has resolved the conflict, and the entry has no edit on the other side, or none later than
-- the resolution.
pub data Holds : Option Millis → Option Millis → Type 0 where
  unedited : (r : Millis) → Holds (some r) none
  edited_before : (r m : Millis) → m ≤ℤ r → Holds (some r) (some m)

resolution_holds-Holds :
    (resolved_at mtime : Option Millis)
    → resolution_holds resolved_at mtime ≡ true
    → Holds resolved_at mtime
unfolding resolution_holds edited_after
resolution_holds-Holds none mtime h = cc
resolution_holds-Holds (some r) none h = unedited r
resolution_holds-Holds (some r) (some m) h = edited_before r m (leb_ℤ-le m r (ground arith))

Holds-resolution_holds :
    (resolved_at mtime : Option Millis)
    → Holds resolved_at mtime
    → resolution_holds resolved_at mtime ≡ true
unfolding resolution_holds edited_after
Holds-resolution_holds _ _ (unedited r) = refl
Holds-resolution_holds _ _ (edited_before r m h) = rw (le-leb_ℤ m r h) refl

-- What the own side and the other side decide.
pub data AreMirrored (local_mtime peer_mtime local_resolved_at peer_resolved_at : Option Millis)
    : Decision → Decision → Type 0 where
  ours :
      Holds local_resolved_at peer_mtime
      → ¬ Holds peer_resolved_at local_mtime
      → AreMirrored local_mtime peer_mtime local_resolved_at peer_resolved_at keep adopt
  theirs :
      ¬ Holds local_resolved_at peer_mtime
      → Holds peer_resolved_at local_mtime
      → AreMirrored local_mtime peer_mtime local_resolved_at peer_resolved_at adopt keep
  neither :
      ¬ Holds local_resolved_at peer_mtime
      → ¬ Holds peer_resolved_at local_mtime
      → AreMirrored local_mtime peer_mtime local_resolved_at peer_resolved_at hold hold
  both :
      Holds local_resolved_at peer_mtime
      → Holds peer_resolved_at local_mtime
      → AreMirrored local_mtime peer_mtime local_resolved_at peer_resolved_at keep keep

Holds-cases :
    (resolved_at mtime : Option Millis)
    → ((resolution_holds resolved_at mtime ≡ true) × Holds resolved_at mtime)
      ⊎ ((resolution_holds resolved_at mtime ≡ false) × ¬ Holds resolved_at mtime)
Holds-cases resolved_at mtime = elim (Bool-cases (resolution_holds resolved_at mtime)) [
  | inl h ↦ inl (h, resolution_holds-Holds resolved_at mtime h)
  | inr h ↦ inr (
    h,
    λ k. (let other : true ≡ false = sym (Holds-resolution_holds resolved_at mtime k) ∙ h in cc),
  )
]

-- The two sides of a conflict decide alike. A side's resolution holds where the entry has no edit of the
-- other side after it. Where only one side's holds, that side keeps its own value and the other takes it;
-- where neither does, both park the conflict; where both do, both keep their own.
pub decide_conflict-mirrored :
    (local_mtime peer_mtime local_resolved_at peer_resolved_at : Option Millis)
    → AreMirrored local_mtime peer_mtime local_resolved_at peer_resolved_at
        (decide_conflict local_mtime peer_mtime local_resolved_at peer_resolved_at)
        (decide_conflict peer_mtime local_mtime peer_resolved_at local_resolved_at)
unfolding decide_conflict
decide_conflict-mirrored local_mtime peer_mtime local_resolved_at peer_resolved_at =
    elim (Holds-cases local_resolved_at peer_mtime) [
      | inl (h, here) ↦ elim (Holds-cases peer_resolved_at local_mtime) [
        | inl (k, there) ↦ rw (h, k, if◌then◌else◌) (AreMirrored.both here there)
        | inr (k, there) ↦ rw (h, k, if◌then◌else◌) (AreMirrored.ours here there)
      ]
      | inr (h, here) ↦ elim (Holds-cases peer_resolved_at local_mtime) [
        | inl (k, there) ↦ rw (h, k, if◌then◌else◌) (AreMirrored.theirs here there)
        | inr (k, there) ↦ rw (h, k, if◌then◌else◌) (AreMirrored.neither here there)
      ]
    ]

-- The later of two times that may be missing.
abbrev pub latest : Option Millis → Option Millis → Option Millis
latest none b = b
latest (some a) none = some a
latest (some a) (some b) = some (later a b)

latest-none : (a : Option Millis) → latest a none ≡ a
latest-none none = refl
latest-none (some a) = refl

latest_assoc : (a b c : Option Millis) → latest (latest a b) c ≡ latest a (latest b c)
latest_assoc none b c = refl
latest_assoc (some a) none c = refl
latest_assoc (some a) (some b) none = refl
latest_assoc (some a) (some b) (some c) = ap some (later_assoc a b c)

-- The latest second of all the records of an entry.
unfoldable pub latest_of : Uuid → Times → Option Millis
latest_of u [] = none
latest_of u ((v, t) ∷ ts) =
    let rest = latest_of u ts in if v == u then latest (some (floor_to_second t)) rest else rest

time_of-fold_self :
    (u : Uuid) (t : Millis) (ts : Times)
    → time_of u (fold_time u t ts) ≡ latest (time_of u ts) (some t)
unfolding time_of fold_time
time_of-fold_self u t [] = rw (==_refl u) refl
time_of-fold_self u t ((v, s) ∷ ts) = ground (arith, time_of-fold_self u t ts)

time_of-fold_ne :
    (u v : Uuid) (t : Millis) (ts : Times) → v ≢ u → time_of v (fold_time u t ts) ≡ time_of v ts
unfolding time_of fold_time
time_of-fold_ne u v t [] h = ground arith
time_of-fold_ne u v t ((w, s) ∷ ts) h = ground (arith, time_of-fold_ne u v t ts h)

time_of-from :
    (u : Uuid) (records out : Times)
    → time_of u (resolution_times_from out records) ≡ latest (time_of u out) (latest_of u records)
unfolding resolution_times_from latest_of
time_of-from u [] out = sym (latest-none (time_of u out))
time_of-from u ((v, t) ∷ records) out =
    let out' = fold_time v (floor_to_second t) out in
    elim (Bool-cases (v == u)) [
      | inl same ↦
          let here : time_of u out' ≡ latest (time_of u out) (some (floor_to_second t)) =
            rw ((==_iff v u).0 same) (time_of-fold_self u (floor_to_second t) out) in
          rw (same, time_of-from u records out', here)
            (latest_assoc (time_of u out) (some (floor_to_second t)) (latest_of u records))
      | inr other ↦
          rw
            (
              other,
              time_of-from u records out',
              time_of-fold_ne v u (floor_to_second t) out (λ i. ground arith),
            )
            refl
    ]

-- `resolution_times` has for every entry the latest second of its records.
pub resolution_times-latest :
    (u : Uuid) (records : Times) → time_of u (resolution_times records) ≡ latest_of u records
unfolding resolution_times time_of
resolution_times-latest u records = time_of-from u records []

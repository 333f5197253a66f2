-- ===== src/Redial.antt =====
-- Re-dialling the peers that a doc owes a sync round: `RedialSet`, `redial_delay` and the loop of
-- `watch_redial` (crates/keys-iroh-sync/src/node.rs). Time is in seconds, and a HashSet is a list. The
-- events of the doc, the clock and the dialling itself are another crate's.
pub mod Armed
pub mod Tests
use keys_core.Base.{
  ℕ, zero, suc, ◌+◌, ◌≤◌, Bool, true, false, Option, none, some, List, [], ◌∷◌, ◌==◌, ◌≡◌, not,
  ◌&&◌, if◌then◌else◌,
}

-- `HashSet::contains`, `insert` and `remove`.
unfoldable pub contains : ℕ → List ℕ → Bool
contains p [] = false
contains p (q ∷ ps) = let rest = contains p ps in if q == p then true else rest

unfoldable pub insert : ℕ → List ℕ → List ℕ
unfolding contains
insert p ps = if contains p ps then ps else p ∷ ps

unfoldable pub remove : ℕ → List ℕ → List ℕ
remove p [] = []
remove p (q ∷ ps) = let rest = remove p ps in if q == p then rest else q ∷ rest

pub record RedialSet : Type 0 where
  pub owed : List ℕ
  pub forgotten : List ℕ

pub data Origin : Type 0 where
  connect accept : Origin

unfoldable pub record_round : ℕ → Origin → Bool → RedialSet → RedialSet × Bool
unfolding contains insert remove
record_round peer origin true s =
    (record { owed = remove peer s.owed; forgotten = remove peer s.forgotten }, false)
record_round peer connect false s =
    if not (contains peer s.forgotten)
    then (record s { owed = insert peer s.owed }, true)
    else (s, false)
record_round peer accept false s = (s, false)

unfoldable pub forget : ℕ → RedialSet → RedialSet
unfolding insert remove
forget peer s = record { owed = remove peer s.owed; forgotten = insert peer s.forgotten }

-- REDIAL_STEADY_INTERVAL, and REDIAL_BACKOFF with `get(attempt)`.
unfoldable pub redial_steady_interval : ℕ
redial_steady_interval = 300

unfoldable pub redial_delay : ℕ → ℕ
unfolding redial_steady_interval
redial_delay zero = 5
redial_delay (suc zero) = 15
redial_delay (suc (suc zero)) = 60
redial_delay (suc (suc (suc n))) = redial_steady_interval

-- The variables of the loop.
pub record Watch : Type 0 where
  pub peers : RedialSet
  pub attempt : ℕ
  pub next_redial : Option ℕ

pub data Event : Type 0 where
  sync_finished : ℕ → Origin → Bool → Event
  other_event : Event
  forgotten : ℕ → Event
  redial_due : Event

abbrev pub start : Watch
start = record { peers = record { owed = []; forgotten = [] }; attempt = 0; next_redial = none }

abbrev pub schedule : ℕ → Watch → RedialSet × Bool → Watch
schedule now w (peers, true) = record w {
  peers = peers;
  next_redial = some (now + redial_delay w.attempt);
}
schedule now w (peers, false) = record w { peers = peers }

-- The branch of `select!`.
unfoldable pub handle : ℕ → Event → Watch → Watch
unfolding record_round forget redial_delay
handle now (sync_finished peer origin succeeded) w =
    schedule now w (record_round peer origin succeeded w.peers)
handle now other_event w = w
handle now (forgotten peer) w = record w { peers = forget peer w.peers }
handle now redial_due w = record w {
  attempt = suc w.attempt;
  next_redial = some (now + redial_delay (suc w.attempt));
}

-- The end of a turn: nothing owed, nothing scheduled.
abbrev pub settle_by : List ℕ → Watch → Watch
settle_by [] w = record w { attempt = 0; next_redial = none }
settle_by (p ∷ ps) w = w

abbrev pub settle : Watch → Watch
settle w = settle_by w.peers.owed w

unfoldable pub turn : ℕ → Event → Watch → Watch
unfolding handle
turn now e w = settle (handle now e w)

-- The timer fires when it is due.
pub data CanCome (now : ℕ) (w : Watch) : Event → Type 0 where
  finished : (peer : ℕ) (origin : Origin) (ok : Bool) → CanCome now w (sync_finished peer origin ok)
  unrelated : CanCome now w other_event
  told : (peer : ℕ) → CanCome now w (forgotten peer)
  due : (t : ℕ) → w.next_redial ≡ some t → t ≤ now → CanCome now w redial_due

-- A watch after any turns, with the time of the last one.
pub data Reach : ℕ → Watch → Type 0 where
  begin : Reach 0 start
  then :
      (t now : ℕ) (w : Watch) (e : Event)
      → Reach t w
      → t ≤ now
      → CanCome now w e
      → Reach now (turn now e w)

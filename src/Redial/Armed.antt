-- ===== src/Redial/Armed.antt =====
-- A doc that owes a peer a round has a re-dial scheduled
-- (`watch_redial` of crates/keys-iroh-sync/src/node.rs).
use keys_core.Base.{
  ℕ, zero, suc, ◌+◌, ◌≤◌, Bool, true, false, Option, none, some, List, [], ◌∷◌, ◌==◌, ◌≡◌, refl,
  sym, not, ◌&&◌, if◌then◌else◌, arith, Bool-cases, inl, inr, ==_iff, ◌⊎◌, subst,
}
use keys_core.Redial.{
  contains, insert, remove, RedialSet, Origin, connect, accept, record_round, forget, redial_delay,
  redial_steady_interval, Watch, Event, handle, schedule, settle_by, turn, CanCome, finished,
  unrelated, told, due, Reach,
}

redial_delay_le : (attempt : ℕ) → redial_delay attempt ≤ 300
unfolding redial_delay redial_steady_interval
redial_delay_le zero = omega arith
redial_delay_le (suc zero) = omega arith
redial_delay_le (suc (suc zero)) = omega arith
redial_delay_le (suc (suc (suc n))) = omega arith

contains-remove :
    (p q : ℕ) (ps : List ℕ) → contains q (remove p ps) ≡ (contains q ps && not (p == q))
unfolding contains remove
contains-remove p q [] = refl
contains-remove p q (r ∷ ps) = ground (arith, contains-remove p q ps)

contains-insert :
    (p q : ℕ) (ps : List ℕ) → contains q (insert p ps) ≡ (if p == q then true else contains q ps)
unfolding contains insert
contains-insert p q ps = elim (Bool-cases (contains p ps)) [
  | inr new ↦ rw new refl
  | inl old ↦ elim (Bool-cases (p == q)) [
    | inl same ↦ rw (old, same) (rw (← (==_iff p q).0 same) old)
    | inr other ↦ rw (old, other) refl
  ]
]

-- No peer is owed and forgotten.
abbrev pub AreApart : RedialSet → Type 0
AreApart s = (p : ℕ) → contains p s.owed ≡ true → contains p s.forgotten ≡ false

record_round-AreApart :
    (peer : ℕ) (origin : Origin) (succeeded : Bool) (s : RedialSet)
    → AreApart s
    → AreApart (record_round peer origin succeeded s).0
unfolding record_round
record_round-AreApart peer origin true s apart p h =
    ground (arith, contains-remove peer p s.owed, contains-remove peer p s.forgotten, apart p, h)
record_round-AreApart peer accept false s apart p h = apart p h
record_round-AreApart peer connect false s apart p h =
    elim (Bool-cases (contains peer s.forgotten)) [
      | inl skipped ↦ ground (arith, skipped, apart p, h)
      | inr live ↦ elim (Bool-cases (peer == p)) [
        | inl same ↦ ground (arith, (==_iff peer p).0 same, live)
        | inr other ↦ ground (arith, live, other, apart p, contains-insert peer p s.owed, h)
      ]
    ]

forget-AreApart : (peer : ℕ) (s : RedialSet) → AreApart s → AreApart (forget peer s)
unfolding forget
forget-AreApart peer s apart p h =
    ground (arith, contains-remove peer p s.owed, contains-insert peer p s.forgotten, apart p, h)

-- Something is owed: a re-dial is due within five minutes of `now`. Nothing is: none is scheduled, and the
-- delays begin anew.
abbrev pub IsTimed : ℕ → List ℕ → ℕ → Option ℕ → Type 0
IsTimed now [] attempt next = (attempt ≡ 0) × (next ≡ none)
IsTimed now (p ∷ ps) attempt next = (t : ℕ) × (next ≡ some t) × (t ≤ now + 300)

pub record IsArmed (now : ℕ) (w : Watch) : Type 0 where
  pub timed : IsTimed now w.peers.owed w.attempt w.next_redial
  pub apart : AreApart w.peers

abbrev IsSoon : ℕ → Watch → Type 0
IsSoon now w = (w.peers.owed ≡ []) ⊎ ((t : ℕ) × (w.next_redial ≡ some t) × (t ≤ now + 300))

IsTimed-settle_by :
    (now : ℕ) (owed : List ℕ) (w : Watch)
    → owed ≡ w.peers.owed
    → IsSoon now w
    → IsTimed now
        (settle_by owed w).peers.owed
        (settle_by owed w).attempt
        (settle_by owed w).next_redial
IsTimed-settle_by now [] w e h = subst (λ x. IsTimed now x 0 none) e (refl, refl)
IsTimed-settle_by now (p ∷ ps) w e (inl bare) = absurd (cc (e, bare))
IsTimed-settle_by now (p ∷ ps) w e (inr timer) =
    subst (λ x. IsTimed now x w.attempt w.next_redial) e timer

peers-settle_by : (owed : List ℕ) (w : Watch) → (settle_by owed w).peers ≡ w.peers
peers-settle_by [] w = refl
peers-settle_by (p ∷ ps) w = refl

soon_of :
    (t now : ℕ) (owed : List ℕ) (attempt : ℕ) (next : Option ℕ)
    → t ≤ now
    → IsTimed t owed attempt next
    → (owed ≡ []) ⊎ ((d : ℕ) × (next ≡ some d) × (d ≤ now + 300))
soon_of t now [] attempt next le h = inl refl
soon_of t now (p ∷ ps) attempt next le (d, is, near) = inr (d, is, omega (arith, near, le))

owed-record_round :
    (peer : ℕ) (origin : Origin) (succeeded : Bool) (s : RedialSet)
    → s.owed ≡ []
    → (record_round peer origin succeeded s).1 ≡ false
    → (record_round peer origin succeeded s).0.owed ≡ []
unfolding record_round remove
owed-record_round peer origin true s bare h = rw bare refl
owed-record_round peer accept false s bare h = bare
owed-record_round peer connect false s bare h = ground (arith, bare, h)

schedule-IsSoon :
    (now : ℕ) (w : Watch) (s : RedialSet) (owes : Bool)
    → ((owes ≡ false) → (s.owed ≡ []) ⊎ ((t : ℕ) × (w.next_redial ≡ some t) × (t ≤ now + 300)))
    → IsSoon now (schedule now w (s, owes))
schedule-IsSoon now w s true h =
    inr (now + redial_delay w.attempt, refl, omega (arith, redial_delay_le w.attempt))
schedule-IsSoon now w s false h = h refl

schedule-peers : (now : ℕ) (w : Watch) (r : RedialSet × Bool) → (schedule now w r).peers ≡ r.0
schedule-peers now w (s, true) = refl
schedule-peers now w (s, false) = refl

handle-IsSoon :
    (t now : ℕ) (w : Watch) (e : Event)
    → t ≤ now
    → CanCome now w e
    → IsArmed t w
    → IsSoon now (handle now e w) × AreApart (handle now e w).peers
unfolding handle
handle-IsSoon t now w e le (finished peer origin succeeded) armed =
    let r = record_round peer origin succeeded w.peers in
    let old = soon_of t now w.peers.owed w.attempt w.next_redial le armed.timed in
    (
      schedule-IsSoon now w r.0 r.1 (λ quiet. elim old [
        | inl bare ↦ inl (owed-record_round peer origin succeeded w.peers bare quiet)
        | inr timer ↦ inr timer
      ]),
      subst AreApart (sym (schedule-peers now w r))
          (record_round-AreApart peer origin succeeded w.peers armed.apart),
    )
handle-IsSoon t now w e le unrelated armed =
    (soon_of t now w.peers.owed w.attempt w.next_redial le armed.timed, armed.apart)
handle-IsSoon t now w e le (told peer) armed = (
  elim (soon_of t now w.peers.owed w.attempt w.next_redial le armed.timed) [
    | inl bare ↦ inl (unfold forget remove in rw bare refl)
    | inr timer ↦ inr timer
  ],
  forget-AreApart peer w.peers armed.apart,
)
handle-IsSoon t now w e le (due d is late) armed = (
  inr (now + redial_delay (suc w.attempt), refl, omega (arith, redial_delay_le (suc w.attempt))),
  armed.apart,
)

-- After any events of a doc, each no earlier than the last: while a peer is owed a round a re-dial is
-- scheduled for at most five minutes after the last event; once none is owed none is scheduled and the
-- delays start over; and no forgotten peer is owed a round.
pub Reach-IsArmed : (now : ℕ) (w : Watch) → Reach now w → IsArmed now w
unfolding turn contains
Reach-IsArmed now w Reach.begin = record { timed = (refl, refl); apart = λ p h. cc }
Reach-IsArmed now w (Reach.then t _ before e run le comes) =
    let (soon, apart) = handle-IsSoon t now before e le comes (Reach-IsArmed t before run) in
    let next = handle now e before in
    record {
      timed = IsTimed-settle_by now next.peers.owed next refl soon;
      apart = subst AreApart (sym (peers-settle_by next.peers.owed next)) apart;
    }

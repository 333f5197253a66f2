-- ===== src/Redial/Tests.antt =====
-- A peer that cannot be reached, then is (crates/keys-iroh-sync/src/node.rs).
use keys_core.Base.{true, false, some, [], ◌∷◌, ◌≡◌, refl, arith}
use keys_core.Redial.{
  contains, insert, remove, connect, accept, record_round, forget, redial_delay, Watch,
  sync_finished, redial_due, handle, turn, start, finished, due, Reach,
}
use keys_core.Redial.Armed.{IsArmed, Reach-IsArmed}

unfoldable all : Unit {0}
unfolding contains insert remove record_round forget redial_delay handle turn
all = tt

abbrev owing : Watch
owing = record {
  peers = record { owed = 7 ∷ []; forgotten = [] };
  attempt = 0;
  next_redial = some 105;
}

-- The second re-dial is 15 seconds after the first.
abbrev redialled : Watch
redialled = record owing { attempt = 1; next_redial = some 125 }

first_failure : turn 100 (sync_finished 7 connect false) start ≡ owing
unfolding all
first_failure = refl

first_redial : turn 110 redial_due owing ≡ redialled
unfolding all
first_redial = refl

reached_again : turn 120 (sync_finished 7 accept true) redialled ≡ start
unfolding all
reached_again = refl

run : Reach 110 (turn 110 redial_due owing)
unfolding all
run =
    Reach.then 100 110 owing redial_due
      (Reach.then 0 100 start (sync_finished 7 connect false) Reach.begin (omega arith)
        (finished 7 connect false))
      (omega arith) (due 105 refl (omega arith))

Reach-IsArmed_example : IsArmed 110 (turn 110 redial_due owing)
Reach-IsArmed_example = Reach-IsArmed 110 (turn 110 redial_due owing) run

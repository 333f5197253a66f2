-- ===== src/Vault/Tests/Groups.antt =====
-- The group operations on a small mirror (crates/keys-engine/src/mutations.rs).
use keys_core.Base.{pos, true, false, none, some, [], ◌∷◌, ◌≡◌, ◌↔◌, refl, arith}
use keys_core.Vault.Tables.{Db, builtin, Result, ok, err, cycle_detected}
use keys_core.Vault.Groups.{
  create_group, move_group, recycle_group, MoveGroupOutcome, NewGroupFields,
}
use keys_core.Vault.Groups.Ancestors.{IsAncestor, self, above, Ends, top, up}
use keys_core.Vault.Groups.Moves.{move_group-cycle_iff, recycle_group-cycle}
use keys_core.Vault.Tests.Samples.{runs, row, mirror, tree, sample}

abbrev moved : Db
moved = elim (move_group 9 sample 4 1 (pos 5)) [ some (ok (db, o)) ↦ db | _ ↦ sample ]

move_runs :
    move_group 9 sample 4 1 (pos 5) ≡ some (ok (moved, record { from_parent = 2; to_parent = 1 }))
unfolding runs
move_runs = refl

abbrev refused : Result (Db × MoveGroupOutcome)
refused = err cycle_detected

move_refused : move_group 9 sample 2 4 (pos 5) ≡ some (err cycle_detected)
unfolding runs
move_refused = refl

move_group-cycle_iff_example : (refused ≡ err cycle_detected) ↔ IsAncestor tree 2 4
unfolding runs
move_group-cycle_iff_example =
    move_group-cycle_iff 9 sample 2 4 (pos 5) refused refl refl move_refused

chain_of_4 : Ends tree 4
unfolding runs
chain_of_4 = up 2 refl (up 1 refl (top refl))

-- The bin 3 lies in 2.
abbrev nested : Db
nested = mirror (row 1 none false 0 ∷ row 2 (some 1) false 0 ∷ row 3 (some 2) true 0 ∷ []) []

recycle_group-cycle_example :
    (db : Db) × (recycle_group nested 2 (pos 5) ≡ ok db) × (¬ Ends db.groups 2)
unfolding runs
recycle_group-cycle_example =
    recycle_group-cycle nested 2 3 (pos 5) refl refl (omega arith) (above 2 refl (self refl))

abbrev fields : NewGroupFields
fields = record { name = "new"; notes = ""; icon = builtin 48 }

abbrev grown : Db
grown = elim (create_group sample 2 fields (pos 5) 7) [ ok (db, u) ↦ db | _ ↦ sample ]

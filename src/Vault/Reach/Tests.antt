-- ===== src/Vault/Reach/Tests.antt =====
-- A run of three operations on a small mirror (crates/keys-engine/src/mutations.rs).
use keys_core.Base.{pos, some, [], ◌∷◌, refl}
use keys_core.Vault.Tables.{Db, ok, builtin}
use keys_core.Vault.Groups.{NewGroupFields, create_group, move_group}
use keys_core.Vault.Groups.Ancestors.{IsTree}
use keys_core.Vault.Purge.{start, delete_group}
use keys_core.Vault.Tests.Samples.{runs, sample, tree-IsTree}
use keys_core.Vault.Reach.{Step, Reach}
use keys_core.Vault.Reach.Rooted.{Reach-IsRooted}
use keys_core.Vault.Groups.Roots.{IsRooted}

abbrev fields : NewGroupFields
fields = record { name = "new"; notes = ""; icon = builtin 48 }

-- 4 goes below the root, gets the child 7, and 2 is deleted.
abbrev moved : Db
moved = elim (move_group 9 sample 4 1 (pos 5)) [ some (ok (db, o)) ↦ db | _ ↦ sample ]

abbrev grown : Db
grown = elim (create_group moved 4 fields (pos 6) 7) [ ok (db, u) ↦ db | _ ↦ moved ]

abbrev pruned : Db
pruned = elim (delete_group 9 grown 2 (pos 7)) [ some (ok s) ↦ s.db | _ ↦ grown ]

move_step : Step sample moved
unfolding runs
move_step = Step.moved 9 4 1 (pos 5) _ (record { from_parent = 2; to_parent = 1 }) refl

create_step : Step moved grown
unfolding runs
create_step = Step.created 4 fields (pos 6) 7 _ 7 refl

delete_step : Step grown pruned
unfolding runs
delete_step =
    Step.deleted 9 2 (pos 7) (record (start pruned) { deleted_groups = (2, some 1) ∷ [] }) refl

sample-IsRooted : IsRooted 1 sample.groups
sample-IsRooted = ((λ e. refl), ((λ e. cc), ((λ e. cc), ((λ e. cc), tt))))

Reach-IsRooted_example : IsTree pruned.groups × IsRooted 1 pruned.groups
Reach-IsRooted_example = Reach-IsRooted 1 sample pruned tree-IsTree sample-IsRooted (
    Reach.then grown pruned
      (Reach.then moved grown (Reach.then sample moved Reach.nothing move_step) create_step)
      delete_step)

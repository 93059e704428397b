-- ===== src/Shared/Tests.antt =====
-- Three batches before the coordinator of shared.rs: the second writes an entity of the first.
use eve_db.Base.{
  ℕ, ◌≡◌, refl, true, false, none, some, List, [], ◌∷◌, length, arith, ok, err, conflict,
}
use eve_db.Base.Order.{nat_ord, pair_ord}
use eve_db.Base.Assoc.{lookup, upsert}
use eve_db.OrderedMap.{empty}
use eve_db.Model.{Entity}
use eve_db.Model.History.{EntityData}
use eve_db.Database.{Operation}
use eve_db.Deadline
use eve_db.Database.Group.{Prepared, any_table}
use eve_db.Shared.{
  Coordinator, is_stale, check_keys, validate_batch, validate_all, new_group, record_results,
}
use eve_db.Shared.Conflicts.{Admissible, validate_all-new_group}
use eve_db.Shared.{prune_revisions}
use eve_db.Shared.Pruning.{validate_batch-prune_revisions}
use eve_db.Shared.Tickets.{count, record_results-validate_all}

abbrev coordinator : Coordinator
coordinator = record { revisions = ((1, 6), 3) ∷ []; catalog_revision = 2; poisoned = false }

abbrev entity : Entity
entity = record { id = 5; version = 1; schema_version = 1; deleted = true; fields = [] }

abbrev found : EntityData
found = record {
  charges = empty;
  current = entity;
  base = entity;
  events = [];
  committed = empty;
  snapshots = empty;
  disk = none;
}

abbrev batch : ℕ → Prepared
batch id = record {
  base_sequence = 4;
  root_generation = 1;
  catalog = [];
  staged = ((1, id), found) ∷ [];
  operations = Operation.delete 1 id ∷ [];
  reservation = record { bytes = 25; decoded_bytes = 0 };
  deadline = some 100;
}

abbrev claimed : List (ℕ × (Prepared × ℕ))
claimed = (7, (batch 5, 10)) ∷ (8, (batch 5, 11)) ∷ (9, (batch 6, 12)) ∷ []

results :
    (validate_all coordinator claimed (new_group coordinator)).completed
    ≡ (8, err (conflict (some 1) (some 5))) ∷ []
unfolding validate_all validate_batch Deadline.check check_keys is_stale any_table lookup upsert
    nat_ord pair_ord
results = refl

accepted : length (validate_all coordinator claimed (new_group coordinator)).accepted ≡ 2
unfolding results
accepted = refl

validate_all-new_group_example :
    Admissible coordinator (validate_all coordinator claimed (new_group coordinator)).accepted
validate_all-new_group_example =
    validate_all-new_group coordinator claimed (omega arith)
      (omega arith, (omega arith, (omega arith, tt)))

record_results-validate_all_example :
    count 8
      (record_results
        (validate_all coordinator claimed (new_group coordinator)).accepted
        (ok 5 ∷ ok 6 ∷ [])
        (validate_all coordinator claimed (new_group coordinator)).completed
        coordinator).0
    ≡ count 8 claimed
record_results-validate_all_example =
    record_results-validate_all coordinator claimed (ok 5 ∷ ok 6 ∷ []) 8 (omega (arith, accepted))

validate_batch-prune_revisions_example :
    validate_batch (prune_revisions 4 coordinator) 10 (new_group coordinator) (batch 6)
    ≡ validate_batch coordinator 10 (new_group coordinator) (batch 6)
validate_batch-prune_revisions_example =
    validate_batch-prune_revisions coordinator 4 10 (new_group coordinator) (batch 6) (tt, tt)
      (omega arith)

-- ===== src/Database/Group/Tests.antt =====
-- Two batches that are committed as a group, one of them with a deadline (database.rs).
use eve_db.Base.{
  ℕ, ◌+◌, ◌≡◌, refl, false, none, some, List, [], ◌∷◌, arith, ok, err, Error, Result, true, length,
  needs_recovery, deadline_exceeded, ◌⊎◌,
}
use eve_db.Base.Order.{nat_ord}
use eve_db.Base.Assoc.{lookup, upsert}
use eve_db.OrderedMap.{empty, get, retain_from}
use eve_db.Overlay.{Root}
use eve_db.Resources.{default_limits, no_usage}
use eve_db.Model.{Entity, EventKind, Event}
use eve_db.Model.History.{EntityData}
use eve_db.Database.Staging.Actions.{Sizes}
use eve_db.Database.Group.Rebinding.{
  rebind, rebind_entities, rebind_entity, rebind_found, rebound, grow_snapshot,
}
use eve_db.Codec.LittleEndian.{to_le_bytes}
use eve_db.Database.{Operation}
use eve_db.Database.Operations.{encode_op, encode_list, encode_ops}
use eve_db.Database.Group.{
  Prepared, CommittedState, Engine, Preparation, ready, retain_one, retain_active, stamp_batch,
  encode_frames, all_in_time, prepare_loop,
}
use eve_db.Database.Group.Publication.{
  finish_group, write_group, publish_all, publish_state, publish_entities, commit_group, Checkpoint,
}
use eve_db.Database.Group.Sequence.{Committed, Untouched, finish_group-outcome}
use eve_db.Database.Group.Termination.{commit_group-ends}
use eve_db.Storage.Frame.{encode}

abbrev row : Entity
row = record { id = 5; version = 3; schema_version = 1; deleted = true; fields = [] }

abbrev gone : Event
gone = record {
  version = 3;
  transaction = 5;
  schema_version = 1;
  kind = EventKind.delete;
  fields = [];
}

abbrev found : EntityData
found = record {
  charges = empty;
  current = row;
  base = record row { version = 2; deleted = false };
  events = gone ∷ [];
  committed = empty;
  snapshots = empty;
  disk = none;
}

abbrev batch : Prepared
batch = record {
  base_sequence = 4;
  root_generation = 1;
  catalog = [];
  staged = ((1, 5), found) ∷ [];
  operations = Operation.delete 1 5 ∷ [];
  reservation = record { bytes = 25; decoded_bytes = 0 };
  deadline = none;
}

abbrev hurried : Prepared
hurried = record batch { deadline = some 10 }

abbrev root : Root
root = record { generation = 1; file_sizes = 100 ∷ [] }

abbrev state : CommittedState
state = record {
  root = root;
  root_lsn = 2;
  root_entity = λ t id. ok none;
  root_bytes = some 100;
  pinned_bytes = some 100;
  catalog = [];
  overlay = record { entries = empty; roots = empty; bytes = 0 };
  lsn = 4;
  charges = empty;
}

abbrev db : Engine
db = record {
  state = state;
  readers = state;
  checkpoint_tail = none;
  wal = [];
  wal_bytes = 0;
  checkpoint_bytes = 4096;
  shared_mode = true;
  poisoned = false;
  limits = default_limits;
  usage = no_usage;
}

-- A checkpoint that fails.
abbrev make_none : Checkpoint
make_none db = (err needs_recovery, db)

abbrev sizes : Sizes
sizes = record { entity = 80; event = 120; capacity = length }

-- A clock that goes on by one at each reading.
abbrev clock : ℕ → ℕ
clock n = 9 + n

-- The deadline passes between the two checks, so that the loop goes round again.
second_round :
    prepare_loop 3 clock 4 ((0, hurried) ∷ []) [] 0
    ≡ some (ready (record { batches = []; results = (0, err deadline_exceeded) ∷ []; tick = 3 }) [])
unfolding prepare_loop stamp_batch retain_one retain_active encode_frames all_in_time encode
    encode_op encode_list encode_ops to_le_bytes upsert nat_ord
second_round = refl

abbrev prepared : Preparation
prepared =
    ready (record { batches = (0, batch) ∷ (1, batch) ∷ []; results = []; tick = 0 })
      ((1 ∷ []) ∷ (2 ∷ []) ∷ [])

sequences : lookup 1 (finish_group (ok tt) db prepared).0 ≡ some (ok 6)
unfolding finish_group write_group publish_all publish_state publish_entities lookup upsert nat_ord
sequences = refl

-- The batch was begun at an earlier root, which has the entity up to its second version.
abbrev published : CommittedState
published = record state {
  root = record root { generation = 2 };
  root_entity =
      λ t id. ok (some (record found { current = record row { version = 2 }; disk = none }));
}

rebound_batch :
    rebind sizes (record db { state = published }) batch no_usage
    ≡ ok (record batch { root_generation = 2 }, no_usage)
unfolding rebind rebind_entities rebind_entity rebind_found rebound grow_snapshot get retain_from
    nat_ord
rebound_batch = refl

finish_group-outcome_example :
    Committed db prepared (finish_group (ok tt) db prepared).0 (finish_group (ok tt) db prepared).1
    ⊎ Untouched db prepared
        (finish_group (ok tt) db prepared).0
        (finish_group (ok tt) db prepared).1
unfolding nat_ord
finish_group-outcome_example =
    finish_group-outcome (ok tt) db prepared ((refl, tt), (tt, tt)) (λ h. absurd (ground arith))
      ((tt, tt), ((tt, tt), tt)) tt

commit_group-ends_example :
    (r : List (ℕ × Result Error ℕ) × Engine) × (commit_group 3 clock make_none sizes
        (ok tt)
        (hurried ∷ batch ∷ [])
        db
      ≡ some r)
commit_group-ends_example =
    commit_group-ends clock 3 make_none sizes (ok tt) (hurried ∷ batch ∷ []) db (λ k. omega arith)
      (omega arith)

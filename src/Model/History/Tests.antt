-- ===== src/Model/History/Tests.antt =====
-- An entity of three versions: a base, a committed event and a new one, with a snapshot.
use eve_db.Base.{ℕ, ◌≡◌, refl, true, false, none, [], ◌∷◌, ok, err, arith, version_unavailable}
use eve_db.Base.Order.{nat_ord}
use eve_db.Base.Assoc.{lookup, upsert}
use eve_db.Codec.LittleEndian.{to_le_bytes}
use eve_db.OrderedMap.{
  leaf, new_node, floor_from, floor, push_spine, range_stack, range, next, collect,
}
use eve_db.Model.{DataType, Value, Table, Entity, EventKind, Event}
use eve_db.Model.Fields.{encode_value, encode_items, encode_fields}
use eve_db.Model.Schemas.{
  find_field, is_valid, check_assignments, complete_fields, normalize, find_version, table_version,
}
use eve_db.Model.History.{
  EntityData, apply_event, apply_all, apply_later, start, from_disk, committed_between, entity_at,
  retain, commit_all, seal,
}
use eve_db.Model.History.Replay.{up_to}
use eve_db.Model.History.Sealing.{entity_at-seal}
use eve_db.Model.History.Views.{log, IsHistory, entity_at-replay}

-- What the tests run.
runs : ℕ
unfolding floor_from floor push_spine range_stack range next collect lookup upsert nat_ord
    to_le_bytes encode_value encode_items encode_fields find_field is_valid check_assignments
    complete_fields normalize find_version table_version apply_event apply_all apply_later start
    from_disk committed_between entity_at retain commit_all seal
runs = 0

abbrev table : Table
table = record {
  id = 1;
  name = 116 ∷ [];
  schemas =
      record {
        version = 1;
        fields =
            record { id = 1; name = 97 ∷ []; data_type = DataType.uint64; nullable = true } ∷ [];
      }
      ∷ [];
}

abbrev state : ℕ → Value → Entity
state version value = record {
  id = 9;
  version = version;
  schema_version = 1;
  deleted = false;
  fields = (1, value) ∷ [];
}

abbrev change : ℕ → Value → Event
change version value = record {
  version = version;
  transaction = version;
  schema_version = 1;
  kind = EventKind.apply;
  fields = (1, value) ∷ [];
}

abbrev history : EntityData
history = record {
  charges = leaf;
  base = state 1 Value.null;
  current = state 4 (Value.uint64 8);
  committed =
      new_node 2 (change 2 (Value.uint64 5)) leaf
        (new_node 3 (change 3 (Value.uint64 6)) leaf leaf);
  events = change 4 (Value.uint64 8) ∷ [];
  snapshots = new_node 2 (state 2 (Value.uint64 5)) leaf leaf;
  disk = none;
}

at_three : entity_at table 3 true history ≡ ok (state 3 (Value.uint64 6))
unfolding runs
at_three = refl

at_zero : entity_at table 0 true history ≡ err (version_unavailable 0 1 4)
unfolding runs
at_zero = refl

history-IsHistory : IsHistory table history
unfolding runs
history-IsHistory = record {
  no_disk = refl;
  ordered = ((refl, tt), (tt, tt));
  keyed = (refl, (refl, tt));
  whole = refl;
  snapshots_ordered = (tt, tt);
  snapshots_valid = ((refl, λ h. refl), tt);
}

entity_at-replay_example :
    (s : Entity) × (entity_at table 3 true history ≡ ok s)
    × (apply_all table history.base (up_to 3 (log history)) ≡ ok s)
    × (s.version ≡ 3)
entity_at-replay_example =
    entity_at-replay table history 3 true history-IsHistory (omega arith) (omega arith)

entity_at-seal_example :
    IsHistory table (seal history)
    × (entity_at table 3 true (seal history) ≡ entity_at table 3 true history)
entity_at-seal_example =
    entity_at-seal table history 3 true history-IsHistory (omega arith) (omega arith)

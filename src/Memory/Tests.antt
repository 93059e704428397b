-- ===== src/Memory/Tests.antt =====
-- The sizes of a small entity and of an event.
use eve_db.Base.{ℕ, ◌+◌, ◌*◌, ◌≡◌, refl, true, false, [], ◌∷◌, ok, arith, length}
use eve_db.Base.Order.{nat_ord}
use eve_db.Base.Assoc.{lookup}
use eve_db.Codec.LittleEndian.{Bytes, to_le_bytes}
use eve_db.Model.{Value, Fields, Entity, EventKind, Event}
use eve_db.Model.Fields.{encode_value, encode_items, encode_fields}
use eve_db.Model.Records.{encode_entity, encode_event}
use eve_db.Model.Records.RoundTrip.{IsEntity, IsEvent}
use eve_db.Memory.{fields_bytes, overridden, added, sum_sizes, merged_sizes, record_bytes}
use eve_db.Memory.Sizes.{record_bytes-encode_entity, record_bytes-encode_event}

-- What the tests run.
runs : ℕ
unfolding fields_bytes overridden added sum_sizes merged_sizes lookup nat_ord encode_value
    encode_items encode_fields encode_entity encode_event to_le_bytes
runs = 0

abbrev fields : Fields
fields = (1, Value.bytes (5 ∷ 6 ∷ 7 ∷ [])) ∷ []

abbrev entity : Entity
entity = record { id = 9; version = 2; schema_version = 1; deleted = false; fields = fields }

abbrev event : Event
event = record {
  version = 2;
  transaction = 5;
  schema_version = 1;
  kind = EventKind.apply;
  fields = fields;
}

merged_fields :
    merged_sizes length 100 fields ((1, Value.null) ∷ (2, Value.bool true) ∷ [])
    ≡ (100 + 2 * 128, 33 + 5 + 6)
unfolding runs
merged_fields = refl

-- Each buffer has room for 16 more bytes.
abbrev capacity : Bytes → ℕ
capacity v = 16 + length v

entity-IsEntity : IsEntity entity
unfolding runs
entity-IsEntity = record {
  id_fits = omega arith;
  version_fits = omega arith;
  schema_fits = omega arith;
  fields_valid = record {
    sorted = (tt, tt);
    typed = ((omega arith, omega arith), tt);
    few = omega arith;
  };
  size_fits = omega arith;
}

event-IsEvent : IsEvent event
unfolding runs
event-IsEvent = record {
  version_fits = omega arith;
  transaction_fits = omega arith;
  schema_fits = omega arith;
  fields_valid = record {
    sorted = (tt, tt);
    typed = ((omega arith, omega arith), tt);
    few = omega arith;
  };
  size_fits = omega arith;
}

record_bytes-encode_entity_example : record_bytes (encode_entity entity) 100 ≡ ok 231
unfolding runs
record_bytes-encode_entity_example =
    record_bytes-encode_entity capacity 100 entity (λ v. omega arith) entity-IsEntity (omega arith)

record_bytes-encode_event_example : record_bytes (encode_event event) 100 ≡ ok 231
unfolding runs
record_bytes-encode_event_example =
    record_bytes-encode_event capacity 100 event (λ v. omega arith) event-IsEvent (omega arith)

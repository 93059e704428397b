-- ===== src/Model/Tests.antt =====
-- A table of two fields, a row of it, and its event, by the codec and the validation of model.rs.
use eve_db.Base.{
  ℕ, ◌*◌, ◌≤◌, ◌≡◌, refl, true, false, some, [], ◌∷◌, length, All, ok, err, invalid, numbered,
  arith,
}
use eve_db.Base.Int.{negsuc}
use eve_db.Base.Order.{nat_ord}
use eve_db.Base.Assoc.{lookup, upsert, IsSorted}
use eve_db.Codec.Encoder
use eve_db.Codec.Decoder
use eve_db.Codec.Decoder.{take, u8, u32, u64, count, bytes, string, finish}
use eve_db.Codec.Decoder.Utf8.{
  two_bytes, three_bytes, four_bytes, next_char, chars_loop, chars, is_utf8,
}
use eve_db.Codec.LittleEndian.{to_le_bytes, from_le_bytes}
use eve_db.Model.{DataType, Value, Fields, Field, Schema, Table, Entity, EventKind, Event}
use eve_db.Model.Fields.{
  encode_value, encode_items, encode_fields, decode_bool, decode_float, decode_value, decode_items,
  decode_fields, value_encoded_len, sum_encoded_len, fields_encoded_len,
}
use eve_db.Model.Fields.RoundTrip.{IsFields}
use eve_db.Model.Records.{
  encode_entity, decode_flag, decode_entity_parts, decode_entity, encode_event, decode_kind,
  decode_event_parts, decode_event, finished,
}
use eve_db.Model.Records.RoundTrip.{
  IsEntity, IsEvent, decode_entity-encode_entity, decode_event-encode_event,
}
use eve_db.Model.Schemas.{
  validate_fields, validate, find_field, is_valid, check_assignments, complete_fields, normalize,
}
use eve_db.Model.Schemas.Names.{
  is_white_space, is_control, all_of, any_of, scalars, validate_name, same_bytes, contains_id,
  contains_name,
}
use eve_db.Model.Schemas.Laws.{normalize_complete, normalize_idempotent}
use eve_db.Model.Tables.{
  encode_field, encode_field_list, encode_schemas, encode_table, decode_type, decode_field,
  decode_field_list, decode_schema, decode_schemas, decode_table,
}
use eve_db.Model.Tables.RoundTrip.{IsTable, decode_table-encode_table}

-- The texts "n", "age" and "t".
abbrev name_field : Field
name_field = record { id = 1; name = 110 ∷ []; data_type = DataType.text; nullable = false }

abbrev age_field : Field
age_field = record {
  id = 3;
  name = 97 ∷ 103 ∷ 101 ∷ [];
  data_type = DataType.int64;
  nullable = true;
}

abbrev schema : Schema
schema = record { version = 1; fields = name_field ∷ age_field ∷ [] }

abbrev table : Table
table = record { id = 7; name = 116 ∷ []; schemas = schema ∷ [] }

abbrev part : Fields
part = (1, Value.text (65 ∷ 66 ∷ [])) ∷ []

abbrev row : Fields
row = (1, Value.text (65 ∷ 66 ∷ [])) ∷ (3, Value.null) ∷ []

abbrev entity : Entity
entity = record { id = 9; version = 2; schema_version = 1; deleted = false; fields = row }

abbrev event : Event
event = record {
  version = 2;
  transaction = 5;
  schema_version = 1;
  kind = EventKind.apply;
  fields = (3, Value.int64 (negsuc 0)) ∷ [];
}

-- What the tests run.
runs : ℕ
unfolding two_bytes three_bytes four_bytes next_char chars_loop chars is_utf8 is_white_space
    is_control all_of any_of scalars validate_name same_bytes contains_id contains_name
    validate_fields validate find_field is_valid check_assignments complete_fields normalize
    encode_value encode_items encode_fields decode_bool decode_float decode_value decode_items
    decode_fields value_encoded_len sum_encoded_len fields_encoded_len encode_entity decode_flag
    decode_entity_parts decode_entity encode_event decode_kind decode_event_parts decode_event
    encode_field encode_field_list encode_schemas encode_table decode_type decode_field
    decode_field_list decode_schema decode_schemas decode_table lookup upsert nat_ord to_le_bytes
    from_le_bytes take u8 u32 u64 count bytes string finish
runs = 0

row-IsFields : IsFields row
unfolding runs
row-IsFields = record {
  sorted = ((refl, tt), (tt, tt));
  typed = ((omega arith, (omega arith, refl)), ((omega arith, tt), tt));
  few = omega arith;
}

schema_valid : validate schema ≡ ok tt
unfolding runs
schema_valid = refl

part_completes : normalize schema part true ≡ ok row
unfolding runs
part_completes = refl

part_unknown :
    normalize schema ((2, Value.null) ∷ []) false ≡ err (invalid (numbered "unknown field " 2))
unfolding runs
part_unknown = refl

entity-IsEntity : IsEntity entity
unfolding runs
entity-IsEntity = record {
  id_fits = omega arith;
  version_fits = omega arith;
  schema_fits = omega arith;
  fields_valid = row-IsFields;
  size_fits = omega arith;
}

event-IsEvent : IsEvent event
unfolding runs
event-IsEvent = record {
  version_fits = omega arith;
  transaction_fits = omega arith;
  schema_fits = omega arith;
  fields_valid = record {
    sorted = (tt, tt);
    typed = ((omega arith, omega arith), tt);
    few = omega arith;
  };
  size_fits = omega arith;
}

table-IsTable : IsTable table
unfolding runs
table-IsTable = record {
  id_fits = omega arith;
  id_used = omega arith;
  name_typed = (omega arith, refl);
  name_valid = refl;
  schemas_valid = (
    record {
      in_place = refl;
      version_fits = omega arith;
      fields_typed = ((omega arith, (omega arith, refl)), ((omega arith, (omega arith, refl)), tt));
      valid = refl;
    },
    tt,
  );
  has_schema = omega arith;
  size_fits = omega arith;
}

decode_entity-encode_entity_example : decode_entity (encode_entity entity) ≡ ok entity
decode_entity-encode_entity_example = decode_entity-encode_entity entity entity-IsEntity

decode_event-encode_event_example : decode_event (encode_event event) ≡ ok event
decode_event-encode_event_example = decode_event-encode_event event event-IsEvent

decode_table-encode_table_example :
    finished (decode_table (Decoder.new (encode_table table Encoder.new))) ≡ ok table
decode_table-encode_table_example = decode_table-encode_table table table-IsTable

normalize_complete_example :
    All (λ e. lookup e.0 row ≡ some e.1) part
    × All (λ f. (v : Value) × (lookup f.id row ≡ some v)) schema.fields
    × IsSorted row
    × (length (encode_fields row Encoder.new) ≤ 8 * 1024 * 1024)
normalize_complete_example = normalize_complete schema part row (tt, tt) part_completes

normalize_idempotent_example : normalize schema row true ≡ ok row
normalize_idempotent_example = normalize_idempotent schema part row schema_valid part_completes

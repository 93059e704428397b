-- ===== src/Model/Records.antt =====
-- The codec of entities and events.
pub mod Cursor
pub mod RoundTrip
use eve_db.Base.{ℕ, Bool, true, false, String, ◌==◌, if◌then◌else◌, Error, Result, ok, err}
use eve_db.Codec.LittleEndian.{Bytes}
use eve_db.Codec.Encoder
use eve_db.Codec.Decoder
use eve_db.Codec.Decoder.{Decoder, Decoding, ◌>>=◌, pure, fail}
use eve_db.Model.{Entity, Event, EventKind}
use eve_db.Model.Fields.{flag, encode_fields, decode_fields}

unfoldable pub encode_entity : Entity → Bytes
encode_entity value =
    let e = Encoder.u64 value.id Encoder.new in
    let e = Encoder.u64 value.version e in
    let e = Encoder.u64 value.schema_version e in
    let e = Encoder.u8 (flag value.deleted) e in encode_fields value.fields e

-- A byte that holds a Boolean, or an error with the message.
unfoldable pub decode_flag : String → Decoding Bool
decode_flag message = do
  b ← Decoder.u8
  if b == 0 then pure false else if b == 1 then pure true else fail message

unfoldable pub decode_entity_parts : Decoding Entity
decode_entity_parts = do
  id ← Decoder.u64
  version ← Decoder.u64
  schema_version ← Decoder.u64
  deleted ← decode_flag "invalid tombstone"
  fields ← decode_fields
  pure (record {
    id = id;
    version = version;
    schema_version = schema_version;
    deleted = deleted;
    fields = fields;
  })

-- `d.finish()?` and the value, at the end of a record.
abbrev pub finished {ℓ} : {A : Type ℓ} → Result Error (A × Decoder) → Result Error A
finished (err e) = err e
finished (ok (a, d)) = elim (Decoder.finish d) [ err e ↦ err e | ok _ ↦ ok a ]

unfoldable pub decode_entity : Bytes → Result Error Entity
decode_entity input = finished (decode_entity_parts (Decoder.new input))

abbrev pub kind_byte : EventKind → ℕ
kind_byte EventKind.apply = 0
kind_byte EventKind.delete = 1

unfoldable pub encode_event : Event → Bytes
encode_event value =
    let e = Encoder.u64 value.version Encoder.new in
    let e = Encoder.u64 value.transaction e in
    let e = Encoder.u64 value.schema_version e in
    let e = Encoder.u8 (kind_byte value.kind) e in encode_fields value.fields e

unfoldable pub decode_kind : Decoding EventKind
decode_kind = do
  b ← Decoder.u8
  if b == 0
      then pure EventKind.apply
      else if b == 1
      then pure EventKind.delete
      else fail "invalid event kind"

unfoldable pub decode_event_parts : Decoding Event
decode_event_parts = do
  version ← Decoder.u64
  transaction ← Decoder.u64
  schema_version ← Decoder.u64
  kind ← decode_kind
  fields ← decode_fields
  pure (record {
    version = version;
    transaction = transaction;
    schema_version = schema_version;
    kind = kind;
    fields = fields;
  })

unfoldable pub decode_event : Bytes → Result Error Event
decode_event input = finished (decode_event_parts (Decoder.new input))

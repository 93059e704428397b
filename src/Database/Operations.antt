-- ===== src/Database/Operations.antt =====
-- The operations of database.rs as they are written in a record of the log.
pub mod Sizes
pub mod RoundTrip
mod Tests
use eve_db.Base.{
  ℕ, zero, suc, ◌+◌, Option, none, some, List, [], ◌∷◌, ◌++◌, length, ◌==◌, if◌then◌else◌, Result,
  Error, ok, err, corrupt, plain,
}
use eve_db.Codec.LittleEndian.{Bytes}
use eve_db.Codec.Encoder
use eve_db.Codec.Decoder
use eve_db.Codec.Decoder.{Decoding, ◌>>=◌, pure, fail}
use eve_db.Model.{Field, Schema, Table}
use eve_db.Model.Fields.{fields_encoded_len, encode_fields, decode_fields}
use eve_db.Model.Tables.{encode_table, decode_table}
use eve_db.Model.Records.{finished}
use eve_db.Database.{Operation}

abbrev pub fields_len : List Field → ℕ
fields_len [] = 0
fields_len (field ∷ fields) = 14 + length field.name + fields_len fields

abbrev pub schemas_len : List Schema → ℕ
schemas_len [] = 0
schemas_len (schema ∷ schemas) = 16 + fields_len schema.fields + schemas_len schemas

unfoldable pub encoded_len : Operation → ℕ
encoded_len (Operation.table table) = 1 + 24 + length table.name + schemas_len table.schemas
encoded_len (Operation.create t id fields) = 17 + fields_encoded_len fields
encoded_len (Operation.apply t id fields) = 17 + fields_encoded_len fields
encoded_len (Operation.delete t id) = 17
encoded_len (Operation.retain t id n) = 25
encoded_len (Operation.snapshot t id) = 17

abbrev pub entity_key : Operation → Option (ℕ × ℕ)
entity_key (Operation.table table) = none
entity_key (Operation.create t id fields) = some (t, id)
entity_key (Operation.apply t id fields) = some (t, id)
entity_key (Operation.delete t id) = some (t, id)
entity_key (Operation.retain t id n) = some (t, id)
entity_key (Operation.snapshot t id) = some (t, id)

-- The tag and the key of an operation on an entity.
abbrev pub encode_key : ℕ → ℕ → ℕ → Bytes → Bytes
encode_key tag t id e = Encoder.u64 id (Encoder.u64 t (Encoder.u8 tag e))

unfoldable pub encode_op : Operation → Bytes → Bytes
encode_op (Operation.table table) e = encode_table table (Encoder.u8 0 e)
encode_op (Operation.create t id fields) e = encode_fields fields (encode_key 1 t id e)
encode_op (Operation.apply t id fields) e = encode_fields fields (encode_key 2 t id e)
encode_op (Operation.delete t id) e = encode_key 3 t id e
encode_op (Operation.retain t id n) e = Encoder.u64 n (encode_key 4 t id e)
encode_op (Operation.snapshot t id) e = encode_key 5 t id e

unfoldable pub encode_list : List Operation → Bytes → Bytes
encode_list [] e = e
encode_list (op ∷ operations) e = encode_list operations (encode_op op e)

unfoldable pub encode_ops : List Operation → Bytes
encode_ops operations = encode_list operations (Encoder.u64 (length operations) Encoder.new)

-- `d.u64()?, d.u64()?`, the arguments of a constructor.
unfoldable pub decode_key : Decoding (ℕ × ℕ)
decode_key = do t ← Decoder.u64; id ← Decoder.u64; pure (t, id)

unfoldable pub decode_op : Decoding Operation
decode_op = do
  tag ← Decoder.u8
  if tag == 0
      then (do table ← decode_table; pure (Operation.table table))
      else if tag == 1
      then (do key ← decode_key; fields ← decode_fields; pure (Operation.create key.0 key.1 fields))
      else if tag == 2
      then (do key ← decode_key; fields ← decode_fields; pure (Operation.apply key.0 key.1 fields))
      else if tag == 3
      then (do key ← decode_key; pure (Operation.delete key.0 key.1))
      else if tag == 4
      then (do key ← decode_key; n ← Decoder.u64; pure (Operation.retain key.0 key.1 n))
      else if tag == 5
      then (do key ← decode_key; pure (Operation.snapshot key.0 key.1))
      else fail "unknown WAL operation"

-- `for _ in 0..count`, with the operations pushed so far.
unfoldable pub decode_list : ℕ → List Operation → Decoding (List Operation)
decode_list zero ops = pure ops
decode_list (suc n) ops = do op ← decode_op; decode_list n (ops ++ op ∷ [])

unfoldable pub decode_counted : Decoding (List Operation)
decode_counted = do
  count ← Decoder.count 1
  if count == 0 then fail "empty WAL transaction" else decode_list count []

unfoldable pub decode_ops : Bytes → Result Error (List Operation)
decode_ops bytes = finished (decode_counted (Decoder.new bytes))

-- ===== src/Model/Tables.antt =====
-- The codec of table definitions.
pub mod Cursor
pub mod RoundTrip
use eve_db.Base.{
  ℕ, zero, suc, ◌+◌, ◌||◌, List, [], ◌∷◌, ◌++◌, length, not, ◌==◌, if◌then◌else◌, String, Result,
  Error, ok, err, corrupt, plain, as_corrupt,
}
use eve_db.Codec.LittleEndian.{Bytes}
use eve_db.Codec.Encoder
use eve_db.Codec.Decoder
use eve_db.Codec.Decoder.{Decoding, ◌>>=◌, ◌>>◌, pure, fail}
use eve_db.Model.{DataType, Field, Schema, Table}
use eve_db.Model.Fields.{flag}
use eve_db.Model.Records.{decode_flag}
use eve_db.Model.Schemas.{validate, validate_name}

abbrev pub type_byte : DataType → ℕ
type_byte DataType.bool = 0
type_byte DataType.int64 = 1
type_byte DataType.uint64 = 2
type_byte DataType.float64 = 3
type_byte DataType.text = 4
type_byte DataType.bytes = 5

unfoldable pub encode_field : Field → Bytes → Bytes
encode_field field e =
    let e = Encoder.u32 field.id e in
    let e = Encoder.string field.name e in
    let e = Encoder.u8 (type_byte field.data_type) e in Encoder.u8 (flag field.nullable) e

unfoldable pub encode_field_list : List Field → Bytes → Bytes
encode_field_list [] e = e
encode_field_list (field ∷ fields) e = encode_field_list fields (encode_field field e)

unfoldable pub encode_schemas : List Schema → Bytes → Bytes
encode_schemas [] e = e
encode_schemas (schema ∷ schemas) e =
    let e = Encoder.u64 schema.version e in
    let e = Encoder.u64 (length schema.fields) e in
    encode_schemas schemas (encode_field_list schema.fields e)

unfoldable pub encode_table : Table → Bytes → Bytes
encode_table table e =
    let e = Encoder.u64 table.id e in
    let e = Encoder.string table.name e in
    let e = Encoder.u64 (length table.schemas) e in encode_schemas table.schemas e

unfoldable pub decode_type : Decoding DataType
decode_type = do
  b ← Decoder.u8
  if b == 0
      then pure DataType.bool
      else if b == 1
      then pure DataType.int64
      else if b == 2
      then pure DataType.uint64
      else if b == 3
      then pure DataType.float64
      else if b == 4
      then pure DataType.text
      else if b == 5
      then pure DataType.bytes
      else fail "invalid field type"

unfoldable pub decode_field : Decoding Field
decode_field = do
  id ← Decoder.u32
  name ← Decoder.string
  data_type ← decode_type
  nullable ← decode_flag "invalid nullability"
  pure (record { id = id; name = name; data_type = data_type; nullable = nullable })

-- `for _ in 0..n`, with the fields pushed so far.
unfoldable pub decode_field_list : ℕ → List Field → Decoding (List Field)
decode_field_list zero fields = pure fields
decode_field_list (suc n) fields = do
  field ← decode_field
  decode_field_list n (fields ++ field ∷ [])

-- A check outside the decoder, with `?`.
abbrev pub lift {ℓ} : {A : Type ℓ} → Result Error A → Decoding A
lift (ok a) d = ok (a, d)
lift (err e) d = err e

unfoldable pub decode_schema : ℕ → Decoding Schema
decode_schema position = do
  version ← Decoder.u64
  n ← Decoder.count 14
  fields ← decode_field_list n []
  let schema : Schema = record { version = version; fields = fields }
  lift (as_corrupt (validate schema))
  if version == position + 1 then pure schema else fail "nonsequential schema versions"

unfoldable pub decode_schemas : ℕ → List Schema → Decoding (List Schema)
decode_schemas zero schemas = pure schemas
decode_schemas (suc n) schemas = do
  schema ← decode_schema (length schemas)
  decode_schemas n (schemas ++ schema ∷ [])

unfoldable pub decode_table : Decoding Table
decode_table = do
  id ← Decoder.u64
  name ← Decoder.string
  n ← Decoder.count 16
  schemas ← decode_schemas n []
  if id == 0 || length schemas == 0 then fail "invalid table" else do
    lift (as_corrupt (validate_name name))
    pure (record { id = id; name = name; schemas = schemas })

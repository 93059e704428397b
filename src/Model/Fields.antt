-- ===== src/Model/Fields.antt =====
-- The codec of field assignments.
pub mod Cursor
pub mod RoundTrip
use eve_db.Base.{
  ℕ, zero, suc, ◌+◌, Bool, true, false, Option, none, some, List, [], ◌∷◌, ◌++◌, length, ltb, ◌==◌,
  if◌then◌else◌,
}
use eve_db.Base.Order.{nat_ord}
use eve_db.Base.Assoc.{lookup, upsert}
use eve_db.Base.Int.{ℤ, to_u64, to_i64}
use eve_db.Codec.LittleEndian.{Bytes}
use eve_db.Codec.Encoder
use eve_db.Codec.Decoder
use eve_db.Codec.Decoder.{Decoding, ◌>>=◌, pure, fail}
use eve_db.Model.{Value, Fields, is_finite}

abbrev pub flag : Bool → ℕ
flag true = 1
flag false = 0

unfoldable pub value_encoded_len : Value → ℕ
value_encoded_len Value.null = 5
value_encoded_len (Value.bool v) = 5 + 1
value_encoded_len (Value.text v) = 5 + (8 + length v)
value_encoded_len (Value.bytes v) = 5 + (8 + length v)
value_encoded_len (Value.int64 v) = 5 + 8
value_encoded_len (Value.uint64 v) = 5 + 8
value_encoded_len (Value.float64 v) = 5 + 8

unfoldable pub sum_encoded_len : Fields → ℕ
sum_encoded_len [] = 0
sum_encoded_len ((id, value) ∷ fields) = value_encoded_len value + sum_encoded_len fields

unfoldable pub fields_encoded_len : Fields → ℕ
fields_encoded_len fields = 8 + sum_encoded_len fields

-- The `match value` of `encode_fields`.
unfoldable pub encode_value : Value → Bytes → Bytes
encode_value Value.null e = Encoder.u8 0 e
encode_value (Value.bool v) e = Encoder.u8 (flag v) (Encoder.u8 1 e)
encode_value (Value.int64 v) e = Encoder.u64 (to_u64 v) (Encoder.u8 2 e)
encode_value (Value.uint64 v) e = Encoder.u64 v (Encoder.u8 3 e)
encode_value (Value.float64 v) e = Encoder.u64 v (Encoder.u8 4 e)
encode_value (Value.text v) e = Encoder.string v (Encoder.u8 5 e)
encode_value (Value.bytes v) e = Encoder.bytes v (Encoder.u8 6 e)

-- The loop of `encode_fields`.
unfoldable pub encode_items : Fields → Bytes → Bytes
encode_items [] e = e
encode_items ((id, value) ∷ fields) e = encode_items fields (encode_value value (Encoder.u32 id e))

unfoldable pub encode_fields : Fields → Bytes → Bytes
encode_fields fields e = encode_items fields (Encoder.u64 (length fields) e)

unfoldable pub decode_bool : Decoding Value
decode_bool = do
  b ← Decoder.u8
  if b == 0
      then pure (Value.bool false)
      else if b == 1
      then pure (Value.bool true)
      else fail "invalid boolean"

unfoldable pub decode_float : Decoding Value
decode_float = do
  v ← Decoder.u64
  if is_finite v then pure (Value.float64 v) else fail "non-finite float"

-- The `match d.u8()?` of `decode_fields`.
unfoldable pub decode_value : Decoding Value
decode_value = do
  tag ← Decoder.u8
  if tag == 0
      then pure Value.null
      else if tag == 1
      then decode_bool
      else if tag == 2
      then (do v ← Decoder.u64; pure (Value.int64 (to_i64 v)))
      else if tag == 3
      then (do v ← Decoder.u64; pure (Value.uint64 v))
      else if tag == 4
      then decode_float
      else if tag == 5
      then (do v ← Decoder.string; pure (Value.text v))
      else if tag == 6
      then (do v ← Decoder.bytes; pure (Value.bytes v))
      else fail "unknown value type"

-- `fields.insert(id, value).is_some()` is an error.
abbrev pub insert_new : ℕ → Value → Fields → Decoding Fields
insert_new id value fields = elim (lookup id fields) [
  | some _ ↦ fail "duplicate field"
  | none ↦ pure (upsert id value fields)
]

-- The loop of `decode_fields` over the fields that are left.
unfoldable pub decode_items : ℕ → Fields → Decoding Fields
decode_items zero fields = pure fields
decode_items (suc n) fields = do
  id ← Decoder.u32
  value ← decode_value
  more ← insert_new id value fields
  decode_items n more

unfoldable pub decode_fields : Decoding Fields
decode_fields = do
  n ← Decoder.count 5
  if ltb 4096 n then fail "too many fields" else decode_items n []

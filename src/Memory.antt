-- ===== src/Memory.antt =====
-- memory.rs: the decoded sizes that reads and writes are charged. What a text or a
-- buffer has reserved, its `capacity`, is a parameter, and so are the sizes of the Rust types. Sums are not wrapped: they measure values that are in memory.
pub mod Sizes
mod Tests
use eve_db.Base.{
  ℕ, zero, suc, ◌+◌, ◌*◌, ◌^◌, Bool, not, ◌||◌, ltb, ◌==◌, if◌then◌else◌, Option, none, some, List,
  [], ◌∷◌, length, Error, Result, keep, ◌++◌,
}
use eve_db.Base.Order.{nat_ord}
use eve_db.Base.Assoc.{lookup}
use eve_db.Codec.LittleEndian.{Bytes}
use eve_db.Codec.Decoder
use eve_db.Codec.Decoder.{Decoding, ◌>>=◌, ◌>>◌, pure, fail}
use eve_db.Model.{Value, Fields, Entity, Event}
use eve_db.Model.Records.{finished}

-- `FIELD_BYTES`
abbrev pub field_bytes : ℕ
field_bytes = 128

module _ (capacity : Bytes → ℕ) where
  abbrev pub value_bytes : Value → ℕ
  value_bytes (Value.text v) = capacity v
  value_bytes (Value.bytes v) = capacity v
  value_bytes Value.null = 0
  value_bytes (Value.bool v) = 0
  value_bytes (Value.int64 v) = 0
  value_bytes (Value.uint64 v) = 0
  value_bytes (Value.float64 v) = 0

  unfoldable pub fields_bytes : Fields → ℕ
  fields_bytes [] = 0
  fields_bytes ((id, value) ∷ fields) = field_bytes + value_bytes value + fields_bytes fields

  -- `size` is `size_of::<Entity>()`, and `size_of::<Accounted<Event>>()`.
  abbrev pub entity_bytes : ℕ → Entity → ℕ
  entity_bytes size entity = size + fields_bytes entity.fields

  abbrev pub event_bytes : ℕ → Event → ℕ
  event_bytes size event = size + fields_bytes event.fields

-- The `match value` of `merged_sizes`.
abbrev pub value_encoded : Value → ℕ
value_encoded Value.null = 0
value_encoded (Value.bool v) = 1
value_encoded (Value.text v) = 8 + length v
value_encoded (Value.bytes v) = 8 + length v
value_encoded (Value.int64 v) = 8
value_encoded (Value.uint64 v) = 8
value_encoded (Value.float64 v) = 8

-- `changes.get(id).unwrap_or(value)` for the current values.
unfoldable pub overridden : Fields → Fields → List Value
overridden [] changes = []
overridden ((id, value) ∷ current) changes =
    elim (lookup id changes) [ none ↦ value | some v ↦ v ] ∷ overridden current changes

-- The changes to fields that have no current value.
unfoldable pub added : Fields → Fields → List Value
added current [] = []
added current ((id, value) ∷ changes) = elim (lookup id current) [
  | none ↦ value ∷ added current changes
  | some v ↦ added current changes
]

module _ (capacity : Bytes → ℕ) where
  -- The loop of `merged_sizes`.
  unfoldable pub sum_sizes : List Value → ℕ × ℕ → ℕ × ℕ
  sum_sizes [] sizes = sizes
  sum_sizes (value ∷ values) (decoded, encoded) =
      sum_sizes values
        (decoded + (field_bytes + value_bytes capacity value), encoded + (5 + value_encoded value))

  unfoldable pub merged_sizes : ℕ → Fields → Fields → ℕ × ℕ
  merged_sizes size current changes =
      sum_sizes (overridden current changes ++ added current changes) (size, 25 + 8)

-- The bytes of a value, by its tag.
unfoldable pub skip_value : Decoding ℕ
skip_value = do
  tag ← Decoder.u8
  if tag == 0
      then pure 0
      else if tag == 1
      then (do b ← Decoder.u8; pure 0)
      else if tag == 2 || tag == 3 || tag == 4
      then (do v ← Decoder.u64; pure 0)
      else if tag == 5 || tag == 6
      then (do v ← Decoder.bytes; pure (length v))
      else fail "unknown value tag"

-- The loop of `record_bytes`.
unfoldable pub skip_fields : ℕ → ℕ → Decoding ℕ
skip_fields zero size = pure size
skip_fields (suc n) size = do
  id ← Decoder.u32
  variable ← skip_value
  if ltb (size + variable) (2 ^ 64)
      then skip_fields n (size + variable)
      else fail "decoded size overflow"

unfoldable pub record_parts : ℕ → Decoding ℕ
record_parts overhead = do
  a ← Decoder.u64
  b ← Decoder.u64
  c ← Decoder.u64
  d ← Decoder.u8
  count ← Decoder.count 5
  if not (ltb (count * field_bytes) (2 ^ 64)) || not (ltb (overhead + count * field_bytes) (2 ^ 64))
      then fail "decoded size overflow"
      else skip_fields count (overhead + count * field_bytes)

unfoldable pub record_bytes : Bytes → ℕ → Result Error ℕ
record_bytes bytes overhead = finished (record_parts overhead (Decoder.new bytes))

-- ===== src/Memory/Sizes.antt =====
-- `record_bytes` of memory.rs against the sizes of decoded records.
use mathlib.Core.Path.{subst}
use eve_db.Base.{
  ℕ, ◌+◌, ◌-◌, ◌*◌, ◌^◌, ◌<◌, ◌≤◌, ◌≡◌, refl, ok, true, false, [], ◌∷◌, ◌++◌, length, All, arith,
  ltb, not, ◌||◌, if◌then◌else◌,
}
use eve_db.Codec.LittleEndian.{Bytes, to_le_bytes}
use eve_db.Codec.Decoder.{pure}
use eve_db.Base.Int.{to_u64, to_u64-lt}
use eve_db.Codec.Parses.{
  Parses, Parses-pure, Parses-then, Parses-bind, Parses-u8, Parses-u32, Parses-u64, Parses-bytes,
  Parses-count,
}
use eve_db.Model.{Value, Fields, Entity, Event}
use eve_db.Model.Fields.{flag}
use eve_db.Model.Fields.RoundTrip.{
  IsValue, IsFields, value_code, items_code, fields_code, length-items_code, sum_encoded_len-ge,
}
use eve_db.Model.Records.{encode_entity, kind_byte, encode_event}
use eve_db.Model.Records.RoundTrip.{
  IsEntity, IsEvent, header_bytes, encode_entity-bytes, encode_event-bytes, finished-whole,
}
use eve_db.Memory.{
  field_bytes, value_bytes, fields_bytes, entity_bytes, event_bytes, skip_value, skip_fields,
  record_parts, record_bytes,
}

Parses-skip_value :
    (v : Value) → IsValue v → Parses skip_value (value_code v) (value_bytes length v)
unfolding skip_value
Parses-skip_value Value.null h = Parses-then _ _ (Parses-u8 0) (λ d. refl)
Parses-skip_value (Value.bool v) h =
    Parses-bind _ (1 ∷ []) _ (Parses-u8 1) (Parses-then _ _ (Parses-u8 (flag v)) (λ d. refl))
Parses-skip_value (Value.int64 v) h =
    Parses-bind _ (2 ∷ []) _ (Parses-u8 2)
      (Parses-then _ _ (Parses-u64 (to_u64 v) (to_u64-lt v h)) (λ d. refl))
Parses-skip_value (Value.uint64 v) h =
    Parses-bind _ (3 ∷ []) _ (Parses-u8 3) (Parses-then _ _ (Parses-u64 v h) (λ d. refl))
Parses-skip_value (Value.float64 v) h =
    Parses-bind _ (4 ∷ []) _ (Parses-u8 4) (Parses-then _ _ (Parses-u64 v h.0) (λ d. refl))
Parses-skip_value (Value.text v) h =
    Parses-bind _ (5 ∷ []) _ (Parses-u8 5) (Parses-then _ _ (Parses-bytes v h.0) (λ d. refl))
Parses-skip_value (Value.bytes v) h =
    Parses-bind _ (6 ∷ []) _ (Parses-u8 6) (Parses-then _ _ (Parses-bytes v h) (λ d. refl))

-- The bytes of the texts and buffers.
abbrev variable_bytes : Fields → ℕ
variable_bytes [] = 0
variable_bytes ((id, v) ∷ fs) = value_bytes length v + variable_bytes fs

fields_bytes-eq :
    (fs : Fields) → fields_bytes length fs ≡ length fs * field_bytes + variable_bytes fs
unfolding fields_bytes
fields_bytes-eq [] = refl
fields_bytes-eq ((id, v) ∷ fs) = omega (arith, fields_bytes-eq fs)

Parses-skip_fields :
    (fs : Fields) (size : ℕ)
    → All (λ f. (f.0 < 2 ^ 32) × IsValue f.1) fs
    → size + variable_bytes fs < 2 ^ 64
    → Parses (skip_fields (length fs) size) (items_code fs) (size + variable_bytes fs)
unfolding skip_fields
Parses-skip_fields [] size t h =
    let same : size ≡ size + 0 = omega arith in
    subst (Parses (pure size) []) same (Parses-pure size)
Parses-skip_fields ((id, v) ∷ fs) size t h =
    let fits : ltb (size + value_bytes length v) (2 ^ 64) ≡ true = ground arith in
    let sum : size + value_bytes length v + variable_bytes fs
        ≡ size + (value_bytes length v + variable_bytes fs) =
      omega arith in
    let rest = Parses-skip_fields fs (size + value_bytes length v) t.1 (omega arith) in
    Parses-bind _ (to_le_bytes 4 id) (value_code v ++ items_code fs) (Parses-u32 id t.0.0) (
      Parses-bind _ (value_code v) (items_code fs) (Parses-skip_value v t.0.1)
        (rw (fits, if◌then◌else◌) (rw (← sum) rest)))

Parses-record_parts :
    (a b c d overhead : ℕ) (fs : Fields)
    → a < 2 ^ 64
    → b < 2 ^ 64
    → c < 2 ^ 64
    → IsFields fs
    → overhead + fields_bytes length fs < 2 ^ 64
    → Parses
        (record_parts overhead)
        (header_bytes a b c d (fields_code fs))
        (overhead + fields_bytes length fs)
unfolding record_parts
Parses-record_parts a b c d overhead fs ha hb hc f h =
    let sum = fields_bytes-eq fs in
    let test : (not (ltb (length fs * field_bytes) (2 ^ 64))
          || not (ltb (overhead + length fs * field_bytes) (2 ^ 64)))
        ≡ false =
      ground (arith, sum) in
    let total : overhead + length fs * field_bytes + variable_bytes fs
        ≡ overhead + fields_bytes length fs =
      omega (arith, sum) in
    let fields =
      Parses-skip_fields fs (overhead + length fs * field_bytes) f.typed (omega (arith, sum)) in
    Parses-bind _ (to_le_bytes 8 a) _ (Parses-u64 a ha) (
      Parses-bind _ (to_le_bytes 8 b) _ (Parses-u64 b hb) (
        Parses-bind _ (to_le_bytes 8 c) _ (Parses-u64 c hc) (
          Parses-bind _ (d ∷ []) _ (Parses-u8 d) (
            Parses-count (length fs) 5 _ (items_code fs) (omega (arith, f.few))
              (omega (arith, length-items_code fs, sum_encoded_len-ge fs))
              (rw (test, if◌then◌else◌) (rw (← total) fields))))))

-- What the texts and buffers have reserved beyond their bytes.
abbrev pub spare_bytes : (Bytes → ℕ) → Fields → ℕ
spare_bytes capacity [] = 0
spare_bytes capacity ((id, Value.text v) ∷ fs) = capacity v - length v + spare_bytes capacity fs
spare_bytes capacity ((id, Value.bytes v) ∷ fs) = capacity v - length v + spare_bytes capacity fs
spare_bytes capacity ((id, Value.null) ∷ fs) = spare_bytes capacity fs
spare_bytes capacity ((id, Value.bool v) ∷ fs) = spare_bytes capacity fs
spare_bytes capacity ((id, Value.int64 v) ∷ fs) = spare_bytes capacity fs
spare_bytes capacity ((id, Value.uint64 v) ∷ fs) = spare_bytes capacity fs
spare_bytes capacity ((id, Value.float64 v) ∷ fs) = spare_bytes capacity fs

-- As the documentation of `String` and `Vec` has it: a buffer holds its bytes.
abbrev pub HoldsBytes : (Bytes → ℕ) → Type 0
HoldsBytes capacity = (v : Bytes) → length v ≤ capacity v

fields_bytes-spare_bytes :
    (capacity : Bytes → ℕ) (fs : Fields)
    → HoldsBytes capacity
    → fields_bytes length fs + spare_bytes capacity fs ≡ fields_bytes capacity fs
unfolding fields_bytes
fields_bytes-spare_bytes capacity [] c = refl
fields_bytes-spare_bytes capacity ((id, Value.text v) ∷ fs) c =
    omega (arith, c v, fields_bytes-spare_bytes capacity fs c)
fields_bytes-spare_bytes capacity ((id, Value.bytes v) ∷ fs) c =
    omega (arith, c v, fields_bytes-spare_bytes capacity fs c)
fields_bytes-spare_bytes capacity ((id, Value.null) ∷ fs) c =
    omega (arith, fields_bytes-spare_bytes capacity fs c)
fields_bytes-spare_bytes capacity ((id, Value.bool v) ∷ fs) c =
    omega (arith, fields_bytes-spare_bytes capacity fs c)
fields_bytes-spare_bytes capacity ((id, Value.int64 v) ∷ fs) c =
    omega (arith, fields_bytes-spare_bytes capacity fs c)
fields_bytes-spare_bytes capacity ((id, Value.uint64 v) ∷ fs) c =
    omega (arith, fields_bytes-spare_bytes capacity fs c)
fields_bytes-spare_bytes capacity ((id, Value.float64 v) ∷ fs) c =
    omega (arith, fields_bytes-spare_bytes capacity fs c)

-- The size charged for an encoded entity, before it is decoded, is the size of the entity in memory
-- less what its texts and buffers have reserved beyond their bytes: for an entity of the Rust types
-- whose size fits a `usize`, where the capacity of a text or buffer is its length or more.
pub record_bytes-encode_entity :
    (capacity : Bytes → ℕ) (size : ℕ) (e : Entity)
    → HoldsBytes capacity
    → IsEntity e
    → entity_bytes capacity size e < 2 ^ 64
    → record_bytes (encode_entity e) size
      ≡ ok (entity_bytes capacity size e - spare_bytes capacity e.fields)
unfolding record_bytes
record_bytes-encode_entity capacity size e c h fits =
    let spare = fields_bytes-spare_bytes capacity e.fields c in
    let whole : entity_bytes capacity size e - spare_bytes capacity e.fields
        ≡ entity_bytes length size e =
      omega (arith, spare) in
    finished-whole (record_parts size) (encode_entity e) _ h.size_fits (
      rw (encode_entity-bytes e, whole)
        (Parses-record_parts e.id e.version e.schema_version (flag e.deleted) size e.fields
          h.id_fits h.version_fits h.schema_fits h.fields_valid (omega (arith, spare, fits))))

-- The size charged for an encoded event, before it is decoded, is the size of the event in memory
-- less what its texts and buffers have reserved beyond their bytes: for an event of the Rust types
-- whose size fits a `usize`, where the capacity of a text or buffer is its length or more.
pub record_bytes-encode_event :
    (capacity : Bytes → ℕ) (size : ℕ) (e : Event)
    → HoldsBytes capacity
    → IsEvent e
    → event_bytes capacity size e < 2 ^ 64
    → record_bytes (encode_event e) size
      ≡ ok (event_bytes capacity size e - spare_bytes capacity e.fields)
unfolding record_bytes
record_bytes-encode_event capacity size e c h fits =
    let spare = fields_bytes-spare_bytes capacity e.fields c in
    let whole : event_bytes capacity size e - spare_bytes capacity e.fields
        ≡ event_bytes length size e =
      omega (arith, spare) in
    finished-whole (record_parts size) (encode_event e) _ h.size_fits (
      rw (encode_event-bytes e, whole)
        (Parses-record_parts e.version e.transaction e.schema_version (kind_byte e.kind) size
          e.fields h.version_fits h.transaction_fits h.schema_fits h.fields_valid
          (omega (arith, spare, fits))))

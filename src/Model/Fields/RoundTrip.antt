-- ===== src/Model/Fields/RoundTrip.antt =====
-- The encoding and the decoding of field assignments (model.rs).
use mathlib.Core.List.{append_assoc, append-nil}
use eve_db.Base.{
  ℕ, ◌+◌, ◌*◌, ◌^◌, ◌≤◌, ◌<◌, ◌≡◌, refl, sym, ap, ◌∙◌, true, false, none, [], ◌∷◌, ◌++◌, length,
  length-append, All, arith, ◌-◌, ok, ltb, if◌then◌else◌,
}
use eve_db.Base.Order.{nat_ord}
use eve_db.Base.Assoc.{
  lookup, upsert, IsSorted, Below, IsSorted-split, upsert-append_past, lookup-append_past,
}
use eve_db.Base.Int.{to_u64, IsI64, to_u64-lt, to_i64-to_u64}
use eve_db.Codec.LittleEndian.{Bytes, to_le_bytes, length-to_le_bytes}
use eve_db.Codec.Encoder
use eve_db.Codec.Decoder.Utf8.{is_utf8}
use eve_db.Codec.Parses.{
  Parses, Parses-pure, Parses-then, Parses-bind, Parses-u8, Parses-u32, Parses-u64, Parses-count,
  Parses-bytes, Parses-string,
}
use eve_db.Model.{Value, Fields, is_finite}
use eve_db.Model.Fields.{
  flag, value_encoded_len, sum_encoded_len, fields_encoded_len, encode_value, encode_items,
  encode_fields, decode_bool, decode_float, decode_value, insert_new, decode_items, decode_fields,
}

-- A value of its Rust type, in a slice that fits the address space.
abbrev pub IsValue : Value → Type 0
IsValue Value.null = Unit
IsValue (Value.bool v) = Unit
IsValue (Value.int64 v) = IsI64 v
IsValue (Value.uint64 v) = v < 2 ^ 64
IsValue (Value.float64 v) = (v < 2 ^ 64) × (is_finite v ≡ true)
IsValue (Value.text v) = (length v < 2 ^ 64) × (is_utf8 v ≡ true)
IsValue (Value.bytes v) = length v < 2 ^ 64

-- The bytes that the encoder appends for a value.
abbrev pub value_code : Value → Bytes
value_code Value.null = 0 ∷ []
value_code (Value.bool v) = 1 ∷ flag v ∷ []
value_code (Value.int64 v) = 2 ∷ to_le_bytes 8 (to_u64 v)
value_code (Value.uint64 v) = 3 ∷ to_le_bytes 8 v
value_code (Value.float64 v) = 4 ∷ to_le_bytes 8 v
value_code (Value.text v) = 5 ∷ (to_le_bytes 8 (length v) ++ v)
value_code (Value.bytes v) = 6 ∷ (to_le_bytes 8 (length v) ++ v)

abbrev pub items_code : Fields → Bytes
items_code [] = []
items_code ((id, value) ∷ fields) = to_le_bytes 4 id ++ (value_code value ++ items_code fields)

abbrev pub fields_code : Fields → Bytes
fields_code fields = to_le_bytes 8 (length fields) ++ items_code fields

encode_value-append : (v : Value) (e : Bytes) → encode_value v e ≡ e ++ value_code v
unfolding encode_value
encode_value-append Value.null e = refl
encode_value-append (Value.bool v) e = simp append_assoc
encode_value-append (Value.int64 v) e = simp append_assoc
encode_value-append (Value.uint64 v) e = simp append_assoc
encode_value-append (Value.float64 v) e = simp append_assoc
encode_value-append (Value.text v) e = simp append_assoc
encode_value-append (Value.bytes v) e = simp append_assoc

encode_items-append : (fs : Fields) (e : Bytes) → encode_items fs e ≡ e ++ items_code fs
unfolding encode_items
encode_items-append [] e = sym (append-nil e)
encode_items-append ((id, v) ∷ fs) e =
    encode_items-append fs (encode_value v (Encoder.u32 id e))
    ∙ rw (encode_value-append v (Encoder.u32 id e)) (simp append_assoc)

pub encode_fields-append : (fs : Fields) (e : Bytes) → encode_fields fs e ≡ e ++ fields_code fs
unfolding encode_fields
encode_fields-append fs e = encode_items-append fs (Encoder.u64 (length fs) e) ∙ simp append_assoc

Parses-decode_value : (v : Value) → IsValue v → Parses decode_value (value_code v) v
unfolding decode_value decode_bool decode_float
Parses-decode_value Value.null h = Parses-bind _ (0 ∷ []) [] (Parses-u8 0) (Parses-pure Value.null)
Parses-decode_value (Value.bool false) h =
    Parses-bind _ (1 ∷ []) (0 ∷ []) (Parses-u8 1)
      (Parses-bind _ (0 ∷ []) [] (Parses-u8 0) (Parses-pure (Value.bool false)))
Parses-decode_value (Value.bool true) h =
    Parses-bind _ (1 ∷ []) (1 ∷ []) (Parses-u8 1)
      (Parses-bind _ (1 ∷ []) [] (Parses-u8 1) (Parses-pure (Value.bool true)))
Parses-decode_value (Value.int64 v) h = Parses-bind _ (2 ∷ []) _ (Parses-u8 2) (
    Parses-then _ _ (Parses-u64 (to_u64 v) (to_u64-lt v h))
      (λ d. ap (λ x. ok (Value.int64 x, d)) (to_i64-to_u64 v h)))
Parses-decode_value (Value.uint64 v) h =
    Parses-bind _ (3 ∷ []) _ (Parses-u8 3) (Parses-then _ _ (Parses-u64 v h) (λ d. refl))
Parses-decode_value (Value.float64 v) h =
    Parses-bind _ (4 ∷ []) _ (Parses-u8 4)
      (Parses-then _ _ (Parses-u64 v h.0) (λ d. ground (arith, h.1)))
Parses-decode_value (Value.text v) h =
    Parses-bind _ (5 ∷ []) _ (Parses-u8 5) (Parses-then _ _ (Parses-string v h.0 h.1) (λ d. refl))
Parses-decode_value (Value.bytes v) h =
    Parses-bind _ (6 ∷ []) _ (Parses-u8 6) (Parses-then _ _ (Parses-bytes v h) (λ d. refl))

-- The assignments that the engine holds: sorted by identifier, and of the Rust types.
pub record IsFields (fs : Fields) : Type 0 where
  pub sorted : IsSorted fs
  pub typed : All (λ f. (f.0 < 2 ^ 32) × IsValue f.1) fs
  pub few : length fs ≤ 4096

Parses-insert_new :
    (id : ℕ) (v : Value) (fs : Fields)
    → Below id fs
    → Parses (insert_new id v fs) [] (fs ++ (id, v) ∷ [])
unfolding lookup upsert
Parses-insert_new id v fs b =
    let absent : lookup id fs ≡ none =
      ap (lookup id) (sym (append-nil fs)) ∙ lookup-append_past fs [] id b in
    let last : upsert id v fs ≡ fs ++ (id, v) ∷ [] =
      ap (upsert id v) (sym (append-nil fs)) ∙ upsert-append_past fs [] id v b in
    rw (absent, insert_new) (rw last (Parses-pure (fs ++ (id, v) ∷ [])))

Parses-decode_items :
    (fs done : Fields)
    → IsSorted (done ++ fs)
    → All (λ f. (f.0 < 2 ^ 32) × IsValue f.1) fs
    → Parses (decode_items (length fs) done) (items_code fs) (done ++ fs)
unfolding decode_items
Parses-decode_items [] done s t = rw append-nil (Parses-pure done)
Parses-decode_items ((id, v) ∷ fs) done s t =
    let e : (done ++ (id, v) ∷ []) ++ fs ≡ done ++ (id, v) ∷ fs =
      append_assoc done ((id, v) ∷ []) fs in
    let rest = Parses-decode_items fs (done ++ (id, v) ∷ []) (rw e s) t.1 in
    let parts = IsSorted-split done id v fs s in
    Parses-bind _ (to_le_bytes 4 id) (value_code v ++ items_code fs) (Parses-u32 id t.0.0) (
      Parses-bind _ (value_code v) (items_code fs) (Parses-decode_value v t.0.1)
        (Parses-bind _ [] (items_code fs) (Parses-insert_new id v done parts.1) (rw e at rest)))

length-value_code : (v : Value) → length (value_code v) ≡ value_encoded_len v - 4
unfolding value_encoded_len
length-value_code Value.null = refl
length-value_code (Value.bool v) = refl
length-value_code (Value.int64 v) = omega (arith, length-to_le_bytes 8 (to_u64 v))
length-value_code (Value.uint64 v) = omega (arith, length-to_le_bytes 8 v)
length-value_code (Value.float64 v) = omega (arith, length-to_le_bytes 8 v)
length-value_code (Value.text v) =
    omega (arith, length-append (to_le_bytes 8 (length v)) v, length-to_le_bytes 8 (length v))
length-value_code (Value.bytes v) =
    omega (arith, length-append (to_le_bytes 8 (length v)) v, length-to_le_bytes 8 (length v))

value_encoded_len-ge : (v : Value) → 5 ≤ value_encoded_len v
unfolding value_encoded_len
value_encoded_len-ge Value.null = omega arith
value_encoded_len-ge _ = omega arith

pub length-items_code : (fs : Fields) → length (items_code fs) ≡ sum_encoded_len fs
unfolding sum_encoded_len
length-items_code [] = refl
length-items_code ((id, v) ∷ fs) = omega (
  arith,
  length-append (to_le_bytes 4 id) (value_code v ++ items_code fs),
  length-append (value_code v) (items_code fs),
  length-to_le_bytes 4 id,
  length-value_code v,
  value_encoded_len-ge v,
  length-items_code fs,
)

pub sum_encoded_len-ge : (fs : Fields) → length fs * 5 ≤ sum_encoded_len fs
unfolding sum_encoded_len
sum_encoded_len-ge [] = omega arith
sum_encoded_len-ge ((id, v) ∷ fs) = omega (arith, value_encoded_len-ge v, sum_encoded_len-ge fs)

-- `fields_encoded_len` is the number of bytes that `encode_fields` appends.
pub length-encode_fields :
    (fs : Fields) (e : Bytes) → length (encode_fields fs e) ≡ length e + fields_encoded_len fs
unfolding fields_encoded_len
length-encode_fields fs e = omega (
  arith,
  ap length (encode_fields-append fs e),
  length-append e (fields_code fs),
  length-append (to_le_bytes 8 (length fs)) (items_code fs),
  length-to_le_bytes 8 (length fs),
  length-items_code fs,
)

-- `decode_fields` reads back what `encode_fields` wrote, whatever bytes follow.
pub Parses-decode_fields : (fs : Fields) → IsFields fs → Parses decode_fields (fields_code fs) fs
unfolding decode_fields
Parses-decode_fields fs h =
    let few : ltb 4096 (length fs) ≡ false = ground (arith, h.few) in
    Parses-count (length fs) 5 _ (items_code fs) (omega (arith, h.few))
      (omega (arith, length-items_code fs, sum_encoded_len-ge fs))
      (rw (few, if◌then◌else◌) (Parses-decode_items fs [] h.sorted h.typed))

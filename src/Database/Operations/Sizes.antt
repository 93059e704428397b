-- ===== src/Database/Operations/Sizes.antt =====
-- The bytes of the log record of a transaction (database.rs), and their number.
use mathlib.Core.List.{append_assoc, append-nil}
use eve_db.Base.{
  ℕ, ◌+◌, ◌≤◌, ◌≡◌, refl, sym, ap, ◌∙◌, List, [], ◌∷◌, ◌++◌, length, length-append, arith,
}
use eve_db.Codec.LittleEndian.{Bytes, to_le_bytes, length-to_le_bytes}
use eve_db.Model.{Field, Schema, Table}
use eve_db.Model.Fields.{fields_encoded_len}
use eve_db.Model.Fields.RoundTrip.{fields_code, items_code, encode_fields-append, length-items_code}
use eve_db.Model.Tables.RoundTrip.{
  field_list_bytes, field_bytes, text_bytes, schemas_bytes, schema_bytes, table_bytes,
  encode_table-append,
}
use eve_db.Model.Tables.{type_byte}
use eve_db.Model.Fields.{flag}
use eve_db.Database.{Operation}
use eve_db.Database.Operations.{
  fields_len, schemas_len, encoded_len, encode_op, encode_list, encode_ops,
}

abbrev key_bytes : ℕ → ℕ → ℕ → Bytes
key_bytes tag t id = tag ∷ (to_le_bytes 8 t ++ to_le_bytes 8 id)

-- The bytes that the encoder appends for an operation.
abbrev pub op_bytes : Operation → Bytes
op_bytes (Operation.table table) = 0 ∷ table_bytes table
op_bytes (Operation.create t id fields) = key_bytes 1 t id ++ fields_code fields
op_bytes (Operation.apply t id fields) = key_bytes 2 t id ++ fields_code fields
op_bytes (Operation.delete t id) = key_bytes 3 t id
op_bytes (Operation.retain t id n) = key_bytes 4 t id ++ to_le_bytes 8 n
op_bytes (Operation.snapshot t id) = key_bytes 5 t id

abbrev pub list_bytes : List Operation → Bytes
list_bytes [] = []
list_bytes (op ∷ ops) = op_bytes op ++ list_bytes ops

encode_op-append : (op : Operation) (e : Bytes) → encode_op op e ≡ e ++ op_bytes op
unfolding encode_op
encode_op-append (Operation.table table) e = encode_table-append table _ ∙ simp append_assoc
encode_op-append (Operation.create t id fields) e =
    encode_fields-append fields _ ∙ simp append_assoc
encode_op-append (Operation.apply t id fields) e = encode_fields-append fields _ ∙ simp append_assoc
encode_op-append (Operation.delete t id) e = simp append_assoc
encode_op-append (Operation.retain t id n) e = simp append_assoc
encode_op-append (Operation.snapshot t id) e = simp append_assoc

encode_list-append : (ops : List Operation) (e : Bytes) → encode_list ops e ≡ e ++ list_bytes ops
unfolding encode_list
encode_list-append [] e = sym (append-nil e)
encode_list-append (op ∷ ops) e =
    encode_list-append ops _ ∙ rw (encode_op-append op e) (simp append_assoc)

length-field_list : (fs : List Field) → length (field_list_bytes fs) ≡ fields_len fs
length-field_list [] = refl
length-field_list (f ∷ fs) = omega (
  arith,
  length-append (field_bytes f) (field_list_bytes fs),
  length-append (to_le_bytes 4 f.id)
      (text_bytes f.name ++ (type_byte f.data_type ∷ flag f.nullable ∷ [])),
  length-append (text_bytes f.name) (type_byte f.data_type ∷ flag f.nullable ∷ []),
  length-append (to_le_bytes 8 (length f.name)) f.name,
  length-to_le_bytes 4 f.id,
  length-to_le_bytes 8 (length f.name),
  length-field_list fs,
)

length-schemas : (ss : List Schema) → length (schemas_bytes ss) ≡ schemas_len ss
length-schemas [] = refl
length-schemas (s ∷ ss) = omega (
  arith,
  length-append (schema_bytes s) (schemas_bytes ss),
  length-append (to_le_bytes 8 s.version)
      (to_le_bytes 8 (length s.fields) ++ field_list_bytes s.fields),
  length-append (to_le_bytes 8 (length s.fields)) (field_list_bytes s.fields),
  length-to_le_bytes 8 s.version,
  length-to_le_bytes 8 (length s.fields),
  length-field_list s.fields,
  length-schemas ss,
)

length-table : (t : Table) → length (table_bytes t) ≡ 24 + length t.name + schemas_len t.schemas
length-table t = omega (
  arith,
  length-append (to_le_bytes 8 t.id)
      (text_bytes t.name ++ (to_le_bytes 8 (length t.schemas) ++ schemas_bytes t.schemas)),
  length-append (text_bytes t.name) (to_le_bytes 8 (length t.schemas) ++ schemas_bytes t.schemas),
  length-append (to_le_bytes 8 (length t.name)) t.name,
  length-append (to_le_bytes 8 (length t.schemas)) (schemas_bytes t.schemas),
  length-to_le_bytes 8 t.id,
  length-to_le_bytes 8 (length t.name),
  length-to_le_bytes 8 (length t.schemas),
  length-schemas t.schemas,
)

length-key : (tag t id : ℕ) → length (key_bytes tag t id) ≡ 17
length-key tag t id = omega (
  arith,
  length-append (to_le_bytes 8 t) (to_le_bytes 8 id),
  length-to_le_bytes 8 t,
  length-to_le_bytes 8 id,
)

length-fields : (fields : _) → length (fields_code fields) ≡ fields_encoded_len fields
unfolding fields_encoded_len
length-fields fields = omega (
  arith,
  length-append (to_le_bytes 8 (length fields)) (items_code fields),
  length-to_le_bytes 8 (length fields),
  length-items_code fields,
)

pub length-op_bytes : (op : Operation) → length (op_bytes op) ≡ encoded_len op
unfolding encoded_len
length-op_bytes (Operation.table table) = omega (arith, length-table table)
length-op_bytes (Operation.create t id fields) = omega (
  arith,
  length-append (key_bytes 1 t id) (fields_code fields),
  length-key 1 t id,
  length-fields fields,
)
length-op_bytes (Operation.apply t id fields) = omega (
  arith,
  length-append (key_bytes 2 t id) (fields_code fields),
  length-key 2 t id,
  length-fields fields,
)
length-op_bytes (Operation.delete t id) = length-key 3 t id
length-op_bytes (Operation.retain t id n) = omega (
  arith,
  length-append (key_bytes 4 t id) (to_le_bytes 8 n),
  length-key 4 t id,
  length-to_le_bytes 8 n,
)
length-op_bytes (Operation.snapshot t id) = length-key 5 t id

-- The bytes that a transaction has reserved for its operations.
abbrev pub sum_len : List Operation → ℕ
sum_len [] = 0
sum_len (op ∷ ops) = encoded_len op + sum_len ops

pub length-list_bytes : (ops : List Operation) → length (list_bytes ops) ≡ sum_len ops
length-list_bytes [] = refl
length-list_bytes (op ∷ ops) =
    omega (
      arith,
      length-append (op_bytes op) (list_bytes ops),
      length-op_bytes op,
      length-list_bytes ops,
    )

pub encode_ops-bytes :
    (ops : List Operation) → encode_ops ops ≡ to_le_bytes 8 (length ops) ++ list_bytes ops
unfolding encode_ops
encode_ops-bytes ops = encode_list-append ops _

-- The log record of a transaction is eight bytes longer than the sum of the lengths that its
-- operations were charged for when they were admitted.
pub length-encode_ops : (ops : List Operation) → length (encode_ops ops) ≡ 8 + sum_len ops
length-encode_ops ops = omega (
  arith,
  ap length (encode_ops-bytes ops),
  length-append (to_le_bytes 8 (length ops)) (list_bytes ops),
  length-to_le_bytes 8 (length ops),
  length-list_bytes ops,
)

encoded_len-ge : (op : Operation) → 1 ≤ encoded_len op
unfolding encoded_len
encoded_len-ge (Operation.table table) = omega arith
encoded_len-ge (Operation.delete t id) = omega arith
encoded_len-ge _ = omega arith

pub sum_len-ge : (ops : List Operation) → length ops ≤ sum_len ops
sum_len-ge [] = omega arith
sum_len-ge (op ∷ ops) = omega (arith, encoded_len-ge op, sum_len-ge ops)

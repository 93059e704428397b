-- ===== src/Database/Operations/RoundTrip.antt =====
-- The log record of a transaction (database.rs): what is decoded from it.
use mathlib.Core.List.{append_assoc, append-nil}
use eve_db.Base.{
  ℕ, ◌^◌, ◌<◌, ◌≡◌, refl, ap, false, List, [], ◌∷◌, ◌++◌, length, All, arith, ok, ◌==◌,
}
use eve_db.Codec.LittleEndian.{to_le_bytes}
use eve_db.Codec.Parses.{
  Parses, Parses-pure, Parses-then, Parses-bind, Parses-u8, Parses-u64, Parses-count,
}
use eve_db.Model.Fields.RoundTrip.{IsFields, Parses-decode_fields}
use eve_db.Model.Records.RoundTrip.{finished-whole}
use eve_db.Model.Tables.RoundTrip.{IsTable, Parses-decode_table}
use eve_db.Database.{Operation}
use eve_db.Database.Operations.Sizes.{
  op_bytes, list_bytes, length-list_bytes, encode_ops-bytes, sum_len-ge, length-encode_ops,
}
use eve_db.Database.Operations.{
  encode_ops, decode_key, decode_op, decode_list, decode_counted, decode_ops,
}

-- The operations that the engine logs, of their Rust types.
abbrev pub IsOperation : Operation → Type 0
IsOperation (Operation.table table) = IsTable table
IsOperation (Operation.create t id fields) = (t < 2 ^ 64) × (id < 2 ^ 64) × IsFields fields
IsOperation (Operation.apply t id fields) = (t < 2 ^ 64) × (id < 2 ^ 64) × IsFields fields
IsOperation (Operation.delete t id) = (t < 2 ^ 64) × (id < 2 ^ 64)
IsOperation (Operation.retain t id n) = (t < 2 ^ 64) × (id < 2 ^ 64) × (n < 2 ^ 64)
IsOperation (Operation.snapshot t id) = (t < 2 ^ 64) × (id < 2 ^ 64)

Parses-decode_key :
    (t id : ℕ)
    → t < 2 ^ 64
    → id < 2 ^ 64
    → Parses decode_key (to_le_bytes 8 t ++ to_le_bytes 8 id) (t, id)
unfolding decode_key
Parses-decode_key t id h k =
    Parses-bind _ (to_le_bytes 8 t) _ (Parses-u64 t h)
      (Parses-then _ _ (Parses-u64 id k) (λ d. refl))

Parses-decode_op : (op : Operation) → IsOperation op → Parses decode_op (op_bytes op) op
unfolding decode_op
Parses-decode_op (Operation.table table) h =
    Parses-bind _ (0 ∷ []) _ (Parses-u8 0)
      (Parses-then _ _ (Parses-decode_table table h) (λ d. refl))
Parses-decode_op (Operation.create t id fields) h = Parses-bind _ (1 ∷ []) _ (Parses-u8 1) (
    Parses-bind _ (to_le_bytes 8 t ++ to_le_bytes 8 id) _ (Parses-decode_key t id h.0 h.1)
      (Parses-then _ _ (Parses-decode_fields fields h.2) (λ d. refl)))
Parses-decode_op (Operation.apply t id fields) h = Parses-bind _ (2 ∷ []) _ (Parses-u8 2) (
    Parses-bind _ (to_le_bytes 8 t ++ to_le_bytes 8 id) _ (Parses-decode_key t id h.0 h.1)
      (Parses-then _ _ (Parses-decode_fields fields h.2) (λ d. refl)))
Parses-decode_op (Operation.delete t id) h =
    Parses-bind _ (3 ∷ []) _ (Parses-u8 3)
      (Parses-then _ _ (Parses-decode_key t id h.0 h.1) (λ d. refl))
Parses-decode_op (Operation.retain t id n) h = Parses-bind _ (4 ∷ []) _ (Parses-u8 4) (
    Parses-bind _ (to_le_bytes 8 t ++ to_le_bytes 8 id) _ (Parses-decode_key t id h.0 h.1)
      (Parses-then _ _ (Parses-u64 n h.2) (λ d. refl)))
Parses-decode_op (Operation.snapshot t id) h =
    Parses-bind _ (5 ∷ []) _ (Parses-u8 5)
      (Parses-then _ _ (Parses-decode_key t id h.0 h.1) (λ d. refl))

Parses-decode_list :
    (ops done : List Operation)
    → All IsOperation ops
    → Parses (decode_list (length ops) done) (list_bytes ops) (done ++ ops)
unfolding decode_list
Parses-decode_list [] done h = rw append-nil (Parses-pure done)
Parses-decode_list (op ∷ ops) done h =
    Parses-bind _ (op_bytes op) (list_bytes ops) (Parses-decode_op op h.0)
      (rw (append_assoc done (op ∷ []) ops) at (Parses-decode_list ops (done ++ op ∷ []) h.1))

Parses-decode_counted :
    (ops : List Operation)
    → All IsOperation ops
    → 0 < length ops
    → length (encode_ops ops) < 2 ^ 64
    → Parses decode_counted (to_le_bytes 8 (length ops) ++ list_bytes ops) ops
unfolding decode_counted
Parses-decode_counted ops h nonempty k =
    let few = sum_len-ge ops in
    let used : (length ops == 0) ≡ false = ground (arith, nonempty) in
    Parses-count (length ops) 1 _ (list_bytes ops) (omega (arith, few, length-encode_ops ops))
      (omega (arith, few, length-list_bytes ops)) (rw used (Parses-decode_list ops [] h))

-- The operations of a transaction are decoded from its log record, in their order and with no byte
-- left: for one operation or more, each of its Rust type with a table and fields as the engine
-- holds them, in a record that fits the address space.
pub decode_ops-encode_ops :
    (ops : List Operation)
    → All IsOperation ops
    → 0 < length ops
    → length (encode_ops ops) < 2 ^ 64
    → decode_ops (encode_ops ops) ≡ ok ops
unfolding decode_ops
decode_ops-encode_ops ops h nonempty k = rw (encode_ops-bytes ops) (
    finished-whole decode_counted (to_le_bytes 8 (length ops) ++ list_bytes ops) ops
      (omega (arith, ap length (encode_ops-bytes ops), k)) (Parses-decode_counted ops h nonempty k))

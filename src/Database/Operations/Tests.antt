-- ===== src/Database/Operations/Tests.antt =====
-- A log record of three operations (database.rs), written and read back.
use eve_db.Base.{ℕ, ◌≡◌, refl, List, [], ◌∷◌, ◌+◌, length, All, arith, ok, err, corrupt, plain}
use eve_db.Codec.Decoder.{take, u8, u32, u64, count, bytes, string, finish}
use eve_db.Codec.LittleEndian.{to_le_bytes, from_le_bytes}
use eve_db.Model.{Value}
use eve_db.Model.Fields.{
  encode_value, encode_items, encode_fields, value_encoded_len, sum_encoded_len, fields_encoded_len,
}
use eve_db.Database.{Operation}
use eve_db.Database.Operations.{
  encoded_len, encode_op, encode_list, encode_ops, decode_key, decode_op, decode_list,
  decode_counted, decode_ops,
}
use eve_db.Database.Operations.Sizes.{sum_len, length-encode_ops}
use eve_db.Database.Operations.RoundTrip.{IsOperation, decode_ops-encode_ops}

abbrev operations : List Operation
operations =
    Operation.create 1 5 ((1, Value.uint64 3) ∷ [])
    ∷ Operation.retain 1 5 2
    ∷ Operation.delete 1 5
    ∷ []

typed : All IsOperation operations
typed = (
  (
    omega arith,
    omega arith,
    record { sorted = (tt, tt); typed = ((omega arith, omega arith), tt); few = omega arith },
  ),
  ((omega arith, omega arith, omega arith), ((omega arith, omega arith), tt)),
)

-- What the tests run.
runs : ℕ
unfolding encode_value encode_items encode_fields value_encoded_len sum_encoded_len
    fields_encoded_len to_le_bytes from_le_bytes take u8 u32 u64 count bytes string finish
    encoded_len encode_op encode_list encode_ops decode_key decode_op decode_list decode_counted
    decode_ops
runs = 0

small : length (encode_ops operations) ≡ 88
unfolding runs
small = refl

-- A count of zero is refused.
empty_refused : decode_ops (encode_ops []) ≡ err (corrupt (plain "empty WAL transaction"))
unfolding runs
empty_refused = refl

length-encode_ops_example : length (encode_ops operations) ≡ 8 + sum_len operations
length-encode_ops_example = length-encode_ops operations

decode_ops-encode_ops_example : decode_ops (encode_ops operations) ≡ ok operations
decode_ops-encode_ops_example =
    decode_ops-encode_ops operations typed (omega arith) (omega (arith, small))

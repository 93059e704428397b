-- ===== src/Model/Fields/Cursor.antt =====
-- The decoder of fields (model.rs) and its cursor.
use eve_db.Base.{ℕ, zero, suc, Option, none, some}
use eve_db.Base.Order.{nat_ord}
use eve_db.Base.Assoc.{lookup, upsert}
use eve_db.Codec.Cursor.{Stays, Stays-pure, Stays-fail, stays_rules}
use eve_db.Codec.Decoder.{Decoding, pure, fail}
use eve_db.Model.{Value, Fields}
use eve_db.Model.Fields.{
  decode_bool, decode_float, decode_value, insert_new, decode_items, decode_fields,
}

Stays-decode_bool : Stays decode_bool
unfolding decode_bool
Stays-decode_bool = search stays_rules

Stays-decode_float : Stays decode_float
unfolding decode_float
Stays-decode_float = search stays_rules

Stays-decode_value : Stays decode_value
unfolding decode_value
Stays-decode_value = search (stays_rules, Stays-decode_bool, Stays-decode_float) depth 20

Stays-option :
    (r : Option Value) (fs : Fields)
    → Stays (elim r as (λ _. Decoding Fields) [ some _ ↦ fail "duplicate field" | none ↦ pure fs ])
Stays-option none fs = Stays-pure fs
Stays-option (some v) fs = Stays-fail "duplicate field"

Stays-insert_new : (id : ℕ) (v : Value) (fs : Fields) → Stays (insert_new id v fs)
Stays-insert_new id v fs = Stays-option (lookup id fs) (upsert id v fs)

Stays-decode_items : (n : ℕ) (fs : Fields) → Stays (decode_items n fs)
unfolding decode_items
Stays-decode_items zero fs = search stays_rules
Stays-decode_items (suc n) fs =
    search (stays_rules, Stays-decode_value, Stays-insert_new, Stays-decode_items n) depth 12

pub Stays-decode_fields : Stays decode_fields
unfolding decode_fields
Stays-decode_fields = search (stays_rules, Stays-decode_items) depth 12

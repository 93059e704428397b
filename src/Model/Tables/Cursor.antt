-- ===== src/Model/Tables/Cursor.antt =====
-- The decoder of tables (model.rs) and its cursor.
use eve_db.Base.{ℕ, zero, suc, List, Result, Error, ok, err}
use eve_db.Codec.Cursor.{Stays, Stays-pure, Stays-bind, stays_rules}
use eve_db.Model.{Field, Schema}
use eve_db.Model.Records.Cursor.{Stays-decode_flag}
use eve_db.Model.Tables.{
  decode_type, decode_field, decode_field_list, lift, decode_schema, decode_schemas, decode_table,
}

Stays-lift {ℓ} : {A : Type ℓ} (r : Result Error A) → Stays (lift r)
Stays-lift (ok a) = Stays-pure a
Stays-lift (err e) = record { at = λ d h. tt }

Stays-decode_type : Stays decode_type
unfolding decode_type
Stays-decode_type = search stays_rules depth 20

Stays-decode_field : Stays decode_field
unfolding decode_field
Stays-decode_field = search (stays_rules, Stays-decode_type, Stays-decode_flag) depth 20

Stays-decode_field_list : (n : ℕ) (fields : List Field) → Stays (decode_field_list n fields)
unfolding decode_field_list
Stays-decode_field_list zero fields = Stays-pure fields
Stays-decode_field_list (suc n) fields =
    Stays-bind _ _ Stays-decode_field (λ field. Stays-decode_field_list n _)

Stays-decode_schema : (position : ℕ) → Stays (decode_schema position)
unfolding decode_schema
Stays-decode_schema position = search (stays_rules, Stays-lift, Stays-decode_field_list) depth 20

Stays-decode_schemas : (n : ℕ) (schemas : List Schema) → Stays (decode_schemas n schemas)
unfolding decode_schemas
Stays-decode_schemas zero schemas = Stays-pure schemas
Stays-decode_schemas (suc n) schemas =
    Stays-bind _ _ (Stays-decode_schema _) (λ schema. Stays-decode_schemas n _)

-- Reading a table, whatever the bytes are, fails or ends with the cursor on the same slice, not
-- before where it started and not beyond the end, when it starts inside the slice.
pub Stays-decode_table : Stays decode_table
unfolding decode_table
Stays-decode_table = search (stays_rules, Stays-lift, Stays-decode_schemas) depth 20

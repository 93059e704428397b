-- ===== src/Database/Catalog/Tests.antt =====
-- A table of one column that gets a second one (database.rs).
use eve_db.Base.{ℕ, ◌≡◌, refl, true, false, [], ◌∷◌, ok, err, invalid, plain}
use eve_db.Base.Order.{nat_ord}
use eve_db.Base.Assoc.{lookup, upsert}
use eve_db.Codec.Decoder.Utf8.{
  two_bytes, three_bytes, four_bytes, next_char, chars_loop, chars, is_utf8,
}
use eve_db.Model.{DataType, Value, Fields, Field, Schema, Table}
use eve_db.Model.Schemas.{
  validate_fields, validate, find_field, is_valid, check_assignments, complete_fields, last_schema,
}
use eve_db.Model.Schemas.Names.{
  is_white_space, is_control, all_of, any_of, scalars, validate_name, same_bytes, contains_id,
  contains_name,
}
use eve_db.Database.Catalog.{
  Catalog, newest, same_fields, starts_with, same_schemas, name_taken, validate_schemas,
  is_preserved, check_preserved, has_id, check_introduced, check_evolution, last_id, check_new,
  validate_table_change,
}
use eve_db.Database.Catalog.Evolution.{validate_table_change-keeps_rows}

-- The names are "a", "b" and "t".
abbrev column : Field
column = record { id = 1; name = 97 ∷ []; data_type = DataType.uint64; nullable = false }

abbrev added : Field
added = record { id = 2; name = 98 ∷ []; data_type = DataType.text; nullable = true }

abbrev before : Schema
before = record { version = 1; fields = column ∷ [] }

abbrev latest : Schema
latest = record { version = 2; fields = added ∷ column ∷ [] }

abbrev old : Table
old = record { id = 1; name = 116 ∷ []; schemas = before ∷ [] }

abbrev table : Table
table = record { id = 1; name = 116 ∷ []; schemas = before ∷ latest ∷ [] }

abbrev catalog : Catalog
catalog = (1, old) ∷ []

abbrev row : Fields
row = (1, Value.uint64 3) ∷ []

-- What the tests run.
runs : ℕ
unfolding validate_table_change validate_name name_taken same_bytes validate_schemas validate
    validate_fields contains_id contains_name lookup upsert nat_ord check_evolution same_schemas
    starts_with same_fields newest last_schema check_preserved is_preserved check_introduced has_id
    check_new last_id two_bytes three_bytes four_bytes next_char chars_loop chars is_utf8
    is_white_space is_control all_of any_of scalars check_assignments find_field is_valid
    complete_fields
runs = 0

admitted : validate_table_change catalog table ≡ ok tt
unfolding runs
admitted = refl

-- A table must keep its column.
dropped :
    validate_table_change catalog
      (record table { schemas = before ∷ record { version = 2; fields = added ∷ [] } ∷ [] })
    ≡ err (invalid (plain "existing field IDs, types and nullability must be preserved"))
unfolding runs
dropped = refl

validate_table_change-keeps_rows_example :
    (check_assignments latest.fields row ≡ ok tt)
    × (full : Fields) × (complete_fields latest.fields row ≡ ok full)
unfolding runs
validate_table_change-keeps_rows_example =
    validate_table_change-keeps_rows catalog old table before latest row refl refl refl refl refl
      refl refl

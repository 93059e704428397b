-- ===== src/Model/Schemas.antt =====
-- Validation of names and schemas, and the normalisation of rows.
pub mod Names
pub mod Laws
pub mod Assignments
pub use Names.{validate_name}
use eve_db.Base.{
  ℕ, ◌+◌, ◌/◌, Bool, true, false, not, ◌&&◌, ◌||◌, Option, none, some, List, [], ◌∷◌, length, ltb,
  ◌==◌, if◌then◌else◌, Error, Result, ok, err, ◌>>=◌, ◌>>◌, invalid, corrupt, plain, numbered,
}
use eve_db.Base.Order.{nat_ord}
use eve_db.Base.Assoc.{lookup, upsert}
use eve_db.Codec.{max_record}
use eve_db.Codec.LittleEndian.{Bytes}
use eve_db.Codec.Encoder
use eve_db.Model.{DataType, Value, Fields, is_finite, Field, Schema, Table}
use eve_db.Model.Fields.{encode_fields}
use Names.{contains_id, contains_name}

-- The loop of `Schema::validate`; `ids` and `names` are the two sets.
unfoldable pub validate_fields : List Field → List ℕ → List Bytes → Result Error (Unit {0})
validate_fields [] ids names = ok tt
validate_fields (field ∷ fields) ids names = do
  validate_name field.name
  if field.id == 0 || contains_id ids field.id || contains_name names field.name
      then err (invalid (plain "field IDs and names must be unique and nonzero"))
      else validate_fields fields (field.id ∷ ids) (field.name ∷ names)

unfoldable pub validate : Schema → Result Error (Unit {0})
validate schema =
    if schema.version == 0 || length schema.fields == 0 || ltb 4096 (length schema.fields)
    then err (invalid (plain "a schema needs a version and 1..=4096 fields"))
    else validate_fields schema.fields [] []

-- `Schema::new`
pub new_schema : List Field → Result Error Schema
new_schema fields =
    let schema : Schema = record { version = 1; fields = fields } in
    validate schema >>= λ _. ok schema

-- `self.fields.iter().find(|f| f.id == id)`
unfoldable pub find_field : ℕ → List Field → Option Field
find_field id [] = none
find_field id (field ∷ fields) = if field.id == id then some field else find_field id fields

-- The `match (value, field.data_type)` of `normalize`.
unfoldable pub is_valid : Value → Field → Bool
is_valid Value.null field = field.nullable
is_valid (Value.bool v) field = elim field.data_type [ DataType.bool ↦ true | _ ↦ false ]
is_valid (Value.int64 v) field = elim field.data_type [ DataType.int64 ↦ true | _ ↦ false ]
is_valid (Value.uint64 v) field = elim field.data_type [ DataType.uint64 ↦ true | _ ↦ false ]
is_valid (Value.text v) field = elim field.data_type [ DataType.text ↦ true | _ ↦ false ]
is_valid (Value.bytes v) field = elim field.data_type [ DataType.bytes ↦ true | _ ↦ false ]
is_valid (Value.float64 v) field = elim field.data_type [
  | DataType.float64 ↦ is_finite v
  | _ ↦ false
]

-- The first loop of `normalize`: each assignment is to a field of the schema, and of its type.
unfoldable pub check_assignments : List Field → Fields → Result Error (Unit {0})
check_assignments schema [] = ok tt
check_assignments schema ((id, value) ∷ fields) = elim (find_field id schema) [
  | none ↦ err (invalid (numbered "unknown field " id))
  | some field ↦
      if is_valid value field
      then check_assignments schema fields
      else err (invalid (numbered "wrong type or null for field " id))
]

-- The second loop: a field with no assignment becomes null, if it may.
unfoldable pub complete_fields : List Field → Fields → Result Error Fields
complete_fields [] fields = ok fields
complete_fields (field ∷ schema) fields = elim (lookup field.id fields) [
  | some _ ↦ complete_fields schema fields
  | none ↦
      if field.nullable
      then complete_fields schema (upsert field.id Value.null fields)
      else err (invalid (numbered "missing field " field.id))
]

-- `Schema::normalize`: the fields after the call, or the error.
unfoldable pub normalize : Schema → Fields → Bool → Result Error Fields
normalize schema fields complete = do
  check_assignments schema.fields fields
  full ← if complete then complete_fields schema.fields fields else ok fields
  if ltb (max_record / 2) (length (encode_fields full Encoder.new))
      then err (invalid (plain "row exceeds 8 MiB"))
      else ok full

-- `Table::schema`, the last schema; `none` stands for the panic on an empty history.
unfoldable pub last_schema : List Schema → Option Schema
last_schema [] = none
last_schema (schema ∷ []) = some schema
last_schema (schema ∷ next ∷ schemas) = last_schema (next ∷ schemas)

unfoldable pub find_version : ℕ → List Schema → Option Schema
find_version version [] = none
find_version version (schema ∷ schemas) =
    if schema.version == version then some schema else find_version version schemas

-- `Table::version`
unfoldable pub table_version : Table → ℕ → Result Error Schema
table_version table version = elim (find_version version table.schemas) [
  | some schema ↦ ok schema
  | none ↦ err (corrupt (plain "unknown schema version"))
]

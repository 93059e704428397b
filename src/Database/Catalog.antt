-- ===== src/Database/Catalog.antt =====
-- The catalog of tables, and the check of a change to it (database.rs).
pub mod Evolution
pub mod Numbers
pub mod Tables
mod Tests
use eve_db.Base.{
  ℕ, ◌+◌, ◌^◌, ◌%◌, Bool, true, false, not, ◌&&◌, ◌||◌, Option, none, some, List, [], ◌∷◌, length,
  ◌==◌, if◌then◌else◌, Error, Result, ok, err, ◌>>=◌, ◌>>◌, invalid, corrupt, already_exists, plain,
  utf8,
}
use eve_db.Base.Order.{nat_ord}
use eve_db.Base.Assoc.{lookup}
use eve_db.Model.{DataType, Field, Schema, Table}
use eve_db.Model.Tables.{type_byte}
use eve_db.Model.Schemas.{validate, validate_name, last_schema}
use eve_db.Model.Schemas.Names.{same_bytes}

-- `BTreeMap<u64, Table>`, in key order.
abbrev pub Catalog : Type 0
Catalog = List (ℕ × Table)

-- `Table::schema`; the panic on a table with no schema is written as an error.
unfoldable pub newest : Table → Result Error Schema
newest table = elim (last_schema table.schemas) [
  | some schema ↦ ok schema
  | none ↦ err (corrupt (plain "tables always have a schema"))
]

abbrev pub same_bool : Bool → Bool → Bool
same_bool true b = b
same_bool false b = not b

abbrev pub same_type : DataType → DataType → Bool
same_type a b = type_byte a == type_byte b

-- The derived equalities.
abbrev pub same_field : Field → Field → Bool
same_field a b =
    a.id == b.id
    && same_bytes a.name b.name
    && same_type a.data_type b.data_type
    && same_bool a.nullable b.nullable

unfoldable pub same_fields : List Field → List Field → Bool
same_fields [] [] = true
same_fields (a ∷ fields) (b ∷ bs) = same_field a b && same_fields fields bs
same_fields [] (b ∷ bs) = false
same_fields (a ∷ fields) [] = false

abbrev pub same_schema : Schema → Schema → Bool
same_schema a b = a.version == b.version && same_fields a.fields b.fields

-- `slice::starts_with`
unfoldable pub starts_with : List Schema → List Schema → Bool
starts_with schemas [] = true
starts_with [] (b ∷ bs) = false
starts_with (a ∷ schemas) (b ∷ bs) = same_schema a b && starts_with schemas bs

unfoldable pub same_schemas : List Schema → List Schema → Bool
same_schemas a b = length a == length b && starts_with a b

-- Another table has the name.
unfoldable pub name_taken : Catalog → Table → Bool
name_taken [] table = false
name_taken ((key, old) ∷ catalog) table =
    (not (old.id == table.id) && same_bytes old.name table.name) || name_taken catalog table

unfoldable pub validate_schemas : List Schema → Result Error (Unit {0})
validate_schemas [] = ok tt
validate_schemas (schema ∷ schemas) = validate schema >> validate_schemas schemas

-- A field of the new schema carries on an old one.
unfoldable pub is_preserved : Field → List Field → Bool
is_preserved field [] = false
is_preserved field (new ∷ latest) =
    (new.id == field.id
      && same_type new.data_type field.data_type
      && same_bool new.nullable field.nullable)
    || is_preserved field latest

unfoldable pub check_preserved : List Field → List Field → Result Error (Unit {0})
check_preserved latest [] = ok tt
check_preserved latest (field ∷ old) =
    if not (is_preserved field latest)
    then err (invalid (plain "existing field IDs, types and nullability must be preserved"))
    else check_preserved latest old

unfoldable pub has_id : ℕ → List Field → Bool
has_id id [] = false
has_id id (field ∷ fields) = field.id == id || has_id id fields

unfoldable pub check_introduced : List Field → List Field → Result Error (Unit {0})
check_introduced old [] = ok tt
check_introduced old (field ∷ latest) =
    if not (has_id field.id old) && not field.nullable
    then err (invalid (plain "new fields must be nullable"))
    else check_introduced old latest

-- The branch of a table that exists.
unfoldable pub check_evolution : Table → Table → Result Error (Unit {0})
check_evolution old table = if same_schemas table.schemas old.schemas then ok tt else do
  latest ← newest table
  before ← newest old
  if not (length table.schemas == length old.schemas + 1)
        || not (starts_with table.schemas old.schemas)
        || not (latest.version == (before.version + 1) % 2 ^ 64)
      then err (invalid (plain "invalid schema evolution"))
      else (check_preserved latest.fields before.fields
          >> check_introduced before.fields latest.fields)

-- `catalog.keys().next_back().copied().unwrap_or(0)`
unfoldable pub last_id : Catalog → ℕ
last_id [] = 0
last_id ((key, table) ∷ []) = key
last_id ((key, table) ∷ next ∷ catalog) = last_id (next ∷ catalog)

-- The branch of a new table.
unfoldable pub check_new : Catalog → Table → Result Error (Unit {0})
check_new catalog table = do
  schema ← newest table
  if not (table.id == (last_id catalog + 1) % 2 ^ 64)
        || not (length table.schemas == 1)
        || not (schema.version == 1)
      then err (invalid (plain "new table requires the next ID and schema version one"))
      else ok tt

-- `if let Some(old) = catalog.get(&table.id)`, and its `else`.
abbrev pub check_change : Catalog → Table → Option Table → Result Error (Unit {0})
check_change catalog table (some old) = check_evolution old table
check_change catalog table none = check_new catalog table

unfoldable pub validate_table_change : Catalog → Table → Result Error (Unit {0})
validate_table_change catalog table = do
  validate_name table.name
  if name_taken catalog table then err (already_exists (utf8 table.name)) else do
    if length table.schemas == 0
        then err (invalid (plain "table needs a schema"))
        else do validate_schemas table.schemas; check_change catalog table (lookup table.id catalog)

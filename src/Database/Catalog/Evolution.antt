-- ===== src/Database/Catalog/Evolution.antt =====
-- The evolution of a table's schema, as the catalog of database.rs admits it, and the rows that were
-- written before.
use mathlib.Core.Path.{subst}
use eve_db.Base.{
  ℕ, ◌≡◌, refl, sym, ap, ◌∙◌, Bool, true, false, ◌&&◌, some, List, [], ◌∷◌, length, ◌==◌, arith,
  All, All-imp, Error, Result, ok, err, ◌>>◌, ◌⊎◌, inl, inr, Bool-cases, Option-cases,
}
use eve_db.Base.Order.{nat_ord}
use eve_db.Base.Assoc.{lookup, upsert, lookup-upsert}
use eve_db.Model.{DataType, Value, Fields, Field, Schema, Table}
use eve_db.Model.Schemas.{
  validate, validate_name, find_field, is_valid, check_assignments, complete_fields, last_schema,
}
use eve_db.Model.Schemas.Laws.{Finds, validate-Finds, complete_fields-fills}
use eve_db.Database.Catalog.{
  Catalog, newest, same_type, same_bool, same_schemas, name_taken, validate_schemas, is_preserved,
  check_preserved, has_id, check_introduced, check_evolution, check_change, validate_table_change,
}

pub then-ok : (m k : Result Error (Unit {0})) → (m >> k) ≡ ok tt → (m ≡ ok tt) × (k ≡ ok tt)
then-ok (ok tt) k h = (refl, h)
then-ok (err e) k h = absurd (ground arith)

same_type-eq : (a b : DataType) → same_type a b ≡ true → a ≡ b
same_type-eq a b h = ground arith

same_bool-eq : (a b : Bool) → same_bool a b ≡ true → a ≡ b
same_bool-eq true b h = sym h
same_bool-eq false true h = ground arith
same_bool-eq false false h = refl

-- The new field that carries on an old one is found, and takes the same values.
preserved-find_field :
    (field : Field) (news latest : List Field)
    → is_preserved field news ≡ true
    → Finds latest news
    → (new : Field) × (find_field field.id latest ≡ some new)
      × (new.data_type ≡ field.data_type)
      × (new.nullable ≡ field.nullable)
unfolding is_preserved
preserved-find_field field [] latest h f = absurd (ground arith)
preserved-find_field field (new ∷ news) latest h f =
    elim (Bool-cases (
      new.id == field.id
      && same_type new.data_type field.data_type
      && same_bool new.nullable field.nullable)) [
        | inl y ↦
            let found : find_field field.id latest ≡ some new =
              subst (λ id. find_field id latest ≡ some new) (ground (arith, y)) f.0 in
            (
              new,
              found,
              same_type-eq new.data_type field.data_type (ground (arith, y)),
              same_bool-eq new.nullable field.nullable (ground (arith, y)),
            )
        | inr x ↦ preserved-find_field field news latest (ground (arith, h, x)) f.1
      ]

check_preserved-find_field :
    (latest old : List Field) (id : ℕ) (field : Field)
    → check_preserved latest old ≡ ok tt
    → find_field id old ≡ some field
    → (is_preserved field latest ≡ true) × (field.id ≡ id)
unfolding check_preserved find_field
check_preserved-find_field latest [] id field h f = absurd (ground arith)
check_preserved-find_field latest (first ∷ old) id field h f = elim (Bool-cases (first.id == id)) [
  | inl y ↦ (ground (arith, h, f, y), ground (arith, f, y))
  | inr x ↦
      check_preserved-find_field latest old id field (ground (arith, h)) (ground (arith, f, x))
]

is_valid-same :
    (v : Value) (a b : Field)
    → a.data_type ≡ b.data_type
    → a.nullable ≡ b.nullable
    → is_valid v a ≡ is_valid v b
unfolding is_valid
is_valid-same Value.null a b e n = n
is_valid-same (Value.bool v) a b e n = ground (arith, e)
is_valid-same (Value.int64 v) a b e n = ground (arith, e)
is_valid-same (Value.uint64 v) a b e n = ground (arith, e)
is_valid-same (Value.float64 v) a b e n = ground (arith, e)
is_valid-same (Value.text v) a b e n = ground (arith, e)
is_valid-same (Value.bytes v) a b e n = ground (arith, e)

-- Every assignment under the old schema is one under the new.
check_assignments-evolved :
    (before latest : List Field) (fields : Fields)
    → check_preserved latest before ≡ ok tt
    → Finds latest latest
    → check_assignments before fields ≡ ok tt
    → check_assignments latest fields ≡ ok tt
unfolding check_assignments
check_assignments-evolved before latest [] p f h = refl
check_assignments-evolved before latest ((id, v) ∷ fields) p f h =
    elim (Option-cases (find_field id before)) [
      | inl e ↦ absurd (ground (arith, h, e))
      | inr (field, e) ↦
          let (kept, same) = check_preserved-find_field latest before id field p e in
          let (new, found, typed, nullable) = preserved-find_field field latest latest kept f in
          let here : find_field id latest ≡ some new =
            ap (λ i. find_field i latest) (sym same) ∙ found in
          let alike = is_valid-same v new field typed nullable in
          ground (arith, h, e, here, alike, check_assignments-evolved before latest fields p f)
    ]

-- A field has a value, or may be null.
abbrev MayComplete : Fields → Field → Type 0
MayComplete fields field =
    ((v : Value) × (lookup field.id fields ≡ some v)) ⊎ (field.nullable ≡ true)

MayComplete-upsert :
    (fields : Fields) (id : ℕ) (field : Field)
    → MayComplete fields field
    → MayComplete (upsert id Value.null fields) field
MayComplete-upsert fields id field (inr n) = inr n
MayComplete-upsert fields id field (inl (v, e)) =
    elim (Option-cases (lookup field.id (upsert id Value.null fields))) [
      | inl g ↦ absurd (ground (arith, g, e, lookup-upsert fields id Value.null field.id))
      | inr (w, g) ↦ inl (w, g)
    ]

complete_fields-ok :
    (schema : List Field) (fields : Fields)
    → All (MayComplete fields) schema
    → (full : Fields) × (complete_fields schema fields ≡ ok full)
unfolding complete_fields
complete_fields-ok [] fields m = (fields, refl)
complete_fields-ok (field ∷ schema) fields m = elim (Option-cases (lookup field.id fields)) [
  | inr (v, e) ↦
      let (full, g) = complete_fields-ok schema fields m.1 in (full, ground (arith, e, g))
  | inl e ↦ elim m.0 [
    | inl (v, g) ↦ absurd (ground (arith, e, g))
    | inr n ↦
        let (full, g) =
          complete_fields-ok schema (upsert field.id Value.null fields)
            (All-imp (MayComplete-upsert fields field.id) schema m.1) in
        (full, ground (arith, e, n, g))
  ]
]

has_id-lookup :
    (id : ℕ) (old : List Field) (fields : Fields)
    → has_id id old ≡ true
    → All (λ f. (v : Value) × (lookup f.id fields ≡ some v)) old
    → (v : Value) × (lookup id fields ≡ some v)
unfolding has_id
has_id-lookup id [] fields h a = absurd (ground arith)
has_id-lookup id (field ∷ old) fields h a = elim (Bool-cases (field.id == id)) [
  | inl y ↦
      let same : field.id ≡ id = ground (arith, y) in
      (a.0.0, ap (λ i. lookup i fields) (sym same) ∙ a.0.1)
  | inr x ↦ has_id-lookup id old fields (ground (arith, h, x)) a.1
]

check_introduced-All :
    (old news : List Field) (fields : Fields)
    → check_introduced old news ≡ ok tt
    → All (λ f. (v : Value) × (lookup f.id fields ≡ some v)) old
    → All (MayComplete fields) news
unfolding check_introduced
check_introduced-All old [] fields h a = tt
check_introduced-All old (field ∷ news) fields h a = elim (Bool-cases (has_id field.id old)) [
  | inl y ↦ (
    inl (has_id-lookup field.id old fields y a),
    check_introduced-All old news fields (ground (arith, h, y)) a,
  )
  | inr x ↦ (ground (arith, h, x), check_introduced-All old news fields (ground (arith, h, x)) a)
]

validate_schemas-last :
    (schemas : List Schema) (schema : Schema)
    → validate_schemas schemas ≡ ok tt
    → last_schema schemas ≡ some schema
    → validate schema ≡ ok tt
unfolding validate_schemas last_schema
validate_schemas-last [] schema h e = absurd (ground arith)
validate_schemas-last (one ∷ []) schema h e =
    let (valid, rest) = then-ok (validate one) (ok tt) h in ground (arith, valid, e)
validate_schemas-last (one ∷ next ∷ schemas) schema h e =
    let (valid, rest) = then-ok (validate one) (validate_schemas (next ∷ schemas)) h in
    validate_schemas-last (next ∷ schemas) schema rest e

newest-last :
    (table : Table) (schema : Schema)
    → newest table ≡ ok schema
    → last_schema table.schemas ≡ some schema
unfolding newest
newest-last table schema h = elim (Option-cases (last_schema table.schemas)) [
  | inl e ↦ absurd (ground (arith, h, e))
  | inr (s, e) ↦ ground (arith, h, e)
]

-- The parts of the check, for a table that exists.
validate_table_change-parts :
    (catalog : Catalog) (old table : Table)
    → validate_table_change catalog table ≡ ok tt
    → lookup table.id catalog ≡ some old
    → (validate_schemas table.schemas ≡ ok tt) × (check_evolution old table ≡ ok tt)
unfolding validate_table_change
validate_table_change-parts catalog old table h e =
    let named = then-ok (validate_name table.name) _ h in
    elim (Bool-cases (name_taken catalog table)) [
      | inl y ↦ absurd (ground (arith, named.1, y))
      | inr x ↦ elim (Bool-cases (length table.schemas == 0)) [
        | inl y ↦ absurd (ground (arith, named.1, x, y))
        | inr z ↦
            let parts =
              then-ok (validate_schemas table.schemas)
                (check_change catalog table (lookup table.id catalog))
                (ground (arith, named.1, x, z)) in
            (parts.0, ground (arith, parts.1, e))
      ]
    ]

check_evolution-parts :
    (old table : Table) (before latest : Schema)
    → check_evolution old table ≡ ok tt
    → same_schemas table.schemas old.schemas ≡ false
    → newest old ≡ ok before
    → newest table ≡ ok latest
    → (check_preserved latest.fields before.fields ≡ ok tt)
      × (check_introduced before.fields latest.fields ≡ ok tt)
unfolding check_evolution
check_evolution-parts old table before latest h d b l =
    then-ok (check_preserved latest.fields before.fields) _ (ground (arith, h, d, b, l))

-- A change of a table that the catalog admits keeps its rows: a row that is complete and typed under
-- the newest schema that the table had is typed under the newest that it has now, and completing it
-- with nulls succeeds. The table exists, and its schemas change.
pub validate_table_change-keeps_rows :
    (catalog : Catalog) (old table : Table) (before latest : Schema) (row : Fields)
    → validate_table_change catalog table ≡ ok tt
    → lookup table.id catalog ≡ some old
    → same_schemas table.schemas old.schemas ≡ false
    → newest old ≡ ok before
    → newest table ≡ ok latest
    → check_assignments before.fields row ≡ ok tt
    → complete_fields before.fields row ≡ ok row
    → (check_assignments latest.fields row ≡ ok tt)
      × (full : Fields) × (complete_fields latest.fields row ≡ ok full)
validate_table_change-keeps_rows catalog old table before latest row h e d b l typed complete =
    let (valid, evolved) = validate_table_change-parts catalog old table h e in
    let (kept, introduced) = check_evolution-parts old table before latest evolved d b l in
    let finds =
      validate-Finds latest
        (validate_schemas-last table.schemas latest valid (newest-last table latest l)) in
    let filled = complete_fields-fills before.fields row row complete in
    let (full, completed) =
      complete_fields-ok latest.fields row
        (check_introduced-All before.fields latest.fields row introduced filled) in
    (check_assignments-evolved before.fields latest.fields row kept finds typed, full, completed)

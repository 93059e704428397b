-- ===== src/Model/Schemas/Laws.antt =====
-- `Schema::validate` and `Schema::normalize` of model.rs on a whole row.
use mathlib.Core.Path.{subst}
use eve_db.Base.{
  ◌∙◌, ◌⊎◌, Option-cases, ℕ, ◌*◌, ◌/◌, ◌≤◌, ◌<◌, ◌≡◌, refl, true, false, some, List, [], ◌∷◌,
  length, All, All-imp, Error, Result, ok, arith, inl, inr,
}
use eve_db.Base.Order.{nat_ord}
use eve_db.Base.Assoc.{lookup, upsert, lookup-upsert, lookup-entries, IsSorted, upsert-IsSorted}
use eve_db.Codec.{max_record}
use eve_db.Codec.LittleEndian.{Bytes}
use eve_db.Codec.Encoder
use eve_db.Model.{Value, Fields, Field, Schema}
use eve_db.Model.Fields.{encode_fields}
use eve_db.Model.Schemas.Names.{contains_id}
use eve_db.Model.Schemas.{
  validate_fields, validate, find_field, is_valid, check_assignments, complete_fields, normalize,
}

-- Each field of the list is the one that its identifier finds in the schema.
abbrev pub Finds : List Field → List Field → Type 0
Finds schema = All λ f. find_field f.id schema ≡ some f

contains_id-tail :
    (i id : ℕ) (ids : List ℕ) → contains_id (i ∷ ids) id ≡ false → contains_id ids id ≡ false
unfolding contains_id
contains_id-tail i id ids h = ground arith

validate_fields-step :
    (field : Field) (fields : List Field) (ids : List ℕ) (names : List Bytes)
    → validate_fields (field ∷ fields) ids names ≡ ok tt
    → (contains_id ids field.id ≡ false)
      × (validate_fields fields (field.id ∷ ids) (field.name ∷ names) ≡ ok tt)
unfolding validate_fields
validate_fields-step field fields ids names h = ground arith

validate_fields-fresh :
    (fields : List Field) (ids : List ℕ) (names : List Bytes)
    → validate_fields fields ids names ≡ ok tt
    → All (λ f. contains_id ids f.id ≡ false) fields
validate_fields-fresh [] ids names h = tt
validate_fields-fresh (field ∷ fields) ids names h =
    let (fresh, rest) = validate_fields-step field fields ids names h in
    (
      fresh,
      All-imp (λ f. contains_id-tail field.id f.id ids) fields
          (validate_fields-fresh fields (field.id ∷ ids) (field.name ∷ names) rest),
    )

find_field-later :
    (field f : Field) (fields : List Field) (ids : List ℕ)
    → contains_id (field.id ∷ ids) f.id ≡ false
    → find_field f.id fields ≡ some f
    → find_field f.id (field ∷ fields) ≡ some f
unfolding find_field contains_id
find_field-later field f fields ids fresh e = ground arith

All-and :
    {P Q R : Field → Type 0} (fs : List Field)
    → ((f : Field) → P f → Q f → R f)
    → All P fs
    → All Q fs
    → All R fs
All-and [] h p q = tt
All-and (f ∷ fs) h p q = (h f p.0 q.0, All-and fs h p.1 q.1)

validate_fields-Finds :
    (fields : List Field) (ids : List ℕ) (names : List Bytes)
    → validate_fields fields ids names ≡ ok tt
    → Finds fields fields
unfolding find_field
validate_fields-Finds [] ids names h = tt
validate_fields-Finds (field ∷ fields) ids names h =
    let (fresh, rest) = validate_fields-step field fields ids names h in
    (
      ground arith,
      All-and fields (λ f. find_field-later field f fields ids)
          (validate_fields-fresh fields (field.id ∷ ids) (field.name ∷ names) rest)
          (validate_fields-Finds fields (field.id ∷ ids) (field.name ∷ names) rest),
    )

pub validate-Finds : (schema : Schema) → validate schema ≡ ok tt → Finds schema.fields schema.fields
unfolding validate
validate-Finds schema h = validate_fields-Finds schema.fields [] [] (ground arith)

complete_fields-keeps :
    (schema : List Field) (fields full : Fields) (id : ℕ) (v : Value)
    → complete_fields schema fields ≡ ok full
    → lookup id fields ≡ some v
    → lookup id full ≡ some v
unfolding complete_fields nat_ord
complete_fields-keeps [] fields full id v h e = ground arith
complete_fields-keeps (field ∷ schema) fields full id v h e = ground (
  arith,
  complete_fields-keeps schema fields full id v,
  complete_fields-keeps schema (upsert field.id Value.null fields) full id v,
  lookup-upsert fields field.id Value.null id,
)

-- One round of the completion: the field has a value, or becomes null.
complete_fields-step :
    (field : Field) (schema : List Field) (fields full : Fields)
    → complete_fields (field ∷ schema) fields ≡ ok full
    → ((v : Value) × (lookup field.id fields ≡ some v) × (complete_fields schema fields ≡ ok full))
      ⊎ ((field.nullable ≡ true)
          × (complete_fields schema (upsert field.id Value.null fields) ≡ ok full))
unfolding complete_fields
complete_fields-step field schema fields full h = elim (Option-cases (lookup field.id fields)) [
  | inl e ↦ inr (ground arith, ground arith)
  | inr (v, e) ↦ inl (v, e, ground arith)
]

-- Completion leaves no field of the schema without a value.
pub complete_fields-fills :
    (schema : List Field) (fields full : Fields)
    → complete_fields schema fields ≡ ok full
    → All (λ f. (v : Value) × (lookup f.id full ≡ some v)) schema
unfolding nat_ord
complete_fields-fills [] fields full h = tt
complete_fields-fills (field ∷ schema) fields full h =
    elim (complete_fields-step field schema fields full h) [
      | inl (v, e, rest) ↦ (
        (v, complete_fields-keeps schema fields full field.id v rest e),
        complete_fields-fills schema fields full rest,
      )
      | inr (nullable, rest) ↦
          let more = upsert field.id Value.null fields in
          let here : lookup field.id more ≡ some Value.null =
            lookup-upsert fields field.id Value.null field.id ∙ ground arith in
          (
            (Value.null, complete_fields-keeps schema more full field.id Value.null rest here),
            complete_fields-fills schema more full rest,
          )
    ]

complete_fields-done :
    (schema : List Field) (full : Fields)
    → All (λ f. (v : Value) × (lookup f.id full ≡ some v)) schema
    → complete_fields schema full ≡ ok full
unfolding complete_fields
complete_fields-done [] full h = refl
complete_fields-done (field ∷ schema) full h =
    rw (h.0.1, complete_fields) (complete_fields-done schema full h.1)

check_assignments-upsert :
    (schema : List Field) (fields : Fields) (field : Field)
    → find_field field.id schema ≡ some field
    → field.nullable ≡ true
    → check_assignments schema fields ≡ ok tt
    → check_assignments schema (upsert field.id Value.null fields) ≡ ok tt
unfolding check_assignments upsert is_valid
check_assignments-upsert schema [] field found null h = ground arith
check_assignments-upsert schema ((id, v) ∷ fields) field found null h =
    ground (arith, check_assignments-upsert schema fields field found null)

complete_fields-checks :
    (schema rest : List Field) (fields full : Fields)
    → Finds schema rest
    → check_assignments schema fields ≡ ok tt
    → complete_fields rest fields ≡ ok full
    → check_assignments schema full ≡ ok tt
unfolding complete_fields
complete_fields-checks schema [] fields full f c h = ground arith
complete_fields-checks schema (field ∷ rest) fields full f c h = ground (
  arith,
  complete_fields-checks schema rest fields full f.1,
  complete_fields-checks schema rest (upsert field.id Value.null fields) full f.1,
  check_assignments-upsert schema fields field f.0,
)

ok-injective : {fs gs : Fields} → ◌≡◌ {A = Result Error Fields} (ok fs) (ok gs) → fs ≡ gs
ok-injective h = ground arith

complete_fields-IsSorted :
    (schema : List Field) (fields full : Fields)
    → complete_fields schema fields ≡ ok full
    → IsSorted fields
    → IsSorted full
unfolding complete_fields
complete_fields-IsSorted [] fields full h s = subst IsSorted (ok-injective h) s
complete_fields-IsSorted (field ∷ schema) fields full h s =
    elim (complete_fields-step field schema fields full h) [
      | inl (v, e, rest) ↦ complete_fields-IsSorted schema fields full rest s
      | inr (nullable, rest) ↦
          complete_fields-IsSorted schema _ full rest (upsert-IsSorted fields field.id Value.null s)
    ]

-- What a successful call of `normalize` has done.
normalize-parts :
    (schema : Schema) (fields full : Fields)
    → normalize schema fields true ≡ ok full
    → (check_assignments schema.fields fields ≡ ok tt)
      × (complete_fields schema.fields fields ≡ ok full)
      × (length (encode_fields full Encoder.new) ≤ max_record / 2)
unfolding normalize
normalize-parts schema fields full h = ground arith

-- A row that `normalize` has completed keeps every assignment, has a value for every field of
-- the schema, stays in key order, and takes up 8 MiB or less, if the row was in key order.
pub normalize_complete :
    (schema : Schema) (fields full : Fields)
    → IsSorted fields
    → normalize schema fields true ≡ ok full
    → All (λ e. lookup e.0 full ≡ some e.1) fields
      × All (λ f. (v : Value) × (lookup f.id full ≡ some v)) schema.fields
      × IsSorted full
      × (length (encode_fields full Encoder.new) ≤ 8 * 1024 * 1024)
normalize_complete schema fields full s h =
    let (checked, completed, small) = normalize-parts schema fields full h in
    (
      All-imp (λ e. complete_fields-keeps schema.fields fields full e.0 e.1 completed) fields
          (lookup-entries fields s),
      complete_fields-fills schema.fields fields full completed,
      complete_fields-IsSorted schema.fields fields full completed s,
      small,
    )

-- For a valid schema a completed row is a fixed point: normalising it again succeeds and changes
-- nothing.
pub normalize_idempotent :
    (schema : Schema) (fields full : Fields)
    → validate schema ≡ ok tt
    → normalize schema fields true ≡ ok full
    → normalize schema full true ≡ ok full
unfolding normalize validate
normalize_idempotent schema fields full valid h =
    let (checked, completed, small) = normalize-parts schema fields full h in
    let finds = validate-Finds schema valid in
    let again =
      complete_fields-checks schema.fields schema.fields fields full finds checked completed in
    let done =
      complete_fields-done schema.fields full
        (complete_fields-fills schema.fields fields full completed) in
    ground (arith, again, done, small)

-- A valid schema has between 1 and 4096 fields.
pub validate-length :
    (schema : Schema)
    → validate schema ≡ ok tt
    → (0 < length schema.fields) × (length schema.fields ≤ 4096)
unfolding validate
validate-length schema h = ground arith

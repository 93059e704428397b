-- ===== src/Model/Schemas/Assignments.antt =====
-- The assignments that `Schema::normalize` of model.rs accepts: their encoding can be decoded.
use eve_db.Base.{
  ℕ, ◌^◌, ◌<◌, ◌≤◌, ◌≡◌, refl, Bool, true, some, List, [], ◌∷◌, length, ◌==◌, arith, All, ok, inl,
  inr, Bool-cases, Option-cases, if◌then◌else◌,
}
use eve_db.Base.Order.{nat_ord}
use eve_db.Base.Int.{IsI64}
use eve_db.Base.Assoc.{IsSorted, Above}
use eve_db.Codec.Decoder.Utf8.{is_utf8}
use eve_db.Model.{Value, Fields, Field, Schema}
use eve_db.Model.Fields.RoundTrip.{IsValue, IsFields}
use eve_db.Model.Schemas.{find_field, is_valid, check_assignments, normalize}

-- A value of its Rust type: a float is any 64 bits.
abbrev pub IsTypedValue : Value → Type 0
IsTypedValue Value.null = Unit
IsTypedValue (Value.bool v) = Unit
IsTypedValue (Value.int64 v) = IsI64 v
IsTypedValue (Value.uint64 v) = v < 2 ^ 64
IsTypedValue (Value.float64 v) = v < 2 ^ 64
IsTypedValue (Value.text v) = (length v < 2 ^ 64) × (is_utf8 v ≡ true)
IsTypedValue (Value.bytes v) = length v < 2 ^ 64

-- Assignments of their Rust types: a `BTreeMap` of values by `u32`.
abbrev pub AreTyped : Fields → Type 0
AreTyped fields = IsSorted fields × All (λ f. (f.0 < 2 ^ 32) × IsTypedValue f.1) fields

is_valid-IsValue :
    (v : Value) (field : Field) → is_valid v field ≡ true → IsTypedValue v → IsValue v
unfolding is_valid
is_valid-IsValue Value.null field h t = tt
is_valid-IsValue (Value.bool v) field h t = tt
is_valid-IsValue (Value.int64 v) field h t = t
is_valid-IsValue (Value.uint64 v) field h t = t
is_valid-IsValue (Value.float64 v) field h t = (t, ground (arith, h))
is_valid-IsValue (Value.text v) field h t = t
is_valid-IsValue (Value.bytes v) field h t = t

without : ℕ → List Field → List Field
without id [] = []
without id (field ∷ schema) =
    let rest = without id schema in if field.id == id then rest else field ∷ rest

find_field-without :
    (schema : List Field) (id j : ℕ)
    → id < j
    → find_field j (without id schema) ≡ find_field j schema
unfolding without find_field
find_field-without [] id j h = refl
find_field-without (field ∷ schema) id j h = ground (arith, h, find_field-without schema id j h)

length-without : (schema : List Field) (id : ℕ) → length (without id schema) ≤ length schema
unfolding without
length-without [] id = omega arith
length-without (field ∷ schema) id = ground (arith, length-without schema id)

-- A field that is found is one less without it.
without-lt :
    (schema : List Field) (id : ℕ) (field : Field)
    → find_field id schema ≡ some field
    → length (without id schema) < length schema
unfolding without find_field
without-lt [] id field h = absurd (ground arith)
without-lt (first ∷ schema) id field h = elim (Bool-cases (first.id == id)) [
  | inl y ↦ ground (arith, y, length-without schema id)
  | inr x ↦ ground (arith, x, without-lt schema id field (ground (arith, h, x)))
]

check_assignments-without :
    (schema : List Field) (id : ℕ) (fields : Fields)
    → Above id fields
    → check_assignments schema fields ≡ ok tt
    → check_assignments (without id schema) fields ≡ ok tt
unfolding check_assignments nat_ord
check_assignments-without schema id [] a h = refl
check_assignments-without schema id ((j, v) ∷ fields) a h =
    let same = find_field-without schema id j (ground (arith, a)) in
    elim (Option-cases (find_field j schema)) [
      | inl e ↦ absurd (ground (arith, h, e))
      | inr (field, e) ↦
          let rest = check_assignments-without schema id fields a.1 (ground (arith, h, e)) in
          ground (arith, h, e, same, rest)
    ]

-- Ascending assignments are no more than the fields of the schema.
length-check_assignments :
    (schema : List Field) (fields : Fields)
    → IsSorted fields
    → check_assignments schema fields ≡ ok tt
    → length fields ≤ length schema
unfolding check_assignments
length-check_assignments schema [] s h = omega arith
length-check_assignments schema ((id, v) ∷ fields) s h =
    elim (Option-cases (find_field id schema)) [
      | inl e ↦ absurd (ground (arith, h, e))
      | inr (field, e) ↦
          let rest : check_assignments schema fields ≡ ok tt = ground (arith, h, e) in
          omega (
            arith,
            without-lt schema id field e,
            length-check_assignments (without id schema) fields s.1
                (check_assignments-without schema id fields s.0 rest),
          )
    ]

check_assignments-All :
    (schema : List Field) (fields : Fields)
    → check_assignments schema fields ≡ ok tt
    → All (λ f. (f.0 < 2 ^ 32) × IsTypedValue f.1) fields
    → All (λ f. (f.0 < 2 ^ 32) × IsValue f.1) fields
unfolding check_assignments
check_assignments-All schema [] h t = tt
check_assignments-All schema ((id, v) ∷ fields) h t = elim (Option-cases (find_field id schema)) [
  | inl e ↦ absurd (ground (arith, h, e))
  | inr (field, e) ↦ (
    (t.0.0, is_valid-IsValue v field (ground (arith, h, e)) t.0.1),
    check_assignments-All schema fields (ground (arith, h, e)) t.1,
  )
]

-- Assignments of their Rust types that a schema of 4096 fields or fewer accepts.
pub normalize-IsFields :
    (schema : Schema) (fields full : Fields) (complete : Bool)
    → normalize schema fields complete ≡ ok full
    → length schema.fields ≤ 4096
    → AreTyped fields
    → IsFields fields
unfolding normalize
normalize-IsFields schema fields full complete h few t =
    let checked : check_assignments schema.fields fields ≡ ok tt = ground (arith, h) in
    record {
      sorted = t.0;
      typed = check_assignments-All schema.fields fields checked t.1;
      few = omega (arith, few, length-check_assignments schema.fields fields t.0 checked);
    }

-- ===== src/Database/Catalog/Tables.antt =====
-- The tables that the catalog of database.rs admits: their encoding can be decoded.
use eve_db.Base.{
  ℕ, ◌+◌, ◌%◌, ◌^◌, ◌<◌, ◌≡◌, true, false, some, List, [], ◌∷◌, length, ◌==◌, arith, All, ok, inl,
  inr, Bool-cases, Option-cases,
}
use eve_db.Base.Order.{nat_ord}
use eve_db.Base.Assoc.{lookup}
use eve_db.Model.{Schema, Table}
use eve_db.Model.Schemas.{validate, validate_name, last_schema}
use eve_db.Model.Tables.RoundTrip.{table_bytes, IsField, AreSchemas, IsTable, length-schemas-lt}
use eve_db.Database.Catalog.{
  Catalog, newest, same_schemas, starts_with, name_taken, validate_schemas, check_evolution,
  check_new, check_change, validate_table_change,
}
use eve_db.Database.Catalog.Evolution.{then-ok}
use eve_db.Database.Catalog.Numbers.{
  AreNumbered, IsAdmitted, AreAdmitted, IsTyped, lookup-IsAdmitted, starts_with-AreNumbered,
  last_schema-AreNumbered, evolved-AreNumbered,
}

-- The schemas are one more than before, and the newest has the next version.
step-AreNumbered :
    (old table : Table) (latest before : Schema)
    → last_schema table.schemas ≡ some latest
    → last_schema old.schemas ≡ some before
    → check_evolution old table ≡ ok tt
    → same_schemas table.schemas old.schemas ≡ false
    → length table.schemas < 2 ^ 64
    → AreNumbered 0 old.schemas
    → AreNumbered 0 table.schemas
unfolding check_evolution newest
step-AreNumbered old table latest before e f h x few n =
    let same_start : starts_with table.schemas old.schemas ≡ true = ground (arith, h, x, e, f) in
    let longer : length table.schemas ≡ length old.schemas + 1 = ground (arith, h, x, e, f) in
    let next : latest.version ≡ (before.version + 1) % 2 ^ 64 = ground (arith, h, x, e, f) in
    let last = last_schema-AreNumbered old.schemas 0 before n f in
    evolved-AreNumbered table.schemas old.schemas 0 latest same_start longer n e
      (omega (arith, next, last, few, longer))

check_evolution-AreNumbered :
    (old table : Table)
    → check_evolution old table ≡ ok tt
    → length table.schemas < 2 ^ 64
    → AreNumbered 0 old.schemas
    → AreNumbered 0 table.schemas
unfolding check_evolution newest same_schemas
check_evolution-AreNumbered old table h few n =
    elim (Bool-cases (same_schemas table.schemas old.schemas)) [
      | inl y ↦
          starts_with-AreNumbered table.schemas old.schemas 0 (ground (arith, y))
            (ground (arith, y)) n
      | inr x ↦ elim (Option-cases (last_schema table.schemas)) [
        | inl e ↦ absurd (ground (arith, h, x, e))
        | inr (latest, e) ↦ elim (Option-cases (last_schema old.schemas)) [
          | inl f ↦ absurd (ground (arith, h, x, e, f))
          | inr (before, f) ↦ step-AreNumbered old table latest before e f h x few n
        ]
      ]
    ]

one-AreNumbered :
    (schemas : List Schema) (last : Schema)
    → last_schema schemas ≡ some last
    → length schemas ≡ 1
    → last.version ≡ 1
    → AreNumbered 0 schemas
unfolding last_schema
one-AreNumbered [] last e l v = tt
one-AreNumbered (s ∷ []) last e l v = (ground (arith, e, v), tt)
one-AreNumbered (s ∷ t ∷ schemas) last e l v = absurd (omega (arith, l))

check_new-AreNumbered :
    (catalog : Catalog) (table : Table)
    → check_new catalog table ≡ ok tt
    → AreNumbered 0 table.schemas
unfolding check_new newest
check_new-AreNumbered catalog table h = elim (Option-cases (last_schema table.schemas)) [
  | inl e ↦ absurd (ground (arith, h, e))
  | inr (last, e) ↦
      one-AreNumbered table.schemas last e (ground (arith, h, e)) (ground (arith, h, e))
]

check_change-AreNumbered :
    (catalog : Catalog) (table : Table)
    → check_change catalog table (lookup table.id catalog) ≡ ok tt
    → length table.schemas < 2 ^ 64
    → AreAdmitted catalog
    → AreNumbered 0 table.schemas
check_change-AreNumbered catalog table h few n = elim (Option-cases (lookup table.id catalog)) [
  | inl e ↦ check_new-AreNumbered catalog table (ground (arith, h, e))
  | inr (old, e) ↦
      check_evolution-AreNumbered old table (ground (arith, h, e)) few
        ((lookup-IsAdmitted catalog table.id old n e).0)
]

validate_schemas-AreSchemas :
    (schemas : List Schema) (position : ℕ)
    → validate_schemas schemas ≡ ok tt
    → AreNumbered position schemas
    → All (λ s. (s.version < 2 ^ 64) × All IsField s.fields) schemas
    → AreSchemas position schemas
unfolding validate_schemas
validate_schemas-AreSchemas [] position h n t = tt
validate_schemas-AreSchemas (s ∷ schemas) position h n t =
    let parts = then-ok (validate s) (validate_schemas schemas) h in
    (
      record { in_place = n.0; version_fits = t.0.0; fields_typed = t.0.1; valid = parts.0 },
      validate_schemas-AreSchemas schemas (position + 1) parts.1 n.1 t.1,
    )

validate_schemas-All :
    (schemas : List Schema)
    → validate_schemas schemas ≡ ok tt
    → All (λ s. validate s ≡ ok tt) schemas
unfolding validate_schemas
validate_schemas-All [] h = tt
validate_schemas-All (s ∷ schemas) h =
    let parts = then-ok (validate s) (validate_schemas schemas) h in
    (parts.0, validate_schemas-All schemas parts.1)

-- The checks that a change has passed.
record Passed (catalog : Catalog) (table : Table) : Type 0 where
  name : validate_name table.name ≡ ok tt
  some_schema : 0 < length table.schemas
  schemas : validate_schemas table.schemas ≡ ok tt
  change : check_change catalog table (lookup table.id catalog) ≡ ok tt

validate_table_change-Passed :
    (catalog : Catalog) (table : Table)
    → validate_table_change catalog table ≡ ok tt
    → Passed catalog table
unfolding validate_table_change
validate_table_change-Passed catalog table h =
    let named = then-ok (validate_name table.name) _ h in
    elim (Bool-cases (name_taken catalog table)) [
      | inl y ↦ absurd (ground (arith, named.1, y))
      | inr x ↦ elim (Bool-cases (length table.schemas == 0)) [
        | inl y ↦ absurd (ground (arith, named.1, x, y))
        | inr z ↦
            let parts =
              then-ok (validate_schemas table.schemas)
                (check_change catalog table (lookup table.id catalog))
                (ground (arith, named.1, x, z)) in
            record {
              name = named.0;
              some_schema = ground (arith, z);
              schemas = parts.0;
              change = parts.1;
            }
      ]
    ]

-- A table of the Rust types that the catalog admits can be decoded.
pub validate_table_change-IsTable :
    (catalog : Catalog) (table : Table)
    → validate_table_change catalog table ≡ ok tt
    → AreAdmitted catalog
    → IsTyped table
    → length (table_bytes table) < 2 ^ 64
    → IsTable table × IsAdmitted table
validate_table_change-IsTable catalog table h n t size =
    let p = validate_table_change-Passed catalog table h in
    let numbered =
      check_change-AreNumbered catalog table p.change (length-schemas-lt table size) n in
    (
      record {
        id_fits = t.id_fits;
        id_used = t.id_used;
        name_typed = t.name_typed;
        name_valid = p.name;
        schemas_valid =
            validate_schemas-AreSchemas table.schemas 0 p.schemas numbered t.schemas_typed;
        has_schema = p.some_schema;
        size_fits = size;
      },
      (numbered, validate_schemas-All table.schemas p.schemas),
    )

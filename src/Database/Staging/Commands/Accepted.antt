-- ===== src/Database/Staging/Commands/Accepted.antt =====
-- The assignments that an execution in `Staging` (database.rs) has accepted, by the newest schema of their
-- table.
use eve_db.Base.{
  ℕ, ◌≤◌, ◌≡◌, ap, Bool, true, false, some, List, [], ◌∷◌, arith, length, All, Error, Result, ok,
  ◌==◌, Option-cases, Bool-cases, inl, inr, if◌then◌else◌,
}
use eve_db.Base.Order.{nat_ord, pair_ord}
use eve_db.Base.Assoc.{lookup}
use eve_db.Model.{Fields, Schema, Table, Entity}
use eve_db.Model.Schemas.{validate, normalize, last_schema}
use eve_db.Model.Schemas.Laws.{validate-length}
use eve_db.Model.Schemas.Assignments.{AreTyped, normalize-IsFields}
use eve_db.Database.Catalog.{newest}
use eve_db.Database.Catalog.Numbers.{IsAdmitted, AreAdmitted, lookup-IsAdmitted}
use eve_db.Model.Fields.RoundTrip.{IsFields}
use eve_db.Database.Staging.{schema_of, execute_create, checked_fields}
use eve_db.Database.Staging.Actions
use eve_db.Database.Staging.Actions.{
  Store, Staging, Action, Sizes, ◌>>=◌, ◌>>◌, continue, with_memory, recorded, definition,
}
use eve_db.Database.Staging.Commands.Follows.{split_bind}

-- The newest schema of a table that was admitted.
last_schema-few :
    (schemas : List Schema) (last : Schema)
    → All (λ s. validate s ≡ ok tt) schemas
    → last_schema schemas ≡ some last
    → length last.fields ≤ 4096
unfolding last_schema
last_schema-few [] last v h = absurd (ground arith)
last_schema-few (s ∷ []) last v h = ground (arith, h, validate-length s v.0)
last_schema-few (s ∷ t ∷ schemas) last v h = last_schema-few (t ∷ schemas) last v.1 h

newest-few :
    (table : Table) (schema : Schema)
    → IsAdmitted table
    → newest table ≡ ok schema
    → length schema.fields ≤ 4096
unfolding newest
newest-few table schema v h = elim (Option-cases (last_schema table.schemas)) [
  | inl e ↦ absurd (ground (arith, h, e))
  | inr (last, e) ↦
      let same : last ≡ schema = ground (arith, h, e) in
      ground (arith, same, last_schema-few table.schemas last v.1 e)
]

pub definition-IsAdmitted :
    (id : ℕ) (s t : Store) (table : Table)
    → definition id s ≡ (ok table, t)
    → AreAdmitted s.staging.catalog
    → IsAdmitted table
unfolding Actions.definition
definition-IsAdmitted id s t table h a = elim (Option-cases (lookup id s.staging.catalog)) [
  | inl e ↦ absurd (ground (arith, h, e))
  | inr (found, e) ↦ lookup-IsAdmitted s.staging.catalog id table a (ground (arith, h, e))
]

pub lift-ok {ℓ} :
    {A : Type ℓ} (r : Result Error A) (a : A) (s t : Store)
    → Actions.lift r s ≡ (ok a, t)
    → r ≡ ok a
unfolding Actions.lift
lift-ok r a s t h = ap (λ x. x.0) h

-- The schema that accepted the assignments.
pub record Accepted (table : Table) (fields : Fields) : Type 0 where
  schema : Schema
  full : Fields
  complete : Bool
  is_newest : newest table ≡ ok schema
  accepts : normalize schema fields complete ≡ ok full

pub execute_create-Accepted :
    (sizes : Sizes) (table : Table) (t id : ℕ) (fields : Fields) (s s' : Store)
    → execute_create sizes table t id fields s ≡ (ok tt, s')
    → Accepted table fields
unfolding execute_create schema_of Actions.fail
execute_create-Accepted sizes table t id fields s s' h =
    let (taken, a, _, h) = split_bind _ _ h in
    elim (Bool-cases taken) [
      | inl y ↦ absurd (ground (arith, h, y))
      | inr x ↦
          let (schema, b, e, h) = split_bind _ _ (rw (x, if◌then◌else◌) at h) in
          let (full, c, f, h) = split_bind _ _ h in
          record {
            schema = schema;
            full = full;
            complete = true;
            is_newest = lift-ok (newest table) schema _ _ e;
            accepts = lift-ok _ full _ _ f;
          }
    ]

pub checked_fields-Accepted :
    (sizes : Sizes) (table : Table) (current : Entity) (fields changes : Fields) (s s' : Store)
    → checked_fields sizes table current fields s ≡ (ok changes, s')
    → Accepted table fields
unfolding checked_fields schema_of Actions.fail
checked_fields-Accepted sizes table current fields changes s s' h =
    elim (Bool-cases (length fields == 0)) [
      | inl y ↦ absurd (ground (arith, h, y))
      | inr x ↦
          let (schema, b, e, h) = split_bind _ _ (rw (x, if◌then◌else◌) at h) in
          let (full, c, f, h) = split_bind _ _ h in
          record {
            schema = schema;
            full = full;
            complete = false;
            is_newest = lift-ok (newest table) schema _ _ e;
            accepts = lift-ok _ full _ _ f;
          }
    ]

pub Accepted-IsFields :
    (table : Table) (fields : Fields)
    → IsAdmitted table
    → Accepted table fields
    → AreTyped fields
    → IsFields fields
Accepted-IsFields table fields i a t =
    normalize-IsFields a.schema fields a.full a.complete a.accepts
      (newest-few table a.schema i a.is_newest) t

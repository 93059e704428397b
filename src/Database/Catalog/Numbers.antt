-- ===== src/Database/Catalog/Numbers.antt =====
-- The versions of the schemas in the catalog of database.rs: the first is 1, and each is one more than
-- that before it.
use eve_db.Base.{
  ℕ, ◌+◌, ◌^◌, ◌<◌, ◌≡◌, true, some, List, [], ◌∷◌, length, ◌==◌, arith, All, ok, inl, inr,
  Bool-cases,
}
use eve_db.Base.Order.{nat_ord}
use eve_db.Base.Assoc.{lookup, upsert}
use eve_db.Model.{Schema, Table}
use eve_db.Model.Schemas.{validate, last_schema}
use eve_db.Model.Tables.RoundTrip.{IsText, IsField}
use eve_db.Database.Catalog.{Catalog, starts_with}

abbrev pub AreNumbered : ℕ → List Schema → Type 0
AreNumbered position [] = Unit
AreNumbered position (s ∷ ss) = (s.version ≡ position + 1) × AreNumbered (position + 1) ss

-- A table whose changes the catalog admitted: its schemas are numbered and valid.
abbrev pub IsAdmitted : Table → Type 0
IsAdmitted table = AreNumbered 0 table.schemas × All (λ s. validate s ≡ ok tt) table.schemas

abbrev pub AreAdmitted : Catalog → Type 0
AreAdmitted catalog = All (λ e. IsAdmitted e.1) catalog

-- A table of the Rust types, with an identifier.
pub record IsTyped (t : Table) : Type 0 where
  pub id_fits : t.id < 2 ^ 64
  pub id_used : 0 < t.id
  pub name_typed : IsText t.name
  pub schemas_typed : All (λ s. (s.version < 2 ^ 64) × All IsField s.fields) t.schemas

pub lookup-IsAdmitted :
    (catalog : Catalog) (id : ℕ) (old : Table)
    → AreAdmitted catalog
    → lookup id catalog ≡ some old
    → IsAdmitted old
unfolding lookup nat_ord
lookup-IsAdmitted [] id old n h = absurd (ground arith)
lookup-IsAdmitted ((key, table) ∷ catalog) id old n h = elim (Bool-cases (id == key)) [
  | inl y ↦ let same : table ≡ old = ground (arith, h, y) in ground (arith, same, n)
  | inr x ↦ lookup-IsAdmitted catalog id old n.1 (ground (arith, h, x))
]

pub upsert-AreAdmitted :
    (catalog : Catalog) (id : ℕ) (table : Table)
    → AreAdmitted catalog
    → IsAdmitted table
    → AreAdmitted (upsert id table catalog)
unfolding upsert nat_ord
upsert-AreAdmitted [] id table n h = (h, tt)
upsert-AreAdmitted (e ∷ catalog) id table n h =
    ground (arith, n, h, upsert-AreAdmitted catalog id table n.1 h)

pub starts_with-AreNumbered :
    (schemas old : List Schema) (position : ℕ)
    → starts_with schemas old ≡ true
    → length schemas ≡ length old
    → AreNumbered position old
    → AreNumbered position schemas
unfolding starts_with
starts_with-AreNumbered [] old position h l n = tt
starts_with-AreNumbered (a ∷ schemas) [] position h l n = absurd (omega (arith, l))
starts_with-AreNumbered (a ∷ schemas) (b ∷ old) position h l n = (
  ground (arith, h, n.0),
  starts_with-AreNumbered schemas old (position + 1) (ground (arith, h)) (omega (arith, l)) n.1,
)

-- The newest schema of a history that is numbered has the number of the schemas.
pub last_schema-AreNumbered :
    (schemas : List Schema) (position : ℕ) (last : Schema)
    → AreNumbered position schemas
    → last_schema schemas ≡ some last
    → last.version ≡ position + length schemas
unfolding last_schema
last_schema-AreNumbered [] position last n h = absurd (ground arith)
last_schema-AreNumbered (s ∷ []) position last n h = ground (arith, h, n)
last_schema-AreNumbered (s ∷ t ∷ schemas) position last n h =
    omega (arith, last_schema-AreNumbered (t ∷ schemas) (position + 1) last n.1 h)

-- One schema more, with the next number.
pub evolved-AreNumbered :
    (schemas old : List Schema) (position : ℕ) (last : Schema)
    → starts_with schemas old ≡ true
    → length schemas ≡ length old + 1
    → AreNumbered position old
    → last_schema schemas ≡ some last
    → last.version ≡ position + length old + 1
    → AreNumbered position schemas
unfolding starts_with last_schema
evolved-AreNumbered [] old position last h l n e v = tt
evolved-AreNumbered (a ∷ []) [] position last h l n e v = (ground (arith, e, v), tt)
evolved-AreNumbered (a ∷ c ∷ schemas) [] position last h l n e v = absurd (omega (arith, l))
evolved-AreNumbered (a ∷ []) (b ∷ old) position last h l n e v = absurd (omega (arith, l))
evolved-AreNumbered (a ∷ c ∷ schemas) (b ∷ old) position last h l n e v = (
  ground (arith, h, n.0),
  evolved-AreNumbered (c ∷ schemas) old (position + 1) last (ground (arith, h)) (omega (arith, l))
      n.1 e (omega (arith, v)),
)

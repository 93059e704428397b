-- ===== src/Database/Staging/Commands/Admissions.antt =====
-- The operations that `Staging` of database.rs has executed: their encoding can be decoded.
use mathlib.Core.Path.{subst}
use eve_db.Base.{
  ℕ, ◌^◌, ◌<◌, ◌≡◌, refl, sym, ap, ◌∙◌, arith, length, Error, Result, ok, err, Bool-cases, inl, inr,
}
use eve_db.Base.Order.{nat_ord, pair_ord}
use eve_db.Base.Assoc.{upsert}
use eve_db.Model.{Fields, Table}
use eve_db.Model.Schemas.Assignments.{AreTyped}
use eve_db.Database.{Operation}
use eve_db.Database.Catalog.{validate_table_change}
use eve_db.Database.Catalog.Numbers.{AreAdmitted, IsTyped, upsert-AreAdmitted}
use eve_db.Database.Catalog.Tables.{validate_table_change-IsTable}
use eve_db.Database.Operations.{encoded_len}
use eve_db.Database.Operations.Sizes.{op_bytes, length-op_bytes}
use eve_db.Database.Operations.RoundTrip.{IsOperation}
use eve_db.Model.Fields.RoundTrip.{IsFields}
use eve_db.Database.Staging.{execute, admitted, ready, run}
use eve_db.Database.Staging.Actions
use eve_db.Database.Staging.Actions.{
  Store, Staging, Action, Sizes, ◌>>=◌, ◌>>◌, continue, with_memory, recorded, definition,
}
use eve_db.Database.Staging.Commands.Follows.{split_bind}
use eve_db.Database.Staging.Commands.Catalogs.{
  KeepsCatalog, KeepsCatalog-rules, KeepsCatalog-admit_bytes, kept,
}
use eve_db.Database.Staging.Commands.Accepted.{
  lift-ok, definition-IsAdmitted, execute_create-Accepted, checked_fields-Accepted,
  Accepted-IsFields,
}
use eve_db.Database.Staging.Commands.Rules.{cost-P, execute-P}

-- An operation of the Rust types, with a table identifier that is not zero.
abbrev pub IsTypedOperation : Operation → Type 0
IsTypedOperation (Operation.table table) = IsTyped table
IsTypedOperation (Operation.create t id fields) = (t < 2 ^ 64) × (id < 2 ^ 64) × AreTyped fields
IsTypedOperation (Operation.apply t id fields) = (t < 2 ^ 64) × (id < 2 ^ 64) × AreTyped fields
IsTypedOperation (Operation.delete t id) = (t < 2 ^ 64) × (id < 2 ^ 64)
IsTypedOperation (Operation.retain t id n) = (t < 2 ^ 64) × (id < 2 ^ 64) × (n < 2 ^ 64)
IsTypedOperation (Operation.snapshot t id) = (t < 2 ^ 64) × (id < 2 ^ 64)

-- What is executed, and the catalog after it, when the catalog was admitted before.
abbrev Executed : Operation → Store → Type 0
Executed op t = IsOperation op × AreAdmitted t.staging.catalog

same_catalog-Executed :
    (sizes : Sizes) (op : Operation) (s t : Store)
    → IsOperation op
    → execute sizes op s ≡ (ok tt, t)
    → KeepsCatalog (execute sizes op)
    → AreAdmitted s.staging.catalog
    → Executed op t
same_catalog-Executed sizes op s t i h p a =
    (i, subst AreAdmitted (sym (kept (execute sizes op) s t tt p h)) a)

gets-ok {ℓ} :
    {A : Type ℓ} (f : Staging → A) (a : A) (s t : Store)
    → Actions.gets f s ≡ (ok a, t)
    → (a ≡ f s.staging) × (t ≡ s)
unfolding Actions.gets
gets-ok f a s t h = (ground (arith, h), ground (arith, h))

put_catalog-ok :
    (table : Table) (s t : Store)
    → Actions.put_catalog table.id table s ≡ (ok tt, t)
    → t.staging.catalog ≡ upsert table.id table s.staging.catalog
unfolding Actions.put_catalog
put_catalog-ok table s t h = ground (arith, h)

table-Executed :
    (sizes : Sizes) (table : Table) (s t : Store)
    → execute sizes (Operation.table table) s ≡ (ok tt, t)
    → AreAdmitted s.staging.catalog
    → IsTyped table
    → length (op_bytes (Operation.table table)) < 2 ^ 64
    → Executed (Operation.table table) t
unfolding execute
table-Executed sizes table s t h a typed size =
    let (catalog, b, e, h) = split_bind _ _ h in
    let (_, c, f, h) = split_bind _ _ h in
    let checked = lift-ok (validate_table_change catalog table) tt b c f in
    let (read, same) = gets-ok _ catalog s b e in
    let later = kept _ b c tt (KeepsCatalog-rules.lift _) f ∙ ap (λ x. x.staging.catalog) same in
    let (valid, admits) =
      validate_table_change-IsTable catalog table checked (subst AreAdmitted (sym read) a) typed
        (omega (arith, size)) in
    let after =
      upsert-AreAdmitted c.staging.catalog table.id table (subst AreAdmitted (sym later) a)
        admits in
    (valid, subst AreAdmitted (sym (put_catalog-ok table c t h)) after)

create-IsFields :
    (sizes : Sizes) (t id : ℕ) (fields : Fields) (s s' : Store)
    → execute sizes (Operation.create t id fields) s ≡ (ok tt, s')
    → AreAdmitted s.staging.catalog
    → AreTyped fields
    → IsFields fields
unfolding execute
create-IsFields sizes t id fields s s' h a typed =
    let (table, b, e, h) = split_bind _ _ h in
    let (_, c, _, h) = split_bind _ _ h in
    Accepted-IsFields table fields (definition-IsAdmitted t s b table e a)
      (execute_create-Accepted sizes table t id fields c s' h) typed

apply-IsFields :
    (sizes : Sizes) (t id : ℕ) (fields : Fields) (s s' : Store)
    → execute sizes (Operation.apply t id fields) s ≡ (ok tt, s')
    → AreAdmitted s.staging.catalog
    → AreTyped fields
    → IsFields fields
unfolding execute
apply-IsFields sizes t id fields s s' h a typed =
    let (table, b, e, h) = split_bind _ _ h in
    let (_, c, _, h) = split_bind _ _ h in
    let (found, d, _, h) = split_bind _ _ h in
    let (changes, k, f, h) = split_bind _ _ h in
    Accepted-IsFields table fields (definition-IsAdmitted t s b table e a)
      (checked_fields-Accepted sizes table found.current fields changes d k f) typed

execute-Executed :
    (sizes : Sizes) (op : Operation) (s t : Store)
    → execute sizes op s ≡ (ok tt, t)
    → AreAdmitted s.staging.catalog
    → IsTypedOperation op
    → length (op_bytes op) < 2 ^ 64
    → Executed op t
execute-Executed sizes (Operation.table table) s t h a typed size =
    table-Executed sizes table s t h a typed size
execute-Executed sizes (Operation.create i id fields) s t h a typed size =
    same_catalog-Executed sizes (Operation.create i id fields) s t
      (typed.0, typed.1, create-IsFields sizes i id fields s t h a typed.2) h
      (execute-P KeepsCatalog-rules sizes (Operation.create i id fields) tt) a
execute-Executed sizes (Operation.apply i id fields) s t h a typed size =
    same_catalog-Executed sizes (Operation.apply i id fields) s t
      (typed.0, typed.1, apply-IsFields sizes i id fields s t h a typed.2) h
      (execute-P KeepsCatalog-rules sizes (Operation.apply i id fields) tt) a
execute-Executed sizes (Operation.delete i id) s t h a typed size =
    same_catalog-Executed sizes (Operation.delete i id) s t typed h
      (execute-P KeepsCatalog-rules sizes (Operation.delete i id) tt) a
execute-Executed sizes (Operation.retain i id n) s t h a typed size =
    same_catalog-Executed sizes (Operation.retain i id n) s t typed h
      (execute-P KeepsCatalog-rules sizes (Operation.retain i id n) tt) a
execute-Executed sizes (Operation.snapshot i id) s t h a typed size =
    same_catalog-Executed sizes (Operation.snapshot i id) s t typed h
      (execute-P KeepsCatalog-rules sizes (Operation.snapshot i id) tt) a

admitted-Executed :
    (sizes : Sizes) (op : Operation) (s t : Store)
    → admitted sizes op s ≡ (ok tt, t)
    → AreAdmitted s.staging.catalog
    → IsTypedOperation op
    → length (op_bytes op) < 2 ^ 64
    → Executed op t
unfolding admitted
admitted-Executed sizes op s t h a typed size =
    let (decoded, b, e, h) = split_bind _ _ h in
    let (_, c, f, h) = split_bind _ _ h in
    let (_, d, g, h) = split_bind _ _ h in
    let (_, i, j, h) = split_bind _ _ h in
    let (_, k, l, h) = split_bind _ _ h in
    let same =
      kept _ i k tt (KeepsCatalog-admit_bytes (encoded_len op)) l
      ∙ (kept _ d i tt (KeepsCatalog-rules.check_permitted _ _ _ _) j
          ∙ (kept _ c d tt (KeepsCatalog-rules.check_permitted _ _ _ _) g
              ∙ (kept _ b c tt (KeepsCatalog-rules.grow_decoded_by decoded) f
                  ∙ kept _ s b decoded (cost-P KeepsCatalog-rules sizes op) e))) in
    execute-Executed sizes op k t h (subst AreAdmitted (sym same) a) typed size

recorded-Executed :
    (sizes : Sizes) (op : Operation) (s t : Store) (r : Result Error (Unit {0}) × Store)
    → admitted sizes op s ≡ r
    → recorded op r ≡ (ok tt, t)
    → AreAdmitted s.staging.catalog
    → IsTypedOperation op
    → length (op_bytes op) < 2 ^ 64
    → Executed op t
unfolding recorded
recorded-Executed sizes op s t (err e, u) k h a typed size = absurd (ground (arith, h))
recorded-Executed sizes op s t (ok tt, u) k h a typed size =
    let (valid, after) = admitted-Executed sizes op s u k a typed size in
    let same : t.staging.catalog ≡ u.staging.catalog = ground (arith, h) in
    (valid, subst AreAdmitted (sym same) after)

-- An operation of the Rust types that `run` accepts can be decoded from the log, and the catalog
-- after it is one that admitted each of its tables.
pub run-IsOperation :
    (sizes : Sizes) (op : Operation) (s t : Store)
    → run sizes op s ≡ (ok tt, t)
    → AreAdmitted s.staging.catalog
    → IsTypedOperation op
    → encoded_len op < 2 ^ 64
    → IsOperation op × AreAdmitted t.staging.catalog
unfolding run ready ◌>>=◌ Actions.gets Actions.fail
run-IsOperation sizes op s t h a typed size = elim (Bool-cases s.world.poisoned) [
  | inl y ↦ absurd (ground (arith, h, y))
  | inr x ↦ elim (Bool-cases s.staging.failed) [
    | inl y ↦ absurd (ground (arith, h, x, y))
    | inr y ↦
        let e : recorded op (admitted sizes op s) ≡ (ok tt, t) = ground (arith, h, x, y) in
        recorded-Executed sizes op s t _ refl e a typed (omega (arith, size, length-op_bytes op))
  ]
]

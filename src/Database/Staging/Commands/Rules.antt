-- ===== src/Database/Staging/Commands/Rules.antt =====
-- The actions of `Staging` (database.rs) by their primitives: what each primitive has and sequences
-- keep, the execution of every operation has.
use eve_db.Base.{
  ℕ, ◌+◌, ◌≡◌, Bool, true, false, not, Option, none, some, List, [], ◌∷◌, arith, if◌then◌else◌,
  Error, Result, String, ltb, ◌==◌, length, ◌^◌,
}
use eve_db.Base.Order.{nat_ord, pair_ord}
use eve_db.Model.{Fields, Table, Entity, EventKind}
use eve_db.Model.History.{EntityData}
use eve_db.Database.{Operation}
use eve_db.Database.Staging.{
  schema_of, current_cost, cost, stage_loaded, load_staged, charge_current, charge_copy,
  execute_create, or_missing, found_data, checked_fields, change, execute,
}
use eve_db.Database.Staging.Actions
use eve_db.Resources.{Limits}
use eve_db.Database.Staging.Commands.Follows.{Same}
use eve_db.Database.Staging.Actions.{
  charge_all, from_root, load_found, load_charged, Store, Staging, Action, Sizes, ◌>>=◌, ◌>>◌, gets,
}

-- A property of actions that the primitives of an execution have.
pub record Rules (P : (A : Type 0) → Action A → Type 0) : Type 1 where
  pub bind :
      {A : Type 0} {B : Type 0} {m : Action A} {f : A → Action B}
      → P _ m
      → ((a : A) → P _ (f a))
      → P _ (m >>= f)
  pub pure : {A : Type 0} (a : A) → P _ (Actions.pure a)
  pub fail : {A : Type 0} (e : Error) → P A (Actions.fail e)
  pub lift : {A : Type 0} (a : Result Error A) → P _ (Actions.lift a)
  pub gets :
      {A : Type 0} (f : Staging → A)
      → ((s t : Store) → Same s t → f t.staging ≡ f s.staging)
      → P _ (Actions.gets f)
  pub grow_decoded_by : (bytes : ℕ) → P _ (Actions.grow_decoded_by bytes)
  pub check_permitted :
      (resource : String) (used : Staging → ℕ) (additional : ℕ) (limit : Limits → ℕ)
      → P _ (Actions.check_permitted resource used additional limit)
  pub definition : (id : ℕ) → P _ (Actions.definition id)
  pub committed_definition : (id : ℕ) → P _ (Actions.committed_definition id)
  pub read_memory :
      {A : Type 0} (bytes : ℕ) {m : Action A} → P _ m → P _ (Actions.read_memory bytes m)
  pub stage : (t id : ℕ) (found : EntityData) → P _ (Actions.stage t id found)

module _ {P : (A : Type 0) → Action A → Type 0} (r : Rules P) where
  if-P : {A : Type 0} (b : Bool) {m n : Action A} → P _ m → P _ n → P _ (if b then m else n)
  if-P true p q = p
  if-P false p q = q

  charge_all-P : (sizes : List ℕ) → P _ (charge_all sizes)
  unfolding charge_all
  charge_all-P [] = r.pure tt
  charge_all-P (bytes ∷ more) = r.bind (r.grow_decoded_by bytes) (λ _. charge_all-P more)

  from_root-P : (root : List ℕ × Result Error (Option EntityData)) → P _ (from_root root)
  unfolding from_root
  from_root-P (charges, found) = r.bind (charge_all-P charges) (λ _. r.lift found)

  load_found-P :
      (sizes : Sizes) (table id : ℕ) (found : Option EntityData)
      → P _ (load_found sizes table id found)
  unfolding load_found
  load_found-P sizes table id (some found) =
      r.read_memory _ (r.bind (r.grow_decoded_by _) (λ _. r.pure (some found)))
  load_found-P sizes table id none =
      r.bind (r.gets _ (λ s t same. ground (arith, same))) (λ root. from_root-P root)

  load_charged-P : (sizes : Sizes) (table id : ℕ) → P _ (load_charged sizes table id)
  unfolding load_charged
  load_charged-P sizes table id = r.bind (r.committed_definition table) (λ _.
      r.bind (r.gets _ (λ s t same. ground (arith, same)))
        (λ found. load_found-P sizes table id found))

  gets_then-P :
      {A : Type 0} {B : Type 0} (f : Staging → A) {g : A → Action B}
      → ((s t : Store) → Same s t → f t.staging ≡ f s.staging)
      → ((a : A) → P _ (g a))
      → P _ (gets f >>= g)
  gets_then-P f e p = r.bind (r.gets f e) p

  schema_of-P : (table : Table) → P _ (schema_of table)
  unfolding schema_of
  schema_of-P table = r.lift _

  current_cost-P : (sizes : Sizes) (t id : ℕ) → P _ (current_cost sizes t id)
  unfolding current_cost
  current_cost-P sizes t id = r.gets _ (λ s u same. ground (arith, same))

  pub cost-P : (sizes : Sizes) (op : Operation) → P _ (cost sizes op)
  unfolding cost
  cost-P sizes (Operation.create t id fields) =
      r.bind (r.definition t) (λ table. r.bind (schema_of-P table) (λ schema. r.pure _))
  cost-P sizes (Operation.apply t id fields) = r.pure _
  cost-P sizes (Operation.snapshot t id) = current_cost-P sizes t id
  cost-P sizes (Operation.retain t id n) = current_cost-P sizes t id
  cost-P sizes (Operation.table table) = r.pure _
  cost-P sizes (Operation.delete t id) = r.pure _

  stage_loaded-P : (t id : ℕ) (found : Option EntityData) → P _ (stage_loaded t id found)
  unfolding stage_loaded
  stage_loaded-P t id none = r.pure tt
  stage_loaded-P t id (some found) = r.stage t id found

  load_staged-P : (sizes : Sizes) (t id : ℕ) → P _ (load_staged sizes t id)
  unfolding load_staged
  load_staged-P sizes t id =
      gets_then-P _ (λ s u same. ground (arith, same))
        (λ needed.
          if-P needed (r.bind (load_charged-P sizes t id) (λ found. stage_loaded-P t id found))
            (r.pure tt))

  charge_current-P : (sizes : Sizes) (found : Option EntityData) → P _ (charge_current sizes found)
  unfolding charge_current
  charge_current-P sizes none = r.pure tt
  charge_current-P sizes (some found) = r.grow_decoded_by _

  charge_copy-P : (sizes : Sizes) (t id : ℕ) → P _ (charge_copy sizes t id)
  unfolding charge_copy
  charge_copy-P sizes t id =
      gets_then-P _ (λ s u same. ground (arith, same)) (λ found. charge_current-P sizes found)

  execute_create-P :
      (sizes : Sizes) (table : Table) (t id : ℕ) (fields : Fields)
      → P _ (execute_create sizes table t id fields)
  unfolding execute_create
  execute_create-P sizes table t id fields =
      gets_then-P _ (λ s u same. ground (arith, same))
        (λ taken. if-P taken (r.fail _) (
          r.bind (schema_of-P table) (λ schema. r.bind (r.lift _) (λ full.
            r.bind (r.check_permitted _ _ _ _)
              (λ _. r.bind (r.check_permitted _ _ _ _) (λ _. r.stage t id _))))))

  or_missing-P : (id : ℕ) (found : Option EntityData) → P _ (or_missing id found)
  or_missing-P id none = r.fail _
  or_missing-P id (some found) = r.pure found

  found_data-P : (t id : ℕ) → P _ (found_data t id)
  unfolding found_data
  found_data-P t id =
      gets_then-P _ (λ s u same. ground (arith, same)) (λ found. or_missing-P id found)

  checked_fields-P :
      (sizes : Sizes) (table : Table) (current : Entity) (fields : Fields)
      → P _ (checked_fields sizes table current fields)
  unfolding checked_fields
  checked_fields-P sizes table current fields = if-P (length fields == 0) (r.fail _) (
      r.bind (schema_of-P table) (λ schema. r.bind (r.lift _) (λ changes.
        r.bind (r.check_permitted _ _ _ _) (λ _.
          r.bind (r.check_permitted _ _ _ _)
            (λ _. r.bind (r.check_permitted _ _ _ _) (λ _. r.pure changes))))))

  change-P :
      (table : Table) (t id : ℕ) (kind : EventKind) (fields : Fields) (found : EntityData)
      → P _ (change table t id kind fields found)
  unfolding change
  change-P table t id kind fields found = if-P found.current.deleted (r.fail _) (
      gets_then-P _ (λ s u same. ground (arith, same))
        (λ lsn. if-P (not (ltb (found.current.version + 1) (2 ^ 64))) (r.fail _) (
          if-P (not (ltb (lsn + 1) (2 ^ 64))) (r.fail _) (
            r.bind (schema_of-P table) (λ schema. r.bind (r.lift _) (λ current. r.stage t id _))))))

  -- The change of the catalog, where the operation is one.
  abbrev pub Puts : Operation → Type 0
  Puts (Operation.table table) = P _ (Actions.put_catalog table.id table)
  Puts (Operation.create t id fields) = Unit
  Puts (Operation.apply t id fields) = Unit
  Puts (Operation.delete t id) = Unit
  Puts (Operation.retain t id n) = Unit
  Puts (Operation.snapshot t id) = Unit

  pub put_catalog-Puts :
      ((id : ℕ) (table : Table) → P _ (Actions.put_catalog id table)) → (op : Operation) → Puts op
  put_catalog-Puts p (Operation.table table) = p table.id table
  put_catalog-Puts p (Operation.create t id fields) = tt
  put_catalog-Puts p (Operation.apply t id fields) = tt
  put_catalog-Puts p (Operation.delete t id) = tt
  put_catalog-Puts p (Operation.retain t id n) = tt
  put_catalog-Puts p (Operation.snapshot t id) = tt

  pub execute-P : (sizes : Sizes) (op : Operation) → Puts op → P _ (execute sizes op)
  unfolding execute
  execute-P sizes (Operation.table table) p =
      gets_then-P _ (λ s u same. ground (arith, same)) (λ catalog. r.bind (r.lift _) (λ _. p))
  execute-P sizes (Operation.create t id fields) p =
      r.bind (r.definition t)
        (λ table. r.bind (load_staged-P sizes t id) (λ _. execute_create-P sizes table t id fields))
  execute-P sizes (Operation.apply t id fields) p = r.bind (r.definition t) (λ table.
      r.bind (load_staged-P sizes t id) (λ _. r.bind (found_data-P t id) (λ found.
        r.bind (checked_fields-P sizes table found.current fields)
          (λ changes. change-P table t id EventKind.apply changes found))))
  execute-P sizes (Operation.delete t id) p = r.bind (r.definition t) (λ table.
      r.bind (load_staged-P sizes t id)
        (λ _. r.bind (found_data-P t id) (λ found. change-P table t id EventKind.delete [] found)))
  execute-P sizes (Operation.retain t id n) p = r.bind (r.definition t) (λ table.
      r.bind (load_staged-P sizes t id) (λ _.
        r.bind (charge_copy-P sizes t id) (λ _.
          r.bind (found_data-P t id) (λ found. r.bind (r.lift _) (λ kept. r.stage t id kept)))))
  execute-P sizes (Operation.snapshot t id) p = r.bind (r.definition t) (λ table.
      r.bind (load_staged-P sizes t id) (λ _.
        r.bind (charge_copy-P sizes t id)
          (λ _. r.bind (found_data-P t id) (λ found. r.stage t id _))))

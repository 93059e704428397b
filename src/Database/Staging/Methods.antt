-- ===== src/Database/Staging/Methods.antt =====
-- The public methods of `Staging` (database.rs).
use eve_db.Base.{
  ℕ, ◌+◌, ◌%◌, ◌^◌, Bool, true, false, not, ◌&&◌, Option, none, some, List, [], ◌∷◌, ◌++◌, ltb,
  ◌==◌, if◌then◌else◌, Error, Result, ok, err, invalid, plain,
}
use eve_db.Base.Order.{nat_ord, pair_ord}
use eve_db.Base.Assoc.{lookup}
use eve_db.Codec.LittleEndian.{Bytes}
use eve_db.Resources.{Limits, ResourceUsage, PermitKind, admit_transaction, new_reservation}
use eve_db.Resources
use eve_db.Model.{Fields, Field, Schema, Table}
use eve_db.Model.History.{EntityData}
use eve_db.Database.{Operation}
use eve_db.Database.Catalog.{last_id}
use eve_db.Database.Staging.{schema_of, ready, run}
use eve_db.Database.Staging.Actions.{
  Sizes, Options, ReadState, World, Store, Action, ◌>>=◌, ◌>>◌, pure, fail, gets, definition,
  charged,
}

abbrev pub fresh : ReadState → Options → Bool → World → Store
fresh base options permit world = record {
  staging = record {
    base = base;
    options = options;
    permit = permit;
    reservation = new_reservation;
    catalog = base.catalog;
    staged = [];
    operations = [];
    failed = false;
  };
  world = world;
}

-- A permit that was not given to a staging goes back to the counters.
abbrev with_reservation : World → Result Error (Unit {0}) × Store → Result Error Store × World
with_reservation world (ok tt, s) = (ok s, s.world)
with_reservation world (err e, s) = (err e, world)

abbrev with_permit :
    ReadState
    → Options
    → World
    → Result Error (PermitKind × ResourceUsage)
    → Result Error Store × World
with_permit base options world (err e) = (err e, world)
with_permit base options world (ok (permit, usage)) =
    let s = fresh base options true (record world { usage = usage }) in
    with_reservation world (charged s (Resources.grow base.limits 8 new_reservation usage))

-- `Staging::new`: the staging, or the error, with the counters after the call.
unfoldable pub new : ReadState → Options → Bool → World → Result Error Store × World
new base options true world =
    let s = fresh base options false world in
    with_reservation world (charged s (ok (Resources.recover 8 new_reservation world.usage)))
new base options false world =
    with_permit base options world (admit_transaction base.limits world.usage)

-- A lookup that fails aborts the transaction.
abbrev pub aborting : Result Error Table × Store → Result Error Table × Store
aborting (ok table, s) = (ok table, s)
aborting (err e, s) = (err e, record s { staging = record s.staging { failed = true } })

unfoldable pub table_for_write : ℕ → Action Table
table_for_write id s = aborting (definition id s)

unfoldable pub create_table : Sizes → Bytes → Schema → Action ℕ
create_table sizes name schema = do
  last ← gets λ self. last_id self.catalog
  if ltb (last + 1) (2 ^ 64)
      then (do
        run sizes (Operation.table (record { id = last + 1; name = name; schemas = schema ∷ [] }))
        pure (last + 1))
      else fail (invalid (plain "table IDs exhausted"))

unfoldable pub rename_table : Sizes → ℕ → Bytes → Action (Unit {0})
rename_table sizes id name = do
  table ← table_for_write id
  run sizes (Operation.table (record table { name = name }))

unfoldable pub alter_table : Sizes → ℕ → List Field → Action (Unit {0})
alter_table sizes id fields = do
  table ← table_for_write id
  schema ← schema_of table
  if ltb (schema.version + 1) (2 ^ 64)
      then (do
        let next : Schema = record { version = schema.version + 1; fields = fields }
        run sizes (Operation.table (record table { schemas = table.schemas ++ next ∷ [] })))
      else fail (invalid (plain "schema versions exhausted"))

abbrev current_version : Option EntityData → ℕ
current_version none = 0
current_version (some found) = found.current.version

-- `version.is_multiple_of(interval)` of an interval that is not zero.
abbrev pub is_due : ℕ → ℕ → Bool
is_due interval version = not (interval == 0) && version % interval == 0

unfoldable pub retain_automatically : Sizes → ℕ → ℕ → Option ℕ → Action (Unit {0})
retain_automatically sizes t id none = pure tt
retain_automatically sizes t id (some count) = run sizes (Operation.retain t id count)

-- `maintain`, after a change of the entity, which is staged then.
unfoldable pub maintain : Sizes → ℕ → ℕ → Action (Unit {0})
maintain sizes t id = do
  interval ← gets λ self. self.options.snapshot_interval
  version ← gets λ self. current_version (lookup (t, id) self.staged)
  if is_due interval version then run sizes (Operation.snapshot t id) else pure tt
  count ← gets λ self. self.options.retain_events
  retain_automatically sizes t id count

unfoldable pub apply_fields : Sizes → ℕ → ℕ → Fields → Action (Unit {0})
apply_fields sizes t id fields = run sizes (Operation.apply t id fields) >> maintain sizes t id

unfoldable pub delete_entity : Sizes → ℕ → ℕ → Action (Unit {0})
delete_entity sizes t id = run sizes (Operation.delete t id) >> maintain sizes t id

-- The guard of `Transaction::commit`.
unfoldable pub committable : Action (Unit {0})
committable = do
  ready
  failed ← gets λ self. self.failed
  if failed then fail (invalid (plain "cannot commit an aborted transaction")) else pure tt

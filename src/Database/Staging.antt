-- ===== src/Database/Staging.antt =====
-- `Staging` of database.rs: a transaction's catalog, entities and operations. An action runs on the
-- staging and on what it shares with the rest of the engine, and changes both, also when it fails.
-- The sizes of an `Entity` and of an accounted `Event`, and the capacities of buffers,
-- are parameters of the platform.
pub mod Actions
pub mod Methods
pub mod Commands
mod Tests
use eve_db.Base.{
  ℕ, ◌+◌, ◌*◌, ◌^◌, ◌%◌, Bool, true, false, not, ◌&&◌, ◌||◌, Option, none, some, List, [], ◌∷◌,
  ◌++◌, length, ltb, ◌==◌, if◌then◌else◌, Error, Result, ok, err, invalid, corrupt, already_exists,
  not_found, needs_recovery, plain, numbered, around,
}
use eve_db.Base.Order.{nat_ord, pair_ord}
use eve_db.Base.Assoc.{lookup, upsert}
use eve_db.Codec.{max_record}
use eve_db.OrderedMap.{Tree, empty, insert}
use eve_db.Resources.{Reservation, check}
use eve_db.Memory.{field_bytes, fields_bytes, entity_bytes, merged_sizes}
use eve_db.Model.{Fields, Field, Schema, Table, Entity, EventKind, Event}
use eve_db.Model.Fields.{fields_encoded_len}
use eve_db.Model.Schemas.{normalize}
use eve_db.Model.History.{EntityData, apply_event, retain}
use eve_db.Database.{Operation}
use eve_db.Database.Operations.{encoded_len}
use eve_db.Database.Catalog.{newest, validate_table_change, last_id}
use Actions.{
  Store, Staging, Action, pure, fail, lift, gets, put_catalog, ◌>>=◌, ◌>>◌, grow_decoded_by,
  check_permitted, admit_bytes, load_charged, Sizes, stage, definition, recorded,
}

-- The columns of all schemas of a table.
abbrev pub columns : List Schema → ℕ
columns [] = 0
columns (schema ∷ schemas) = length schema.fields * field_bytes + columns schemas

-- `table.schema()`
unfoldable pub schema_of : Table → Action Schema
schema_of table = lift (newest table)

abbrev pub staged_bytes : Sizes → Option EntityData → ℕ
staged_bytes sizes none = 0
staged_bytes sizes (some found) = entity_bytes sizes.capacity sizes.entity found.current

unfoldable pub current_cost : Sizes → ℕ → ℕ → Action ℕ
current_cost sizes t id = gets (λ self. staged_bytes sizes (lookup (t, id) self.staged) + 256)

-- What `run` charges for the decoded data of an operation.
unfoldable pub cost : Sizes → Operation → Action ℕ
cost sizes (Operation.create t id fields) = do
  table ← definition t
  schema ← schema_of table
  pure (3 * fields_bytes sizes.capacity fields + 2 * length schema.fields * field_bytes + 256)
cost sizes (Operation.apply t id fields) = pure (3 * fields_bytes sizes.capacity fields + 256)
cost sizes (Operation.snapshot t id) = current_cost sizes t id
cost sizes (Operation.retain t id n) = current_cost sizes t id
cost sizes (Operation.table table) =
    pure (encoded_len (Operation.table table) * 3 + columns table.schemas * 2)
cost sizes (Operation.delete t id) = pure 256

abbrev pub is_some {ℓ} : {A : Type ℓ} → Option A → Bool
is_some none = false
is_some (some a) = true

unfoldable pub stage_loaded : ℕ → ℕ → Option EntityData → Action (Unit {0})
stage_loaded t id none = pure tt
stage_loaded t id (some found) = stage t id found

-- The entity is staged if the committed view has it and it is not staged yet.
unfoldable pub load_staged : Sizes → ℕ → ℕ → Action (Unit {0})
load_staged sizes t id = do
  needed ←
      gets
        λ self. not (is_some (lookup (t, id) self.staged)) && is_some (lookup t self.base.catalog)
  if needed then load_charged sizes t id >>= stage_loaded t id else pure tt

unfoldable pub charge_current : Sizes → Option EntityData → Action (Unit {0})
charge_current sizes none = pure tt
charge_current sizes (some found) =
    grow_decoded_by (entity_bytes sizes.capacity sizes.entity found.current)

unfoldable pub charge_copy : Sizes → ℕ → ℕ → Action (Unit {0})
charge_copy sizes t id = gets (λ self. lookup (t, id) self.staged) >>= charge_current sizes

abbrev pub new_data : Entity → EntityData
new_data entity = record {
  charges = empty;
  current = entity;
  base = entity;
  events = [];
  committed = empty;
  snapshots = empty;
  disk = none;
}

unfoldable pub execute_create : Sizes → Table → ℕ → ℕ → Fields → Action (Unit {0})
execute_create sizes table t id fields = do
  taken ← gets λ self. is_some (lookup (t, id) self.staged)
  if taken then fail (already_exists (numbered "entity " id)) else do
    schema ← schema_of table
    fields ← lift (normalize schema fields true)
    check_permitted "decoded record bytes" (λ _. 0)
        (sizes.entity + fields_bytes sizes.capacity fields) (λ l. l.max_decoded_record_bytes)
    check_permitted "encoded record bytes" (λ _. 0) (25 + fields_encoded_len fields)
        (λ _. max_record)
    stage t id (
        new_data (record {
          id = id;
          version = 0;
          schema_version = schema.version;
          deleted = false;
          fields = fields;
        }))

abbrev pub or_missing : ℕ → Option EntityData → Action EntityData
or_missing id (some found) = pure found
or_missing id none = fail (not_found (numbered "entity " id))

-- `get_mut(..).ok_or_else(..)`
unfoldable pub found_data : ℕ → ℕ → Action EntityData
found_data t id = gets (λ self. lookup (t, id) self.staged) >>= or_missing id

-- The assignments of an `Apply`.
unfoldable pub checked_fields : Sizes → Table → Entity → Fields → Action Fields
checked_fields sizes table current fields =
    if length fields == 0 then fail (invalid (plain "an apply needs at least one field")) else do
      schema ← schema_of table
      fields ← lift (normalize schema fields false)
      let merged = merged_sizes sizes.capacity sizes.entity current.fields fields
      check_permitted "decoded record bytes" (λ _. 0) merged.0 (λ l. l.max_decoded_record_bytes)
      check_permitted "decoded record bytes" (λ _. 0)
          (sizes.event + fields_bytes sizes.capacity fields) (λ l. l.max_decoded_record_bytes)
      check_permitted "encoded record bytes" (λ _. 0) merged.1 (λ _. max_record)
      pure fields

-- The event of an `Apply` or a `Delete`. Where `apply_event` fails the entity is left as it was;
-- the code may have merged the assignments by then, in a transaction that is aborted.
unfoldable pub change : Table → ℕ → ℕ → EventKind → Fields → EntityData → Action (Unit {0})
change table t id kind fields found =
    if found.current.deleted then fail (invalid (around "entity " id " is deleted")) else do
      lsn ← gets λ self. self.base.lsn
      if not (ltb (found.current.version + 1) (2 ^ 64))
          then fail (invalid (plain "entity versions exhausted"))
          else if not (ltb (lsn + 1) (2 ^ 64))
          then fail (invalid (plain "transaction sequence exhausted"))
          else do
            schema ← schema_of table
            let event : Event = record {
              version = found.current.version + 1;
              transaction = lsn + 1;
              schema_version = schema.version;
              kind = kind;
              fields = fields;
            }
            current ← lift (apply_event table found.current event)
            stage t id (record found { current = current; events = found.events ++ event ∷ [] })

unfoldable pub execute : Sizes → Operation → Action (Unit {0})
execute sizes (Operation.table table) = do
  catalog ← gets λ self. self.catalog
  lift (validate_table_change catalog table)
  put_catalog table.id table
execute sizes (Operation.create t id fields) = do
  table ← definition t
  load_staged sizes t id
  execute_create sizes table t id fields
execute sizes (Operation.apply t id fields) = do
  table ← definition t
  load_staged sizes t id
  found ← found_data t id
  fields ← checked_fields sizes table found.current fields
  change table t id EventKind.apply fields found
execute sizes (Operation.delete t id) = do
  table ← definition t
  load_staged sizes t id
  found ← found_data t id
  change table t id EventKind.delete [] found
execute sizes (Operation.retain t id n) = do
  table ← definition t
  load_staged sizes t id
  charge_copy sizes t id
  found ← found_data t id
  kept ← lift (retain table n found)
  stage t id kept
execute sizes (Operation.snapshot t id) = do
  table ← definition t
  load_staged sizes t id
  charge_copy sizes t id
  found ← found_data t id
  stage t id
      (record found { snapshots = insert found.snapshots found.current.version found.current })

-- The closure of `run`: the operation is charged for and executed.
unfoldable pub admitted : Sizes → Operation → Action (Unit {0})
admitted sizes operation = do
  decoded ← cost sizes operation
  grow_decoded_by decoded
  check_permitted "transaction operations" (λ self. length self.operations) 1
      (λ l. l.max_transaction_operations)
  check_permitted "transaction bytes" (λ self. self.reservation.bytes) (encoded_len operation)
      (λ l. l.max_transaction_bytes)
  admit_bytes (encoded_len operation)
  execute sizes operation

-- `self.base.ready()`
unfoldable pub ready : Action (Unit {0})
ready s = if s.world.poisoned then (err needs_recovery, s) else (ok tt, s)

unfoldable pub run : Sizes → Operation → Action (Unit {0})
run sizes operation = do
  ready
  failed ← gets λ self. self.failed
  if failed
      then fail (invalid (plain "transaction was aborted by an earlier operation"))
      else (λ s. recorded operation (admitted sizes operation s))

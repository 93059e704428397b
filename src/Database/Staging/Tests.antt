-- ===== src/Database/Staging/Tests.antt =====
-- A transaction that makes a table and an entity and changes it, by `Staging` of database.rs, and
-- the recovery of its log.
use mathlib.Core.Path.{subst}
use eve_db.Base.{
  sym, ap, ◌≤◌, ◌<◌, ◌≡◌, refl, true, false, none, some, List, [], ◌∷◌, length, All, arith, ok, err,
  Error, Result,
}
use eve_db.Base.Order.{nat_ord, pair_ord}
use eve_db.Base.Assoc.{lookup, upsert}
use eve_db.Codec.Decoder.Utf8.{
  two_bytes, three_bytes, four_bytes, next_char, chars_loop, chars, is_utf8,
}
use eve_db.Codec.LittleEndian.{to_le_bytes}
use eve_db.OrderedMap.{empty}
use eve_db.Resources
use eve_db.Resources.{default_limits, no_usage, check, admit_transaction}
use eve_db.Memory.{fields_bytes, overridden, added, sum_sizes, merged_sizes}
use eve_db.Model.{DataType, Value, Field, Schema}
use eve_db.Model.Fields.{
  encode_value, encode_items, encode_fields, sum_encoded_len, value_encoded_len, fields_encoded_len,
}
use eve_db.Model.Schemas.{
  validate_fields, validate, find_field, is_valid, check_assignments, complete_fields, normalize,
  find_version, table_version, last_schema,
}
use eve_db.Model.Schemas.Names.{
  is_white_space, is_control, all_of, any_of, scalars, validate_name, same_bytes, contains_id,
  contains_name,
}
use eve_db.Model.History.{apply_event, retain}
use eve_db.Database.{Operation}
use eve_db.Database.Catalog.{
  newest, name_taken, validate_schemas, last_id, check_new, validate_table_change,
}
use eve_db.Database.Operations.{encoded_len, encode_ops}
use eve_db.Database.Staging.Commands.Admissions.{IsTypedOperation}
use eve_db.Database.Staging.{
  schema_of, current_cost, cost, stage_loaded, load_staged, charge_current, charge_copy,
  execute_create, found_data, checked_fields, change, execute, admitted, ready, run,
}
use eve_db.Database.Staging.Actions
use eve_db.Database.Staging.Actions.{Sizes, Options, ReadState, World, Store, recorded}
use eve_db.Database.Staging.Methods
use eve_db.Database.Staging.Methods.{new}
use eve_db.Database.Staging.Commands.{Command, call, calls, recover_record}
use eve_db.Database.Staging.Commands.Replays.{recover_record-calls}

abbrev sizes : Sizes
sizes = record { entity = 80; event = 120; capacity = length }

-- An engine with no table.
abbrev base : ReadState
base = record {
  lsn = 0;
  catalog = [];
  overlay = empty;
  limits = default_limits;
  entity_charged = λ t id. ([], ok none);
}

abbrev options : Options
options = record { limits = default_limits; snapshot_interval = 1; retain_events = some 5 }

abbrev world : World
world = record { usage = no_usage; poisoned = false; recovering = false }

abbrev recovering : World
recovering = record { usage = no_usage; poisoned = false; recovering = true }

abbrev store_of : Result Error Store × World → Store
store_of (ok s, w) = s
store_of (err e, w) = Methods.fresh base options false w

abbrev begun : Store
begun = store_of (new base options false world)

abbrev start : Store
start = store_of (new base options true recovering)

-- The texts "a" and "t".
abbrev column : Field
column = record { id = 1; name = 97 ∷ []; data_type = DataType.uint64; nullable = false }

abbrev schema : Schema
schema = record { version = 1; fields = column ∷ [] }

abbrev commands : List (World × Command)
commands =
    (world, Command.create_table (116 ∷ []) schema)
    ∷ (world, Command.create 1 5 ((1, Value.uint64 3) ∷ []))
    ∷ (world, Command.apply 1 5 ((1, Value.uint64 4) ∷ []))
    ∷ []

abbrev done : Store
done = calls sizes commands begun

abbrev operations : List Operation
operations =
    Operation.table (record { id = 1; name = 116 ∷ []; schemas = schema ∷ [] })
    ∷ Operation.create 1 5 ((1, Value.uint64 3) ∷ [])
    ∷ Operation.apply 1 5 ((1, Value.uint64 4) ∷ [])
    ∷ Operation.snapshot 1 5
    ∷ Operation.retain 1 5 5
    ∷ []

begun_ok : new base options false world ≡ (ok begun, (new base options false world).1)
unfolding new admit_transaction Resources.grow check
begun_ok = refl

start_ok : new base options true recovering ≡ (ok start, (new base options true recovering).1)
unfolding new Resources.recover
start_ok = refl

runs : (done.staging.failed ≡ false) × (done.staging.operations ≡ operations)
unfolding calls call new admit_transaction Resources.grow Resources.grow_decoded Resources.recover
    check Methods.create_table Methods.apply_fields Methods.maintain Methods.retain_automatically
    run ready admitted execute change checked_fields found_data execute_create charge_copy
    charge_current load_staged stage_loaded cost current_cost schema_of Actions.◌>>=◌ Actions.pure
    Actions.fail Actions.lift Actions.gets Actions.grow_decoded_by Actions.check_permitted
    Actions.admit_bytes Actions.definition Actions.stage Actions.put_catalog recorded last_schema
    newest name_taken validate_schemas validate validate_fields validate_name check_new last_id
    validate_table_change lookup upsert encoded_len fields_encoded_len fields_bytes sum_encoded_len
    value_encoded_len normalize check_assignments complete_fields find_field is_valid encode_fields
    encode_items encode_value merged_sizes overridden added sum_sizes apply_event table_version
    find_version retain two_bytes three_bytes four_bytes next_char chars_loop chars is_utf8
    is_white_space is_control all_of any_of scalars same_bytes contains_id contains_name to_le_bytes
    nat_ord pair_ord
runs = (refl, refl)

typed : All IsTypedOperation operations
unfolding runs
typed = (
  record {
    id_fits = omega arith;
    id_used = omega arith;
    name_typed = (omega arith, refl);
    schemas_typed = ((omega arith, ((omega arith, (omega arith, refl)), tt)), tt);
  },
  (
    (omega arith, omega arith, ((tt, tt), ((omega arith, omega arith), tt))),
    (
      (omega arith, omega arith, ((tt, tt), ((omega arith, omega arith), tt))),
      ((omega arith, omega arith), ((omega arith, omega arith, omega arith), tt)),
    ),
  ),
)

done_typed : All IsTypedOperation done.staging.operations
done_typed = subst (All IsTypedOperation) (sym runs.1) typed

done_nonempty : 0 < length done.staging.operations
done_nonempty = omega (arith, ap length runs.1)

recover_record-calls_example :
    (length (encode_ops done.staging.operations) ≡ done.staging.reservation.bytes)
    × (length (encode_ops done.staging.operations)
        ≤ done.staging.options.limits.max_transaction_bytes)
    × (after : Store) × (recover_record sizes (encode_ops done.staging.operations) start
        ≡ (ok tt, after))
    × (after.staging.catalog ≡ done.staging.catalog)
    × (after.staging.staged ≡ done.staging.staged)
recover_record-calls_example =
    recover_record-calls sizes base options world (new base options false world).1 recovering
      (new base options true recovering).1 begun start commands (omega arith) tt begun_ok start_ok
      refl refl runs.0 done_typed done_nonempty

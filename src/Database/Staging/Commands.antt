-- ===== src/Database/Staging/Commands.antt =====
-- The calls of a client on a `Staging` (database.rs), as a sequence of commands, and the operations
-- of a log record, which recovery runs.
pub mod Follows
pub mod Rules
pub mod Executions
pub mod Frames
pub mod Catalogs
pub mod Accepted
pub mod Admissions
pub mod Recovery
pub mod Replays
use eve_db.Base.{ℕ, List, [], ◌∷◌, Error, Result, ok, err, corrupt, plain}
use eve_db.Codec.LittleEndian.{Bytes}
use eve_db.Model.{Fields, Field, Schema}
use eve_db.Database.{Operation}
use eve_db.Database.Operations.{decode_ops}
use eve_db.Database.Staging.{run}
use eve_db.Database.Staging.Actions.{Sizes, World, Store, Action, ◌>>=◌, ◌>>◌, pure, lift}
use eve_db.Database.Staging.Methods

-- A method that changes the staging, with its arguments.
pub data Command : Type 0 where
  create_table : Bytes → Schema → Command
  rename_table : ℕ → Bytes → Command
  alter_table : ℕ → List Field → Command
  create apply : ℕ → ℕ → Fields → Command
  delete : ℕ → ℕ → Command
  retain_last : ℕ → ℕ → ℕ → Command
  snapshot : ℕ → ℕ → Command

unfoldable pub call : Sizes → Command → Action (Unit {0})
call sizes (Command.create_table name schema) =
    Methods.create_table sizes name schema >>= λ _. pure tt
call sizes (Command.rename_table id name) = Methods.rename_table sizes id name
call sizes (Command.alter_table id fields) = Methods.alter_table sizes id fields
call sizes (Command.create t id fields) = run sizes (Operation.create t id fields)
call sizes (Command.apply t id fields) = Methods.apply_fields sizes t id fields
call sizes (Command.delete t id) = Methods.delete_entity sizes t id
call sizes (Command.retain_last t id count) = run sizes (Operation.retain t id count)
call sizes (Command.snapshot t id) = run sizes (Operation.snapshot t id)

-- The calls of a client, whatever they return. Before each, the rest of the engine may have changed
-- what the staging shares with it.
unfoldable pub calls : Sizes → List (World × Command) → Store → Store
calls sizes [] s = s
calls sizes ((world, command) ∷ more) s =
    calls sizes more (call sizes command (record s { world = world })).1

-- The error of an operation that recovery cannot run; the text of its cause is left out.
abbrev pub reported : Result Error (Unit {0}) × Store → Result Error (Unit {0}) × Store
reported (ok tt, s) = (ok tt, s)
reported (err e, s) = (err (corrupt (plain "invalid WAL operation")), s)

unfoldable pub recover_operation : Sizes → Operation → Action (Unit {0})
recover_operation sizes operation s = reported (run sizes operation s)

-- The operations of a log record, one after the other up to the first error.
unfoldable pub recover_all : Sizes → List Operation → Action (Unit {0})
recover_all sizes [] = pure tt
recover_all sizes (operation ∷ operations) =
    recover_operation sizes operation >> recover_all sizes operations

-- What recovery does with the payload of a log record.
unfoldable pub recover_record : Sizes → Bytes → Action (Unit {0})
recover_record sizes payload = do
  operations ← lift (decode_ops payload)
  recover_all sizes operations

-- ===== src/Database/Group.antt =====
-- `Prepared::commit_group` of database.rs: the batches of a group are written to the log by one
-- flush and published. The clock gives its readings in order, one for each call that reads it. The
-- operating system's answer to the writes and the flush of the log is an argument, and so is the
-- checkpoint that an engine for one owner makes first.
pub mod Rebinding
pub mod Publication
pub mod Published
pub mod Sequence
pub mod Termination
mod Tests
use eve_db.Base.{
  ℕ, zero, suc, ◌+◌, ◌-◌, ◌^◌, Bool, true, false, not, ◌&&◌, ◌||◌, Option, none, some, List, [],
  ◌∷◌, ◌++◌, map, length, ltb, ◌==◌, if◌then◌else◌, Error, IoError, Result, ok, err, ◌>>=◌, ◌>>◌,
  invalid, plain, deadline_exceeded, limit_exceeded, commit_unknown, needs_recovery,
}
use eve_db.Base.Order.{nat_ord, pair_ord}
use eve_db.Base.Assoc.{lookup, upsert}
use eve_db.Codec.LittleEndian.{Bytes}
use eve_db.OrderedMap.{Tree, insert}
use eve_db.CommitQueue.{saturating_add}
use eve_db.Resources.{Reservation, Limits, ResourceUsage}
use eve_db.Overlay.{Root, Overlay}
use eve_db.Storage.Frame.{encode}
use eve_db.Model.{Event}
use eve_db.Model.History.{EntityData, seal}
use eve_db.Database.{Operation}
use eve_db.Database.Catalog.{Catalog}
use eve_db.Database.Operations.{encode_ops}

-- The staging of a transaction that is to be committed.
pub record Prepared : Type 0 where
  pub base_sequence : ℕ
  pub root_generation : ℕ
  pub catalog : Catalog
  pub staged : List ((ℕ × ℕ) × EntityData)
  pub operations : List Operation
  pub reservation : Reservation
  pub deadline : Option ℕ

abbrev pub keys : Prepared → List (ℕ × ℕ)
keys batch = map (λ e. e.0) batch.staged

abbrev pub is_table : Operation → Bool
is_table (Operation.table t) = true
is_table (Operation.create t id fields) = false
is_table (Operation.apply t id fields) = false
is_table (Operation.delete t id) = false
is_table (Operation.retain t id n) = false
is_table (Operation.snapshot t id) = false

unfoldable pub any_table : List Operation → Bool
any_table [] = false
any_table (operation ∷ operations) = is_table operation || any_table operations

abbrev pub changes_catalog : Prepared → Bool
changes_catalog batch = any_table batch.operations

abbrev pub is_empty : Prepared → Bool
is_empty batch = length batch.operations == 0

-- `ReadState`, the committed state: the last published root with the sequence it goes up to and
-- the entities it holds, and what was committed since.
pub record CommittedState : Type 0 where
  pub root : Root
  pub root_lsn : ℕ
  pub root_entity : ℕ → ℕ → Result Error (Option EntityData)
  pub root_bytes : Option ℕ
  pub pinned_bytes : Option ℕ
  pub catalog : Catalog
  pub overlay : Overlay EntityData
  pub lsn : ℕ
  pub charges : Tree ℕ Reservation

-- The engine, by what a commit reads and writes; `readers` is the state that was last published to
-- the readers.
pub record Engine : Type 0 where
  pub state : CommittedState
  pub readers : CommittedState
  pub checkpoint_tail : Option (List ((ℕ × ℕ) × EntityData))
  pub wal : Bytes
  pub wal_bytes : ℕ
  pub checkpoint_bytes : ℕ
  pub shared_mode : Bool
  pub poisoned : Bool
  pub limits : Limits
  pub usage : ResourceUsage

-- `deadline::check`, with the number of the next reading.
abbrev pub in_time : (ℕ → ℕ) → Option ℕ → ℕ → Bool × ℕ
in_time clock none tick = (true, tick)
in_time clock (some end) tick = (ltb (clock tick) end, suc tick)

-- The batches that are left in the group, with their places in it, the results so far, and the
-- number of the next reading of the clock.
pub record Active : Type 0 where
  pub batches : List (ℕ × Prepared)
  pub results : List (ℕ × Result Error ℕ)
  pub tick : ℕ

-- One batch of `active.retain`.
unfoldable pub retain_one : (ℕ × Prepared) → Bool → Active → Active
retain_one (index, batch) false a = record a {
  results = upsert index (err deadline_exceeded) a.results;
}
retain_one (index, batch) true a =
    if is_empty batch
    then record a { results = upsert index (ok batch.base_sequence) a.results }
    else record a { batches = (index, batch) ∷ a.batches }

unfoldable pub retain_active :
    (ℕ → ℕ) → List (ℕ × Prepared) → List (ℕ × Result Error ℕ) → ℕ → Active
retain_active clock [] results tick = record { batches = []; results = results; tick = tick }
retain_active clock ((index, batch) ∷ more) results tick =
    let (timely, next) = in_time clock batch.deadline tick in
    let rest : Active = retain_active clock more results next in
    retain_one (index, batch) timely rest

-- An event of this transaction gets the sequence of its commit.
abbrev pub stamp : ℕ → ℕ → Event → Event
stamp base lsn event =
    if ltb base event.transaction then record event { transaction = lsn } else event

unfoldable pub stamp_batch : ℕ → Prepared → Prepared
stamp_batch lsn batch = record batch {
  staged =
      map (λ e. (e.0, record (e.1) { events = map (stamp batch.base_sequence lsn) (e.1).events }))
        batch.staged;
}

-- The frames of the batches, and the batches with their sequences; `first` is the one of the next.
unfoldable pub encode_frames :
    ℕ → List (ℕ × Prepared) → Result Error (List (ℕ × Prepared) × List Bytes)
encode_frames first [] = ok ([], [])
encode_frames first ((index, batch) ∷ more) =
    if not (ltb first (2 ^ 64)) then err (invalid (plain "transaction sequence exhausted")) else do
      frame ← encode 2 first (encode_ops batch.operations)
      rest ← encode_frames (suc first) more
      ok ((index, stamp_batch first batch) ∷ rest.0, frame ∷ rest.1)

-- `active.iter().all(..)`, which stops at the first batch that is late.
unfoldable pub all_in_time : (ℕ → ℕ) → List (ℕ × Prepared) → ℕ → Bool × ℕ
all_in_time clock [] tick = (true, tick)
all_in_time clock ((index, batch) ∷ more) tick =
    let (timely, next) = in_time clock batch.deadline tick in
    let rest : Bool × ℕ = all_in_time clock more next in if timely then rest else (false, next)

-- How the preparation ends: with the frames to write, or with an error for all batches left.
pub data Preparation : Type 0 where
  ready : Active → List Bytes → Preparation
  failed : Error → Active → Preparation

abbrev pub prepared_again :
    (ℕ → ℕ)
    → Active
    → (List (ℕ × Prepared) → ℕ → Option Preparation)
    → Result Error (List (ℕ × Prepared) × List Bytes)
    → Option Preparation
prepared_again clock a again (err e) = some (failed e a)
prepared_again clock a again (ok (batches, frames)) =
    let (timely, next) = all_in_time clock batches a.tick in
    if timely
    then some (ready (record a { batches = batches; tick = next }) frames)
    else again batches next

-- The loop of the preparation; `none` where the fuel runs out.
unfoldable pub prepare_loop :
    ℕ → (ℕ → ℕ) → ℕ → List (ℕ × Prepared) → List (ℕ × Result Error ℕ) → ℕ → Option Preparation
prepare_loop zero clock lsn batches results tick = none
prepare_loop (suc fuel) clock lsn batches results tick =
    let a : Active = retain_active clock batches results tick in
    prepared_again clock a (λ batches tick. prepare_loop fuel clock lsn batches a.results tick)
      (encode_frames (lsn + 1) a.batches)

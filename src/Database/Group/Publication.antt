-- ===== src/Database/Group/Publication.antt =====
-- The second half of `Prepared::commit_group` (database.rs): the frames of the group are written to
-- the log and the batches are published. The operating system's answer to the writes and the flush
-- is an argument, and so is the checkpoint, which changes the engine also when it fails.
use eve_db.Base.{
  ℕ, suc, ◌+◌, ◌^◌, not, ◌&&◌, leb, true, Option, none, some, List, [], ◌∷◌, ◌++◌, take, map,
  length, ltb, ◌==◌, if◌then◌else◌, Error, IoError, Result, ok, err, limit_exceeded, commit_unknown,
  needs_recovery,
}
use eve_db.Base.Order.{nat_ord, pair_ord}
use eve_db.Base.Assoc.{upsert}
use eve_db.Codec.LittleEndian.{Bytes}
use eve_db.OrderedMap.{insert}
use eve_db.CommitQueue.{saturating_add}
use eve_db.Resources.{Reservation, ResourceUsage}
use eve_db.Overlay
use eve_db.Overlay.{Root}
use eve_db.Model.History.{EntityData, seal}
use eve_db.Database.Staging.Actions.{Sizes}
use eve_db.Database.Group.{
  Prepared, CommittedState, Engine, Active, Preparation, ready, failed, prepare_loop,
}
use eve_db.Database.Group.Rebinding.{rebind_all}

-- `results[index] = Some(Err(error.duplicate()))` for all batches that are left.
unfoldable pub fail_all :
    Error → List (ℕ × Prepared) → List (ℕ × Result Error ℕ) → List (ℕ × Result Error ℕ)
fail_all e [] results = results
fail_all e ((index, batch) ∷ more) results = fail_all e more (upsert index (err e) results)

abbrev pub sealed : ℕ → Reservation → (ℕ × ℕ) × EntityData → (ℕ × ℕ) × EntityData
sealed lsn reservation (key, found) =
    (key, record (seal found) { charges = insert found.charges lsn reservation })

unfoldable pub insert_tail :
    Option (List ((ℕ × ℕ) × EntityData))
    → (ℕ × ℕ) × EntityData
    → Option (List ((ℕ × ℕ) × EntityData))
insert_tail none (key, found) = none
insert_tail (some tail) (key, found) = some (upsert key found tail)

-- The root that an entity reads.
abbrev pub root_of : EntityData → Option Root
root_of found = elim found.disk [ none ↦ none | some disk ↦ some disk.root ]

-- The entities of the batch join the overlay, and the tail of a checkpoint that is being built.
unfoldable pub publish_entities : List ((ℕ × ℕ) × EntityData) → Engine → Engine
publish_entities [] db = db
publish_entities ((key, found) ∷ more) db = publish_entities more (record db {
  checkpoint_tail = insert_tail db.checkpoint_tail (key, found);
  state = record db.state { overlay = Overlay.insert root_of key found db.state.overlay };
})

-- `checked_add`
abbrev pub add_root_bytes : ℕ → Option ℕ → Option ℕ
add_root_bytes bytes none = none
add_root_bytes bytes (some n) = if ltb (n + bytes) (2 ^ 64) then some (n + bytes) else none

unfoldable pub refresh_overlay_bytes : CommittedState → CommittedState
refresh_overlay_bytes state = record state {
  pinned_bytes = add_root_bytes state.overlay.bytes state.root_bytes;
}

-- `Prepared::publish_state`
unfoldable pub publish_state : ℕ → Prepared → Engine → Engine
publish_state lsn batch db =
    let published : Engine =
      publish_entities (map (sealed lsn batch.reservation) batch.staged) (record db {
        state = record db.state {
          charges = insert db.state.charges lsn batch.reservation;
          catalog = batch.catalog;
        };
      }) in
    record published { state = record (refresh_overlay_bytes published.state) { lsn = lsn } }

-- The batches are published one after the other; `first` is the sequence of the next.
unfoldable pub publish_all :
    ℕ
    → List (ℕ × Prepared)
    → List (ℕ × Result Error ℕ)
    → Engine
    → List (ℕ × Result Error ℕ) × Engine
publish_all first [] results db = (results, db)
publish_all first ((index, batch) ∷ more) results db =
    publish_all (suc first) more (upsert index (ok first) results) (publish_state first batch db)

abbrev pub join_frames : List Bytes → Bytes
join_frames [] = []
join_frames (frame ∷ frames) = frame ++ join_frames frames

-- The writes and the flush, with the answer to them: when they fail, with the number of the bytes
-- that reached the log.
unfoldable pub write_group :
    Result (IoError × ℕ) (Unit {0})
    → Active
    → List Bytes
    → Engine
    → List (ℕ × Result Error ℕ) × Engine
write_group (err (io, reached)) a frames db = (
  fail_all (commit_unknown io) a.batches a.results,
  record db { wal = db.wal ++ take reached (join_frames frames); poisoned = true },
)
write_group (ok tt) a frames db =
    let (results, published) = publish_all (db.state.lsn + 1) a.batches a.results (record db {
      wal = db.wal ++ join_frames frames;
      wal_bytes = db.wal_bytes + length (join_frames frames);
    }) in
    (results, record published { readers = published.state })

-- What follows the preparation.
unfoldable pub finish_group :
    Result (IoError × ℕ) (Unit {0}) → Engine → Preparation → List (ℕ × Result Error ℕ) × Engine
finish_group written db (failed e a) = (fail_all e a.batches a.results, db)
finish_group written db (ready a frames) =
    if ltb db.limits.max_uncheckpointed_wal_bytes
      (saturating_add db.wal_bytes (length (join_frames frames)))
    then (
      fail_all (limit_exceeded "uncheckpointed WAL bytes" db.limits.max_uncheckpointed_wal_bytes)
          a.batches a.results,
      db,
    )
    else if length frames == 0
    then (a.results, db)
    else write_group written a frames db

abbrev pub numbered_from {ℓ} : {A : Type ℓ} → ℕ → List A → List (ℕ × A)
numbered_from n [] = []
numbered_from n (x ∷ xs) = (n, x) ∷ numbered_from (suc n) xs

abbrev pub with_engine : Engine → Option Preparation → Option (Preparation × Engine)
with_engine db none = none
with_engine db (some preparation) = some (preparation, db)

abbrev pub start_loop :
    ℕ
    → (ℕ → ℕ)
    → Engine
    → List (ℕ × Prepared)
    → Result Error (List (ℕ × Prepared) × ResourceUsage)
    → Option (Preparation × Engine)
start_loop fuel clock db active (err e) =
    some (failed e (record { batches = active; results = []; tick = 0 }), db)
start_loop fuel clock db active (ok (moved, usage)) =
    with_engine (record db { usage = usage }) (prepare_loop fuel clock db.state.lsn moved [] 0)

-- `Database::checkpoint`, and how it changes the engine.
abbrev pub Checkpoint : Type 0
Checkpoint = Engine → Result Error (Unit {0}) × Engine

-- An engine for one owner makes a checkpoint when its log is long enough.
unfoldable pub checkpointed : Checkpoint → Checkpoint
checkpointed checkpoint db =
    if not db.shared_mode
      && leb db.checkpoint_bytes (length db.wal)
      && ltb db.state.root_lsn db.state.lsn
    then checkpoint db
    else (ok tt, db)

abbrev pub start_group :
    ℕ
    → (ℕ → ℕ)
    → Sizes
    → List (ℕ × Prepared)
    → Result Error (Unit {0}) × Engine
    → Option (Preparation × Engine)
start_group fuel clock sizes active (err e, db) =
    some (failed e (record { batches = active; results = []; tick = 0 }), db)
start_group fuel clock sizes active (ok tt, db) =
    start_loop fuel clock db active (rebind_all sizes db active db.usage)

-- `preparation`, with the engine after it.
unfoldable pub prepare_group :
    ℕ → (ℕ → ℕ) → Checkpoint → Sizes → Engine → List (ℕ × Prepared) → Option (Preparation × Engine)
prepare_group fuel clock checkpoint sizes db active =
    if db.poisoned
    then some (failed needs_recovery (record { batches = active; results = []; tick = 0 }), db)
    else start_group fuel clock sizes active (checkpointed checkpoint db)

abbrev pub finish_prepared :
    Result (IoError × ℕ) (Unit {0})
    → Option (Preparation × Engine)
    → Option (List (ℕ × Result Error ℕ) × Engine)
finish_prepared written none = none
finish_prepared written (some (preparation, db)) = some (finish_group written db preparation)

-- The group, by the fuel of its loop; the results stand under the places of the batches.
unfoldable pub commit_group :
    ℕ
    → (ℕ → ℕ)
    → Checkpoint
    → Sizes
    → Result (IoError × ℕ) (Unit {0})
    → List Prepared
    → Engine
    → Option (List (ℕ × Result Error ℕ) × Engine)
commit_group fuel clock checkpoint sizes written batches db =
    finish_prepared written (prepare_group fuel clock checkpoint sizes db (numbered_from 0 batches))

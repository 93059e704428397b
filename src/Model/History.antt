-- ===== src/Model/History.antt =====
-- `EntityData` of model.rs: an entity as a base state, the events after it, and snapshots. The
-- history on disk is an interface, with the methods of its `Root` that the code calls.
pub mod Replay
pub mod Views
pub mod Sealing
mod Tests
use eve_db.Base.{
  ℕ, ◌+◌, ◌-◌, ◌^◌, Bool, true, false, not, ◌&&◌, ◌||◌, ltb, leb, ◌==◌, if◌then◌else◌, min, Option,
  none, some, List, [], ◌∷◌, map, length, keep, Error, Result, ok, err, ◌>>=◌, ◌>>◌, corrupt, plain,
  version_unavailable,
}
use eve_db.Base.Order.{nat_ord}
use eve_db.Base.Assoc.{upsert}
use eve_db.OrderedMap.{
  Tree, empty, clear, excluded, included, floor, insert, range, collect, retain_from,
}
use eve_db.OrderedMap.Contents.{to_list}
use eve_db.Resources.{Reservation}
use eve_db.Overlay.{Root}
use eve_db.Model.{Fields, Entity, EventKind, Event, Table}
use eve_db.Model.Schemas.{normalize, table_version}

-- `DiskHistory`: `current` and `advance` stand for the methods of the root on the file and table
-- of the history.
pub record DiskHistory : Type 0 where
  pub root : Root
  pub through : ℕ
  pub current : ℕ → Result Error (Option Entity)
  pub advance : ℕ → Entity → ℕ → Bool → Result Error Entity

pub record EntityData : Type 0 where
  pub charges : Tree ℕ Reservation
  pub current : Entity
  pub base : Entity
  pub events : List Event
  pub committed : Tree ℕ Event
  pub snapshots : Tree ℕ Entity
  pub disk : Option DiskHistory

-- `BTreeMap::extend`
abbrev pub extend_fields : Fields → Fields → Fields
extend_fields fields [] = fields
extend_fields fields ((id, value) ∷ more) = extend_fields (upsert id value fields) more

abbrev pub is_delete : EventKind → Bool
is_delete EventKind.apply = false
is_delete EventKind.delete = true

-- The state after the event.
unfoldable pub apply_event : Table → Entity → Event → Result Error Entity
apply_event table state event =
    if state.deleted || not (ltb (state.version + 1) (2 ^ 64) && state.version + 1 == event.version)
    then err (corrupt (plain "invalid entity version or event after deletion"))
    else do
      schema ← table_version table event.schema_version
      fields ← normalize schema (extend_fields state.fields event.fields) true
      ok (record state {
        fields = fields;
        schema_version = event.schema_version;
        version = event.version;
        deleted = is_delete event.kind;
      })

unfoldable pub apply_all : Table → Entity → List Event → Result Error Entity
apply_all table state [] = ok state
apply_all table state (event ∷ events) = do
  next ← apply_event table state event
  apply_all table next events

-- The second loop of `at`: events that the state has already are passed over.
unfoldable pub apply_later : Table → Entity → List Event → Result Error Entity
apply_later table state [] = ok state
apply_later table state (event ∷ events) =
    if ltb state.version event.version
    then (do next ← apply_event table state event; apply_later table next events)
    else apply_later table state events

-- Where `at` starts: the base, or the last snapshot that is not above the version.
unfoldable pub start : EntityData → ℕ → Bool → Entity
start self version false = self.base
start self version true = elim (floor self.snapshots version) [
  | none ↦ self.base
  | some (key, snapshot) ↦ if leb self.base.version snapshot.version then snapshot else self.base
]

-- The part of the history that is on disk.
unfoldable pub from_disk : EntityData → ℕ → Bool → Entity → Result Error Entity
from_disk self version use_snapshots state = elim self.disk [
  | none ↦ ok state
  | some disk ↦
      if ltb state.version (min version disk.through)
      then (if use_snapshots && leb disk.through version
          then (disk.current self.current.id >>= (λ found. elim found [
            | none ↦ err (corrupt (plain "history source disappeared"))
            | some entity ↦ ok entity
          ]))
          else disk.advance self.current.id state (min version disk.through) use_snapshots)
      else ok state
]

-- The committed events above a version and not above another.
unfoldable pub committed_between : EntityData → ℕ → ℕ → List Event
committed_between self above version =
    map (λ e. e.1)
      (collect (length (to_list self.committed) + 1)
        (range self.committed (excluded above) (included version)))

unfoldable pub entity_at : Table → ℕ → Bool → EntityData → Result Error Entity
entity_at table version use_snapshots self =
    if ltb version self.base.version || ltb self.current.version version
    then err (version_unavailable version self.base.version self.current.version)
    else if use_snapshots && version == self.current.version
    then ok self.current
    else do
      state ← from_disk self version use_snapshots (start self version use_snapshots)
      state ← apply_all table state (committed_between self state.version version)
      state ← apply_later table state (keep (λ event. leb event.version version) self.events)
      if state.version == version then ok state else err (corrupt (plain "gap in entity history"))

unfoldable pub retain : Table → ℕ → EntityData → Result Error EntityData
retain table count self =
    let version = self.current.version - count in
    if leb version self.base.version then ok self else do
      base ← entity_at table version true self
      ok (record self {
        base = base;
        events = keep (λ event. ltb version event.version) self.events;
        committed =
            if ltb (version + 1) (2 ^ 64)
            then retain_from self.committed (version + 1)
            else clear self.committed;
        snapshots = retain_from self.snapshots version;
      })

-- `insert` of the events that `drain` yields, in their order.
unfoldable pub commit_all : List Event → Tree ℕ Event → Tree ℕ Event
commit_all [] committed = committed
commit_all (event ∷ events) committed = commit_all events (insert committed event.version event)

unfoldable pub seal : EntityData → EntityData
seal self = record self { events = []; committed = commit_all self.events self.committed }

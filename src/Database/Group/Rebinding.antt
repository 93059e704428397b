-- ===== src/Database/Group/Rebinding.antt =====
-- The part of `Prepared::commit_group` (database.rs) that moves the batches of a group to the root
-- that a checkpoint has published since they were begun. When it fails the batches are dropped, and
-- what they had grown by is given back with them.
use eve_db.Base.{
  ℕ, ◌+◌, ◌^◌, Bool, false, not, ◌||◌, Option, none, some, List, [], ◌∷◌, ltb, ◌==◌, if◌then◌else◌,
  Error, Result, ok, ◌>>=◌,
}
use eve_db.Base.Order.{nat_ord}
use eve_db.OrderedMap.{Tree, get, clear, retain_from}
use eve_db.Resources.{Reservation, ResourceUsage, grow_decoded}
use eve_db.Memory.{entity_bytes}
use eve_db.Model.{Entity}
use eve_db.Model.History.{EntityData, DiskHistory}
use eve_db.Database.Staging.Actions.{Sizes}
use eve_db.Database.Group.{Prepared, CommittedState, Engine}

abbrev pub is_elsewhere : ℕ → Option DiskHistory → Bool
is_elsewhere generation none = false
is_elsewhere generation (some disk) = not (disk.root.generation == generation)

-- The batch or the history of the entity is of another root than the engine's.
abbrev pub is_moved : CommittedState → ℕ → EntityData → Bool
is_moved state generation found =
    not (generation == state.root.generation) || is_elsewhere state.root.generation found.disk

-- `retain_from` the key after this one, or `clear` where there is none.
abbrev pub retain_after {ℓ} : {V : Type ℓ} → ℕ → Tree ℕ V → Tree ℕ V
retain_after key t = if ltb (key + 1) (2 ^ 64) then retain_from t (key + 1) else clear t

-- The entity without what the root has of it.
unfoldable pub rebound : CommittedState → EntityData → EntityData → EntityData
rebound state persisted found = record found {
  committed = retain_after persisted.current.version found.committed;
  snapshots = retain_from found.snapshots persisted.current.version;
  disk = persisted.disk;
  charges = retain_after state.root_lsn found.charges;
}

-- A snapshot at the frontier becomes the memory of this transaction.
unfoldable pub grow_snapshot :
    Sizes
    → Engine
    → Option Entity
    → Reservation × ResourceUsage
    → Result Error (Reservation × ResourceUsage)
grow_snapshot sizes db none grown = ok grown
grow_snapshot sizes db (some snapshot) (r, usage) =
    grow_decoded db.limits (entity_bytes sizes.capacity sizes.entity snapshot) false r usage

unfoldable pub rebind_found :
    Sizes
    → Engine
    → EntityData
    → Reservation × ResourceUsage
    → Option EntityData
    → Result Error (EntityData × (Reservation × ResourceUsage))
rebind_found sizes db found grown none = ok (found, grown)
rebind_found sizes db found grown (some persisted) = do
  let moved = rebound db.state persisted found
  after ← grow_snapshot sizes db (get moved.snapshots persisted.current.version) grown
  ok (moved, after)

unfoldable pub rebind_entity :
    Sizes
    → Engine
    → ℕ
    → (ℕ × ℕ) × EntityData
    → Reservation × ResourceUsage
    → Result Error (EntityData × (Reservation × ResourceUsage))
rebind_entity sizes db generation (key, found) grown =
    if is_moved db.state generation found
    then (do
      persisted ← db.state.root_entity key.0 key.1
      rebind_found sizes db found grown persisted)
    else ok (found, grown)

unfoldable pub rebind_entities :
    Sizes
    → Engine
    → ℕ
    → List ((ℕ × ℕ) × EntityData)
    → Reservation × ResourceUsage
    → Result Error (List ((ℕ × ℕ) × EntityData) × (Reservation × ResourceUsage))
rebind_entities sizes db generation [] grown = ok ([], grown)
rebind_entities sizes db generation ((key, found) ∷ more) grown = do
  one ← rebind_entity sizes db generation (key, found) grown
  rest ← rebind_entities sizes db generation more one.1
  ok ((key, one.0) ∷ rest.0, rest.1)

unfoldable pub rebind :
    Sizes → Engine → Prepared → ResourceUsage → Result Error (Prepared × ResourceUsage)
rebind sizes db batch usage = do
  moved ← rebind_entities sizes db batch.root_generation batch.staged (batch.reservation, usage)
  ok (
    record batch {
      staged = moved.0;
      reservation = moved.1.0;
      root_generation = db.state.root.generation;
    },
    moved.1.1,
  )

unfoldable pub rebind_all :
    Sizes
    → Engine
    → List (ℕ × Prepared)
    → ResourceUsage
    → Result Error (List (ℕ × Prepared) × ResourceUsage)
rebind_all sizes db [] usage = ok ([], usage)
rebind_all sizes db ((index, batch) ∷ more) usage = do
  one ← rebind sizes db batch usage
  rest ← rebind_all sizes db more one.1
  ok ((index, one.0) ∷ rest.0, rest.1)

-- ===== src/Database/Staging/Actions.antt =====
-- The actions that the methods of `Staging` (database.rs) are made of: reads and changes of its
-- fields, charges, and the load of an entity from the committed view.
use eve_db.Base.{
  ℕ, ◌+◌, Bool, true, not, Option, none, some, List, [], ◌∷◌, ◌++◌, if◌then◌else◌, Error, Result,
  ok, err, not_found, numbered, String,
}
use eve_db.Base.Order.{nat_ord, pair_ord}
use eve_db.Base.Assoc.{lookup, upsert}
use eve_db.OrderedMap.{Tree, get}
use eve_db.Resources.{
  Limits, ResourceUsage, Reservation, MemoryKind, MemoryReservation, check, new_memory, drop_memory,
}
use eve_db.Resources
use eve_db.Codec.LittleEndian.{Bytes}
use eve_db.Memory.{entity_bytes}
use eve_db.Model.{Table}
use eve_db.Model.History.{EntityData}
use eve_db.Database.{Operation}
use eve_db.Database.Catalog.{Catalog}

-- `size_of` of an entity, and of an event with its account, and what a text or a buffer has reserved.
pub record Sizes : Type 0 where
  pub entity : ℕ
  pub event : ℕ
  pub capacity : Bytes → ℕ

-- The fields of the options that staging reads.
pub record Options : Type 0 where
  pub limits : Limits
  pub snapshot_interval : ℕ
  pub retain_events : Option ℕ

-- `ReadState`, a committed view. `entity_charged` stands for the method of its root: the sizes that
-- reading the entity charges, in order, and what it reads when all are granted.
pub record ReadState : Type 0 where
  pub lsn : ℕ
  pub catalog : Catalog
  pub overlay : Tree (ℕ × ℕ) EntityData
  pub limits : Limits
  pub entity_charged : ℕ → ℕ → List ℕ × Result Error (Option EntityData)

pub record Staging : Type 0 where
  pub base : ReadState
  pub options : Options
  pub permit : Bool
  pub reservation : Reservation
  pub catalog : Catalog
  pub staged : List ((ℕ × ℕ) × EntityData)
  pub operations : List Operation
  pub failed : Bool

-- What a staging shares with the engine: the counters, the flag of an engine that must be opened
-- again, and the flag of recovery.
pub record World : Type 0 where
  pub usage : ResourceUsage
  pub poisoned : Bool
  pub recovering : Bool

pub record Store : Type 0 where
  pub staging : Staging
  pub world : World

abbrev pub Action {ℓ} : Type ℓ → Type ℓ
Action A = Store → Result Error A × Store

abbrev pub continue {ℓ κ} :
    {A : Type ℓ} {B : Type κ} → (A → Action B) → Result Error A × Store → Result Error B × Store
continue f (ok a, s) = f a s
continue f (err e, s) = (err e, s)

infixl 5 ◌>>=◌ ◌>>◌
unfoldable pub ◌>>=◌ {ℓ κ} : {A : Type ℓ} {B : Type κ} → Action A → (A → Action B) → Action B
(m >>= f) s = continue f (m s)

abbrev pub ◌>>◌ {κ} : {B : Type κ} → Action (Unit {0}) → Action B → Action B
m >> k = m >>= λ _. k

unfoldable pub pure {ℓ} : {A : Type ℓ} → A → Action A
pure a s = (ok a, s)

unfoldable pub fail {ℓ} : {A : Type ℓ} → Error → Action A
fail e s = (err e, s)

unfoldable pub lift {ℓ} : {A : Type ℓ} → Result Error A → Action A
lift r s = (r, s)

unfoldable pub gets {ℓ} : {A : Type ℓ} → (Staging → A) → Action A
gets f s = (ok (f s.staging), s)

-- The charge that an attempt to reserve gives, or its refusal.
abbrev pub charged :
    Store → Result Error (Reservation × ResourceUsage) → Result Error (Unit {0}) × Store
charged s (ok (r, usage)) = (
  ok tt,
  record s {
    staging = record s.staging { reservation = r };
    world = record s.world { usage = usage };
  },
)
charged s (err e) = (err e, s)

-- `self.reservation.grow_decoded(bytes, self._permit.is_none())`
unfoldable pub grow_decoded_by : ℕ → Action (Unit {0})
grow_decoded_by bytes s = charged s (
    Resources.grow_decoded s.staging.base.limits bytes (not s.staging.permit) s.staging.reservation
      s.world.usage)

-- A check of a transaction that was admitted, and not one that is recovered.
unfoldable pub check_permitted : String → (Staging → ℕ) → ℕ → (Limits → ℕ) → Action (Unit {0})
check_permitted resource used additional limit s =
    if s.staging.permit
    then (check resource (used s.staging) additional (limit s.staging.options.limits), s)
    else (ok tt, s)

-- `self.reservation.grow(bytes)` or `recover(bytes)`
unfoldable pub admit_bytes : ℕ → Action (Unit {0})
admit_bytes bytes s = charged s (
    if s.staging.permit
    then Resources.grow s.staging.base.limits bytes s.staging.reservation s.world.usage
    else ok (Resources.recover bytes s.staging.reservation s.world.usage))

-- `Staging::table`
unfoldable pub definition : ℕ → Action Table
definition id s = elim (lookup id s.staging.catalog) [
  | some table ↦ (ok table, s)
  | none ↦ (err (not_found (numbered "table " id)), s)
]

-- `ReadState::definition`
unfoldable pub committed_definition : ℕ → Action Table
committed_definition id s = elim (lookup id s.staging.base.catalog) [
  | some table ↦ (ok table, s)
  | none ↦ (err (not_found (numbered "table " id)), s)
]

-- `_memory` is given back when the block ends, however it ends.
abbrev pub released {ℓ} :
    {A : Type ℓ} → MemoryReservation → Result Error A × Store → Result Error A × Store
released m (r, s) = (r, record s { world = record s.world { usage = drop_memory m s.world.usage } })

abbrev pub with_memory {ℓ} :
    {A : Type ℓ}
    → Action A
    → Store
    → Result Error (MemoryReservation × ResourceUsage)
    → Result Error A × Store
with_memory m s (ok (memory, usage)) =
    released memory (m (record s { world = record s.world { usage = usage } }))
with_memory m s (err e) = (err e, s)

unfoldable pub read_memory {ℓ} : {A : Type ℓ} → ℕ → Action A → Action A
read_memory bytes m s =
    with_memory m s
      (new_memory s.staging.base.limits MemoryKind.read bytes s.world.recovering s.world.usage)

unfoldable pub charge_all : List ℕ → Action (Unit {0})
charge_all [] = pure tt
charge_all (bytes ∷ more) = grow_decoded_by bytes >> charge_all more

-- `Root::entity_charged`
unfoldable pub from_root : List ℕ × Result Error (Option EntityData) → Action (Option EntityData)
from_root (charges, found) = charge_all charges >> lift found

-- `ReadState::load_charged`, on the overlay's entry for the key.
unfoldable pub load_found : Sizes → ℕ → ℕ → Option EntityData → Action (Option EntityData)
load_found sizes table id (some found) =
    let size =
      entity_bytes sizes.capacity sizes.entity found.current
      + entity_bytes sizes.capacity sizes.entity found.base in
    read_memory size (grow_decoded_by size >> pure (some found))
load_found sizes table id none = do
  root ← gets (λ self. self.base.entity_charged table id)
  from_root root

unfoldable pub load_charged : Sizes → ℕ → ℕ → Action (Option EntityData)
load_charged sizes table id = do
  _ ← committed_definition table
  found ← gets (λ self. get self.base.overlay (table, id))
  load_found sizes table id found

-- `self.staged.insert`
unfoldable pub stage : ℕ → ℕ → EntityData → Action (Unit {0})
stage table id found s = (
  ok tt,
  record s { staging = record s.staging { staged = upsert (table, id) found s.staging.staged } },
)

-- `Arc::make_mut(&mut self.catalog).insert`
unfoldable pub put_catalog : ℕ → Table → Action (Unit {0})
put_catalog id table s =
    (ok tt, record s { staging = record s.staging { catalog = upsert id table s.staging.catalog } })

-- The end of `run`: the operation joins the log, or the transaction is aborted.
unfoldable pub recorded :
    Operation → Result Error (Unit {0}) × Store → Result Error (Unit {0}) × Store
recorded operation (ok tt, s) = (
  ok tt,
  record s { staging = record s.staging { operations = s.staging.operations ++ operation ∷ [] } },
)
recorded operation (err e, s) = (err e, record s { staging = record s.staging { failed = true } })

-- ===== src/Shared.antt =====
-- shared.rs: the validation of a group of commits by the coordinator, and the revisions it keeps.
-- The clock is read once for each claimed batch; the flags are those of the engine at that time.
pub mod Conflicts
pub mod Tickets
pub mod Pruning
mod Tests
use eve_db.Base.{
  ℕ, ◌+◌, ◌-◌, ◌^◌, Bool, true, false, not, ◌&&◌, ◌||◌, Option, none, some, List, [], ◌∷◌, ◌++◌,
  map, ltb, leb, if◌then◌else◌, keep, Error, IsolationLevel, Result, ok, err, ◌>>=◌, ◌>>◌, conflict,
  deadline_exceeded, needs_recovery, unsupported_isolation, snapshot,
}
use eve_db.Base.Order.{nat_ord, pair_ord}
use eve_db.Base.Assoc.{lookup, upsert}
use eve_db.Deadline
use eve_db.Database.Group.{Prepared, keys, changes_catalog}

abbrev pub max_sequence : ℕ
max_sequence = 2 ^ 64 - 1

-- The last commit that wrote an entity, for each entity written lately.
abbrev pub Revisions : Type 0
Revisions = List ((ℕ × ℕ) × ℕ)

pub record Coordinator : Type 0 where
  pub revisions : Revisions
  pub catalog_revision : ℕ
  pub poisoned : Bool

-- The variables of the loop over the claimed batches.
pub record Group : Type 0 where
  pub group_keys : Revisions
  pub catalog_revision : ℕ
  pub accepted : List (ℕ × Prepared)
  pub completed : List (ℕ × Result Error ℕ)

-- `transaction_with_options`, before the snapshot is pinned.
unfoldable pub check_isolation : IsolationLevel → Result Error (Unit {0})
check_isolation IsolationLevel.snapshot = ok tt
check_isolation IsolationLevel.read_committed =
    err (unsupported_isolation IsolationLevel.read_committed)
check_isolation IsolationLevel.serializable =
    err (unsupported_isolation IsolationLevel.serializable)

abbrev pub or_else {ℓ} : {A : Type ℓ} → Option A → Option A → Option A
or_else (some a) other = some a
or_else none other = other

abbrev pub exceeds : Option ℕ → ℕ → Bool
exceeds none base = false
exceeds (some lsn) base = ltb base lsn

-- An entity was written after the batch was begun, by the group or before.
unfoldable pub is_stale : Revisions → Revisions → ℕ → ℕ × ℕ → Bool
is_stale group_keys revisions base key =
    exceeds (or_else (lookup key group_keys) (lookup key revisions)) base

unfoldable pub check_keys : Revisions → Revisions → ℕ → List (ℕ × ℕ) → Result Error (Unit {0})
check_keys group_keys revisions base [] = ok tt
check_keys group_keys revisions base (key ∷ more) =
    if is_stale group_keys revisions base key
    then err (conflict (some key.0) (some key.1))
    else check_keys group_keys revisions base more

-- The closure `validation`.
unfoldable pub validate_batch : Coordinator → ℕ → Group → Prepared → Result Error (Unit {0})
validate_batch coordinator now group batch = do
  if coordinator.poisoned then err needs_recovery else ok tt
  Deadline.check batch.deadline now
  if ltb batch.base_sequence group.catalog_revision then err (conflict none none) else ok tt
  check_keys group.group_keys coordinator.revisions batch.base_sequence (keys batch)

abbrev pub claim_keys : List (ℕ × ℕ) → Revisions → Revisions
claim_keys [] group_keys = group_keys
claim_keys (key ∷ more) group_keys = claim_keys more (upsert key max_sequence group_keys)

abbrev pub settled : ℕ → Prepared → Group → Result Error (Unit {0}) → Group
settled ticket batch group (err e) = record group {
  completed = group.completed ++ (ticket, err e) ∷ [];
}
settled ticket batch group (ok tt) = record group {
  group_keys = claim_keys (keys batch) group.group_keys;
  catalog_revision = if changes_catalog batch then max_sequence else group.catalog_revision;
  accepted = group.accepted ++ (ticket, batch) ∷ [];
}

-- The loop over the claimed batches, each with the instant at which it is looked at.
unfoldable pub validate_all : Coordinator → List (ℕ × (Prepared × ℕ)) → Group → Group
validate_all coordinator [] group = group
validate_all coordinator ((ticket, (batch, now)) ∷ more) group =
    validate_all coordinator more
      (settled ticket batch group (validate_batch coordinator now group batch))

abbrev pub new_group : Coordinator → Group
new_group coordinator = record {
  group_keys = [];
  catalog_revision = coordinator.catalog_revision;
  accepted = [];
  completed = [];
}

abbrev pub revise : ℕ → List (ℕ × ℕ) → Revisions → Revisions
revise sequence [] revisions = revisions
revise sequence (key ∷ more) revisions = revise sequence more (upsert key sequence revisions)

-- A result of the commit, with its ticket: the revisions follow the batches that were committed.
unfoldable pub record_result : Prepared → Result Error ℕ → Coordinator → Coordinator
record_result batch (err e) coordinator = coordinator
record_result batch (ok sequence) coordinator = record coordinator {
  revisions = revise sequence (keys batch) coordinator.revisions;
  catalog_revision = if changes_catalog batch then sequence else coordinator.catalog_revision;
}

-- The loop over `metadata.zip(results)`.
unfoldable pub record_results :
    List (ℕ × Prepared)
    → List (Result Error ℕ)
    → List (ℕ × Result Error ℕ)
    → Coordinator
    → List (ℕ × Result Error ℕ) × Coordinator
record_results ((ticket, batch) ∷ more) (result ∷ results) completed coordinator =
    record_results more results (completed ++ (ticket, result) ∷ [])
      (record_result batch result coordinator)
record_results _ _ completed coordinator = (completed, coordinator)

-- `prune_revisions`; `oldest` is the oldest sequence that a live snapshot has, or the last one.
unfoldable pub prune_revisions : ℕ → Coordinator → Coordinator
prune_revisions oldest coordinator = record coordinator {
  revisions = keep (λ e. ltb oldest e.1) coordinator.revisions;
}

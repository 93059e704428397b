-- ===== src/Deadline.antt =====
-- deadline.rs: time limits, and leases, which give up their value when they expire. An instant is a
-- number of nanoseconds, and each call is given its readings of the clock in order. A lock that a
-- panic has poisoned is not modelled; a lock that is held makes the reaper pass over the lease.
pub mod Expiry
mod Tests
use eve_db.Base.{
  ℕ, ◌+◌, ◌-◌, ◌*◌, ◌^◌, Bool, true, false, ◌&&◌, ◌||◌, Option, none, some, List, [], ◌∷◌, ltb, leb,
  ◌==◌, if◌then◌else◌, Error, Result, ok, err, ◌>>=◌, ◌>>◌, invalid, plain, deadline_exceeded,
  transaction_expired,
}

-- Durations in nanoseconds.
pub record Timeouts : Type 0 where
  pub transaction : ℕ
  pub idle_transaction : ℕ
  pub snapshot : ℕ
  pub operation : ℕ
  pub commit_queue : ℕ
  pub reap_interval : ℕ

-- `Timeouts::default`
abbrev pub default_timeouts : Timeouts
default_timeouts = record {
  transaction = 60 * 10 ^ 9;
  idle_transaction = 30 * 10 ^ 9;
  snapshot = 300 * 10 ^ 9;
  operation = 30 * 10 ^ 9;
  commit_queue = 5 * 10 ^ 9;
  reap_interval = 50 * 10 ^ 6;
}

-- `deadline`; the instants of the platform are those below `last`.
unfoldable pub deadline : ℕ → ℕ → ℕ → Result Error ℕ
deadline last now duration =
    if duration == 0
    then err (invalid (plain "timeouts must be positive"))
    else if ltb (now + duration) last
    then ok (now + duration)
    else err (invalid (plain "timeout overflow"))

-- The loop of `validate`.
unfoldable pub validate_each : ℕ → ℕ → List ℕ → Result Error (Unit {0})
validate_each last now [] = ok tt
validate_each last now (value ∷ values) =
    deadline last now value >>= λ _. validate_each last now values

-- `Timeouts::validate`, at one instant.
unfoldable pub validate : ℕ → ℕ → Timeouts → Result Error (Unit {0})
validate last now t = validate_each last now (
    t.transaction ∷ t.idle_transaction ∷ t.snapshot ∷ t.operation ∷ t.commit_queue ∷ t.reap_interval
    ∷ [])

abbrev pub is_past : Option ℕ → ℕ → Bool
is_past none now = false
is_past (some end) now = leb end now

-- `check`
unfoldable pub check : Option ℕ → ℕ → Result Error (Unit {0})
check end now = if is_past end now then err deadline_exceeded else ok tt

-- `LeaseState` with its `State`.
pub record Lease {ℓ} (T : Type ℓ) : Type ℓ where
  pub value : Option T
  pub last_access : ℕ
  pub deadline : Option ℕ
  pub idle : Option ℕ
  pub operation : Option ℕ

-- `limit.is_some_and(|limit| now.duration_since(since) >= limit)`, which is zero before `since`.
abbrev pub has_run : Option ℕ → ℕ → ℕ → Bool
has_run none since now = false
has_run (some limit) since now = leb limit (now - since)

module _ {ℓ} {T : Type ℓ} where
  abbrev pub new_with : T → ℕ → Option ℕ → Option ℕ → Option ℕ → Lease T
  new_with value now end idle operation = record {
    value = some value;
    last_access = now;
    deadline = end;
    idle = idle;
    operation = operation;
  }

  -- `LeaseState::new`; the reaper that it is registered with calls `expire`.
  unfoldable pub new : ℕ → ℕ → ℕ → T → Option ℕ → Option ℕ → Option ℕ → Result Error (Lease T)
  new last now later value none idle operation = ok (new_with value now none idle operation)
  new last now later value (some timeout) idle operation = do
    end ← deadline last later timeout
    ok (new_with value now (some end) idle operation)

  unfoldable pub expired : Lease T → ℕ → Bool
  expired lease now = is_past lease.deadline now || has_run lease.idle lease.last_access now

  abbrev pub emptied : Lease T → Lease T
  emptied lease = record lease { value = none }

  -- The value is given up when the lease has expired.
  abbrev pub swept : Lease T → ℕ → Lease T
  swept lease now = if expired lease now then emptied lease else lease

  -- What follows the operation: its result counts when it ended in time.
  unfoldable pub after_operation {κ} :
      {R : Type κ} → ℕ → ℕ → Lease T → Result Error R × T → Result Error R × Lease T
  after_operation start now lease (result, value) =
      if is_past lease.deadline now || has_run lease.operation start now
      then (err deadline_exceeded, emptied lease)
      else (result, record lease { value = some value; last_access = now })

  abbrev pub with_value {κ} :
      {R : Type κ}
      → ℕ
      → ℕ
      → (T → Result Error R × T)
      → Lease T
      → Option T
      → Result Error R × Lease T
  with_value start now operation lease none = (err transaction_expired, lease)
  with_value start now operation lease (some value) =
      after_operation start now lease (operation value)

  -- `LeaseState::with`, from `start` to `now`.
  unfoldable pub with_lease {κ} :
      {R : Type κ} → ℕ → ℕ → (T → Result Error R × T) → Lease T → Result Error R × Lease T
  with_lease start now operation lease =
      let kept : Lease T = swept lease start in with_value start now operation kept kept.value

  abbrev pub taken : Option T → Result Error T
  taken none = err transaction_expired
  taken (some value) = ok value

  -- `LeaseState::take`
  unfoldable pub take : ℕ → Lease T → Result Error T × Lease T
  take now lease = let kept : Lease T = swept lease now in (taken kept.value, emptied kept)

  -- `Expire::expire`, by the reaper; `held` when an operation is using the lease.
  unfoldable pub expire : Bool → ℕ → Lease T → Lease T
  expire true now lease = lease
  expire false now lease = swept lease now

  -- `Drop for Lease`
  unfoldable pub drop : Lease T → Lease T
  drop lease = emptied lease

-- ===== src/Deadline/Expiry.antt =====
-- Leases of deadline.rs that are over: their value was given up or taken, or their deadline is past.
use eve_db.Base.{
  ℕ, ◌≤◌, ◌≡◌, refl, Bool, true, false, ◌||◌, Option, none, some, List, [], ◌∷◌, ◌++◌, arith, All,
  All-append, if◌then◌else◌, Error, Result, ok, err, ◌⊎◌, inl, inr, Bool-cases,
}
use eve_db.Deadline.{
  Lease, is_past, has_run, expired, swept, with_value, with_lease, taken, take, expire, drop,
}

-- A call on a lease: an operation from one instant to another, a take, a sweep by the reaper, which
-- passes over a lease that is held, and the drop.
pub data Call {ℓ} (T : Type ℓ) : Type ℓ where
  operate : ℕ → ℕ → (T → Result Error (Unit {0}) × T) → Call T
  take_at : ℕ → Call T
  expire_at : Bool → ℕ → Call T
  drop_now : Call T

abbrev pub IsFailure {κ} : {R : Type κ} → Result Error R → Type 0
IsFailure (ok r) = ⊥
IsFailure (err e) = Unit

abbrev pub IsPast : Option ℕ → ℕ → Type 0
IsPast none from = ⊥
IsPast (some end) from = end ≤ from

module _ {ℓ} {T : Type ℓ} where
  -- The instants of the call are not before the given one, and do not go back.
  abbrev pub IsFrom : ℕ → Call T → Type 0
  IsFrom from (Call.operate start now operation) = (from ≤ start) × (start ≤ now)
  IsFrom from (Call.take_at now) = from ≤ now
  IsFrom from (Call.expire_at held now) = from ≤ now
  IsFrom from Call.drop_now = Unit

  abbrev got : Result Error T × Lease T → List (Result Error (Unit {0})) × Lease T
  got (ok value, lease) = (ok tt ∷ [], lease)
  got (err e, lease) = (err e ∷ [], lease)

  abbrev answered : Result Error (Unit {0}) × Lease T → List (Result Error (Unit {0})) × Lease T
  answered (r, lease) = (r ∷ [], lease)

  -- The answer of the call, where it has one, and the lease after it.
  unfoldable pub run_call : Call T → Lease T → List (Result Error (Unit {0})) × Lease T
  run_call (Call.operate start now operation) lease =
      answered (with_lease start now operation lease)
  run_call (Call.take_at now) lease = got (take now lease)
  run_call (Call.expire_at held now) lease = ([], expire held now lease)
  run_call Call.drop_now lease = ([], drop lease)

  unfoldable pub run_calls : List (Call T) → Lease T → List (Result Error (Unit {0})) × Lease T
  run_calls [] lease = ([], lease)
  run_calls (call ∷ calls) lease =
      let (answers, next) = run_call call lease in
      let rest : List (Result Error (Unit {0})) × Lease T = run_calls calls next in
      (answers ++ rest.0, rest.1)

  -- The lease has no value, or its deadline is not after the instant.
  pub record IsOver (lease : Lease T) (from : ℕ) : Type ℓ where
    pub over : (lease.value ≡ none) ⊎ IsPast lease.deadline from

  swept-value :
      (lease : Lease T) (from now : ℕ)
      → IsOver lease from
      → from ≤ now
      → (swept lease now).value ≡ none
  unfolding expired
  swept-value lease from now h k = elim (Bool-cases (expired lease now)) [
    | inl y ↦ rw (y, if◌then◌else◌) refl
    | inr x ↦ elim h.over [
      | inl e ↦ rw (x, if◌then◌else◌) e
      | inr p ↦ absurd (past lease.deadline p x)
    ]
  ]
    where
      past :
          (end : Option ℕ)
          → IsPast end from
          → (is_past end now || has_run lease.idle lease.last_access now) ≡ false
          → ⊥
      past none p x = p
      past (some end) p x = ground (arith, p, x, k)

  swept-deadline : (lease : Lease T) (now : ℕ) → (swept lease now).deadline ≡ lease.deadline
  swept-deadline lease now = ground arith

  run_call-IsOver :
      (call : Call T) (lease : Lease T) (from : ℕ)
      → IsOver lease from
      → IsFrom from call
      → All IsFailure (run_call call lease).0 × IsOver (run_call call lease).1 from
  unfolding run_call with_lease take expire drop
  run_call-IsOver (Call.operate start now operation) lease from h k =
      let e = swept-value lease from start h k.0 in
      rw (e, with_value) ((tt, tt), record { over = inl e })
  run_call-IsOver (Call.take_at now) lease from h k =
      let e = swept-value lease from now h k in rw (e, taken) ((tt, tt), record { over = inl refl })
  run_call-IsOver (Call.expire_at true now) lease from h k = (tt, h)
  run_call-IsOver (Call.expire_at false now) lease from h k =
      (tt, record { over = inl (swept-value lease from now h k) })
  run_call-IsOver Call.drop_now lease from h k = (tt, record { over = inl refl })

  -- A lease that is over stays over: when its value was taken or given up, or its deadline is not
  -- after an instant, every operation and every take from that instant on fails, and the lease is
  -- over after them, whatever operations, takes, sweeps and drops there are.
  pub run_calls-IsOver :
      (calls : List (Call T)) (lease : Lease T) (from : ℕ)
      → IsOver lease from
      → All (IsFrom from) calls
      → All IsFailure (run_calls calls lease).0 × IsOver (run_calls calls lease).1 from
  unfolding run_calls
  run_calls-IsOver [] lease from h k = (tt, h)
  run_calls-IsOver (call ∷ calls) lease from h k =
      let (failed, next) = run_call-IsOver call lease from h k.0 in
      let (others, last) = run_calls-IsOver calls (run_call call lease).1 from next k.1 in
      (All-append IsFailure (run_call call lease).0 _ failed others, last)

-- ===== src/Deadline/Tests.antt =====
-- A lease on a number, with a deadline at ten (deadline.rs).
use eve_db.Base.{
  ℕ, ◌+◌, ◌≡◌, refl, false, none, some, List, [], ◌∷◌, All, arith, Error, Result, ok, err,
  transaction_expired, inr,
}
use eve_db.Deadline.{Lease, expired, after_operation, with_lease, take, new_with}
use eve_db.Deadline.Expiry.{Call, IsFailure, IsOver, run_calls, run_calls-IsOver}

abbrev lease : Lease ℕ
lease = new_with 7 0 (some 10) (some 5) none

bump : ℕ → Result Error (Unit {0}) × ℕ
bump n = (ok tt, n + 1)

abbrev calls : List (Call ℕ)
calls = Call.operate 10 11 bump ∷ Call.expire_at false 12 ∷ Call.take_at 13 ∷ []

-- In time, the value changes; a take after the idle time fails.
in_time :
    take 9 (with_lease 3 4 bump lease).1
    ≡ (err transaction_expired, record (new_with 8 4 (some 10) (some 5) none) { value = none })
unfolding take with_lease after_operation expired bump
in_time = refl

run_calls-IsOver_example :
    All IsFailure (run_calls calls lease).0 × IsOver (run_calls calls lease).1 10
run_calls-IsOver_example =
    run_calls-IsOver calls lease 10 (record { over = inr (omega arith) })
      ((omega arith, omega arith), (omega arith, (omega arith, tt)))

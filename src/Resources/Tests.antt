-- ===== src/Resources/Tests.antt =====
-- Permits and reservations that are admitted, grown, refused and dropped.
use eve_db.Base.{ℕ, ◌≡◌, refl, false, List, [], ◌∷◌, ok, arith}
use eve_db.Resources.{
  ResourceUsage, default_limits, validate, no_usage, check, MemoryKind, admit_transaction,
  admit_snapshot, drop_permit, grow_decoded, recover, grow, drop_reservation, grow_memory,
  new_memory, drop_memory,
}
use eve_db.Resources.Holders.{
  Holder, total, begins, pins, reserves, buffers, calls, grows_decoded, recovers, grows, drops,
  call, call_at, Action, act, run,
}
use eve_db.Resources.Charges.{Counts, run-exact}
use eve_db.Resources.Bounds.{Within, run-Within}

-- What the tests run.
runs : ℕ
unfolding check validate admit_transaction admit_snapshot drop_permit grow_decoded recover grow
    drop_reservation grow_memory new_memory drop_memory call call_at act run
runs = 0

default_valid : validate default_limits ≡ ok tt
unfolding runs
default_valid = refl

-- The last action asks for more than the scratch limit.
abbrev actions : List Action
actions =
    begins
    ∷ pins 4096
    ∷ reserves
    ∷ calls 0 (grows 100)
    ∷ calls 0 (grows_decoded 300 false)
    ∷ calls 1 drops
    ∷ buffers MemoryKind.read 50 false
    ∷ buffers MemoryKind.scratch 999999999999 false
    ∷ []

abbrev after_actions : List Holder × ResourceUsage
after_actions = run default_limits actions ([], no_usage)

usage_after : after_actions.1 ≡ record no_usage {
  transactions = 1;
  resident_write_bytes = 100;
  decoded_write_bytes = 300;
  read_memory_bytes = 50;
}
unfolding runs
usage_after = refl

run-exact_example :
    Counts
      (run default_limits (calls 0 (recovers 7) ∷ actions) ([], no_usage)).1
      (total (run default_limits (calls 0 (recovers 7) ∷ actions) ([], no_usage)).0 no_usage)
run-exact_example =
    run-exact default_limits (calls 0 (recovers 7) ∷ actions)
      (tt, (tt, (omega arith, (tt, (tt, (tt, (tt, (tt, (tt, tt)))))))))

run-Within_example : Within default_limits after_actions.1 (total after_actions.0 no_usage)
run-Within_example =
    run-Within default_limits actions
      (record {
        decoded = omega arith;
        reading = omega arith;
        scratch = omega arith;
        active = omega arith;
        pinning = omega arith;
        pinned = omega arith;
        resident = omega arith;
      })
      (tt, (tt, (tt, (tt, (refl, (tt, (refl, (refl, tt))))))))

-- ===== src/CommitQueue/Tests.antt =====
-- Three requests, and a flush that takes two of them.
use eve_db.Base.{ℕ, ◌≡◌, refl, false, none, some, [], ◌∷◌, ◌++◌, ok, All, arith, ltb, if◌then◌else◌}
use eve_db.Base.Order.{nat_ord}
use eve_db.Base.Assoc.{lookup, upsert}
use eve_db.Resources.{default_limits, check}
use eve_db.CommitQueue.{
  GroupCommit, Queue, new_request, submit, cancel, claim_from, claim, finish_all, finish,
}
use eve_db.CommitQueue.Claims.{Claimed, IsCharged, IsSmall, tickets, claim-order, claim-IsSmall}
use eve_db.CommitQueue.Requests.{cancel-claim}

-- What the tests run.
runs : ℕ
unfolding check submit cancel claim_from claim finish_all finish lookup upsert nat_ord
runs = 0

-- A batch is its size, modulo 2 ^ 64.
abbrev size : ℕ → ℕ
size b = if ltb b 1000 then b else 1000

abbrev bounds : GroupCommit
bounds = record { max_transactions = 2; max_bytes = 100; delay = 0 }

abbrev no_requests : Queue ℕ
no_requests = record {
  state = record { waiting = []; running = false; count = 0; bytes = 0 };
  requests = [];
  fresh = 0;
}

abbrev queue : Queue ℕ
queue = record {
  state = record { waiting = 0 ∷ 1 ∷ 2 ∷ []; running = false; count = 3; bytes = 60 };
  requests = (0, new_request 10 10) ∷ (1, new_request 20 20) ∷ (2, new_request 30 30) ∷ [];
  fresh = 3;
}

submitted :
    submit size 10 default_limits no_requests
    ≡ ok (
      0,
      record {
        state = record { waiting = 0 ∷ []; running = false; count = 1; bytes = 10 };
        requests = (0, new_request 10 10) ∷ [];
        fresh = 1;
      },
    )
unfolding runs
submitted = refl

abbrev claimed : Claimed ℕ
claimed = (0, 10) ∷ (1, 20) ∷ []

abbrev after_claim : Queue ℕ
after_claim = record queue {
  state = record (queue.state) { waiting = 2 ∷ [] };
  requests =
      (0, record { batch = none; result = none; bytes = 10 })
      ∷ (1, record { batch = none; result = none; bytes = 20 })
      ∷ (2, new_request 30 30)
      ∷ [];
}

claims_two : claim bounds queue ≡ some (claimed, after_claim)
unfolding runs
claims_two = refl

finish_counts :
    ((finish ((0, ok 7) ∷ (1, ok 8) ∷ []) after_claim).state.count ≡ 1)
    × ((finish ((0, ok 7) ∷ (1, ok 8) ∷ []) after_claim).state.bytes ≡ 30)
unfolding runs
finish_counts = (refl, refl)

queue-IsCharged : IsCharged size queue.requests
unfolding runs
queue-IsCharged ticket request batch e g = ground arith

claim-order_example : tickets claimed ++ after_claim.state.waiting ≡ queue.state.waiting
claim-order_example = claim-order bounds queue after_claim claimed claims_two

claim-IsSmall_example : IsSmall bounds size claimed
claim-IsSmall_example =
    claim-IsSmall bounds size queue after_claim claimed (omega arith) (omega arith)
      (λ b. ground arith) queue-IsCharged claims_two

cancel-claim_example : All (λ e. cancel e.0 after_claim ≡ (false, after_claim)) claimed
cancel-claim_example = cancel-claim bounds queue after_claim claimed claims_two

-- ===== src/CommitQueue.antt =====
-- commit_queue.rs: the queue of commit requests that one flush of the log takes together. A ticket
-- is the address of a request; the requests are the memory behind the `Arc`s. A call holds the
-- queue's lock from its first access to its last; a poisoned lock is not modelled, and neither are
-- the notifications, which carry no data. A `Prepared` of database.rs is only asked for its size.
pub mod Claims
pub mod Requests
mod Tests
use eve_db.Base.{
  ℕ, zero, suc, ◌+◌, ◌-◌, ◌*◌, ◌^◌, Bool, true, false, not, ◌&&◌, ◌||◌, ltb, leb, ◌==◌,
  if◌then◌else◌, min, Option, none, some, List, [], ◌∷◌, ◌++◌, length, keep, Error, Result, ok, err,
  ◌>>=◌, ◌>>◌, invalid, plain, deadline_exceeded,
}
use eve_db.Base.Order.{nat_ord}
use eve_db.Base.Assoc.{lookup, upsert}
use eve_db.Resources.{Limits, check, add_usize, sub_usize}

-- `delay` is in nanoseconds.
pub record GroupCommit : Type 0 where
  pub max_transactions : ℕ
  pub max_bytes : ℕ
  pub delay : ℕ

-- `GroupCommit::default`
abbrev pub default_group : GroupCommit
default_group = record { max_transactions = 64; max_bytes = 4 * 1024 * 1024; delay = 0 }

-- `GroupCommit::validate`
pub validate_group : GroupCommit → Result Error (Unit {0})
validate_group g =
    if g.max_transactions == 0 || g.max_bytes == 0 || ltb (10 ^ 9) g.delay
    then err (invalid (plain "invalid group commit bounds (delay must be at most one second)"))
    else ok tt

pub record Request {ℓ} (Prepared : Type ℓ) : Type ℓ where
  pub batch : Option Prepared
  pub result : Option (Result Error ℕ)
  pub bytes : ℕ

pub record State : Type 0 where
  pub waiting : List ℕ
  pub running : Bool
  pub count : ℕ
  pub bytes : ℕ

-- The addresses from `fresh` on are unused.
pub record Queue {ℓ} (Prepared : Type ℓ) : Type ℓ where
  pub state : State
  pub requests : List (ℕ × Request Prepared)
  pub fresh : ℕ

-- `a.saturating_add(b)`
abbrev pub saturating_add : ℕ → ℕ → ℕ
saturating_add a b = min (a + b) (2 ^ 64 - 1)

module _ {ℓ} {Prepared : Type ℓ} where
  abbrev pub new_request : Prepared → ℕ → Request Prepared
  new_request batch bytes = record { batch = some batch; result = none; bytes = bytes }

  -- `size` is `Prepared::bytes`.
  unfoldable pub submit :
      (Prepared → ℕ) → Prepared → Limits → Queue Prepared → Result Error (ℕ × Queue Prepared)
  submit size batch limits q = do
    check "queued commits" q.state.count 1 limits.max_queued_commits
    check "queued commit bytes" q.state.bytes (size batch) limits.max_queued_commit_bytes
    ok (
      q.fresh,
      record {
        state = record (q.state) {
          count = add_usize q.state.count 1;
          bytes = add_usize q.state.bytes (size batch);
          waiting = q.state.waiting ++ q.fresh ∷ [];
        };
        requests = upsert q.fresh (new_request batch (size batch)) q.requests;
        fresh = suc q.fresh;
      },
    )

  -- A ticket keeps its request alive, so that the first case does not occur.
  unfoldable pub cancel : ℕ → Queue Prepared → Bool × Queue Prepared
  cancel ticket q = elim (lookup ticket q.requests) [
    | none ↦ (false, q)
    | some request ↦ elim request.batch [
      | none ↦ (false, q)
      | some batch ↦ (
        true,
        record q {
          state = record (q.state) {
            waiting = keep (λ entry. not (entry == ticket)) q.state.waiting;
            count = sub_usize q.state.count 1;
            bytes = sub_usize q.state.bytes request.bytes;
          };
          requests =
              upsert ticket (record request { batch = none; result = some (err deadline_exceeded) })
                q.requests;
        },
      )
    ]
  ]

  -- The test that ends the loop of `claim`.
  abbrev pub is_full : GroupCommit → List (ℕ × Prepared) → ℕ → ℕ → Bool
  is_full bounds claimed bytes more =
      not (length claimed == 0)
      && (length claimed == bounds.max_transactions
          || ltb bounds.max_bytes (saturating_add bytes more))

  -- The loop of `claim`: what it has taken, the requests that still wait, and the memory. `none` is
  -- the panic of `take().unwrap()` on a waiting request with no batch.
  unfoldable pub claim_from :
      GroupCommit
      → List ℕ
      → List (ℕ × Request Prepared)
      → List (ℕ × Prepared)
      → ℕ
      → Option (List (ℕ × Prepared) × List ℕ × List (ℕ × Request Prepared))
  claim_from bounds [] requests claimed bytes = some (claimed, [], requests)
  claim_from bounds (ticket ∷ waiting) requests claimed bytes = elim (lookup ticket requests) [
    | none ↦ none
    | some request ↦ elim (is_full bounds claimed bytes request.bytes) [
      | true ↦ some (claimed, ticket ∷ waiting, requests)
      | false ↦ elim request.batch [
        | none ↦ none
        | some batch ↦
            claim_from bounds waiting (upsert ticket (record request { batch = none }) requests)
              (claimed ++ (ticket, batch) ∷ []) (add_usize bytes request.bytes)
      ]
    ]
  ]

  unfoldable pub claim :
      GroupCommit → Queue Prepared → Option (List (ℕ × Prepared) × Queue Prepared)
  claim bounds q = elim (claim_from bounds q.state.waiting q.requests [] 0) [
    | none ↦ none
    | some (claimed, waiting, requests) ↦
        some (
          claimed,
          record q { state = record (q.state) { waiting = waiting }; requests = requests },
        )
  ]

  -- The loop of `finish`.
  unfoldable pub finish_all : List (ℕ × Result Error ℕ) → Queue Prepared → Queue Prepared
  finish_all [] q = q
  finish_all ((ticket, result) ∷ results) q = elim (lookup ticket q.requests) [
    | none ↦ finish_all results q
    | some request ↦ finish_all results (record q {
      state = record (q.state) {
        count = sub_usize q.state.count 1;
        bytes = sub_usize q.state.bytes request.bytes;
      };
      requests = upsert ticket (record request { result = some result }) q.requests;
    })
  ]

  unfoldable pub finish : List (ℕ × Result Error ℕ) → Queue Prepared → Queue Prepared
  finish results q =
      let done = finish_all results q in
      record done { state = record (done.state) { running = false } }

-- `Queue::expired`, at the instant `now`.
abbrev pub expired : Option ℕ → ℕ → Bool
expired none now = false
expired (some end) now = leb end now

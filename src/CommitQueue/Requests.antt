-- ===== src/CommitQueue/Requests.antt =====
-- The requests of commit_queue.rs that a flush has claimed.
use mathlib.Core.Path.{subst}
use eve_db.Base.{
  ℕ, ◌≡◌, refl, sym, inl, inr, false, none, some, Option-cases, Bool-cases, ◌==◌, List, [], ◌∷◌,
  All, All-imp, All-append, arith,
}
use eve_db.Base.Order.{nat_ord}
use eve_db.Base.Assoc.{lookup, upsert, lookup-upsert}
use eve_db.CommitQueue.{GroupCommit, Request, Queue, claim_from, claim, cancel}
use eve_db.CommitQueue.Claims.{Claimed, Memory, taken, claim_from-Round}

module _ {ℓ} {Prepared : Type ℓ} where
  -- The batch of the request is gone.
  abbrev IsTaken : Memory Prepared → ℕ → Type ℓ
  IsTaken requests ticket =
      (request : Request Prepared) × (lookup ticket requests ≡ some request)
      × (request.batch ≡ none)

  abbrev AllTaken : Claimed Prepared × List ℕ × Memory Prepared → Type ℓ
  AllTaken r = All (λ e. IsTaken r.2 e.0) r.0

  IsTaken-upsert :
      (requests : Memory Prepared) (ticket : ℕ) (request : Request Prepared) (other : ℕ)
      → IsTaken requests other
      → IsTaken (upsert ticket (taken request) requests) other
  unfolding nat_ord
  IsTaken-upsert requests ticket request other (old, e, g) = elim (Bool-cases (other == ticket)) [
    | inl same ↦
        (taken request, ground (arith, lookup-upsert requests ticket (taken request) other), refl)
    | inr differ ↦ (old, ground (arith, lookup-upsert requests ticket (taken request) other), g)
  ]

  IsTaken-taken :
      (requests : Memory Prepared) (ticket : ℕ) (request : Request Prepared)
      → IsTaken (upsert ticket (taken request) requests) ticket
  unfolding nat_ord
  IsTaken-taken requests ticket request =
      (taken request, ground (arith, lookup-upsert requests ticket (taken request) ticket), refl)

  claim_from-IsTaken :
      (bounds : GroupCommit) (waiting : List ℕ) (requests : Memory Prepared)
      (claimed : Claimed Prepared) (bytes : ℕ) (r : Claimed Prepared × List ℕ × Memory Prepared)
      → All (λ e. IsTaken requests e.0) claimed
      → claim_from bounds waiting requests claimed bytes ≡ some r
      → AllTaken r
  unfolding claim_from
  claim_from-IsTaken bounds [] requests claimed bytes r a h =
      subst AllTaken {x = (claimed, [], requests)} {y = r} (ground arith) a
  claim_from-IsTaken bounds (ticket ∷ waiting) requests claimed bytes r a h =
      let (request, e, k) = claim_from-Round bounds ticket waiting requests claimed bytes r h in
      elim k [
        | inl (full, done) ↦ subst AllTaken (sym done) a
        | inr (free, batch, g, rest) ↦
            claim_from-IsTaken bounds waiting _ _ _ r
              (All-append _ claimed ((ticket, batch) ∷ [])
                (All-imp (λ e. IsTaken-upsert requests ticket request e.0) claimed a)
                (IsTaken-taken requests ticket request, tt))
              rest
      ]

  cancel-IsTaken :
      (q : Queue Prepared) (ticket : ℕ) → IsTaken q.requests ticket → cancel ticket q ≡ (false, q)
  unfolding cancel
  cancel-IsTaken q ticket (request, e, g) = rw (e, cancel) (rw (g, cancel) refl)

  -- After a claim no ticket that it took can be cancelled: `cancel` answers `false` and leaves the
  -- queue as it is.
  pub cancel-claim :
      (bounds : GroupCommit) (q after : Queue Prepared) (claimed : Claimed Prepared)
      → claim bounds q ≡ some (claimed, after)
      → All (λ e. cancel e.0 after ≡ (false, after)) claimed
  unfolding claim
  cancel-claim bounds q after claimed h =
      elim (Option-cases (claim_from bounds q.state.waiting q.requests [] 0)) [
        | inl e ↦ absurd (ground arith)
        | inr (r, e) ↦
            let same : (r.0 ≡ claimed) × (r.2 ≡ after.requests) = ground (arith, e, h) in
            All-imp (λ c. cancel-IsTaken after c.0) claimed
              (subst (λ requests. All (λ c. IsTaken requests c.0) claimed) same.1
                (subst (All λ c. IsTaken r.2 c.0) same.0
                  (claim_from-IsTaken bounds q.state.waiting q.requests [] 0 r tt e)))
      ]

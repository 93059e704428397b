-- ===== src/CommitQueue/Claims.antt =====
-- `Queue::claim` of commit_queue.rs: what one flush takes.
use mathlib.Core.List.{append_assoc, map-append}
use mathlib.Core.Path.{subst}
use eve_db.Base.{
  ℕ, ◌+◌, ◌^◌, ◌≤◌, ◌<◌, ◌≡◌, refl, sym, ap, ◌∙◌, ◌⊎◌, inl, inr, true, false, none, some,
  Option-cases, Bool-cases, List, [], ◌∷◌, ◌++◌, map, length, length-append, arith,
}
use eve_db.Base.Order.{nat_ord}
use eve_db.Base.Assoc.{lookup, upsert, lookup-upsert}
use eve_db.Resources.{add_usize}
use eve_db.CommitQueue.{GroupCommit, Request, Queue, is_full, claim_from, claim}

-- What is claimed, and the memory.
abbrev pub Claimed {ℓ} : Type ℓ → Type ℓ
Claimed Prepared = List (ℕ × Prepared)

abbrev pub Memory {ℓ} : Type ℓ → Type ℓ
Memory Prepared = List (ℕ × Request Prepared)

module _ {ℓ} {Prepared : Type ℓ} where
  abbrev pub taken : Request Prepared → Request Prepared
  taken request = record request { batch = none }

  -- One round of the loop that does not panic.
  abbrev pub Round :
      GroupCommit
      → ℕ
      → List ℕ
      → Memory Prepared
      → Claimed Prepared
      → ℕ
      → Claimed Prepared × List ℕ × Memory Prepared
      → Type ℓ
  Round bounds ticket waiting requests claimed bytes r =
      (request : Request Prepared) × (lookup ticket requests ≡ some request)
      × (((is_full bounds claimed bytes request.bytes ≡ true)
            × (r ≡ (claimed, ticket ∷ waiting, requests)))
          ⊎ ((is_full bounds claimed bytes request.bytes ≡ false)
              × (batch : Prepared) × (request.batch ≡ some batch)
              × (claim_from bounds waiting (upsert ticket (taken request) requests)
                    (claimed ++ (ticket, batch) ∷ []) (add_usize bytes request.bytes)
                  ≡ some r)))

  pub claim_from-Round :
      (bounds : GroupCommit) (ticket : ℕ) (waiting : List ℕ) (requests : Memory Prepared)
      (claimed : Claimed Prepared) (bytes : ℕ) (r : Claimed Prepared × List ℕ × Memory Prepared)
      → claim_from bounds (ticket ∷ waiting) requests claimed bytes ≡ some r
      → Round bounds ticket waiting requests claimed bytes r
  unfolding claim_from
  claim_from-Round bounds ticket waiting requests claimed bytes r h =
      elim (Option-cases (lookup ticket requests)) [
        | inl e ↦ absurd (ground arith)
        | inr (request, e) ↦ (
          request,
          e,
          elim (Bool-cases (is_full bounds claimed bytes request.bytes)) [
            | inl full ↦ inl (full, ground arith)
            | inr free ↦ elim (Option-cases request.batch) [
              | inl g ↦ absurd (ground arith)
              | inr (batch, g) ↦ inr (free, batch, g, ground arith)
            ]
          ],
        )
      ]

  abbrev pub tickets : Claimed Prepared → List ℕ
  tickets = map (λ e. e.0)

  claim_from-order :
      (bounds : GroupCommit) (waiting : List ℕ) (requests : Memory Prepared)
      (claimed : Claimed Prepared) (bytes : ℕ) (r : Claimed Prepared × List ℕ × Memory Prepared)
      → claim_from bounds waiting requests claimed bytes ≡ some r
      → tickets r.0 ++ r.1 ≡ tickets claimed ++ waiting
  unfolding claim_from
  claim_from-order bounds [] requests claimed bytes r h = ground arith
  claim_from-order bounds (ticket ∷ waiting) requests claimed bytes r h =
      let (request, e, c) = claim_from-Round bounds ticket waiting requests claimed bytes r h in
      elim c [
        | inl (full, done) ↦ ground arith
        | inr (free, batch, g, rest) ↦
            claim_from-order bounds waiting _ _ _ r rest
            ∙ rw (map-append (λ e. e.0) claimed ((ticket, batch) ∷ []))
                (append_assoc (tickets claimed) (ticket ∷ []) waiting)
      ]

  -- What is claimed together with what still waits is the queue before the call, in its order: a
  -- claim takes from the front and passes over nobody.
  pub claim-order :
      (bounds : GroupCommit) (q after : Queue Prepared) (claimed : Claimed Prepared)
      → claim bounds q ≡ some (claimed, after)
      → tickets claimed ++ after.state.waiting ≡ q.state.waiting
  unfolding claim
  claim-order bounds q after claimed h =
      elim (Option-cases (claim_from bounds q.state.waiting q.requests [] 0)) [
        | inl e ↦ absurd (ground arith)
        | inr (r, e) ↦
            let o = claim_from-order bounds q.state.waiting q.requests [] 0 r e in ground (arith, o)
      ]

  abbrev pub total : (Prepared → ℕ) → Claimed Prepared → ℕ
  total size [] = 0
  total size (e ∷ es) = size e.1 + total size es

  total-append :
      (size : Prepared → ℕ) (es : Claimed Prepared) (ticket : ℕ) (batch : Prepared)
      → total size (es ++ (ticket, batch) ∷ []) ≡ total size es + size batch
  total-append size [] ticket batch = omega arith
  total-append size (e ∷ es) ticket batch = omega (arith, total-append size es ticket batch)

  -- A request whose batch is still there was charged the size of the batch.
  abbrev pub IsCharged : (Prepared → ℕ) → Memory Prepared → Type ℓ
  IsCharged size requests =
      (ticket : ℕ) (request : Request Prepared) (batch : Prepared)
      → lookup ticket requests ≡ some request
      → request.batch ≡ some batch
      → request.bytes ≡ size batch

  IsCharged-taken :
      (size : Prepared → ℕ) (requests : Memory Prepared) (ticket : ℕ) (request : Request Prepared)
      → IsCharged size requests
      → IsCharged size (upsert ticket (taken request) requests)
  unfolding nat_ord
  IsCharged-taken size requests ticket request c t other batch e g =
      ground (arith, lookup-upsert requests ticket (taken request) t, c t other batch)

  -- One claim is within the bounds of the group, or is a single request.
  abbrev pub IsSmall : GroupCommit → (Prepared → ℕ) → Claimed Prepared → Type 0
  IsSmall bounds size claimed =
      (length claimed ≤ bounds.max_transactions)
      × ((length claimed ≤ 1) ⊎ (total size claimed ≤ bounds.max_bytes))

  IsSmall-add :
      (bounds : GroupCommit) (size : Prepared → ℕ) (claimed : Claimed Prepared) (bytes ticket : ℕ)
      (batch : Prepared)
      → 0 < bounds.max_transactions
      → bounds.max_bytes + 1 < 2 ^ 64
      → size batch < 2 ^ 64
      → bytes ≡ total size claimed
      → is_full bounds claimed bytes (size batch) ≡ false
      → IsSmall bounds size claimed
      → IsSmall bounds size (claimed ++ (ticket, batch) ∷ [])
        × (add_usize bytes (size batch) ≡ total size (claimed ++ (ticket, batch) ∷ []))
  IsSmall-add bounds size [] bytes ticket batch p m s b f h = ground arith
  IsSmall-add bounds size (e ∷ claimed) bytes ticket batch p m s b f h = ground (
    arith,
    total-append size (e ∷ claimed) ticket batch,
    length-append (e ∷ claimed) ((ticket, batch) ∷ []),
  )

  claim_from-IsSmall :
      (bounds : GroupCommit) (size : Prepared → ℕ) (waiting : List ℕ) (requests : Memory Prepared)
      (claimed : Claimed Prepared) (bytes : ℕ) (r : Claimed Prepared × List ℕ × Memory Prepared)
      → 0 < bounds.max_transactions
      → bounds.max_bytes + 1 < 2 ^ 64
      → ((b : Prepared) → size b < 2 ^ 64)
      → IsCharged size requests
      → bytes ≡ total size claimed
      → IsSmall bounds size claimed
      → claim_from bounds waiting requests claimed bytes ≡ some r
      → IsSmall bounds size r.0
  unfolding claim_from
  claim_from-IsSmall bounds size [] requests claimed bytes r p m s c b i h = ground arith
  claim_from-IsSmall bounds size (ticket ∷ waiting) requests claimed bytes r p m s c b i h =
      let (request, e, k) = claim_from-Round bounds ticket waiting requests claimed bytes r h in
      elim k [
        | inl (full, done) ↦ subst (λ x. IsSmall bounds size x.0) (sym done) i
        | inr (free, batch, g, rest) ↦
            let eq = c ticket request batch e g in
            let (small, sum) =
              IsSmall-add bounds size claimed bytes ticket batch p m (s batch) b
                (subst (λ n. is_full bounds claimed bytes n ≡ false) eq free) i in
            claim_from-IsSmall bounds size waiting _ _ _ r p m s
              (IsCharged-taken size requests ticket request c) (ap (add_usize bytes) eq ∙ sum) small
              rest
      ]

  -- A claim takes no more requests than the group allows, and either a single request or no more
  -- bytes than the group allows: for bounds that are not zero, with room in a `usize` above the
  -- bytes, sizes that fit a `usize`, and requests that were charged the sizes of their batches.
  pub claim-IsSmall :
      (bounds : GroupCommit) (size : Prepared → ℕ) (q after : Queue Prepared)
      (claimed : Claimed Prepared)
      → 0 < bounds.max_transactions
      → bounds.max_bytes + 1 < 2 ^ 64
      → ((b : Prepared) → size b < 2 ^ 64)
      → IsCharged size q.requests
      → claim bounds q ≡ some (claimed, after)
      → IsSmall bounds size claimed
  unfolding claim
  claim-IsSmall bounds size q after claimed p m s c h =
      elim (Option-cases (claim_from bounds q.state.waiting q.requests [] 0)) [
        | inl e ↦ absurd (ground arith)
        | inr (r, e) ↦ subst (IsSmall bounds size) (ground arith) (
            claim_from-IsSmall bounds size q.state.waiting q.requests [] 0 r p m s c refl
              (omega arith, inl (omega arith)) e)
      ]

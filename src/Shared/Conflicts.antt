-- ===== src/Shared/Conflicts.antt =====
-- First committer wins: what the batches that the coordinator of shared.rs accepts in one group
-- have in common with one another and with the commits before.
use mathlib.Core.List.{append_assoc, append-nil}
use eve_db.Base.{
  ℕ, ◌<◌, ◌≤◌, ◌≡◌, refl, ap, true, false, none, some, List, [], ◌∷◌, ◌++◌, ltb, All, arith,
  if◌then◌else◌, Error, Result, ok, err, conflict, needs_recovery, ◌>>◌, All-append, All-imp,
  Bool-cases, Option-cases, inl, inr,
}
use eve_db.Base.Order.{nat_ord, pair_ord, same, same-eq, same_self}
use eve_db.Base.Assoc.{lookup, upsert, lookup-upsert}
use eve_db.Deadline
use eve_db.Database.Group.{Prepared, keys, changes_catalog}
use eve_db.Shared.{
  max_sequence, Revisions, Coordinator, Group, exceeds, is_stale, check_keys, validate_batch,
  claim_keys, settled, validate_all, new_group,
}

-- No commit after the batch was begun has written the key.
abbrev pub IsFresh : Revisions → ℕ → ℕ × ℕ → Type 0
IsFresh revisions base key = exceeds (lookup key revisions) base ≡ false

-- The batch writes what is fresh, by the commits before the group.
abbrev pub IsCurrent : Coordinator → Prepared → Type 0
IsCurrent coordinator batch =
    (coordinator.catalog_revision ≤ batch.base_sequence)
    × All (IsFresh coordinator.revisions batch.base_sequence) (keys batch)

-- The key is none of the keys.
abbrev pub Avoids : List (ℕ × ℕ) → ℕ × ℕ → Type 0
Avoids others key = All (λ other. same key other ≡ false) others

-- The batch may follow those that were accepted before it in the group.
abbrev pub MayFollow : Prepared → List (ℕ × Prepared) → Type 0
MayFollow batch =
    All λ before. (changes_catalog before.1 ≡ false) × All (Avoids (keys before.1)) (keys batch)

-- Each batch may follow those before it, which `earlier` begins.
abbrev pub IsOrderly : List (ℕ × Prepared) → List (ℕ × Prepared) → Type 0
IsOrderly earlier [] = Unit
IsOrderly earlier (entry ∷ more) =
    MayFollow entry.1 earlier × IsOrderly (earlier ++ entry ∷ []) more

-- What the loop knows of the accepted batches: their keys are claimed, and so is the catalog.
record Claims (coordinator : Coordinator) (group : Group) : Type 0 where
  keys_claimed :
      All
        (λ b. All (λ key. lookup key group.group_keys ≡ some max_sequence) (keys b.1))
        group.accepted
  catalog_claimed :
      All (λ b. changes_catalog b.1 ≡ true → group.catalog_revision ≡ max_sequence) group.accepted
  not_below : coordinator.catalog_revision ≤ group.catalog_revision
  only_max : (key : ℕ × ℕ) (n : ℕ) → lookup key group.group_keys ≡ some n → n ≡ max_sequence

check_keys-All :
    (group_keys revisions : Revisions) (base : ℕ) (ks : List (ℕ × ℕ))
    → check_keys group_keys revisions base ks ≡ ok tt
    → All (λ key. is_stale group_keys revisions base key ≡ false) ks
unfolding check_keys
check_keys-All group_keys revisions base [] h = tt
check_keys-All group_keys revisions base (key ∷ more) h =
    elim (Bool-cases (is_stale group_keys revisions base key)) [
      | inl y ↦ absurd (ground (arith, h, y))
      | inr x ↦ (x, check_keys-All group_keys revisions base more (rw (x, if◌then◌else◌) at h))
    ]

then-ok : (m k : Result Error (Unit {0})) → (m >> k) ≡ ok tt → (m ≡ ok tt) × (k ≡ ok tt)
then-ok (ok tt) k h = (refl, h)
then-ok (err e) k h = absurd (ground arith)

validate_batch-ok :
    (coordinator : Coordinator) (now : ℕ) (group : Group) (batch : Prepared)
    → validate_batch coordinator now group batch ≡ ok tt
    → (group.catalog_revision ≤ batch.base_sequence)
      × All
          (λ key. is_stale group.group_keys coordinator.revisions batch.base_sequence key ≡ false)
          (keys batch)
unfolding validate_batch
validate_batch-ok coordinator now group batch h =
    let stale = ltb batch.base_sequence group.catalog_revision in
    let first = then-ok (if coordinator.poisoned then err needs_recovery else ok tt) _ h in
    let second = then-ok (Deadline.check batch.deadline now) _ first.1 in
    let third = then-ok (if stale then err (conflict none none) else ok tt) _ second.1 in
    (
      elim (Bool-cases stale) [
        | inl y ↦ absurd (ground (arith, third.0, y))
        | inr x ↦ ground (arith, x)
      ],
      check_keys-All group.group_keys coordinator.revisions batch.base_sequence (keys batch)
          third.1,
    )

-- A key of the batch that is not stale: no batch of the group has it, and it is fresh.
is_stale-free :
    (group_keys revisions : Revisions) (base : ℕ) (key : ℕ × ℕ)
    → base < max_sequence
    → ((n : ℕ) → lookup key group_keys ≡ some n → n ≡ max_sequence)
    → is_stale group_keys revisions base key ≡ false
    → (lookup key group_keys ≡ none) × IsFresh revisions base key
unfolding is_stale
is_stale-free group_keys revisions base key b only h = elim (Option-cases (lookup key group_keys)) [
  | inl e ↦ (e, ground (arith, h, e))
  | inr (n, e) ↦ absurd (ground (arith, h, e, only n e, b))
]

claim_keys-lookup :
    (ks : List (ℕ × ℕ)) (group_keys : Revisions) (key : ℕ × ℕ)
    → lookup key group_keys ≡ some max_sequence
    → lookup key (claim_keys ks group_keys) ≡ some max_sequence
claim_keys-lookup [] group_keys key h = h
claim_keys-lookup (k ∷ ks) group_keys key h =
    claim_keys-lookup ks (upsert k max_sequence group_keys) key
      (ground (arith, lookup-upsert group_keys k max_sequence key, h))

claim_keys-All :
    (ks : List (ℕ × ℕ)) (group_keys : Revisions)
    → All (λ key. lookup key (claim_keys ks group_keys) ≡ some max_sequence) ks
claim_keys-All [] group_keys = tt
claim_keys-All (k ∷ ks) group_keys = (
  claim_keys-lookup ks (upsert k max_sequence group_keys) k
      (ground (arith, lookup-upsert group_keys k max_sequence k, same_self k)),
  claim_keys-All ks (upsert k max_sequence group_keys),
)

claim_keys-only :
    (ks : List (ℕ × ℕ)) (group_keys : Revisions)
    → ((key : ℕ × ℕ) (n : ℕ) → lookup key group_keys ≡ some n → n ≡ max_sequence)
    → (key : ℕ × ℕ) (n : ℕ) → lookup key (claim_keys ks group_keys) ≡ some n
    → n ≡ max_sequence
claim_keys-only [] group_keys h = h
claim_keys-only (k ∷ ks) group_keys h =
    claim_keys-only ks (upsert k max_sequence group_keys)
      (λ key n e. ground (arith, lookup-upsert group_keys k max_sequence key, h key n, e))

Avoids-claimed :
    (group_keys : Revisions) (key : ℕ × ℕ) (others : List (ℕ × ℕ))
    → lookup key group_keys ≡ none
    → All (λ other. lookup other group_keys ≡ some max_sequence) others
    → Avoids others key
Avoids-claimed group_keys key [] h c = tt
Avoids-claimed group_keys key (other ∷ others) h c = (
  elim (Bool-cases (same key other)) [
    | inl y ↦ absurd (ground (arith, h, c.0, ap (λ k. lookup k group_keys) (same-eq key other y)))
    | inr x ↦ x
  ],
  Avoids-claimed group_keys key others h c.1,
)

-- A batch that was accepted, and the claims after it.
validate_batch-free :
    (coordinator : Coordinator) (now : ℕ) (group : Group) (batch : Prepared)
    → Claims coordinator group
    → batch.base_sequence < max_sequence
    → validate_batch coordinator now group batch ≡ ok tt
    → IsCurrent coordinator batch × MayFollow batch group.accepted
validate_batch-free coordinator now group batch c b h =
    let (low, fresh) = validate_batch-ok coordinator now group batch h in
    let free =
      All-imp
        (λ key e.
          is_stale-free group.group_keys coordinator.revisions batch.base_sequence key b
            (c.only_max key) e)
        (keys batch) fresh in
    (
      (omega (arith, low, c.not_below), All-imp (λ key f. f.1) (keys batch) free),
      may_follow group.accepted c.keys_claimed c.catalog_claimed
          (All-imp (λ key f. f.0) (keys batch) free) low,
    )
  where
    may_follow :
        (earlier : List (ℕ × Prepared))
        → All (λ e. All (λ key. lookup key group.group_keys ≡ some max_sequence) (keys e.1)) earlier
        → All (λ e. changes_catalog e.1 ≡ true → group.catalog_revision ≡ max_sequence) earlier
        → All (λ key. lookup key group.group_keys ≡ none) (keys batch)
        → group.catalog_revision ≤ batch.base_sequence
        → MayFollow batch earlier
    may_follow [] k g f low = tt
    may_follow (e ∷ earlier) k g f low = (
      (
        elim (Bool-cases (changes_catalog e.1)) [
          | inl y ↦ absurd (omega (arith, g.0 y, low, b))
          | inr x ↦ x
        ],
        All-imp (λ key n. Avoids-claimed group.group_keys key (keys e.1) n k.0) (keys batch) f,
      ),
      may_follow earlier k.1 g.1 f low,
    )

settled-Claims :
    (coordinator : Coordinator) (ticket : ℕ) (batch : Prepared) (group : Group)
    → Claims coordinator group
    → coordinator.catalog_revision ≤ max_sequence
    → Claims coordinator (settled ticket batch group (ok tt))
settled-Claims coordinator ticket batch group c h = record {
  keys_claimed =
      All-append _ group.accepted ((ticket, batch) ∷ [])
        (All-imp
          (λ e k. All-imp (λ key. claim_keys-lookup (keys batch) group.group_keys key) (keys e.1) k)
          group.accepted c.keys_claimed)
        (claim_keys-All (keys batch) group.group_keys, tt);
  catalog_claimed =
      All-append _ group.accepted ((ticket, batch) ∷ [])
        (All-imp (λ e k y. ground (arith, k y)) group.accepted c.catalog_claimed)
        ((λ y. ground (arith, y)), tt);
  not_below = ground (arith, c.not_below, h);
  only_max = claim_keys-only (keys batch) group.group_keys c.only_max;
}

IsOrderly-append :
    (earlier xs : List (ℕ × Prepared)) (entry : ℕ × Prepared)
    → IsOrderly earlier xs
    → MayFollow entry.1 (earlier ++ xs)
    → IsOrderly earlier (xs ++ entry ∷ [])
IsOrderly-append earlier [] entry o m = (rw append-nil at m, tt)
IsOrderly-append earlier (x ∷ xs) entry o m =
    (o.0, IsOrderly-append (earlier ++ x ∷ []) xs entry o.1 (rw append_assoc m))

-- The batches, in their order, that the group may commit.
pub record Admissible (coordinator : Coordinator) (accepted : List (ℕ × Prepared)) : Type 0 where
  pub current : All (λ b. IsCurrent coordinator b.1) accepted
  pub orderly : IsOrderly [] accepted

settled-Admissible :
    (coordinator : Coordinator) (ticket : ℕ) (batch : Prepared) (group : Group)
    → IsCurrent coordinator batch × MayFollow batch group.accepted
    → Admissible coordinator group.accepted
    → Admissible coordinator (group.accepted ++ (ticket, batch) ∷ [])
settled-Admissible coordinator ticket batch group f a = record {
  current = All-append _ group.accepted ((ticket, batch) ∷ []) a.current (f.0, tt);
  orderly = IsOrderly-append [] group.accepted (ticket, batch) a.orderly f.1;
}

-- One round of the loop, and the rounds after it.
settled-step :
    (coordinator : Coordinator) (ticket now : ℕ) (batch : Prepared) (group : Group)
    (more : List (ℕ × (Prepared × ℕ))) (r : Result Error (Unit {0}))
    → validate_batch coordinator now group batch ≡ r
    → Claims coordinator group
    → Admissible coordinator group.accepted
    → coordinator.catalog_revision ≤ max_sequence
    → batch.base_sequence < max_sequence
    → ((next : Group)
        → Claims coordinator next
        → Admissible coordinator next.accepted
        → Admissible coordinator (validate_all coordinator more next).accepted)
    → Admissible coordinator (validate_all coordinator more (settled ticket batch group r)).accepted
settled-step coordinator ticket now batch group more (err e) k c a h b rest =
    rest (settled ticket batch group (err e))
      (record {
        keys_claimed = c.keys_claimed;
        catalog_claimed = c.catalog_claimed;
        not_below = c.not_below;
        only_max = c.only_max;
      })
      a
settled-step coordinator ticket now batch group more (ok tt) k c a h b rest =
    rest (settled ticket batch group (ok tt)) (settled-Claims coordinator ticket batch group c h) (
      settled-Admissible coordinator ticket batch group
        (validate_batch-free coordinator now group batch c b k) a)

validate_all-Admissible :
    (coordinator : Coordinator) (claimed : List (ℕ × (Prepared × ℕ))) (group : Group)
    → Claims coordinator group
    → Admissible coordinator group.accepted
    → coordinator.catalog_revision ≤ max_sequence
    → All (λ c. c.1.0.base_sequence < max_sequence) claimed
    → Admissible coordinator (validate_all coordinator claimed group).accepted
unfolding validate_all
validate_all-Admissible coordinator [] group c a h b = a
validate_all-Admissible coordinator ((ticket, (batch, now)) ∷ more) group c a h b =
    settled-step coordinator ticket now batch group more _ refl c a h b.0
      (λ next d e. validate_all-Admissible coordinator more next d e h b.1)

-- First committer wins: of the batches that a group accepts, each was begun after the last commit
-- to any entity that it writes and after the last change of the catalog; and, in the order in which
-- they are accepted, none shares an entity with one before it or follows a change of the catalog.
-- No batch was begun at the last sequence that there is.
pub validate_all-new_group :
    (coordinator : Coordinator) (claimed : List (ℕ × (Prepared × ℕ)))
    → coordinator.catalog_revision ≤ max_sequence
    → All (λ c. c.1.0.base_sequence < max_sequence) claimed
    → Admissible coordinator (validate_all coordinator claimed (new_group coordinator)).accepted
unfolding lookup
validate_all-new_group coordinator claimed h b =
    validate_all-Admissible coordinator claimed (new_group coordinator)
      (record {
        keys_claimed = tt;
        catalog_claimed = tt;
        not_below = omega arith;
        only_max = λ key n e. absurd (ground arith);
      })
      (record { current = tt; orderly = tt }) h b

-- ===== src/Shared/Pruning.antt =====
-- `prune_revisions` of shared.rs, and the batches that are validated after it.
use eve_db.Base.{
  ℕ, ◌≤◌, ◌≡◌, refl, ap, ◌∙◌, none, List, [], ◌∷◌, keep, ltb, arith, if◌then◌else◌, Bool-cases, inl,
  inr, ok, err, needs_recovery, conflict, Option, some, ◌>>◌,
}
use eve_db.Base.Order.{nat_ord, pair_ord, same, same-eq}
use eve_db.Base.Assoc.{lookup, IsSorted, Above, lookup-Above}
use eve_db.Deadline
use eve_db.Database.Group.{Prepared, keys}
use eve_db.Shared.{
  Revisions, Coordinator, Group, or_else, exceeds, is_stale, check_keys, validate_batch,
  prune_revisions,
}

keep-Above :
    (oldest : ℕ) (key : ℕ × ℕ) (revisions : Revisions)
    → Above key revisions
    → Above key (keep (λ e. ltb oldest e.1) revisions)
keep-Above oldest key [] h = tt
keep-Above oldest key (e ∷ revisions) h = elim (Bool-cases (ltb oldest e.1)) [
  | inl y ↦ rw (y, if◌then◌else◌) (h.0, keep-Above oldest key revisions h.1)
  | inr x ↦ rw (x, if◌then◌else◌) (keep-Above oldest key revisions h.1)
]

exceeds-keep :
    (oldest base : ℕ) (key : ℕ × ℕ) (revisions : Revisions)
    → oldest ≤ base
    → IsSorted revisions
    → exceeds (lookup key (keep (λ e. ltb oldest e.1) revisions)) base
      ≡ exceeds (lookup key revisions) base
unfolding lookup
exceeds-keep oldest base key [] h s = refl
exceeds-keep oldest base key ((k, n) ∷ revisions) h s = elim (Bool-cases (same key k)) [
  | inr x ↦ ground (arith, x, exceeds-keep oldest base key revisions h s.1)
  | inl y ↦
      let gone =
        lookup-Above (keep (λ e. ltb oldest e.1) revisions) k (keep-Above oldest k revisions s.0) in
      let none_left : lookup key (keep (λ e. ltb oldest e.1) revisions) ≡ none =
        ap (λ j. lookup j (keep (λ e. ltb oldest e.1) revisions)) (same-eq key k y) ∙ gone in
      ground (arith, y, none_left, h)
]

exceeds-or_else :
    (claimed a b : Option ℕ) (base : ℕ)
    → exceeds a base ≡ exceeds b base
    → exceeds (or_else claimed a) base ≡ exceeds (or_else claimed b) base
exceeds-or_else none a b base h = h
exceeds-or_else (some n) a b base h = refl

check_keys-keep :
    (oldest base : ℕ) (group_keys revisions : Revisions) (ks : List (ℕ × ℕ))
    → oldest ≤ base
    → IsSorted revisions
    → check_keys group_keys (keep (λ e. ltb oldest e.1) revisions) base ks
      ≡ check_keys group_keys revisions base ks
unfolding check_keys is_stale
check_keys-keep oldest base group_keys revisions [] h s = refl
check_keys-keep oldest base group_keys revisions (key ∷ ks) h s =
    rw
      (
        exceeds-or_else (lookup key group_keys) _ _ base
            (exceeds-keep oldest base key revisions h s),
        check_keys-keep oldest base group_keys revisions ks h s,
      )
      refl

-- Forgetting the revisions that no live snapshot is older than changes no validation: a batch that
-- was begun at the oldest sequence or later is accepted, or refused with the same error, as before,
-- when the revisions are a map.
pub validate_batch-prune_revisions :
    (coordinator : Coordinator) (oldest now : ℕ) (group : Group) (batch : Prepared)
    → IsSorted coordinator.revisions
    → oldest ≤ batch.base_sequence
    → validate_batch (prune_revisions oldest coordinator) now group batch
      ≡ validate_batch coordinator now group batch
unfolding validate_batch prune_revisions
validate_batch-prune_revisions coordinator oldest now group batch s h =
    ap
      (λ checked.
        (if coordinator.poisoned then err needs_recovery else ok tt)
        >> (Deadline.check batch.deadline now
            >> ((if ltb batch.base_sequence group.catalog_revision
                  then err (conflict none none)
                  else ok tt)
                >> checked)))
      (check_keys-keep oldest batch.base_sequence group.group_keys coordinator.revisions
        (keys batch) h s)

-- ===== src/Shared/Tickets.antt =====
-- The tickets of a group of commits through the coordinator of shared.rs.
use eve_db.Base.{
  ℕ, ◌+◌, ◌≡◌, List, [], ◌∷◌, ◌++◌, ◌==◌, if◌then◌else◌, length, arith, Error, Result, ok, err,
}
use eve_db.Database.Group.{Prepared}
use eve_db.Shared.{
  Coordinator, Group, validate_batch, settled, validate_all, new_group, record_result,
  record_results,
}

-- How often a ticket stands in a list of entries.
abbrev pub count {ℓ} : {A : Type ℓ} → ℕ → List (ℕ × A) → ℕ
count ticket [] = 0
count ticket (entry ∷ entries) = (if entry.0 == ticket then 1 else 0) + count ticket entries

count-append {ℓ} :
    {A : Type ℓ} (ticket : ℕ) (xs ys : List (ℕ × A))
    → count ticket (xs ++ ys) ≡ count ticket xs + count ticket ys
count-append ticket [] ys = omega arith
count-append ticket (x ∷ xs) ys = omega (arith, count-append ticket xs ys)

settled-count :
    (ticket place : ℕ) (batch : Prepared) (group : Group) (r : Result Error (Unit {0}))
    → count ticket (settled place batch group r).accepted
        + count ticket (settled place batch group r).completed
      ≡ count ticket group.accepted
        + count ticket group.completed
        + count ticket ((place, batch) ∷ [])
settled-count ticket place batch group (ok tt) =
    omega (arith, count-append ticket group.accepted ((place, batch) ∷ []))
settled-count ticket place batch group (err e) =
    omega (arith, count-append ticket group.completed ((place, err e) ∷ []))

validate_all-count :
    (coordinator : Coordinator) (claimed : List (ℕ × (Prepared × ℕ))) (group : Group) (ticket : ℕ)
    → count ticket (validate_all coordinator claimed group).accepted
        + count ticket (validate_all coordinator claimed group).completed
      ≡ count ticket group.accepted + count ticket group.completed + count ticket claimed
unfolding validate_all
validate_all-count coordinator [] group ticket = omega arith
validate_all-count coordinator ((place, (batch, now)) ∷ more) group ticket =
    let r = validate_batch coordinator now group batch in
    omega (
      arith,
      validate_all-count coordinator more (settled place batch group r) ticket,
      settled-count ticket place batch group r,
    )

record_results-count :
    (accepted : List (ℕ × Prepared)) (results : List (Result Error ℕ))
    (completed : List (ℕ × Result Error ℕ)) (coordinator : Coordinator) (ticket : ℕ)
    → length results ≡ length accepted
    → count ticket (record_results accepted results completed coordinator).0
      ≡ count ticket completed + count ticket accepted
unfolding record_results
record_results-count [] [] completed coordinator ticket h = omega arith
record_results-count [] (r ∷ results) completed coordinator ticket h = absurd (omega (arith, h))
record_results-count (a ∷ accepted) [] completed coordinator ticket h = absurd (omega (arith, h))
record_results-count ((place, batch) ∷ accepted) (r ∷ results) completed coordinator ticket h =
    omega (
      arith,
      record_results-count accepted results (completed ++ (place, r) ∷ [])
          (record_result batch r coordinator) ticket (omega (arith, h)),
      count-append ticket completed ((place, r) ∷ []),
    )

-- Every claimed ticket is answered, as often as it was claimed: when the commit has as many results
-- as it was given batches, a ticket has as many results at the end of the group as it had among the
-- claimed batches.
pub record_results-validate_all :
    (coordinator : Coordinator) (claimed : List (ℕ × (Prepared × ℕ)))
    (results : List (Result Error ℕ)) (ticket : ℕ)
    → length results ≡ length (validate_all coordinator claimed (new_group coordinator)).accepted
    → count ticket
        (record_results
          (validate_all coordinator claimed (new_group coordinator)).accepted
          results
          (validate_all coordinator claimed (new_group coordinator)).completed
          coordinator).0
      ≡ count ticket claimed
record_results-validate_all coordinator claimed results ticket h =
    let group = validate_all coordinator claimed (new_group coordinator) in
    omega (
      arith,
      record_results-count group.accepted results group.completed coordinator ticket h,
      validate_all-count coordinator claimed (new_group coordinator) ticket,
    )

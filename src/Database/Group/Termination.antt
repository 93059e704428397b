-- ===== src/Database/Group/Termination.antt =====
-- The loop of `Prepared::commit_group` (database.rs) under a clock that does not go back.
use eve_db.Base.{
  ℕ, zero, suc, ◌+◌, ◌≤◌, ◌<◌, ◌≡◌, refl, ap, ◌∙◌, Bool, true, false, Option, none, some, List, [],
  ◌∷◌, length, arith, Error, IoError, Result, ok, err, ◌⊎◌, inl, inr, Bool-cases, if◌then◌else◌,
}
use eve_db.Base.Order.{nat_ord}
use eve_db.Codec.LittleEndian.{Bytes}
use eve_db.Database.Group.{
  Prepared, Engine, Active, Preparation, failed, in_time, retain_one, retain_active, encode_frames,
  all_in_time, prepared_again, prepare_loop,
}
use eve_db.Resources.{ResourceUsage}
use eve_db.Database.Staging.Actions.{Sizes}
use eve_db.Database.Group.Rebinding.{rebind, rebind_all}
use eve_db.Database.Group.Sequence.{Result-cases, encode_frames-step}
use eve_db.Database.Group.Publication.{
  Checkpoint, with_engine, start_group, numbered_from, start_loop, prepare_group, finish_group,
  finish_prepared, commit_group,
}

module _ (clock : ℕ → ℕ) where
  -- No reading is before the one that came before it.
  abbrev pub IsMonotone : Type 0
  IsMonotone = (k : ℕ) → clock k ≤ clock (suc k)

  -- The deadline has passed at a reading.
  abbrev IsLate : Option ℕ → ℕ → Type 0
  IsLate none tick = ⊥
  IsLate (some end) tick = end ≤ clock tick

  abbrev AnyLate : List (ℕ × Prepared) → ℕ → Type 0
  AnyLate [] tick = ⊥
  AnyLate (entry ∷ more) tick = IsLate entry.1.deadline tick ⊎ AnyLate more tick

  IsLate-suc :
      (deadline : Option ℕ) (tick : ℕ)
      → IsMonotone
      → IsLate deadline tick
      → IsLate deadline (suc tick)
  IsLate-suc none tick m h = h
  IsLate-suc (some end) tick m h = omega (arith, h, m tick)

  AnyLate-suc :
      (batches : List (ℕ × Prepared)) (tick : ℕ)
      → IsMonotone
      → AnyLate batches tick
      → AnyLate batches (suc tick)
  AnyLate-suc [] tick m h = absurd h
  AnyLate-suc (entry ∷ more) tick m (inl h) = inl (IsLate-suc entry.1.deadline tick m h)
  AnyLate-suc (entry ∷ more) tick m (inr h) = inr (AnyLate-suc more tick m h)

  AnyLate-in_time :
      (batches : List (ℕ × Prepared)) (deadline : Option ℕ) (tick : ℕ)
      → IsMonotone
      → AnyLate batches tick
      → AnyLate batches (in_time clock deadline tick).1
  AnyLate-in_time batches none tick m h = h
  AnyLate-in_time batches (some end) tick m h = AnyLate-suc batches tick m h

  in_time-IsLate :
      (deadline : Option ℕ) (tick : ℕ)
      → IsMonotone
      → (in_time clock deadline tick).0 ≡ false
      → IsLate deadline (in_time clock deadline tick).1
  in_time-IsLate none tick m h = ground arith
  in_time-IsLate (some end) tick m h =
      let e : end ≤ clock tick = ground arith in omega (arith, e, m tick)

  IsLate-in_time :
      (deadline : Option ℕ) (tick : ℕ)
      → IsLate deadline tick
      → (in_time clock deadline tick).0 ≡ false
  IsLate-in_time none tick h = absurd h
  IsLate-in_time (some end) tick h = ground arith

  -- What stops the check of the deadlines has passed.
  all_in_time-AnyLate :
      (batches : List (ℕ × Prepared)) (tick : ℕ)
      → IsMonotone
      → (all_in_time clock batches tick).0 ≡ false
      → AnyLate batches (all_in_time clock batches tick).1
  unfolding all_in_time
  all_in_time-AnyLate [] tick m h = ground arith
  all_in_time-AnyLate ((index, batch) ∷ more) tick m h =
      elim (Bool-cases (in_time clock batch.deadline tick).0) [
        | inl y ↦
            rw (y, if◌then◌else◌) (inr (all_in_time-AnyLate more _ m (rw (y, if◌then◌else◌) at h)))
        | inr x ↦ rw (x, if◌then◌else◌) (inl (in_time-IsLate batch.deadline tick m x))
      ]

  length-retain_one :
      (entry : ℕ × Prepared) (timely : Bool) (a : Active)
      → length (retain_one entry timely a).batches ≤ suc (length a.batches)
  unfolding retain_one
  length-retain_one (index, batch) false a = omega arith
  length-retain_one (index, batch) true a = ground arith

  length-retain_active :
      (batches : List (ℕ × Prepared)) (results : List (ℕ × Result Error ℕ)) (tick : ℕ)
      → length (retain_active clock batches results tick).batches ≤ length batches
  unfolding retain_active
  length-retain_active [] results tick = omega arith
  length-retain_active ((index, batch) ∷ more) results tick =
      let (timely, next) = in_time clock batch.deadline tick in
      omega (
        arith,
        length-retain_one (index, batch) timely (retain_active clock more results next),
        length-retain_active more results next,
      )

  -- A batch that is late is not kept.
  retain_active-lt :
      (batches : List (ℕ × Prepared)) (results : List (ℕ × Result Error ℕ)) (tick : ℕ)
      → IsMonotone
      → AnyLate batches tick
      → length (retain_active clock batches results tick).batches < length batches
  unfolding retain_active retain_one
  retain_active-lt [] results tick m h = absurd h
  retain_active-lt ((index, batch) ∷ more) results tick m (inl h) =
      let late = IsLate-in_time batch.deadline tick h in
      let rest = length-retain_active more results (in_time clock batch.deadline tick).1 in
      rw late (omega (arith, rest))
  retain_active-lt ((index, batch) ∷ more) results tick m (inr h) =
      let (timely, next) = in_time clock batch.deadline tick in
      omega (
        arith,
        length-retain_one (index, batch) timely (retain_active clock more results next),
        retain_active-lt more results next m (AnyLate-in_time more batch.deadline tick m h),
      )

  encode_frames-length :
      (first : ℕ) (batches stamped : List (ℕ × Prepared)) (frames : List Bytes)
      → encode_frames first batches ≡ ok (stamped, frames)
      → (length stamped ≡ length batches) × (length frames ≡ length batches)
  unfolding encode_frames
  encode_frames-length first [] stamped frames h = ground arith
  encode_frames-length first ((index, batch) ∷ more) stamped frames h =
      let (frame, rest, others, e, l, p, q) =
        encode_frames-step first index batch more stamped frames h in
      let same = encode_frames-length (suc first) more rest others l in
      (ap length p ∙ ap suc same.0, ap length q ∙ ap suc same.1)

  -- After a first round the loop goes on only when a deadline has passed.
  again-Preparation :
      (fuel lsn : ℕ) (a : Active) (r : Result Error (List (ℕ × Prepared) × List Bytes))
      → encode_frames (lsn + 1) a.batches ≡ r
      → IsMonotone
      → ((batches : List (ℕ × Prepared)) (tick : ℕ)
          → AnyLate batches tick
          → length batches ≤ fuel
          → (p : Preparation) × (prepare_loop fuel clock lsn batches a.results tick ≡ some p))
      → length a.batches ≤ fuel
      → (p : Preparation) × (prepared_again clock a
            (λ batches tick. prepare_loop fuel clock lsn batches a.results tick)
            r
          ≡ some p)
  again-Preparation fuel lsn a (err e) k m again h = (failed e a, refl)
  again-Preparation fuel lsn a (ok (batches, frames)) k m again h =
      elim (Bool-cases (all_in_time clock batches a.tick).0) [
        | inl y ↦ rw (y, if◌then◌else◌) (_, refl)
        | inr x ↦
            let (p, e) =
              again batches (all_in_time clock batches a.tick).1
                (all_in_time-AnyLate batches a.tick m x)
                (omega (arith, h, encode_frames-length (lsn + 1) a.batches batches frames k)) in
            (p, rw (x, if◌then◌else◌) e)
      ]

  prepare_loop-late :
      (fuel lsn : ℕ) (batches : List (ℕ × Prepared)) (results : List (ℕ × Result Error ℕ))
      (tick : ℕ)
      → IsMonotone
      → AnyLate batches tick
      → length batches ≤ fuel
      → (p : Preparation) × (prepare_loop fuel clock lsn batches results tick ≡ some p)
  unfolding prepare_loop
  prepare_loop-late zero lsn [] results tick m late h = absurd late
  prepare_loop-late zero lsn (entry ∷ more) results tick m late h = absurd (omega (arith, h))
  prepare_loop-late (suc fuel) lsn batches results tick m late h =
      again-Preparation fuel lsn (retain_active clock batches results tick) _ refl m
        (λ more next l k. prepare_loop-late fuel lsn more _ next m l k)
        (omega (arith, h, retain_active-lt batches results tick m late))

  prepare_loop-ends :
      (fuel lsn : ℕ) (batches : List (ℕ × Prepared)) (results : List (ℕ × Result Error ℕ))
      (tick : ℕ)
      → IsMonotone
      → length batches < fuel
      → (p : Preparation) × (prepare_loop fuel clock lsn batches results tick ≡ some p)
  unfolding prepare_loop
  prepare_loop-ends zero lsn batches results tick m h = absurd (omega (arith, h))
  prepare_loop-ends (suc fuel) lsn batches results tick m h =
      again-Preparation fuel lsn (retain_active clock batches results tick) _ refl m
        (λ more next l k. prepare_loop-late fuel lsn more _ next m l k)
        (omega (arith, h, length-retain_active batches results tick))

rebind_all-length :
    (sizes : Sizes) (db : Engine) (batches moved : List (ℕ × Prepared))
    (usage after : ResourceUsage)
    → rebind_all sizes db batches usage ≡ ok (moved, after)
    → length moved ≡ length batches
unfolding rebind_all
rebind_all-length sizes db [] moved usage after h = ground arith
rebind_all-length sizes db ((index, batch) ∷ more) moved usage after h =
    elim (Result-cases (rebind sizes db batch usage)) [
      | inr (e, k) ↦ absurd (ground (arith, h, k))
      | inl ((one, grown), k) ↦ elim (Result-cases (rebind_all sizes db more grown)) [
        | inr (e, l) ↦ absurd (ground (arith, h, k, l))
        | inl ((rest, last), l) ↦
            let whole : moved ≡ (index, one) ∷ rest = ground (arith, h, k, l) in
            ap length whole ∙ ap suc (rebind_all-length sizes db more rest grown last l)
      ]
    ]

length-numbered_from {ℓ} :
    {A : Type ℓ} (n : ℕ) (xs : List A) → length (numbered_from n xs) ≡ length xs
length-numbered_from n [] = refl
length-numbered_from n (x ∷ xs) = ap suc (length-numbered_from (suc n) xs)

start_loop-ends :
    (clock : ℕ → ℕ) (fuel : ℕ) (sizes : Sizes) (db : Engine) (active : List (ℕ × Prepared))
    (r : Result Error (List (ℕ × Prepared) × ResourceUsage))
    → rebind_all sizes db active db.usage ≡ r
    → IsMonotone clock
    → length active < fuel
    → (p : Preparation × Engine) × (start_loop fuel clock db active r ≡ some p)
start_loop-ends clock fuel sizes db active (err e) k m h = (_, refl)
start_loop-ends clock fuel sizes db active (ok (moved, usage)) k m h =
    let (p, e) =
      prepare_loop-ends clock fuel db.state.lsn moved [] 0 m
        (omega (arith, h, rebind_all-length sizes db active moved db.usage usage k)) in
    (_, ap (with_engine (record db { usage = usage })) e)

start_group-ends :
    (clock : ℕ → ℕ) (fuel : ℕ) (sizes : Sizes) (active : List (ℕ × Prepared))
    (r : Result Error (Unit {0}) × Engine)
    → IsMonotone clock
    → length active < fuel
    → (p : Preparation × Engine) × (start_group fuel clock sizes active r ≡ some p)
start_group-ends clock fuel sizes active (err e, db) m h = (_, refl)
start_group-ends clock fuel sizes active (ok tt, db) m h =
    start_loop-ends clock fuel sizes db active _ refl m h

if-some {ℓ} :
    {A : Type ℓ} (b : Bool) (x : A) (o : Option A)
    → ((p : A) × (o ≡ some p))
    → (p : A) × ((if b then some x else o) ≡ some p)
if-some true x o h = (x, refl)
if-some false x o h = h

prepare_group-ends :
    (clock : ℕ → ℕ) (fuel : ℕ) (checkpoint : Checkpoint) (sizes : Sizes) (db : Engine)
    (active : List (ℕ × Prepared))
    → IsMonotone clock
    → length active < fuel
    → (p : Preparation × Engine) × (prepare_group fuel clock checkpoint sizes db active ≡ some p)
unfolding prepare_group
prepare_group-ends clock fuel checkpoint sizes db active m h =
    if-some db.poisoned _ _ (start_group-ends clock fuel sizes active _ m h)

-- The commit of a group ends, with a result, when its loop may go round once more than there are
-- batches, under a clock whose readings do not go back.
pub commit_group-ends :
    (clock : ℕ → ℕ) (fuel : ℕ) (checkpoint : Checkpoint) (sizes : Sizes)
    (written : Result (IoError × ℕ) (Unit {0})) (batches : List Prepared) (db : Engine)
    → IsMonotone clock
    → length batches < fuel
    → (r : List (ℕ × Result Error ℕ) × Engine) × (commit_group fuel clock checkpoint sizes written
          batches db
        ≡ some r)
unfolding commit_group
commit_group-ends clock fuel checkpoint sizes written batches db m h =
    let few = length-numbered_from 0 batches in
    let (p, e) =
      prepare_group-ends clock fuel checkpoint sizes db (numbered_from 0 batches) m
        (omega (arith, h, few)) in
    (finish_group written p.1 p.0, ap (finish_prepared written) e)

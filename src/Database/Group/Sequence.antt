-- ===== src/Database/Group/Sequence.antt =====
-- The sequences of a group of commits (database.rs), and what a group that fails leaves alone.
use eve_db.Base.{
  ℕ, suc, ◌+◌, ◌≡◌, refl, ◌∙◌, ltb, ◌==◌, some, List, [], ◌∷◌, ◌++◌, length, arith, All, Error,
  IoError, Result, ok, err, ◌⊎◌, inl, inr, Bool-cases, if◌then◌else◌, commit_unknown,
  needs_recovery,
}
use eve_db.Base.Order.{nat_ord, pair_ord}
use eve_db.Base.Assoc.{lookup, upsert, IsSorted, Above, lookup-upsert}
use eve_db.Codec.LittleEndian.{Bytes}
use eve_db.CommitQueue.{saturating_add}
use eve_db.Storage.Frame.{encode}
use eve_db.Database.Operations.{encode_ops}
use eve_db.Database.Group.{
  Prepared, Engine, Active, Preparation, ready, failed, stamp_batch, encode_frames,
}
use eve_db.Database.Group.Publication.{
  fail_all, publish_state, refresh_overlay_bytes, publish_all, join_frames, write_group,
  finish_group,
}
use eve_db.OrderedMap.{get}
use eve_db.OrderedMap.Contents.{IsOrdered}
use eve_db.Database.Group.Published.{
  entity_after, catalog_after, AreMaps, publish_entities-frame, publish_all-catalog,
  publish_all-get,
}

pub Result-cases {ℓ} :
    {A : Type ℓ} (r : Result Error A) → ((a : A) × (r ≡ ok a)) ⊎ ((e : Error) × (r ≡ err e))
Result-cases (ok a) = inl (a, refl)
Result-cases (err e) = inr (e, refl)

-- The first frame, and those after it.
pub encode_frames-step :
    (first index : ℕ) (batch : Prepared) (more stamped : List (ℕ × Prepared)) (frames : List Bytes)
    → encode_frames first ((index, batch) ∷ more) ≡ ok (stamped, frames)
    → (frame : Bytes) × (rest : List (ℕ × Prepared)) × (others : List Bytes) × (encode 2 first
          (encode_ops batch.operations)
        ≡ ok frame)
      × (encode_frames (suc first) more ≡ ok (rest, others))
      × (stamped ≡ (index, stamp_batch first batch) ∷ rest)
      × (frames ≡ frame ∷ others)
unfolding encode_frames
encode_frames-step first index batch more stamped frames h =
    elim (Result-cases (encode 2 first (encode_ops batch.operations))) [
      | inr (e, k) ↦ absurd (ground (arith, h, k))
      | inl (frame, k) ↦ elim (Result-cases (encode_frames (suc first) more)) [
        | inr (e, l) ↦ absurd (ground (arith, h, k, l))
        | inl ((rest, others), l) ↦
            (frame, rest, others, k, l, ground (arith, h, k, l), ground (arith, h, k, l))
      ]
    ]

-- What stands under the places of the batches: consecutive sequences.
abbrev pub Sequenced : ℕ → List (ℕ × Prepared) → List (ℕ × Result Error ℕ) → Type 0
Sequenced first [] results = Unit
Sequenced first ((index, batch) ∷ more) results =
    (lookup index results ≡ some (ok first)) × Sequenced (suc first) more results

-- Every batch has the error as its result.
abbrev pub AllFailed : Error → List (ℕ × Prepared) → List (ℕ × Result Error ℕ) → Type 0
AllFailed e batches results = All (λ b. lookup b.0 results ≡ some (err e)) batches

fail_all-lookup :
    (e : Error) (batches : List (ℕ × Prepared)) (results : List (ℕ × Result Error ℕ)) (index : ℕ)
    → lookup index results ≡ some (err e)
    → lookup index (fail_all e batches results) ≡ some (err e)
unfolding fail_all nat_ord
fail_all-lookup e [] results index h = h
fail_all-lookup e ((i, batch) ∷ more) results index h =
    fail_all-lookup e more (upsert i (err e) results) index
      (ground (arith, lookup-upsert results i (err e) index, h))

fail_all-AllFailed :
    (e : Error) (batches : List (ℕ × Prepared)) (results : List (ℕ × Result Error ℕ))
    → AllFailed e batches (fail_all e batches results)
unfolding fail_all nat_ord
fail_all-AllFailed e [] results = tt
fail_all-AllFailed e ((i, batch) ∷ more) results = (
  fail_all-lookup e more (upsert i (err e) results) i
      (ground (arith, lookup-upsert results i (err e) i)),
  fail_all-AllFailed e more (upsert i (err e) results),
)

publish_all-lookup :
    (first : ℕ) (batches : List (ℕ × Prepared)) (results : List (ℕ × Result Error ℕ)) (db : Engine)
    (index : ℕ)
    → Above index batches
    → lookup index (publish_all first batches results db).0 ≡ lookup index results
unfolding publish_all nat_ord
publish_all-lookup first [] results db index h = refl
publish_all-lookup first ((i, batch) ∷ more) results db index h =
    publish_all-lookup (suc first) more (upsert i (ok first) results) (publish_state first batch db)
      index h.1
    ∙ ground (arith, lookup-upsert results i (ok first) index, h.0)

publish_all-Sequenced :
    (first : ℕ) (batches : List (ℕ × Prepared)) (results : List (ℕ × Result Error ℕ)) (db : Engine)
    → IsSorted batches
    → Sequenced first batches (publish_all first batches results db).0
unfolding publish_all nat_ord
publish_all-Sequenced first [] results db s = tt
publish_all-Sequenced first ((i, batch) ∷ more) results db s =
    let next = publish_state first batch db in
    (
      publish_all-lookup (suc first) more (upsert i (ok first) results) next i s.0
          ∙ ground (arith, lookup-upsert results i (ok first) i),
      publish_all-Sequenced (suc first) more (upsert i (ok first) results) next s.1,
    )

publish_all-lsn :
    (first : ℕ) (batches : List (ℕ × Prepared)) (results : List (ℕ × Result Error ℕ)) (db : Engine)
    → db.state.lsn + 1 ≡ first
    → ((publish_all first batches results db).1.state.lsn ≡ db.state.lsn + length batches)
      × ((publish_all first batches results db).1.wal ≡ db.wal)
unfolding publish_all publish_state refresh_overlay_bytes
publish_all-lsn first [] results db h = (omega arith, refl)
publish_all-lsn first ((i, batch) ∷ more) results db h =
    let next = publish_state first batch db in
    let rest = publish_all-lsn (suc first) more (upsert i (ok first) results) next (omega arith) in
    (rest.0 ∙ omega (arith, h), rest.1 ∙ (publish_entities-frame _ _).0)

abbrev pub left : Preparation → Active
left (ready a frames) = a
left (failed e a) = a

abbrev pub frames_of : Preparation → List Bytes
frames_of (ready a frames) = frames
frames_of (failed e a) = []

-- All batches are committed: what they staged is in the committed state, under their sequences,
-- and readers see that state.
pub record Committed (db : Engine) (p : Preparation) (results : List (ℕ × Result Error ℕ))
    (after : Engine) : Type 0 where
  pub last : after.state.lsn ≡ db.state.lsn + length (left p).batches
  pub tables : after.state.catalog ≡ catalog_after (left p).batches db.state.catalog
  pub entities :
      (key : ℕ × ℕ)
      → get after.state.overlay.entries key
        ≡ entity_after (db.state.lsn + 1) (left p).batches key (get db.state.overlay.entries key)
  pub seen : after.readers ≡ after.state
  pub logged : after.wal ≡ db.wal ++ join_frames (frames_of p)
  pub sequences : Sequenced (db.state.lsn + 1) (left p).batches results

-- All batches have the same error, and the committed state is as it was.
pub record Untouched (db : Engine) (p : Preparation) (results : List (ℕ × Result Error ℕ))
    (after : Engine) : Type 0 where
  pub same_state : after.state ≡ db.state
  pub same_readers : after.readers ≡ db.readers
  pub error : Error
  pub failures : AllFailed error (left p).batches results

write_group-outcome :
    (written : Result (IoError × ℕ) (Unit {0})) (a : Active) (frames : List Bytes) (db : Engine)
    → IsSorted a.batches
    → AreMaps a.batches
    → IsOrdered db.state.overlay.entries
    → Committed db
        (ready a frames)
        (write_group written a frames db).0
        (write_group written a frames db).1
      ⊎ Untouched db
          (ready a frames)
          (write_group written a frames db).0
          (write_group written a frames db).1
unfolding write_group
write_group-outcome (err (io, reached)) a frames db s m o = inr (record {
  same_state = refl;
  same_readers = refl;
  error = commit_unknown io;
  failures = fail_all-AllFailed (commit_unknown io) a.batches a.results;
})
write_group-outcome (ok tt) a frames db s m o =
    let started : Engine = record db {
      wal = db.wal ++ join_frames frames;
      wal_bytes = db.wal_bytes + length (join_frames frames);
    } in
    let (last, logged) = publish_all-lsn (db.state.lsn + 1) a.batches a.results started refl in
    inl (record {
      last = last;
      tables = publish_all-catalog (db.state.lsn + 1) a.batches a.results started;
      entities = λ key. publish_all-get (db.state.lsn + 1) a.batches a.results started key m o;
      seen = refl;
      logged = logged;
      sequences = publish_all-Sequenced (db.state.lsn + 1) a.batches a.results started s;
    })

Untouched-failures :
    (db : Engine) (p : Preparation) (e : Error) (results : List (ℕ × Result Error ℕ))
    → AllFailed e (left p).batches results
    → Untouched db p results db
Untouched-failures db p e results h = record {
  same_state = refl;
  same_readers = refl;
  error = e;
  failures = h;
}

pub finish_group-outcome :
    (written : Result (IoError × ℕ) (Unit {0})) (db : Engine) (p : Preparation)
    → IsSorted (left p).batches
    → (length (frames_of p) ≡ 0 → (left p).batches ≡ [])
    → AreMaps (left p).batches
    → IsOrdered db.state.overlay.entries
    → Committed db p (finish_group written db p).0 (finish_group written db p).1
      ⊎ Untouched db p (finish_group written db p).0 (finish_group written db p).1
unfolding finish_group
finish_group-outcome written db (failed e a) s h m o =
    inr (Untouched-failures db (failed e a) e _ (fail_all-AllFailed e a.batches a.results))
finish_group-outcome written db (ready a frames) s h m o =
    elim (Bool-cases (
      ltb db.limits.max_uncheckpointed_wal_bytes
        (saturating_add db.wal_bytes (length (join_frames frames))))) [
          | inl y ↦
              rw (y, if◌then◌else◌)
                (inr (
                  Untouched-failures db (ready a frames) _ _
                    (fail_all-AllFailed _ a.batches a.results)))
          | inr x ↦ elim (Bool-cases (length frames == 0)) [
            | inl y ↦
                rw (x, if◌then◌else◌)
                  (rw (y, if◌then◌else◌)
                    (inr (
                      Untouched-failures db (ready a frames) needs_recovery a.results
                        (rw (h (ground arith)) tt))))
            | inr y ↦
                rw (x, if◌then◌else◌)
                  (rw (y, if◌then◌else◌) (write_group-outcome written a frames db s m o))
          ]
        ]

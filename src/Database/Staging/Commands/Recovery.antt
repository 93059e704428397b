-- ===== src/Database/Staging/Commands/Recovery.antt =====
-- The recovery of a transaction from its log record (database.rs), and the bytes of that record.
use eve_db.Base.{
  ◌+◌, ◌^◌, ◌≤◌, ◌<◌, ◌≡◌, refl, ap, ◌∙◌, true, false, List, [], ◌∷◌, ◌++◌, arith, Error, Result,
  ok, sym, All, All-append, All-append_left, All-append_right,
}
use mathlib.Core.Path.{subst}
use eve_db.Database.Catalog.Numbers.{AreAdmitted}
use eve_db.Database.Operations.RoundTrip.{IsOperation}
use eve_db.Database.Staging.Commands.Admissions.{IsTypedOperation, run-IsOperation}
use eve_db.Base.Order.{nat_ord}
use eve_db.Database.{Operation}
use eve_db.Database.Operations.{encoded_len}
use eve_db.Database.Operations.Sizes.{sum_len}
use eve_db.Database.Staging.{run}
use eve_db.Database.Staging.Actions
use eve_db.Database.Staging.Actions.{
  Store, Staging, World, ReadState, Options, Action, Sizes, ◌>>=◌, ◌>>◌, gets, continue,
}
use eve_db.Database.Staging.Commands.{recover_operation, recover_all}
use eve_db.Database.Staging.Commands.Follows.{Same, Repeats, split_bind}
use eve_db.Database.Staging.Commands.Executions.{Follows-run}
use eve_db.Database.Staging.Commands.Frames.{Outcome, ran, refused, aborted}

sum_len-append :
    (xs : List Operation) (op : Operation) → sum_len (xs ++ op ∷ []) ≡ sum_len xs + encoded_len op
sum_len-append [] op = omega arith
sum_len-append (x ∷ xs) op = omega (arith, sum_len-append xs op)

-- An admitted transaction, and a recovery that ran its operations and is at the same catalog and
-- entities. The bytes that are reserved are those of the log record, and its operations can be
-- decoded where they are of the Rust types.
pub record Recovered (sizes : Sizes) (start s : Store) : Type 0 where
  pub admitted : s.staging.permit ≡ true
  pub replay : Repeats (recover_all sizes s.staging.operations) s start tt
  pub decodes :
      All IsTypedOperation s.staging.operations
      → All IsOperation s.staging.operations × AreAdmitted s.staging.catalog
  pub reserved : s.staging.reservation.bytes ≡ 8 + sum_len s.staging.operations
  pub fits : s.staging.reservation.bytes < 2 ^ 64
  pub bounded : s.staging.reservation.bytes ≤ s.staging.options.limits.max_transaction_bytes

abbrev pub Logged : Sizes → Store → Store → Type 0
Logged sizes start s = s.staging.failed ≡ false → Recovered sizes start s

Repeats-recover_operation :
    (sizes : Sizes) (op : Operation) (s s' t : Store)
    → run sizes op s ≡ (ok tt, s')
    → Same s t
    → Repeats (recover_operation sizes op) s' t tt
unfolding recover_operation
Repeats-recover_operation sizes op s s' t h same =
    let r = (Follows-run sizes op).repeat s s' t tt h same in
    record { after = r.after; succeeds = rw r.succeeds refl; same_after = r.same_after }

-- One operation more, at the end.
recover_all-append :
    (sizes : Sizes) (ops : List Operation) (op : Operation) (start t u : Store)
    → recover_all sizes ops start ≡ (ok tt, t)
    → recover_operation sizes op t ≡ (ok tt, u)
    → recover_all sizes (ops ++ op ∷ []) start ≡ (ok tt, u)
unfolding recover_all ◌>>=◌ Actions.pure
recover_all-append sizes [] op start t u h k = ground (arith, h, k)
recover_all-append sizes (x ∷ ops) op start t u h k =
    let (_, n, first, rest) =
      split_bind (recover_operation sizes x) (λ _. recover_all sizes ops) h in
    ap (continue (λ _. recover_all sizes (ops ++ op ∷ []))) first
    ∙ recover_all-append sizes ops op n t u rest k

-- The operations that can be decoded, with the one that was run.
decodes-append :
    (sizes : Sizes) (op : Operation) (s t : Store)
    → run sizes op s ≡ (ok tt, t)
    → (All IsTypedOperation s.staging.operations
        → All IsOperation s.staging.operations × AreAdmitted s.staging.catalog)
    → encoded_len op < 2 ^ 64
    → All IsTypedOperation (s.staging.operations ++ op ∷ [])
    → All IsOperation (s.staging.operations ++ op ∷ []) × AreAdmitted t.staging.catalog
decodes-append sizes op s t e before size typed =
    let (done, a) =
      before (All-append_left IsTypedOperation s.staging.operations (op ∷ []) typed) in
    let last = All-append_right IsTypedOperation s.staging.operations (op ∷ []) typed in
    let (valid, after) = run-IsOperation sizes op s t e a last.0 size in
    (All-append IsOperation s.staging.operations (op ∷ []) done (valid, tt), after)

pub Logged-Outcome :
    (sizes : Sizes) (op : Operation) (start s : Store) (r : Result Error (Unit {0}) × Store)
    → run sizes op s ≡ r
    → Outcome s op r
    → Logged sizes start s
    → Logged sizes start r.1
Logged-Outcome sizes op start s r e (refused _) l = l
Logged-Outcome sizes op start s r e (aborted _ t f) l = λ h. absurd (ground arith)
Logged-Outcome sizes op start s r e (ran t added unfailed pushed) l = λ h.
    let before = l unfailed in
    let next =
      Repeats-recover_operation sizes op s t before.replay.after e before.replay.same_after in
    let (fits, bounded) = added.bytes_fit before.admitted in
    let longer = ap sum_len pushed ∙ sum_len-append s.staging.operations op in
    let total : t.staging.reservation.bytes ≡ s.staging.reservation.bytes + encoded_len op =
      omega (arith, added.bytes, fits) in
    let limit = ap (λ o. o.limits.max_transaction_bytes) added.options in
    record {
      admitted = added.permit ∙ before.admitted;
      replay = record {
        after = next.after;
        succeeds =
            ap (λ ops. recover_all sizes ops start) pushed
            ∙ recover_all-append sizes s.staging.operations op start _ _ before.replay.succeeds
                next.succeeds;
        same_after = next.same_after;
      };
      decodes =
          subst
            (λ ops. All IsTypedOperation ops → All IsOperation ops × AreAdmitted t.staging.catalog)
            (sym pushed) (decodes-append sizes op s t e before.decodes (omega (arith, fits)));
      reserved = omega (arith, total, longer, before.reserved);
      fits = omega (arith, total, fits);
      bounded = omega (arith, total, limit, bounded);
    }

-- ===== src/Database/Staging/Commands/Executions.antt =====
-- `Staging::run` (database.rs) in recovery, after an admitted transaction.
use eve_db.Base.{◌≡◌, refl, arith, if◌then◌else◌, Error, Result, ok, err}
use eve_db.Base.Order.{nat_ord, pair_ord}
use eve_db.Database.{Operation}
use eve_db.Database.Staging.{admitted, ready, run}
use eve_db.Database.Staging.Actions.{Store, Action, Sizes, recorded}
use eve_db.Database.Staging.Commands.Rules.{Rules, cost-P, execute-P, put_catalog-Puts}
use eve_db.Database.Staging.Commands.Follows.{
  Same, Repeats, Follows, Follows-bind, Follows-pure, Follows-fail, Follows-lift, Follows-gets,
  Follows-if, Follows-grow_decoded_by, Follows-admit_bytes, Follows-check_permitted,
  Follows-definition, Follows-committed_definition, Follows-read_memory, Follows-put_catalog,
  Follows-stage,
}

Follows-rules : Rules (λ A m. Follows m)
Follows-rules = record {
  bind = Follows-bind;
  pure = Follows-pure;
  fail = Follows-fail;
  lift = Follows-lift;
  gets = Follows-gets;
  grow_decoded_by = Follows-grow_decoded_by;
  check_permitted = Follows-check_permitted;
  definition = Follows-definition;
  committed_definition = Follows-committed_definition;
  read_memory = Follows-read_memory;
  stage = Follows-stage;
}

Follows-admitted : (sizes : Sizes) (op : Operation) → Follows (admitted sizes op)
unfolding admitted
Follows-admitted sizes op = Follows-bind (cost-P Follows-rules sizes op) (λ decoded.
    Follows-bind (Follows-grow_decoded_by decoded) (λ _.
      Follows-bind (Follows-check_permitted _ _ _ _) (λ _.
        Follows-bind (Follows-check_permitted _ _ _ _) (λ _.
          Follows-bind (Follows-admit_bytes _) (λ _.
            execute-P Follows-rules sizes op
              (put_catalog-Puts Follows-rules Follows-put_catalog op))))))

Follows-ready : Follows ready
unfolding ready
Follows-ready = record {
  repeat = λ s s' t a h same. record {
    after = t;
    succeeds = rw (same.is_sound, if◌then◌else◌) refl;
    same_after = ground (arith, h, same);
  };
}

Follows-recorded :
    (op : Operation) {m : Action (Unit {0})} → Follows m → Follows (λ s. recorded op (m s))
unfolding recorded
Follows-recorded op {m = m} p = record {
  repeat = λ s s' t a h same. step s s' t a (m s) refl h same;
}
  where
    step :
        (s s' t : Store) (a : Unit {0}) (r : Result Error (Unit {0}) × Store)
        → m s ≡ r
        → recorded op r ≡ (ok a, s')
        → Same s t
        → Repeats (λ v. recorded op (m v)) s' t a
    step s s' t a (err e, n) k h same = absurd (ground arith)
    step s s' t a (ok tt, n) k h same =
        let inner = p.repeat s n t tt k same in
        record {
          after = (recorded op (ok tt, inner.after)).1;
          succeeds = rw inner.succeeds refl;
          same_after = ground (arith, h, inner.same_after);
        }

pub Follows-run : (sizes : Sizes) (op : Operation) → Follows (run sizes op)
unfolding run
Follows-run sizes op = Follows-bind Follows-ready (λ _.
    Follows-bind (Follows-gets _ (λ s u same. ground (arith, same))) (λ failed.
      Follows-if failed (Follows-fail _) (Follows-recorded op (Follows-admitted sizes op))))

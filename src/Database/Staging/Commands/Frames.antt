-- ===== src/Database/Staging/Commands/Frames.antt =====
-- What the execution of an operation in `Staging` (database.rs) leaves alone, and what `run` adds.
use eve_db.Base.{
  ℕ, ◌+◌, ◌^◌, ◌≤◌, ◌<◌, ◌≡◌, refl, sym, ◌∙◌, true, false, [], ◌∷◌, ◌++◌, arith, length, Error,
  Result, ok, err, String, invalid, plain, needs_recovery, Bool-cases, inl, inr,
}
use eve_db.Base.Order.{nat_ord, pair_ord}
use mathlib.Core.Path.{subst}
use eve_db.Resources.{Limits, MemoryReservation, ResourceUsage, add_usize, check}
use eve_db.Resources
use eve_db.Database.{Operation}
use eve_db.Database.Operations.{encoded_len}
use eve_db.Database.Staging.{admitted, ready, run}
use eve_db.Database.Staging.Actions
use eve_db.Database.Staging.Actions.{
  Store, Staging, Action, Sizes, ◌>>=◌, ◌>>◌, gets, recorded, continue, released, with_memory,
  charged, grow_decoded_by, check_permitted, admit_bytes,
}
use eve_db.Database.Staging.Commands.Follows.{split_bind}
use eve_db.Database.Staging.Commands.Rules.{Rules, cost-P, execute-P, put_catalog-Puts}
use eve_db.Model.{Table}

pub record Unchanged (s t : Store) : Type 0 where
  pub base : t.staging.base ≡ s.staging.base
  pub options : t.staging.options ≡ s.staging.options
  pub permit : t.staging.permit ≡ s.staging.permit
  pub operations : t.staging.operations ≡ s.staging.operations
  pub failed : t.staging.failed ≡ s.staging.failed
  pub bytes : t.staging.reservation.bytes ≡ s.staging.reservation.bytes

pub record Frames {ℓ} {A : Type ℓ} (m : Action A) : Type ℓ where
  pub frame : (s : Store) → Unchanged s (m s).1

Unchanged-trans : (s t u : Store) → Unchanged s t → Unchanged t u → Unchanged s u
Unchanged-trans s t u h k = ground (arith, h, k)

Unchanged-self : (s : Store) → Unchanged s s
Unchanged-self s = ground arith

Unchanged-continue {ℓ κ} :
    {A : Type ℓ} {B : Type κ} (f : A → Action B) (s : Store) (r : Result Error A × Store)
    → Unchanged s r.1
    → ((a : A) → Frames (f a))
    → Unchanged s (continue f r).1
Unchanged-continue f s (ok a, t) h k = Unchanged-trans s t (f a t).1 h ((k a).frame t)
Unchanged-continue f s (err e, t) h k = h

Unchanged-grow_decoded_by : (bytes : ℕ) (s : Store) → Unchanged s (grow_decoded_by bytes s).1
unfolding grow_decoded_by Resources.grow_decoded
Unchanged-grow_decoded_by bytes s = ground arith

Unchanged-with_memory {ℓ} :
    {A : Type ℓ} (m : Action A) (s : Store) (r : Result Error (MemoryReservation × ResourceUsage))
    → Frames m
    → Unchanged s (with_memory m s r).1
Unchanged-with_memory m s (err e) p = Unchanged-self s
Unchanged-with_memory m s (ok (memory, usage)) p =
    let started : Store = record s { world = record s.world { usage = usage } } in
    let inner = p.frame started in ground (arith, inner)

Frames-rules : Rules (λ A m. Frames m)
unfolding Actions.◌>>=◌ Actions.pure Actions.fail Actions.lift Actions.gets Actions.check_permitted
    Actions.definition Actions.committed_definition Actions.read_memory Actions.stage
Frames-rules = record {
  bind = λ p q. record { frame = λ s. Unchanged-continue _ s _ (p.frame s) q };
  pure = λ a. record { frame = Unchanged-self };
  fail = λ e. record { frame = Unchanged-self };
  lift = λ r. record { frame = Unchanged-self };
  gets = λ f e. record { frame = Unchanged-self };
  grow_decoded_by = λ bytes. record { frame = λ s. Unchanged-grow_decoded_by bytes s };
  check_permitted = λ resource used additional limit. record { frame = λ s. ground arith };
  definition = λ id. record { frame = λ s. ground arith };
  committed_definition = λ id. record { frame = λ s. ground arith };
  read_memory = λ bytes p. record { frame = λ s. Unchanged-with_memory _ s _ p };
  stage = λ t id found. record { frame = λ s. ground arith };
}

Frames-put_catalog : (id : ℕ) (table : Table) → Frames (Actions.put_catalog id table)
unfolding Actions.put_catalog
Frames-put_catalog id table = record { frame = λ s. ground arith }

-- What an operation that was run adds to the staging.
pub record Ran (s t : Store) (op : Operation) : Type 0 where
  pub base : t.staging.base ≡ s.staging.base
  pub options : t.staging.options ≡ s.staging.options
  pub permit : t.staging.permit ≡ s.staging.permit
  pub failed : t.staging.failed ≡ s.staging.failed
  pub bytes : t.staging.reservation.bytes ≡ add_usize s.staging.reservation.bytes (encoded_len op)
  pub bytes_fit :
      s.staging.permit ≡ true
      → (s.staging.reservation.bytes + encoded_len op < 2 ^ 64)
        × (s.staging.reservation.bytes + encoded_len op
            ≤ s.staging.options.limits.max_transaction_bytes)
  pub count_fits :
      s.staging.permit ≡ true
      → length s.staging.operations + 1 ≤ s.staging.options.limits.max_transaction_operations

check_permitted-ok :
    (resource : String) (used : Staging → ℕ) (additional : ℕ) (limit : Limits → ℕ) (s t : Store)
    → check_permitted resource used additional limit s ≡ (ok tt, t)
    → (t ≡ s)
      × (s.staging.permit ≡ true → used s.staging + additional < 2 ^ 64)
      × (s.staging.permit ≡ true → used s.staging + additional ≤ limit s.staging.options.limits)
unfolding check_permitted check
check_permitted-ok resource used additional limit s t h =
    (ground arith, λ e. ground arith, λ e. ground arith)

admit_bytes-ok :
    (bytes : ℕ) (s t : Store)
    → admit_bytes bytes s ≡ (ok tt, t)
    → Unchanged
        (record s {
          staging = record s.staging {
            reservation = record s.staging.reservation {
              bytes = add_usize s.staging.reservation.bytes bytes;
            };
          };
        })
        t
unfolding admit_bytes Resources.grow Resources.recover
admit_bytes-ok bytes s t h = ground arith

-- The five charges and checks, and the execution, each from the store that the one before it left.
steps-Ran :
    (op : Operation) (s a b c d k t : Store)
    → Unchanged s a
    → Unchanged a b
    → check_permitted "transaction operations"
        (λ self. length self.operations)
        1
        (λ l. l.max_transaction_operations)
        b
      ≡ (ok tt, c)
    → check_permitted "transaction bytes"
        (λ self. self.reservation.bytes)
        (encoded_len op)
        (λ l. l.max_transaction_bytes)
        c
      ≡ (ok tt, d)
    → admit_bytes (encoded_len op) d ≡ (ok tt, k)
    → Unchanged k t
    → Ran s t op × (t.staging.operations ≡ s.staging.operations)
steps-Ran op s a b c d k t p q e f g r =
    let count = check_permitted-ok _ _ _ _ b c e in
    let bytes = check_permitted-ok _ _ _ _ c d f in
    let charge = admit_bytes-ok _ d k g in
    let start = Unchanged-trans s a b p q in
    let same : d ≡ b = bytes.0 ∙ count.0 in
    (
      record {
        base = ground (arith, start, same, charge, r);
        options = ground (arith, start, same, charge, r);
        permit = ground (arith, start, same, charge, r);
        failed = ground (arith, start, same, charge, r);
        bytes = ground (arith, start, same, charge, r);
        bytes_fit = λ h. ground (arith, start, count.0, bytes, h);
        count_fits = λ h. ground (arith, start, count, h);
      },
      ground (arith, start, same, charge, r),
    )

after {ℓ} :
    {A : Type ℓ} (m : Action A) (s t : Store) (a : A) → Frames m → m s ≡ (ok a, t) → Unchanged s t
after m s t a p e = subst (λ r. Unchanged s r.1) e (p.frame s)

admitted-Ran :
    (sizes : Sizes) (op : Operation) (s t : Store)
    → admitted sizes op s ≡ (ok tt, t)
    → Ran s t op × (t.staging.operations ≡ s.staging.operations)
unfolding admitted
admitted-Ran sizes op s t h =
    let (decoded, a, e, h) = split_bind _ _ h in
    let (_, b, f, h) = split_bind _ _ h in
    let (_, c, g, h) = split_bind _ _ h in
    let (_, d, i, h) = split_bind _ _ h in
    let (_, k, j, h) = split_bind _ _ h in
    steps-Ran op s a b c d k t (after _ s a decoded (cost-P Frames-rules sizes op) e)
      (after _ a b tt (Frames-rules.grow_decoded_by decoded) f) g i j
      (after _ k t tt
        (execute-P Frames-rules sizes op (put_catalog-Puts Frames-rules Frames-put_catalog op)) h)

-- How `run` ends: the operation is recorded, or the staging is as it was, or it is aborted.
pub data Outcome (s : Store) (op : Operation) : Result Error (Unit {0}) × Store → Type 0 where
  ran :
      (t : Store)
      → Ran s t op
      → s.staging.failed ≡ false
      → t.staging.operations ≡ s.staging.operations ++ op ∷ []
      → Outcome s op (ok tt, t)
  refused : (e : Error) → Outcome s op (err e, s)
  aborted : (e : Error) (t : Store) → t.staging.failed ≡ true → Outcome s op (err e, t)

recorded-Outcome :
    (sizes : Sizes) (op : Operation) (s : Store) (r : Result Error (Unit {0}) × Store)
    → admitted sizes op s ≡ r
    → s.staging.failed ≡ false
    → Outcome s op (recorded op r)
unfolding recorded
recorded-Outcome sizes op s (ok tt, t) e h =
    let (added, same) = admitted-Ran sizes op s t e in
    ran _ (ground (arith, added)) h (ground (arith, same))
recorded-Outcome sizes op s (err e, t) k h = aborted e _ refl

pub run-Outcome : (sizes : Sizes) (op : Operation) (s : Store) → Outcome s op (run sizes op s)
unfolding run ready ◌>>=◌ gets Actions.fail
run-Outcome sizes op s = elim (Bool-cases s.world.poisoned) [
  | inl y ↦
      let e : run sizes op s ≡ (err needs_recovery, s) = ground (arith, y) in
      subst (Outcome s op) (sym e) (refused _)
  | inr x ↦ elim (Bool-cases s.staging.failed) [
    | inl y ↦
        let e : run sizes op s
            ≡ (err (invalid (plain "transaction was aborted by an earlier operation")), s) =
          ground (arith, x, y) in
        subst (Outcome s op) (sym e) (refused _)
    | inr y ↦
        let e : run sizes op s ≡ recorded op (admitted sizes op s) = ground (arith, x, y) in
        subst (Outcome s op) (sym e) (recorded-Outcome sizes op s _ refl y)
  ]
]

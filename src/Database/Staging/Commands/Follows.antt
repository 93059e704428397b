-- ===== src/Database/Staging/Commands/Follows.antt =====
-- Actions of an admitted transaction, and the same actions in recovery: what succeeds in the one
-- does in the other, on the same catalog and entities, whatever the counters are.
use eve_db.Base.{
  ℕ, ◌≡◌, ◌≢◌, ◌⊎◌, refl, Bool, true, false, arith, if◌then◌else◌, Error, Result, ok, err, String,
  inl, inr,
}
use eve_db.Base.Order.{nat_ord, pair_ord}
use eve_db.Resources.{
  MemoryKind, MemoryReservation, drop_memory, new_memory, Limits, Reservation, ResourceUsage, check,
}
use eve_db.Resources
use eve_db.Model.{Table}
use eve_db.Model.History.{EntityData}
use eve_db.Database.Staging.Actions.{
  Store, Staging, Action, continue, ◌>>=◌, pure, fail, lift, gets, charged, grow_decoded_by,
  check_permitted, admit_bytes, definition, committed_definition, with_memory, released,
  read_memory, stage, put_catalog,
}

-- The second staging is a recovery that has come to the same state as the first.
pub record Same (s t : Store) : Type 0 where
  pub same_base : t.staging.base ≡ s.staging.base
  pub same_options : t.staging.options ≡ s.staging.options
  pub same_catalog : t.staging.catalog ≡ s.staging.catalog
  pub same_staged : t.staging.staged ≡ s.staging.staged
  pub same_operations : t.staging.operations ≡ s.staging.operations
  pub same_failed : t.staging.failed ≡ s.staging.failed
  pub unlimited : t.staging.permit ≡ false
  pub is_recovering : t.world.recovering ≡ true
  pub is_sound : t.world.poisoned ≡ false

-- What an action that succeeded does in recovery.
pub record Repeats {ℓ} {A : Type ℓ} (m : Action A) (s' t : Store) (a : A) : Type ℓ where
  pub after : Store
  pub succeeds : m t ≡ (ok a, after)
  pub same_after : Same s' after

pub record Follows {ℓ} {A : Type ℓ} (m : Action A) : Type ℓ where
  pub repeat : (s s' t : Store) (a : A) → m s ≡ (ok a, s') → Same s t → Repeats m s' t a

split {ℓ κ} :
    {A : Type ℓ} {B : Type κ} (f : A → Action B) (b : B) (s' : Store) (r : Result Error A × Store)
    → continue f r ≡ (ok b, s')
    → (a : A) × (m : Store) × (r ≡ (ok a, m)) × (f a m ≡ (ok b, s'))
split f b s' (ok a, m) h = (a, m, refl, h)
split f b s' (err e, m) h = absurd (ground arith)

-- The two halves of a sequence that succeeded.
pub split_bind {ℓ κ} :
    {A : Type ℓ} {B : Type κ} (m : Action A) (f : A → Action B) {b : B} {s s' : Store}
    → (m >>= f) s ≡ (ok b, s')
    → (a : A) × (n : Store) × (m s ≡ (ok a, n)) × (f a n ≡ (ok b, s'))
unfolding ◌>>=◌
split_bind m f {b = b} {s = s} {s' = s'} h = split f b s' (m s) h

pub Follows-bind {ℓ κ} :
    {A : Type ℓ} {B : Type κ} {m : Action A} {f : A → Action B}
    → Follows m
    → ((a : A) → Follows (f a))
    → Follows (m >>= f)
unfolding ◌>>=◌
Follows-bind {m = m} {f = f} p q = record {
  repeat = λ s s' t b h same.
      let (a, n, first, second) = split f b s' (m s) h in
      let left = p.repeat s n t a first same in
      let right = (q a).repeat n s' left.after b second left.same_after in
      record {
        after = right.after;
        succeeds = rw left.succeeds right.succeeds;
        same_after = right.same_after;
      };
}

pub Follows-pure {ℓ} : {A : Type ℓ} (a : A) → Follows (pure a)
unfolding pure
Follows-pure a = record {
  repeat = λ s s' t b h same. record {
    after = t;
    succeeds = ground (arith, h);
    same_after = ground (arith, h, same);
  };
}

pub Follows-fail {ℓ} : {A : Type ℓ} (e : Error) → Follows {A = A} (fail e)
unfolding fail
Follows-fail e = record { repeat = λ s s' t b h same. absurd (ground arith) }

pub Follows-lift {ℓ} : {A : Type ℓ} (r : Result Error A) → Follows (lift r)
unfolding lift pure fail
Follows-lift (ok a) = Follows-pure a
Follows-lift (err e) = Follows-fail e

-- A read of what the two stagings have in common.
pub Follows-gets {ℓ} :
    {A : Type ℓ} (f : Staging → A)
    → ((s t : Store) → Same s t → f t.staging ≡ f s.staging)
    → Follows (gets f)
unfolding gets
Follows-gets f e = record {
  repeat = λ s s' t b h same. record {
    after = t;
    succeeds = ground (arith, h, e s t same);
    same_after = ground (arith, h, same);
  };
}

pub Follows-if {ℓ} :
    {A : Type ℓ} (b : Bool) {m n : Action A} → Follows m → Follows n → Follows (if b then m else n)
Follows-if true p q = p
Follows-if false p q = q

Result-cases {ℓ} :
    {A : Type ℓ} (r : Result Error A) → ((a : A) × (r ≡ ok a)) ⊎ ((e : Error) × (r ≡ err e))
Result-cases (ok a) = inl (a, refl)
Result-cases (err e) = inr (e, refl)

-- A charge that recovery does not refuse; when granted it changes nothing else.
Follows-charged :
    (r : Store → Result Error (Reservation × ResourceUsage))
    → ((t : Store) (e : Error) → t.staging.permit ≡ false → r t ≢ err e)
    → Follows (λ s. charged s (r s))
Follows-charged r granted = record { repeat = λ s s' t a h same. step s s' t (r s) h same }
  where
    step :
        (s s' t : Store) (y : Result Error (Reservation × ResourceUsage)) {a : Unit {0}}
        → charged s y ≡ (ok a, s')
        → Same s t
        → Repeats (λ s. charged s (r s)) s' t a
    step s s' t (err e) h same = absurd (ground arith)
    step s s' t (ok (b, c)) h same = elim (Result-cases (r t)) [
      | inr (e, k) ↦ absurd (granted t e same.unlimited k)
      | inl ((reservation, usage), e) ↦ record {
        after = record t {
          staging = record t.staging { reservation = reservation };
          world = record t.world { usage = usage };
        };
        succeeds = rw e refl;
        same_after = ground (arith, h, same);
      }
    ]

pub Follows-grow_decoded_by : (bytes : ℕ) → Follows (grow_decoded_by bytes)
unfolding grow_decoded_by Resources.grow_decoded
Follows-grow_decoded_by bytes = Follows-charged _ (λ t e h k. ground arith)

pub Follows-admit_bytes : (bytes : ℕ) → Follows (admit_bytes bytes)
unfolding admit_bytes
Follows-admit_bytes bytes = Follows-charged _ (λ t e h k. ground arith)

pub Follows-check_permitted :
    (resource : String) (used : Staging → ℕ) (additional : ℕ) (limit : Limits → ℕ)
    → Follows (check_permitted resource used additional limit)
unfolding check_permitted
Follows-check_permitted resource used additional limit = record {
  repeat = λ s s' t a h same. record {
    after = t;
    succeeds = rw (same.unlimited, if◌then◌else◌) refl;
    same_after = ground (arith, h, same);
  };
}

pub Follows-definition : (id : ℕ) → Follows (definition id)
unfolding definition
Follows-definition id = record {
  repeat = λ s s' t a h same. record {
    after = t;
    succeeds = ground (arith, h, same.same_catalog);
    same_after = ground (arith, h, same);
  };
}

pub Follows-committed_definition : (id : ℕ) → Follows (committed_definition id)
unfolding committed_definition
Follows-committed_definition id = record {
  repeat = λ s s' t a h same. record {
    after = t;
    succeeds = ground (arith, h, same.same_base);
    same_after = ground (arith, h, same);
  };
}

pub Follows-put_catalog : (id : ℕ) (table : Table) → Follows (put_catalog id table)
unfolding put_catalog
Follows-put_catalog id table = record {
  repeat = λ s s' t a h same. record {
    after = (put_catalog id table t).1;
    succeeds = refl;
    same_after = ground (arith, h, same);
  };
}

pub Follows-stage : (t id : ℕ) (found : EntityData) → Follows (stage t id found)
unfolding stage
Follows-stage t id found = record {
  repeat = λ s s' u a h same. record {
    after = (stage t id found u).1;
    succeeds = refl;
    same_after = ground (arith, h, same);
  };
}

split_released {ℓ} :
    {A : Type ℓ} (memory : MemoryReservation) (a : A) (s' : Store) (r : Result Error A × Store)
    → released memory r ≡ (ok a, s')
    → (n : Store) × (r ≡ (ok a, n)) × (s' ≡ (released memory r).1)
split_released memory a s' (ok b, n) h = (n, ground arith, ground arith)
split_released memory a s' (err e, n) h = absurd (ground arith)

pub Follows-read_memory {ℓ} :
    {A : Type ℓ} (bytes : ℕ) {m : Action A} → Follows m → Follows (read_memory bytes m)
unfolding read_memory Resources.new_memory Resources.grow_memory
Follows-read_memory {A = A} bytes {m = m} p = record {
  repeat = λ s s' t a h same. step s s' t _ a h same;
}
  where
    held : Store → Result Error (MemoryReservation × ResourceUsage)
    held t = new_memory t.staging.base.limits MemoryKind.read bytes t.world.recovering t.world.usage

    granted : (t : Store) (e : Error) → t.world.recovering ≡ true → held t ≢ err e
    granted t e h k = ground arith

    step :
        (s s' t : Store) (y : Result Error (MemoryReservation × ResourceUsage)) (a : A)
        → with_memory m s y ≡ (ok a, s')
        → Same s t
        → Repeats (read_memory bytes m) s' t a
    step s s' t (err e) a h same = absurd (ground arith)
    step s s' t (ok (memory, usage)) a h same = elim (Result-cases (held t)) [
      | inr (e, k) ↦ absurd (granted t e same.is_recovering k)
      | inl ((mine, counters), k) ↦
          let started : Store = record t { world = record t.world { usage = counters } } in
          let (n, first, last) = split_released memory a s' _ h in
          let inner = p.repeat _ n started a first (ground (arith, same)) in
          record {
            after = record inner.after {
              world = record inner.after.world { usage = drop_memory mine inner.after.world.usage };
            };
            succeeds = rw k (rw inner.succeeds refl);
            same_after = ground (arith, last, inner.same_after);
          }
    ]

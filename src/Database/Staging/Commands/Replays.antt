-- ===== src/Database/Staging/Commands/Replays.antt =====
-- The calls of a client on an admitted transaction (database.rs), and the recovery of its log.
use mathlib.Core.Path.{subst}
use eve_db.Base.{
  ℕ, ◌+◌, ◌^◌, ◌≤◌, ◌<◌, ◌≡◌, refl, sym, ◌∙◌, Bool, true, false, Option, none, some, List, [], ◌∷◌,
  arith, length, if◌then◌else◌, Error, Result, ok, err, All, ltb,
}
use eve_db.Base.Order.{nat_ord}
use eve_db.Resources
use eve_db.Resources.{admit_transaction}
use eve_db.Database.{Operation}
use eve_db.Database.Operations.{encode_ops}
use eve_db.Database.Operations.Sizes.{length-encode_ops}
use eve_db.Database.Operations.RoundTrip.{decode_ops-encode_ops}
use eve_db.Database.Catalog.Numbers.{AreAdmitted}
use eve_db.Database.Staging.Commands.Admissions.{IsTypedOperation}
use eve_db.Database.Staging.{run, schema_of}
use eve_db.Database.Staging.Actions
use eve_db.Database.Staging.Actions.{
  Store, Staging, World, ReadState, Options, Action, Sizes, ◌>>=◌, ◌>>◌, gets, continue,
}
use eve_db.Model.{Field, Schema, Table}
use eve_db.Codec.LittleEndian.{Bytes}
use eve_db.Database.Staging.Methods.{
  new, aborting, table_for_write, create_table, rename_table, alter_table, retain_automatically,
  maintain, is_due, apply_fields, delete_entity,
}
use eve_db.Database.Staging.Commands.{Command, call, calls, recover_all, recover_record}
use eve_db.Database.Staging.Commands.Frames.{run-Outcome}
use eve_db.Database.Staging.Commands.Recovery.{Logged, Logged-Outcome}

-- A method after which the log can be recovered, if it could before.
record Keeps {ℓ} {A : Type ℓ} (sizes : Sizes) (start : Store) (m : Action A) : Type 0 where
  keeps : (s : Store) → Logged sizes start s → Logged sizes start (m s).1

module _ (sizes : Sizes) (start : Store) where
  Keeps-run : (op : Operation) → Keeps sizes start (run sizes op)
  Keeps-run op = record {
    keeps = λ s l. Logged-Outcome sizes op start s _ refl (run-Outcome sizes op s) l;
  }

  Keeps-continue {ℓ κ} :
      {A : Type ℓ} {B : Type κ} (f : A → Action B) (r : Result Error A × Store)
      → Logged sizes start r.1
      → ((a : A) → Keeps sizes start (f a))
      → Logged sizes start (continue f r).1
  Keeps-continue f (ok a, t) l k = (k a).keeps t l
  Keeps-continue f (err e, t) l k = l

  Keeps-bind {ℓ κ} :
      {A : Type ℓ} {B : Type κ} {m : Action A} {f : A → Action B}
      → Keeps sizes start m
      → ((a : A) → Keeps sizes start (f a))
      → Keeps sizes start (m >>= f)
  unfolding ◌>>=◌
  Keeps-bind {m = m} {f = f} p q = record { keeps = λ s l. Keeps-continue f (m s) (p.keeps s l) q }

  -- A read, and a result that is known.
  Keeps-gets {ℓ} : {A : Type ℓ} (f : Staging → A) → Keeps sizes start (gets f)
  unfolding gets
  Keeps-gets f = record { keeps = λ s l. l }

  Keeps-lift {ℓ} : {A : Type ℓ} (r : Result Error A) → Keeps sizes start (Actions.lift r)
  unfolding Actions.lift
  Keeps-lift r = record { keeps = λ s l. l }

  Keeps-pure {ℓ} : {A : Type ℓ} (a : A) → Keeps sizes start (Actions.pure a)
  unfolding Actions.pure
  Keeps-pure a = record { keeps = λ s l. l }

  Keeps-fail {ℓ} : {A : Type ℓ} (e : Error) → Keeps {A = A} sizes start (Actions.fail e)
  unfolding Actions.fail
  Keeps-fail e = record { keeps = λ s l. l }

  Keeps-if {ℓ} :
      {A : Type ℓ} (b : Bool) {m n : Action A}
      → Keeps sizes start m
      → Keeps sizes start n
      → Keeps sizes start (if b then m else n)
  Keeps-if true p q = p
  Keeps-if false p q = q

  Keeps-aborting :
      (r : Result Error Table × Store) → Logged sizes start r.1 → Logged sizes start (aborting r).1
  Keeps-aborting (ok table, t) l = l
  Keeps-aborting (err e, t) l = λ h. absurd (ground arith)

  Keeps-table_for_write : (id : ℕ) → Keeps sizes start (table_for_write id)
  unfolding table_for_write Actions.definition
  Keeps-table_for_write id = record {
    keeps = λ s l.
        let same : (Actions.definition id s).1 ≡ s = ground arith in
        Keeps-aborting (Actions.definition id s) (subst (Logged sizes start) (sym same) l);
  }

  Keeps-create_table :
      (name : Bytes) (schema : Schema) → Keeps sizes start (create_table sizes name schema)
  unfolding create_table
  Keeps-create_table name schema = Keeps-bind (Keeps-gets _) (λ last.
      Keeps-if (ltb (last + 1) (2 ^ 64)) (Keeps-bind (Keeps-run _) (λ _. Keeps-pure (last + 1)))
        (Keeps-fail _))

  Keeps-rename_table : (id : ℕ) (name : Bytes) → Keeps sizes start (rename_table sizes id name)
  unfolding rename_table
  Keeps-rename_table id name = Keeps-bind (Keeps-table_for_write id) (λ table. Keeps-run _)

  Keeps-alter_table :
      (id : ℕ) (fields : List Field) → Keeps sizes start (alter_table sizes id fields)
  unfolding alter_table schema_of
  Keeps-alter_table id fields = Keeps-bind (Keeps-table_for_write id) (λ table.
      Keeps-bind (Keeps-lift _)
        (λ schema. Keeps-if (ltb (schema.version + 1) (2 ^ 64)) (Keeps-run _) (Keeps-fail _)))

  Keeps-retain_automatically :
      (t id : ℕ) (count : Option ℕ) → Keeps sizes start (retain_automatically sizes t id count)
  unfolding retain_automatically
  Keeps-retain_automatically t id none = Keeps-pure tt
  Keeps-retain_automatically t id (some count) = Keeps-run _

  Keeps-maintain : (t id : ℕ) → Keeps sizes start (maintain sizes t id)
  unfolding maintain
  Keeps-maintain t id = Keeps-bind (Keeps-gets _) (λ interval. Keeps-bind (Keeps-gets _) (λ version.
      Keeps-bind (Keeps-if (is_due interval version) (Keeps-run _) (Keeps-pure tt))
        (λ _. Keeps-bind (Keeps-gets _) (λ count. Keeps-retain_automatically t id count))))

  Keeps-call : (command : Command) → Keeps sizes start (call sizes command)
  unfolding call apply_fields delete_entity
  Keeps-call (Command.create_table name schema) =
      Keeps-bind (Keeps-create_table name schema) (λ _. Keeps-pure tt)
  Keeps-call (Command.rename_table id name) = Keeps-rename_table id name
  Keeps-call (Command.alter_table id fields) = Keeps-alter_table id fields
  Keeps-call (Command.create t id fields) = Keeps-run _
  Keeps-call (Command.apply t id fields) = Keeps-bind (Keeps-run _) (λ _. Keeps-maintain t id)
  Keeps-call (Command.delete t id) = Keeps-bind (Keeps-run _) (λ _. Keeps-maintain t id)
  Keeps-call (Command.retain_last t id count) = Keeps-run _
  Keeps-call (Command.snapshot t id) = Keeps-run _

  Logged-world :
      (s : Store) (w : World) → Logged sizes start s → Logged sizes start (record s { world = w })
  Logged-world s w l h =
      let r = l h in
      record {
        admitted = r.admitted;
        replay = record {
          after = r.replay.after;
          succeeds = r.replay.succeeds;
          same_after = ground (arith, r.replay.same_after);
        };
        decodes = r.decodes;
        reserved = r.reserved;
        fits = r.fits;
        bounded = r.bounded;
      }

  calls-Logged :
      (commands : List (World × Command)) (s : Store)
      → Logged sizes start s
      → Logged sizes start (calls sizes commands s)
  unfolding calls
  calls-Logged [] s l = l
  calls-Logged ((w, command) ∷ more) s l =
      calls-Logged more _ ((Keeps-call command).keeps (record s { world = w }) (Logged-world s w l))

-- The two stagings at their start.
record Started (base : ReadState) (options : Options) (permit : Bool) (s : Store) : Type 0 where
  has_base : s.staging.base ≡ base
  has_options : s.staging.options ≡ options
  has_permit : s.staging.permit ≡ permit
  has_catalog : s.staging.catalog ≡ base.catalog
  unstaged : s.staging.staged ≡ []
  unlogged : s.staging.operations ≡ []
  unfailed : s.staging.failed ≡ false
  reserved : s.staging.reservation.bytes ≡ 8

new-admitted :
    (base : ReadState) (options : Options) (w v : World) (s : Store)
    → new base options false w ≡ (ok s, v)
    → Started base options true s
unfolding new Resources.grow admit_transaction
new-admitted base options w v s h = ground arith

new-recovery :
    (base : ReadState) (options : Options) (w v : World) (s : Store)
    → new base options true w ≡ (ok s, v)
    → Started base options false s
      × (s.world.recovering ≡ w.recovering)
      × (s.world.poisoned ≡ w.poisoned)
unfolding new Resources.recover
new-recovery base options w v s h = ground arith

start-Logged :
    (sizes : Sizes) (base : ReadState) (options : Options) (s start : Store)
    → Started base options true s
    → Started base options false start
    → start.world.recovering ≡ true
    → start.world.poisoned ≡ false
    → 8 ≤ options.limits.max_transaction_bytes
    → AreAdmitted base.catalog
    → Logged sizes start s
unfolding recover_all Actions.pure
start-Logged sizes base options s start p q r e h a k = record {
  admitted = p.has_permit;
  replay = record {
    after = start;
    succeeds = rw p.unlogged refl;
    same_after = ground (arith, p, q, r, e);
  };
  decodes = λ _. (rw p.unlogged tt, rw p.has_catalog a);
  reserved = rw p.unlogged p.reserved;
  fits = omega (arith, p.reserved);
  bounded = ground (arith, p, h);
}

-- An admitted transaction that is not aborted after the calls of a client, whatever these returned
-- and whatever the rest of the engine did between them, has reserved the bytes of its log record,
-- within the limit; and recovery of that record, begun on the same view with the same options,
-- succeeds with the catalog and the entities of the transaction. The operations are one or more of
-- their Rust types, a table identifier in them is not zero, and the limit has room for their count;
-- in the catalog of the view each table has valid schemas whose versions count from 1.
pub recover_record-calls :
    (sizes : Sizes) (base : ReadState) (options : Options) (w w' v v' : World) (begun start : Store)
    (commands : List (World × Command))
    → 8 ≤ options.limits.max_transaction_bytes
    → AreAdmitted base.catalog
    → new base options false w ≡ (ok begun, w')
    → new base options true v ≡ (ok start, v')
    → v.recovering ≡ true
    → v.poisoned ≡ false
    → (calls sizes commands begun).staging.failed ≡ false
    → All IsTypedOperation (calls sizes commands begun).staging.operations
    → 0 < length (calls sizes commands begun).staging.operations
    → (length (encode_ops (calls sizes commands begun).staging.operations)
        ≡ (calls sizes commands begun).staging.reservation.bytes)
      × (length (encode_ops (calls sizes commands begun).staging.operations)
          ≤ (calls sizes commands begun).staging.options.limits.max_transaction_bytes)
      × (after : Store) × (recover_record sizes
            (encode_ops (calls sizes commands begun).staging.operations)
            start
          ≡ (ok tt, after))
      × (after.staging.catalog ≡ (calls sizes commands begun).staging.catalog)
      × (after.staging.staged ≡ (calls sizes commands begun).staging.staged)
unfolding recover_record ◌>>=◌ Actions.lift
recover_record-calls sizes base options w w' v v' begun start commands room a h k r e unfailed typed
      nonempty =
    let recovery = new-recovery base options v v' start k in
    let s = calls sizes commands begun in
    let done =
      calls-Logged sizes start commands begun
        (start-Logged sizes base options begun start (new-admitted base options w w' begun h)
          recovery.0 (recovery.1 ∙ r) (recovery.2 ∙ e) room a)
        unfailed in
    let long = length-encode_ops s.staging.operations in
    let decoded =
      decode_ops-encode_ops s.staging.operations (done.decodes typed).0 nonempty
        (omega (arith, long, done.reserved, done.fits)) in
    (
      long ∙ sym done.reserved,
      omega (arith, long, done.reserved, done.bounded),
      done.replay.after,
      rw decoded done.replay.succeeds,
      done.replay.same_after.same_catalog,
      done.replay.same_after.same_staged,
    )

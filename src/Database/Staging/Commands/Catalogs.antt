-- ===== src/Database/Staging/Commands/Catalogs.antt =====
-- The actions of `Staging` (database.rs) that leave the catalog alone: all but the change of a table.
use mathlib.Core.Path.{subst}
use eve_db.Base.{ℕ, ◌≡◌, refl, ◌∙◌, arith, Error, Result, ok, err}
use eve_db.Base.Order.{nat_ord, pair_ord}
use eve_db.Resources.{MemoryReservation, ResourceUsage}
use eve_db.Resources
use eve_db.Database.Staging.Actions
use eve_db.Database.Staging.Actions.{Store, Action, continue, with_memory}
use eve_db.Database.Staging.Commands.Rules.{Rules}

-- An action that leaves the catalog alone, also when it fails.
pub record KeepsCatalog {ℓ} {A : Type ℓ} (m : Action A) : Type ℓ where
  pub keeps : (s : Store) → (m s).1.staging.catalog ≡ s.staging.catalog

KeepsCatalog-continue {ℓ κ} :
    {A : Type ℓ} {B : Type κ} (f : A → Action B) (s : Store) (r : Result Error A × Store)
    → r.1.staging.catalog ≡ s.staging.catalog
    → ((a : A) → KeepsCatalog (f a))
    → (continue f r).1.staging.catalog ≡ s.staging.catalog
KeepsCatalog-continue f s (ok a, t) h k = (k a).keeps t ∙ h
KeepsCatalog-continue f s (err e, t) h k = h

KeepsCatalog-with_memory {ℓ} :
    {A : Type ℓ} (m : Action A) (s : Store) (r : Result Error (MemoryReservation × ResourceUsage))
    → KeepsCatalog m
    → (with_memory m s r).1.staging.catalog ≡ s.staging.catalog
KeepsCatalog-with_memory m s (err e) p = refl
KeepsCatalog-with_memory m s (ok (memory, usage)) p =
    let inner = p.keeps (record s { world = record s.world { usage = usage } }) in
    ground (arith, inner)

pub KeepsCatalog-rules : Rules (λ A m. KeepsCatalog m)
unfolding Actions.◌>>=◌ Actions.pure Actions.fail Actions.lift Actions.gets Actions.check_permitted
    Actions.definition Actions.committed_definition Actions.read_memory Actions.stage
    Actions.grow_decoded_by Resources.grow_decoded
KeepsCatalog-rules = record {
  bind = λ p q. record { keeps = λ s. KeepsCatalog-continue _ s _ (p.keeps s) q };
  pure = λ a. record { keeps = λ s. refl };
  fail = λ e. record { keeps = λ s. refl };
  lift = λ r. record { keeps = λ s. refl };
  gets = λ f e. record { keeps = λ s. refl };
  grow_decoded_by = λ bytes. record { keeps = λ s. ground arith };
  check_permitted = λ resource used additional limit. record { keeps = λ s. ground arith };
  definition = λ id. record { keeps = λ s. ground arith };
  committed_definition = λ id. record { keeps = λ s. ground arith };
  read_memory = λ bytes p. record { keeps = λ s. KeepsCatalog-with_memory _ s _ p };
  stage = λ t id found. record { keeps = λ s. refl };
}

pub KeepsCatalog-admit_bytes : (bytes : ℕ) → KeepsCatalog (Actions.admit_bytes bytes)
unfolding Actions.admit_bytes Resources.grow Resources.recover
KeepsCatalog-admit_bytes bytes = record { keeps = λ s. ground arith }

pub kept {ℓ} :
    {A : Type ℓ} (m : Action A) (s t : Store) (a : A)
    → KeepsCatalog m
    → m s ≡ (ok a, t)
    → t.staging.catalog ≡ s.staging.catalog
kept m s t a p e = subst (λ r. r.1.staging.catalog ≡ s.staging.catalog) e (p.keeps s)

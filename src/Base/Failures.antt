-- ===== src/Base/Failures.antt =====
-- error.rs: the engine's `Error`, and fallible results as values.
use Prim.Native.Nat.{ℕ}
use Prim.Native.String.{String}
use mathlib.Core.Bool.{Bool, true, false}
use mathlib.Core.Option.{Option}
use mathlib.Core.List.{List}

-- An `io::Error`, seen by its kind and its displayed text.
pub record IoError : Type 0 where
  pub kind : ℕ
  pub message : String

-- shared.rs: the isolation levels that a caller can name.
pub data IsolationLevel : Type 0 where
  read_committed snapshot serializable : IsolationLevel

-- The text of an error: fixed, taken from the data as UTF-8, followed by
-- a number, behind a prefix, or around a number.
pub data Message : Type 0 where
  plain : String → Message
  utf8 : List ℕ → Message
  numbered : String → ℕ → Message
  prefixed : String → Message → Message
  around : String → ℕ → String → Message

pub data Error : Type 0 where
  io : IoError → Error
  corrupt : Message → Error
  invalid : Message → Error
  not_found : Message → Error
  already_exists : Message → Error
  locked : Error
  deadline_exceeded : Error
  cancelled : Error
  transaction_expired : Error
  limit_exceeded : String → ℕ → Error
  unsupported_isolation : IsolationLevel → Error
  conflict : Option ℕ → Option ℕ → Error
  version_unavailable : ℕ → ℕ → ℕ → Error
  commit_unknown : IoError → Error
  needs_recovery : Error

pub data Result {ℓ κ} (E : Type ℓ) (A : Type κ) : Type (ℓ ⊔ κ) where
  ok : A → Result E A
  err : E → Result E A

infixl 5 ◌>>=◌ ◌>>◌
abbrev pub ◌>>=◌ {ℓ κ μ} :
    {E : Type ℓ} {A : Type κ} {B : Type μ} → Result E A → (A → Result E B) → Result E B
ok a >>= f = f a
err e >>= f = err e

abbrev pub ◌>>◌ {ℓ μ} : {E : Type ℓ} {B : Type μ} → Result E (Unit {0}) → Result E B → Result E B
m >> k = m >>= λ _. k

-- The early return `if !test { return Err(e) }`.
abbrev pub ensure {ℓ} : {E : Type ℓ} → Bool → E → Result E (Unit {0})
ensure true e = ok tt
ensure false e = err e

-- `.map_err(|e| corrupt(e.to_string()))` on a validation, which fails with `Invalid` only.
abbrev pub as_corrupt {ℓ} : {A : Type ℓ} → Result Error A → Result Error A
as_corrupt (ok a) = ok a
as_corrupt (err (invalid m)) = err (corrupt (prefixed "invalid operation: " m))
as_corrupt (err e) = err e

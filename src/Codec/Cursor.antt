-- ===== src/Codec/Cursor.antt =====
-- The cursor of the decoder of codec.rs, and its slice.
use eve_db.Base.{
  ℕ, ◌≤◌, ◌≡◌, refl, ◌∙◌, Bool, true, false, length, arith, if◌then◌else◌, String, Error, Result,
  ok, err,
}
use eve_db.Codec.Decoder.{
  Decoder, Decoding, ◌>>=◌, continue, pure, fail, take, u8, u32, u64, count, bytes, string,
}

-- Where a call that started at `d` may end: on the same slice, not before `d`, and inside it.
abbrev pub Ends {ℓ} : {A : Type ℓ} → Decoder → Result Error (A × Decoder) → Type 0
Ends d (err e) = Unit
Ends d (ok (a, d')) = (d'.input ≡ d.input) × (d.offset ≤ d'.offset) × (d'.offset ≤ length d.input)

-- A method that, started inside its slice, ends inside it or fails.
pub record Stays {ℓ} {A : Type ℓ} (m : Decoding A) : Type ℓ where
  pub at : (d : Decoder) → d.offset ≤ length d.input → Ends d (m d)

module _ {ℓ} {A : Type ℓ} where
  pub Stays-pure : (a : A) → Stays (pure a)
  Stays-pure a = record { at = λ d h. (refl, omega arith, h) }

  pub Stays-fail : (message : String) → Stays (fail {A = A} message)
  Stays-fail message = record { at = λ d h. tt }

  pub Stays-if : (b : Bool) (m n : Decoding A) → Stays m → Stays n → Stays (if b then m else n)
  Stays-if true m n p q = p
  Stays-if false m n p q = q

  Ends-trans :
      (d d' : Decoder) (r : Result Error (A × Decoder))
      → (d'.input ≡ d.input) × (d.offset ≤ d'.offset) × (d'.offset ≤ length d.input)
      → Ends d' r
      → Ends d r
  Ends-trans d d' (err e) h k = tt
  Ends-trans d d' (ok (a, d'')) h k = (k.0 ∙ h.0, omega arith, rw (← h.0) k.2)

module _ {ℓ κ} {A : Type ℓ} {B : Type κ} where
  Ends-continue :
      (d : Decoder) (r : Result Error (A × Decoder)) (f : A → Decoding B)
      → Ends d r
      → ((a : A) → Stays (f a))
      → Ends d (continue r f)
  Ends-continue d (err e) f h k = tt
  Ends-continue d (ok (a, d')) f h k = Ends-trans d d' (f a d') h ((k a).at d' (rw (h.0) h.2))

  pub Stays-bind :
      (m : Decoding A) (f : A → Decoding B) → Stays m → ((a : A) → Stays (f a)) → Stays (m >>= f)
  Stays-bind m f p q = record { at = λ d h. Ends-continue d (m d) f (p.at d h) q }

pub Stays-take : (n : ℕ) → Stays (take n)
unfolding take
Stays-take n = record { at = λ d h. ground arith }

ruleset stays_core = (Stays-pure, Stays-fail, Stays-if, Stays-bind, Stays-take)

pub Stays-u8 : Stays u8
unfolding u8
Stays-u8 = search stays_core

pub Stays-u32 : Stays u32
unfolding u32
Stays-u32 = search stays_core

pub Stays-u64 : Stays u64
unfolding u64
Stays-u64 = search stays_core

pub Stays-count : (minimum : ℕ) → Stays (count minimum)
unfolding count
Stays-count minimum = Stays-bind u64 _ Stays-u64 (λ n. record { at = λ d h. ground arith })

pub Stays-bytes : Stays bytes
unfolding bytes
Stays-bytes = search (stays_core, Stays-count)

pub Stays-string : Stays string
unfolding string
Stays-string = search (stays_core, Stays-bytes)

pub ruleset stays_rules = (
  Stays-pure, Stays-fail, Stays-if, Stays-bind, Stays-u8, Stays-u32, Stays-u64, Stays-count,
  Stays-bytes, Stays-string,
)

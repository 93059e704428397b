-- ===== src/Codec/Decoder.antt =====
-- `Decoder` of codec.rs: a cursor over a byte slice. A `usize` has 64 bits.
pub mod Utf8
use eve_db.Base.{
  ℕ, zero, suc, ◌+◌, ◌-◌, ◌/◌, ◌^◌, max, Bool, true, false, Option, none, some, List, [], ◌∷◌,
  length, take as take_items, drop, leb, ltb, ◌==◌, if◌then◌else◌, String, Error, corrupt, plain,
  Result, ok, err,
}
use eve_db.Codec.LittleEndian.{Bytes, from_le_bytes}
use Utf8.{is_utf8}

pub record Decoder : Type 0 where
  pub input : Bytes
  pub offset : ℕ

-- A method of the decoder that can fail with `?`.
abbrev pub Decoding {ℓ} : Type ℓ → Type ℓ
Decoding A = Decoder → Result Error (A × Decoder)

abbrev pub continue {ℓ κ} :
    {A : Type ℓ} {B : Type κ}
    → Result Error (A × Decoder)
    → (A → Decoding B)
    → Result Error (B × Decoder)
continue (ok (a, d)) f = f a d
continue (err e) f = err e

infixl 5 ◌>>=◌ ◌>>◌
abbrev pub ◌>>=◌ {ℓ κ} : {A : Type ℓ} {B : Type κ} → Decoding A → (A → Decoding B) → Decoding B
◌>>=◌ m f d = continue (m d) f

abbrev pub ◌>>◌ {ℓ κ} : {A : Type ℓ} {B : Type κ} → Decoding A → Decoding B → Decoding B
◌>>◌ m n = m >>= λ _. n

abbrev pub pure {ℓ} : {A : Type ℓ} → A → Decoding A
pure a d = ok (a, d)

abbrev pub fail {ℓ} : {A : Type ℓ} → String → Decoding A
fail message d = err (corrupt (plain message))

abbrev pub new : Bytes → Decoder
new input = record { input = input; offset = 0 }

-- `input.len() - offset`, which cannot be negative: `take` moves the offset within the input.
abbrev pub remaining : Decoder → ℕ
remaining d = length d.input - d.offset

unfoldable pub take : ℕ → Decoding Bytes
take count d =
    let end = d.offset + count in
    if leb (2 ^ 64) end
    then err (corrupt (plain "length overflow"))
    else if ltb (length d.input) end
    then err (corrupt (plain "truncated record"))
    else ok (take_items count (drop d.offset d.input), record d { offset = end })

-- `bytes[0]`, after a `take` of one byte.
abbrev first : Bytes → ℕ
first [] = 0
first (b ∷ bs) = b

unfoldable pub u8 : Decoding ℕ
u8 = do b ← take 1; pure (first b)

unfoldable pub u32 : Decoding ℕ
u32 = do b ← take 4; pure (from_le_bytes b)

unfoldable pub u64 : Decoding ℕ
u64 = do b ← take 8; pure (from_le_bytes b)

-- `minimum_bytes.max(1)` is the least size of an item.
unfoldable pub count : ℕ → Decoding ℕ
count minimum_bytes = do
  n ← u64
  λ d.
      if ltb (remaining d / max minimum_bytes 1) n
      then err (corrupt (plain "invalid item count"))
      else ok (n, d)

unfoldable pub bytes : Decoding Bytes
bytes = do n ← count 1; take n

unfoldable pub string : Decoding Bytes
string = do v ← bytes; if is_utf8 v then pure v else fail "invalid UTF-8"

unfoldable pub finish : Decoder → Result Error (Unit {0})
finish d = if remaining d == 0 then ok tt else err (corrupt (plain "unexpected trailing bytes"))

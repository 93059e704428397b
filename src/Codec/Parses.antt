-- ===== src/Codec/Parses.antt =====
-- What a decoder reads at the front of its remaining bytes, one rule for each method.
use mathlib.Core.List.{append_assoc, append-nil}
use native.Mathlib.Nat.{suc-add, le-div_iff_mul-le}
use eve_db.Base.{
  ℕ, zero, suc, ◌+◌, ◌*◌, ◌/◌, ◌^◌, ◌≤◌, ◌<◌, max, ◌≡◌, refl, sym, ap, ◌∙◌, true, false, [], ◌∷◌,
  ◌++◌, length, length-append, take as take_items, drop, ok, arith, ltb,
}
use eve_db.Codec.LittleEndian.{
  Bytes, to_le_bytes, from_le_bytes, length-to_le_bytes, from_le_bytes-to_le_bytes,
}
use eve_db.Codec.Decoder.{
  Decoder, Decoding, ◌>>=◌, pure, remaining, take, u8, u32, u64, count, bytes, string, finish, new,
}
use eve_db.Codec.Decoder.Utf8.{is_utf8}

-- The decoder has `ys` left, in a slice that fits the address space.
pub record Rest (d : Decoder) (ys : Bytes) : Type 0 where
  pub ahead : drop d.offset d.input ≡ ys
  pub within : d.offset + length ys ≡ length d.input
  pub fits : length d.input < 2 ^ 64

abbrev pub advance : ℕ → Decoder → Decoder
advance n d = record d { offset = d.offset + n }

-- `m` reads `xs` as the value `a`, whatever follows.
pub record Parses {ℓ} {A : Type ℓ} (m : Decoding A) (xs : Bytes) (a : A) : Type ℓ where
  pub run : (d : Decoder) (ys : Bytes) → Rest d (xs ++ ys) → m d ≡ ok (a, advance (length xs) d)

drop-nil : (n : ℕ) → drop {A = ℕ} n [] ≡ []
drop-nil zero = refl
drop-nil (suc n) = refl

pub drop-add : (n m : ℕ) (xs : Bytes) → drop (n + m) xs ≡ drop m (drop n xs)
drop-add zero m xs = ap (λ k. drop k xs) (omega arith)
drop-add (suc n) m [] = drop-nil (suc n + m) ∙ sym (drop-nil m)
drop-add (suc n) m (x ∷ xs) = rw suc-add (drop-add n m xs)

pub drop-length_append : (xs ys : Bytes) → drop (length xs) (xs ++ ys) ≡ ys
drop-length_append [] ys = refl
drop-length_append (x ∷ xs) ys = drop-length_append xs ys

pub take-length_append : (xs ys : Bytes) → take_items (length xs) (xs ++ ys) ≡ xs
take-length_append [] ys = refl
take-length_append (x ∷ xs) ys = ap (◌∷◌ x) (take-length_append xs ys)

pub Rest-advance :
    (d : Decoder) (xs ys : Bytes) → Rest d (xs ++ ys) → Rest (advance (length xs) d) ys
Rest-advance d xs ys r = record {
  ahead =
      drop-add d.offset (length xs) d.input
      ∙ ap (drop (length xs)) r.ahead
      ∙ drop-length_append xs ys;
  within = omega (arith, r.within, length-append xs ys);
  fits = r.fits;
}

pub Parses-pure {ℓ} : {A : Type ℓ} (a : A) → Parses (pure a) [] a
Parses-pure a = record { run = λ d ys r. ap (λ n. ok (a, record d { offset = n })) (omega arith) }

pub Parses-bind {ℓ κ} :
    {A : Type ℓ} {B : Type κ} {m : Decoding A} (f : A → Decoding B) (xs ys : Bytes) {a : A} {b : B}
    → Parses m xs a
    → Parses (f a) ys b
    → Parses (m >>= f) (xs ++ ys) b
Parses-bind {m = m} f xs ys {a = a} {b = b} p q = record { run = run }
  where
    run :
        (d : Decoder) (zs : Bytes)
        → Rest d ((xs ++ ys) ++ zs)
        → (m >>= f) d ≡ ok (b, advance (length (xs ++ ys)) d)
    run d zs r =
        let r' : Rest d (xs ++ (ys ++ zs)) = rw append_assoc at r in
        let e : d.offset + length xs + length ys ≡ d.offset + length (xs ++ ys) =
          omega (arith, length-append xs ys) in
        rw (p.run d (ys ++ zs) r') (
          q.run (advance (length xs) d) zs (Rest-advance d xs (ys ++ zs) r')
          ∙ ap (λ n. ok (b, record d { offset = n })) e)

-- What is done with the value reads nothing more.
pub Parses-then {ℓ κ} :
    {A : Type ℓ} {B : Type κ} {m : Decoding A} (f : A → Decoding B) (xs : Bytes) {a : A} {b : B}
    → Parses m xs a
    → ((d : Decoder) → f a d ≡ ok (b, d))
    → Parses (m >>= f) xs b
Parses-then f xs p q = record { run = λ d ys r. rw (p.run d ys r) (q (advance (length xs) d)) }

take-ok :
    (d : Decoder) (n : ℕ)
    → d.offset + n ≤ length d.input
    → length d.input < 2 ^ 64
    → take n d ≡ ok (take_items n (drop d.offset d.input), advance n d)
unfolding take
take-ok d n h k = ground arith

pub Parses-take : (xs : Bytes) → Parses (take (length xs)) xs xs
Parses-take xs = record {
  run = λ d ys r.
      take-ok d (length xs) (omega (arith, r.within, length-append xs ys)) r.fits
      ∙ ap (λ b. ok (b, advance (length xs) d))
          (ap (take_items (length xs)) r.ahead ∙ take-length_append xs ys);
}

-- An integer of a fixed width, behind `from_le_bytes`.
Parses-le :
    (width v : ℕ)
    → v < 256 ^ width
    → Parses (take width >>= λ b. pure (from_le_bytes b)) (to_le_bytes width v) v
Parses-le width v h = record {
  run = λ d ys r.
      let e : width ≡ length (to_le_bytes width v) = sym (length-to_le_bytes width v) in
      let read : take width d ≡ ok (to_le_bytes width v, advance (length (to_le_bytes width v)) d) =
        ap (λ n. take n d) e ∙ (Parses-take (to_le_bytes width v)).run d ys r in
      rw read (
        ap (λ n. ok (n, advance (length (to_le_bytes width v)) d))
          (from_le_bytes-to_le_bytes width v h));
}

pub Parses-u32 : (v : ℕ) → v < 2 ^ 32 → Parses u32 (to_le_bytes 4 v) v
unfolding u32
Parses-u32 v h = Parses-le 4 v h

pub Parses-u64 : (v : ℕ) → v < 2 ^ 64 → Parses u64 (to_le_bytes 8 v) v
unfolding u64
Parses-u64 v h = Parses-le 8 v h

pub Parses-u8 : (v : ℕ) → Parses u8 (v ∷ []) v
unfolding u8
Parses-u8 v = record { run = λ d ys r. rw ((Parses-take (v ∷ [])).run d ys r) refl }

mul-le-div : (n m r : ℕ) → n * max m 1 ≤ r → n ≤ r / max m 1
mul-le-div n m r h = (le-div_iff_mul-le (omega arith)).1 h

count-admits :
    (n minimum : ℕ) (d : Decoder)
    → n * max minimum 1 ≤ remaining d
    → ltb (remaining d / max minimum 1) n ≡ false
count-admits n minimum d h = ground (arith, mul-le-div n minimum (remaining d) h)

-- A count is read where the items that follow are as many bytes as it claims, or more.
pub Parses-count {ℓ} :
    {A : Type ℓ} (n minimum : ℕ) (f : ℕ → Decoding A) (ys : Bytes) {a : A}
    → n < 2 ^ 64
    → n * max minimum 1 ≤ length ys
    → Parses (f n) ys a
    → Parses (count minimum >>= f) (to_le_bytes 8 n ++ ys) a
unfolding count
Parses-count {A = A} n minimum f ys {a = a} h k p = record { run = run }
  where
    run :
        (d : Decoder) (zs : Bytes)
        → Rest d ((to_le_bytes 8 n ++ ys) ++ zs)
        → (count minimum >>= f) d ≡ ok (a, advance (length (to_le_bytes 8 n ++ ys)) d)
    run d zs r =
        let r' : Rest d (to_le_bytes 8 n ++ (ys ++ zs)) = rw append_assoc at r in
        let d' = advance (length (to_le_bytes 8 n)) d in
        let left = Rest-advance d (to_le_bytes 8 n) (ys ++ zs) r' in
        let e : d.offset + length (to_le_bytes 8 n) + length ys
            ≡ d.offset + length (to_le_bytes 8 n ++ ys) =
          omega (arith, length-append (to_le_bytes 8 n) ys) in
        rw ((Parses-u64 n h).run d (ys ++ zs) r') (
          rw (count-admits n minimum d' (omega (arith, left.within, length-append ys zs)))
            (p.run d' zs left ∙ ap (λ m. ok (a, record d { offset = m })) e))

pub Parses-bytes : (v : Bytes) → length v < 2 ^ 64 → Parses bytes (to_le_bytes 8 (length v) ++ v) v
unfolding bytes
Parses-bytes v h = Parses-count (length v) 1 take v h (omega arith) (Parses-take v)

pub Parses-string :
    (v : Bytes)
    → length v < 2 ^ 64
    → is_utf8 v ≡ true
    → Parses string (to_le_bytes 8 (length v) ++ v) v
unfolding string
Parses-string v h u = record { run = λ d ys r. rw ((Parses-bytes v h).run d ys r, u) refl }

-- A decoder that reads the whole slice reaches its end.
pub Parses-whole {ℓ} :
    {A : Type ℓ} {m : Decoding A} (xs : Bytes) {a : A}
    → length xs < 2 ^ 64
    → Parses m xs a
    → (m (new xs) ≡ ok (a, advance (length xs) (new xs)))
      × (finish (advance (length xs) (new xs)) ≡ ok tt)
unfolding finish
Parses-whole xs h p =
    let start : Rest (new xs) (xs ++ []) = record {
      ahead = sym (append-nil xs);
      within = omega (arith, length-append xs []);
      fits = h;
    } in
    (p.run (new xs) [] start, ground arith)

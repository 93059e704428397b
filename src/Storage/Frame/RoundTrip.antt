-- ===== src/Storage/Frame/RoundTrip.antt =====
-- The encoding and the reading of frames (storage/frame.rs).
use mathlib.Core.Path.{subst}
use mathlib.Core.List.{append_assoc}
use eve_db.Base.{
  zero, suc, Bool-cases, inl, inr, ℕ, ◌+◌, ◌-◌, ◌^◌, ◌≤◌, ◌<◌, ◌≡◌, refl, sym, ap, ◌∙◌, false, none,
  some, [], ◌∷◌, ◌++◌, length, take, drop, ok, arith, ltb, length-append, length-take,
  if◌then◌else◌,
}
use eve_db.Codec.{max_frame}
use eve_db.Codec.LittleEndian.{Bytes, to_le_bytes, from_le_bytes-to_le_bytes}
use eve_db.Codec.Parses.{drop-add, drop-length_append, take-length_append}
use eve_db.Checksum.{crc32c}
use eve_db.Checksum.Chunks.{crc32c-lt}
use eve_db.Model.Schemas.Names.{same_bytes}
use eve_db.Storage.Frame.{
  trailer, header_body, header, encode, header_length, assemble, read_exact, read,
}

length-header : (kind lsn : ℕ) (payload : Bytes) → length (header kind lsn payload) ≡ 32
unfolding header_body to_le_bytes
length-header kind lsn payload = refl

header_length-header :
    (kind lsn : ℕ) (payload : Bytes)
    → length payload ≤ max_frame
    → header_length (header kind lsn payload) ≡ ok (length payload)
unfolding header_length header_body to_le_bytes same_bytes
header_length-header kind lsn payload h = ground (
  arith,
  from_le_bytes-to_le_bytes 8 (length payload) (omega arith),
  from_le_bytes-to_le_bytes 4 (crc32c (header_body kind lsn payload)) (crc32c-lt _),
)

assemble-header :
    (kind lsn : ℕ) (payload : Bytes)
    → kind < 2 ^ 16
    → lsn < 2 ^ 64
    → assemble (header kind lsn payload) payload trailer
      ≡ ok (record { kind = kind; lsn = lsn; payload = payload })
unfolding assemble header_body to_le_bytes same_bytes
assemble-header kind lsn payload k l = ground (
  arith,
  from_le_bytes-to_le_bytes 2 kind k,
  from_le_bytes-to_le_bytes 8 lsn l,
  from_le_bytes-to_le_bytes 4 (crc32c payload) (crc32c-lt _),
)

-- The bytes of the file from a position on.
abbrev IsAt : Bytes → ℕ → Bytes → Type 0
IsAt file position rest = (drop position file ≡ rest) × (position + length rest ≡ length file)

IsAt-advance :
    (file : Bytes) (position : ℕ) (xs ys : Bytes)
    → IsAt file position (xs ++ ys)
    → IsAt file (position + length xs) ys
IsAt-advance file position xs ys h = (
  drop-add position (length xs) file ∙ ap (drop (length xs)) h.0 ∙ drop-length_append xs ys,
  omega (arith, h.1, length-append xs ys),
)

read_exact-IsAt :
    (count : ℕ) (file : Bytes) (position : ℕ) (xs ys : Bytes)
    → length xs ≡ count
    → IsAt file position (xs ++ ys)
    → read_exact count file position ≡ ok xs
unfolding read_exact
read_exact-IsAt count file position xs ys e h =
    let enough : ltb (length file - position) count ≡ false =
      ground (arith, h.1, length-append xs ys) in
    rw (enough, if◌then◌else◌)
      (ap ok (rw (← e) (ap (take (length xs)) h.0 ∙ take-length_append xs ys)))

IsAt-append : (xs ys : Bytes) → IsAt (xs ++ ys) (length xs) ys
IsAt-append xs ys = (drop-length_append xs ys, sym (length-append xs ys))

-- The frame, in front of other bytes.
abbrev frame_bytes : ℕ → ℕ → Bytes → Bytes → Bytes
frame_bytes kind lsn payload rest = header kind lsn payload ++ (payload ++ (trailer ++ rest))

read-IsAt :
    (file : Bytes) (position kind lsn : ℕ) (payload rest : Bytes)
    → kind < 2 ^ 16
    → lsn < 2 ^ 64
    → length payload ≤ max_frame
    → IsAt file position (frame_bytes kind lsn payload rest)
    → read file position
      ≡ ok (
        some (record { kind = kind; lsn = lsn; payload = payload }),
        position + 32 + length payload + 8,
      )
unfolding read header_body to_le_bytes
read-IsAt file position kind lsn payload rest k l p h =
    let at_payload : IsAt file (position + 32) (payload ++ (trailer ++ rest)) =
      IsAt-advance file position (header kind lsn payload) _ h in
    let at_trailer = IsAt-advance file (position + 32) payload _ at_payload in
    let head =
      read_exact-IsAt 32 file position (header kind lsn payload) _ (length-header kind lsn payload)
        h in
    let body = read_exact-IsAt (length payload) file (position + 32) payload _ refl at_payload in
    let tail = read_exact-IsAt 8 file (position + 32 + length payload) trailer _ refl at_trailer in
    let room = length-append payload (trailer ++ rest) in
    ground (
      arith,
      head,
      body,
      tail,
      room,
      at_payload.1,
      header_length-header kind lsn payload p,
      assemble-header kind lsn payload k l,
    )

encode-ok :
    (kind lsn : ℕ) (payload frame : Bytes)
    → encode kind lsn payload ≡ ok frame
    → (length payload ≤ max_frame) × (frame ≡ header kind lsn payload ++ (payload ++ trailer))
unfolding encode
encode-ok kind lsn payload frame e = ground arith

length-frame :
    (kind lsn : ℕ) (payload frame : Bytes)
    → encode kind lsn payload ≡ ok frame
    → length frame ≡ 32 + length payload + 8
length-frame kind lsn payload frame e = omega (
  arith,
  ap length (encode-ok kind lsn payload frame e).1,
  length-append (header kind lsn payload) (payload ++ trailer),
  length-append payload trailer,
  length-header kind lsn payload,
)

take-past :
    (k n : ℕ) (xs ys : Bytes) → length xs ≡ k → k ≤ n → take n (xs ++ ys) ≡ xs ++ take (n - k) ys
take-past k n [] ys e h = ap (λ m. take m ys) (omega arith)
take-past k zero (x ∷ xs) ys e h = absurd (omega arith)
take-past k (suc n) (x ∷ xs) ys e h =
    ap (◌∷◌ x)
      (take-past (length xs) n xs ys refl (omega arith) ∙ ap (λ m. xs ++ take m ys) (omega arith))

-- A frame that was encoded is read back, wherever in the file it stands, and the position is then
-- behind it: for a kind of 16 bits and a sequence number of 64 bits.
pub read-encode :
    (kind lsn : ℕ) (payload before frame rest : Bytes)
    → kind < 2 ^ 16
    → lsn < 2 ^ 64
    → encode kind lsn payload ≡ ok frame
    → read (before ++ (frame ++ rest)) (length before)
      ≡ ok (
        some (record { kind = kind; lsn = lsn; payload = payload }),
        length before + length frame,
      )
read-encode kind lsn payload before frame rest k l e =
    let (fits, bytes) = encode-ok kind lsn payload frame e in
    let at : IsAt (before ++ (frame ++ rest)) (length before) (frame_bytes kind lsn payload rest) =
      subst (IsAt (before ++ (frame ++ rest)) (length before)) (rw bytes (simp append_assoc))
        (IsAt-append before (frame ++ rest)) in
    let stop : length before + 32 + length payload + 8 ≡ length before + length frame =
      omega (arith, length-frame kind lsn payload frame e) in
    rw (← stop)
      (read-IsAt (before ++ (frame ++ rest)) (length before) kind lsn payload rest k l fits at)

-- Bytes that end before the frame does are an empty or incomplete tail, not an error: no frame is
-- read from any proper prefix of an encoded frame at the end of the file.
pub read-cut :
    (kind lsn n : ℕ) (payload before frame : Bytes)
    → encode kind lsn payload ≡ ok frame
    → n < length frame
    → (position : ℕ) × (read (before ++ take n frame) (length before) ≡ ok (none, position))
unfolding read
read-cut kind lsn n payload before frame e short =
    let file = before ++ take n frame in
    let (fits, bytes) = encode-ok kind lsn payload frame e in
    let at = IsAt-append before (take n frame) in
    let size = length-frame kind lsn payload frame e in
    let taken = length-take n frame (omega (arith, short)) in
    elim (Bool-cases (ltb n 32)) [
      | inl less ↦ (length before, ground (arith, less, taken, at.1))
      | inr more ↦
          let here : IsAt file (length before)
              (header kind lsn payload ++ take (n - 32) (payload ++ trailer)) =
            subst (IsAt file (length before))
              (rw bytes (
                take-past 32 n (header kind lsn payload) (payload ++ trailer)
                  (length-header kind lsn payload) (ground arith)))
              at in
          let head =
            read_exact-IsAt 32 file (length before) (header kind lsn payload) _
              (length-header kind lsn payload) here in
          (
            length before + 32,
            ground
                (arith, more, taken, at.1, head, header_length-header kind lsn payload fits, size),
          )
    ]

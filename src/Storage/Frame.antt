-- ===== src/Storage/Frame.antt =====
-- storage/frame.rs: the checksummed records of the log. A file is its bytes, and a read moves a
-- position; the only failure of the file system is its end.
pub mod RoundTrip
mod Tests
use eve_db.Base.{
  ℕ, ◌+◌, ◌-◌, ◌^◌, Bool, not, ◌||◌, ltb, ◌==◌, if◌then◌else◌, Option, none, some, List, [], ◌∷◌,
  ◌++◌, length, take, drop, Error, Result, ok, err, ◌>>=◌, ◌>>◌, IoError, io, corrupt, invalid,
  plain,
}
use eve_db.Codec.{max_frame}
use eve_db.Codec.LittleEndian.{Bytes, to_le_bytes, from_le_bytes}
use eve_db.Checksum.{crc32c}
use eve_db.Model.Schemas.Names.{same_bytes}

pub record Frame : Type 0 where
  pub kind : ℕ
  pub lsn : ℕ
  pub payload : Bytes

-- `b"EVFR"` and `b"EVCOMMIT"`
abbrev pub magic : Bytes
magic = 69 ∷ 86 ∷ 70 ∷ 82 ∷ []

abbrev pub trailer : Bytes
trailer = 69 ∷ 86 ∷ 67 ∷ 79 ∷ 77 ∷ 77 ∷ 73 ∷ 84 ∷ []

-- `bytes[start..end]`
abbrev pub slice : ℕ → ℕ → Bytes → Bytes
slice start end bytes = take (end - start) (drop start bytes)

-- The first 28 bytes of the header.
unfoldable pub header_body : ℕ → ℕ → Bytes → Bytes
header_body kind lsn payload =
    magic
    ++ (to_le_bytes 2 1
        ++ (to_le_bytes 2 kind
            ++ (to_le_bytes 8 lsn
                ++ (to_le_bytes 8 (length payload) ++ to_le_bytes 4 (crc32c payload)))))

abbrev pub header : ℕ → ℕ → Bytes → Bytes
header kind lsn payload =
    header_body kind lsn payload ++ to_le_bytes 4 (crc32c (header_body kind lsn payload))

unfoldable pub encode : ℕ → ℕ → Bytes → Result Error Bytes
encode kind lsn payload =
    if ltb max_frame (length payload)
    then err (invalid (plain "transaction exceeds 64 MiB"))
    else ok (header kind lsn payload ++ (payload ++ trailer))

-- `header_length`
unfoldable pub header_length : Bytes → Result Error ℕ
header_length bytes =
    if not (same_bytes (slice 0 4 bytes) magic)
      || not (same_bytes (slice 4 6 bytes) (to_le_bytes 2 1))
      || not (crc32c (slice 0 28 bytes) == from_le_bytes (slice 28 32 bytes))
    then err (corrupt (plain "invalid frame header or checksum"))
    else if ltb max_frame (from_le_bytes (slice 16 24 bytes))
    then err (corrupt (plain "oversized frame"))
    else ok (from_le_bytes (slice 16 24 bytes))

unfoldable pub assemble : Bytes → Bytes → Bytes → Result Error Frame
assemble bytes payload end =
    if not (same_bytes end trailer) || not (crc32c payload == from_le_bytes (slice 24 28 bytes))
    then err (corrupt (plain "invalid committed frame payload or trailer"))
    else ok (record {
      kind = from_le_bytes (slice 6 8 bytes);
      lsn = from_le_bytes (slice 8 16 bytes);
      payload = payload;
    })

-- `ErrorKind::UnexpectedEof` of the standard library.
abbrev pub unexpected_eof : IoError
unexpected_eof = record { kind = 0; message = "failed to fill whole buffer" }

-- `Read::read_exact` and `read_exact_at`, for a count of bytes.
unfoldable pub read_exact : ℕ → Bytes → ℕ → Result Error Bytes
read_exact count file position =
    if ltb (length file - position) count
    then err (io unexpected_eof)
    else ok (take count (drop position file))

-- `read`: the frame, and the position after the call.
unfoldable pub read : Bytes → ℕ → Result Error (Option Frame × ℕ)
read file position =
    let remaining = length file - position in
    if ltb remaining 32 then ok (none, position) else (do
      bytes ← read_exact 32 file position
      size ← header_length bytes
      if ltb remaining (40 + size) then ok (none, position + 32) else do
        payload ← read_exact size file (position + 32)
        end ← read_exact 8 file (position + 32 + size)
        frame ← assemble bytes payload end
        ok (some frame, position + 32 + size + 8))

-- `read_at`
unfoldable pub read_at : Bytes → ℕ → ℕ → Result Error (Option Frame)
read_at file offset end =
    let remaining = end - offset in
    if ltb remaining 32 then ok none else (do
      bytes ← read_exact 32 file offset
      size ← header_length bytes
      if ltb remaining (40 + size) then ok none else do
        rest ← read_exact (size + 8) file (offset + 32)
        frame ← assemble bytes (take size rest) (drop size rest)
        ok (some frame))

-- `payload_size_at`
unfoldable pub payload_size_at : Bytes → ℕ → ℕ → Result Error ℕ
payload_size_at file offset file_len =
    if not (ltb (offset + 32) (2 ^ 64)) || ltb file_len (offset + 32)
    then err (corrupt (plain "truncated frame header"))
    else do
      bytes ← read_exact 32 file offset
      size ← header_length bytes
      if not (ltb (offset + (40 + size)) (2 ^ 64)) || ltb file_len (offset + (40 + size))
          then err (corrupt (plain "truncated indexed frame"))
          else ok size

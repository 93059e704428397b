-- ===== src/Storage/Frame/Tests.antt =====
-- A frame of two bytes, read back and cut.
use eve_db.Base.{ℕ, ◌+◌, ◌≡◌, refl, none, some, [], ◌∷◌, ◌++◌, length, take, ok, arith}
use eve_db.Codec.LittleEndian.{Bytes, to_le_bytes, from_le_bytes}
use eve_db.Checksum.{table_entry, update, crc32c}
use eve_db.Model.Schemas.Names.{same_bytes}
use eve_db.Storage.Frame.{
  trailer, header, header_body, encode, header_length, assemble, read_exact, read, read_at,
  payload_size_at,
}
use eve_db.Storage.Frame.RoundTrip.{read-encode, read-cut}

-- What the tests run.
runs : ℕ
unfolding table_entry update crc32c same_bytes to_le_bytes from_le_bytes header_body encode
    header_length assemble read_exact read read_at payload_size_at
runs = 0

abbrev payload : Bytes
payload = 7 ∷ 8 ∷ []

abbrev frame : Bytes
frame = header 2 123 payload ++ (payload ++ trailer)

frame_encodes : encode 2 123 payload ≡ ok frame
unfolding runs
frame_encodes = refl

frame_reads_at :
    (read_at (9 ∷ frame) 1 43 ≡ ok (some (record { kind = 2; lsn = 123; payload = payload })))
    × (payload_size_at (9 ∷ frame) 1 43 ≡ ok 2)
unfolding runs
frame_reads_at = (refl, refl)

read-encode_example :
    read ((9 ∷ []) ++ (frame ++ (1 ∷ []))) 1
    ≡ ok (some (record { kind = 2; lsn = 123; payload = payload }), 1 + length frame)
read-encode_example =
    read-encode 2 123 payload (9 ∷ []) frame (1 ∷ []) (omega arith) (omega arith) frame_encodes

read-cut_example : (position : ℕ) × (read ((9 ∷ []) ++ take 40 frame) 1 ≡ ok (none, position))
unfolding runs
read-cut_example = read-cut 2 123 40 payload (9 ∷ []) frame frame_encodes (omega arith)

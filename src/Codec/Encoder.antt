-- ===== src/Codec/Encoder.antt =====
-- `Encoder` of codec.rs: bytes appended to a buffer. The buffer is the whole state.
use eve_db.Base.{ℕ, [], ◌∷◌, ◌++◌, length}
use eve_db.Codec.LittleEndian.{Bytes, to_le_bytes}

abbrev pub new : Bytes
new = []

abbrev pub u8 : ℕ → Bytes → Bytes
u8 v buffer = buffer ++ v ∷ []

abbrev pub u32 : ℕ → Bytes → Bytes
u32 v buffer = buffer ++ to_le_bytes 4 v

abbrev pub u64 : ℕ → Bytes → Bytes
u64 v buffer = buffer ++ to_le_bytes 8 v

abbrev pub bytes : Bytes → Bytes → Bytes
bytes v buffer = u64 (length v) buffer ++ v

-- A text is the list of its UTF-8 bytes.
abbrev pub string : Bytes → Bytes → Bytes
string v buffer = bytes v buffer

-- ===== src/Codec.antt =====
-- codec.rs: the byte codec of records. A byte is a number below 256.
pub mod LittleEndian
pub mod Encoder
pub mod Decoder
pub mod Parses
pub mod Cursor
mod Tests
use eve_db.Base.{ℕ, ◌*◌}

abbrev pub max_record : ℕ
max_record = 16 * 1024 * 1024

abbrev pub max_frame : ℕ
max_frame = 64 * 1024 * 1024

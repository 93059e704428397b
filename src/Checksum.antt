-- ===== src/Checksum.antt =====
-- checksum.rs: CRC-32C by table. A `u32` is a number below 2 ^ 32.
mod Tests
pub mod Chunks
use Prim.Native.Nat.{bit_and, bit_xor}
use eve_db.Base.{ℕ, zero, suc, ◌-◌, ◌*◌, ◌/◌, ◌%◌, ◌^◌, ◌+◌, List, [], ◌∷◌}
use eve_db.Codec.LittleEndian.{Bytes}

-- One round of the inner loop of `TABLE`: `0_u32.wrapping_sub(value & 1)` is all ones or zero.
abbrev pub table_bit : ℕ → ℕ
table_bit value = bit_xor (value / 2) (bit_and 0x82f63b78 ((2 ^ 32 - bit_and value 1) % 2 ^ 32))

abbrev pub table_bits : ℕ → ℕ → ℕ
table_bits zero value = value
table_bits (suc n) value = table_bits n (table_bit value)

-- The entry of `TABLE` at an index.
unfoldable pub table_entry : ℕ → ℕ
table_entry i = table_bits 8 i

-- `Checksum::new`
abbrev pub initial : ℕ
initial = 2 ^ 32 - 1

-- One round of the loop of `update`.
abbrev pub update_byte : ℕ → ℕ → ℕ
update_byte crc byte = bit_xor (table_entry (bit_and (bit_xor crc byte) 255)) (crc / 256)

unfoldable pub update : ℕ → Bytes → ℕ
update crc [] = crc
update crc (byte ∷ bytes) = update (update_byte crc byte) bytes

-- `!self.0`
abbrev pub finish : ℕ → ℕ
finish crc = 2 ^ 32 - 1 - crc

unfoldable pub crc32c : Bytes → ℕ
crc32c bytes = finish (update initial bytes)

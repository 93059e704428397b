-- ===== src/Checksum/Chunks.antt =====
-- A checksum that is updated in parts, and its width.
use eve_db.Base.{ℕ, ◌^◌, ◌<◌, ◌≡◌, refl, [], ◌∷◌, ◌++◌, arith}
use eve_db.Codec.LittleEndian.{Bytes}
use eve_db.Checksum.{update, update_byte, crc32c}

pub update-append : (crc : ℕ) (xs ys : Bytes) → update crc (xs ++ ys) ≡ update (update crc xs) ys
unfolding update
update-append crc [] ys = refl
update-append crc (x ∷ xs) ys = update-append (update_byte crc x) xs ys

pub crc32c-lt : (bytes : Bytes) → crc32c bytes < 2 ^ 32
unfolding crc32c
crc32c-lt bytes = omega arith

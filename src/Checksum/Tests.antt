-- ===== src/Checksum/Tests.antt =====
-- The check vectors of checksum.rs.
use eve_db.Base.{◌≡◌, refl, [], ◌∷◌}
use eve_db.Checksum.{table_entry, update, crc32c}

check_vector :
    (crc32c (0x31 ∷ 0x32 ∷ 0x33 ∷ 0x34 ∷ 0x35 ∷ 0x36 ∷ 0x37 ∷ 0x38 ∷ 0x39 ∷ []) ≡ 0xe3069283)
    × (crc32c [] ≡ 0)
unfolding crc32c update table_entry
check_vector = (refl, refl)

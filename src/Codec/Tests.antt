-- ===== src/Codec/Tests.antt =====
-- Reads that fail, by the decoder of codec.rs, and texts that are not UTF-8.
use eve_db.Base.{ℕ, ◌≡◌, refl, true, false, [], ◌∷◌, ok}
use eve_db.Codec.LittleEndian.{to_le_bytes, from_le_bytes}
use eve_db.Codec.Decoder
use eve_db.Codec.Decoder.{take, u8, u32, u64, count, bytes, string, finish}
use eve_db.Codec.Decoder.Utf8.{
  two_bytes, three_bytes, four_bytes, next_char, chars_loop, chars, is_utf8,
}

-- What the tests run.
runs : ℕ
unfolding two_bytes three_bytes four_bytes next_char chars_loop chars is_utf8 to_le_bytes
    from_le_bytes take u8 u32 u64 count bytes string finish
runs = 0

u32_order :
    u32 (Decoder.new (1 ∷ 2 ∷ 0 ∷ 0 ∷ []))
    ≡ ok (513, record { input = 1 ∷ 2 ∷ 0 ∷ 0 ∷ []; offset = 4 })
unfolding runs
u32_order = refl

-- U+00E9 and U+1F600.
chars_valid :
    (is_utf8 (0xc3 ∷ 0xa9 ∷ []) ≡ true) × (is_utf8 (0xf0 ∷ 0x9f ∷ 0x98 ∷ 0x80 ∷ []) ≡ true)
unfolding runs
chars_valid = (refl, refl)

-- An overlong form, a surrogate, and a cut sequence.
chars_invalid :
    (is_utf8 (0xc0 ∷ 0xaf ∷ []) ≡ false)
    × (is_utf8 (0xed ∷ 0xa0 ∷ 0x80 ∷ []) ≡ false)
    × (is_utf8 (0xe2 ∷ 0x82 ∷ []) ≡ false)
unfolding runs
chars_invalid = (refl, refl, refl)

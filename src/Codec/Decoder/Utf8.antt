-- ===== src/Codec/Decoder/Utf8.antt =====
-- `String::from_utf8` and `str::chars` of the standard library: the well-formed byte sequences of
-- the Unicode standard, and the scalar values that they encode.
use eve_db.Base.{
  ℕ, zero, suc, ◌+◌, ◌-◌, ◌*◌, Bool, true, false, ◌&&◌, Option, none, some, List, [], ◌∷◌, length,
  leb, if◌then◌else◌,
}

abbrev between : ℕ → ℕ → ℕ → Bool
between lo hi b = leb lo b && leb b hi

abbrev tail_byte : ℕ → Bool
tail_byte = between 0x80 0xbf

-- The second byte's range depends on the first: no overlong forms, no surrogates, no value above
-- 0x10ffff.
abbrev second_of_three : ℕ → ℕ → Bool
second_of_three a b =
    if leb a 0xe0
    then between 0xa0 0xbf b
    else if between 0xed 0xed a
    then between 0x80 0x9f b
    else tail_byte b

abbrev second_of_four : ℕ → ℕ → Bool
second_of_four a b =
    if leb a 0xf0
    then between 0x90 0xbf b
    else if leb 0xf4 a
    then between 0x80 0x8f b
    else tail_byte b

unfoldable pub two_bytes : ℕ → List ℕ → Option (ℕ × List ℕ)
two_bytes a (b ∷ r) = if tail_byte b then some ((a - 0xc0) * 64 + (b - 0x80), r) else none
two_bytes a _ = none

unfoldable pub three_bytes : ℕ → List ℕ → Option (ℕ × List ℕ)
three_bytes a (b ∷ c ∷ r) =
    if second_of_three a b && tail_byte c
    then some ((a - 0xe0) * 4096 + (b - 0x80) * 64 + (c - 0x80), r)
    else none
three_bytes a _ = none

unfoldable pub four_bytes : ℕ → List ℕ → Option (ℕ × List ℕ)
four_bytes a (b ∷ c ∷ d ∷ r) =
    if second_of_four a b && tail_byte c && tail_byte d
    then some ((a - 0xf0) * 262144 + (b - 0x80) * 4096 + (c - 0x80) * 64 + (d - 0x80), r)
    else none
four_bytes a _ = none

-- The first scalar value, and the bytes behind it.
unfoldable pub next_char : List ℕ → Option (ℕ × List ℕ)
unfolding two_bytes three_bytes four_bytes
next_char [] = none
next_char (a ∷ r) =
    if leb a 0x7f
    then some (a, r)
    else if between 0xc2 0xdf a
    then two_bytes a r
    else if between 0xe0 0xef a
    then three_bytes a r
    else if between 0xf0 0xf4 a
    then four_bytes a r
    else none

unfoldable pub chars_loop : ℕ → List ℕ → Option (List ℕ)
unfolding next_char
chars_loop zero bytes = some []
chars_loop (suc fuel) [] = some []
chars_loop (suc fuel) (b ∷ bytes) = elim (next_char (b ∷ bytes)) [
  | none ↦ none
  | some (c, rest) ↦ elim (chars_loop fuel rest) [ none ↦ none | some cs ↦ some (c ∷ cs) ]
]

-- Each character takes a byte or more, so the length of the text is enough fuel.
unfoldable pub chars : List ℕ → Option (List ℕ)
unfolding chars_loop
chars bytes = chars_loop (length bytes) bytes

unfoldable pub is_utf8 : List ℕ → Bool
unfolding chars
is_utf8 bytes = elim (chars bytes) [ none ↦ false | some _ ↦ true ]

-- ===== src/Model/Schemas/Names.antt =====
-- `validate_name`, and the sets of identifiers and names.
use eve_db.Base.{
  ℕ, Bool, true, false, ◌&&◌, ◌||◌, none, some, List, [], ◌∷◌, length, ltb, leb, ◌==◌,
  if◌then◌else◌, Error, Result, ok, err, invalid, plain,
}
use eve_db.Codec.LittleEndian.{Bytes}
use eve_db.Codec.Decoder.Utf8.{chars}

-- The property White_Space, by which `str::trim` cuts.
unfoldable pub is_white_space : ℕ → Bool
is_white_space c =
    (leb 0x9 c && leb c 0xd)
    || c == 0x20
    || c == 0x85
    || c == 0xa0
    || c == 0x1680
    || (leb 0x2000 c && leb c 0x200a)
    || c == 0x2028
    || c == 0x2029
    || c == 0x202f
    || c == 0x205f
    || c == 0x3000

-- `char::is_control`: the general category Cc.
unfoldable pub is_control : ℕ → Bool
is_control c = leb c 0x1f || (leb 0x7f c && leb c 0x9f)

unfoldable pub all_of : (ℕ → Bool) → List ℕ → Bool
all_of p [] = true
all_of p (c ∷ cs) = p c && all_of p cs

unfoldable pub any_of : (ℕ → Bool) → List ℕ → Bool
any_of p [] = false
any_of p (c ∷ cs) = p c || any_of p cs

-- A `str` is well-formed UTF-8, so its characters are there.
unfoldable pub scalars : Bytes → List ℕ
scalars name = elim (chars name) [ none ↦ [] | some cs ↦ cs ]

-- `name.trim().is_empty()` holds where every character is white space.
unfoldable pub validate_name : Bytes → Result Error (Unit {0})
validate_name name =
    if all_of is_white_space (scalars name)
      || ltb 255 (length name)
      || any_of is_control (scalars name)
    then err (invalid (plain "names must contain 1..=255 UTF-8 bytes without control characters"))
    else ok tt

unfoldable pub same_bytes : Bytes → Bytes → Bool
same_bytes [] [] = true
same_bytes (x ∷ xs) (y ∷ ys) = x == y && same_bytes xs ys
same_bytes _ _ = false

unfoldable pub contains_id : List ℕ → ℕ → Bool
contains_id [] id = false
contains_id (i ∷ ids) id = i == id || contains_id ids id

unfoldable pub contains_name : List Bytes → Bytes → Bool
contains_name [] name = false
contains_name (n ∷ names) name = same_bytes n name || contains_name names name

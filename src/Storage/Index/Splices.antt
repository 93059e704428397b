-- ===== src/Storage/Index/Splices.antt =====
-- Reads of a page after a write in place: of what was written, and of the rest.
use eve_db.Base.{
  ℕ, zero, suc, ◌+◌, ◌-◌, ◌^◌, ◌≤◌, ◌<◌, ◌≡◌, refl, sym, ap, ◌∙◌, ◌⊎◌, inl, inr, [], ◌∷◌, ◌++◌,
  length, take, drop, length-take, arith,
}
use eve_db.Codec.LittleEndian.{
  Bytes, to_le_bytes, from_le_bytes, from_le_bytes-to_le_bytes, length-to_le_bytes,
}
use eve_db.Codec.Parses.{drop-add, drop-length_append, take-length_append}
use eve_db.Storage.Frame.{slice}
use eve_db.Storage.Page.{splice}
use eve_db.Storage.Page.Checksums.{drop_exact, length-splice}
use eve_db.Storage.Index.{put, get}

take-take_append :
    (n at : ℕ) (page ys : Bytes)
    → n ≤ at
    → at ≤ length page
    → take n (take at page ++ ys) ≡ take n page
take-take_append zero at page ys h k = refl
take-take_append (suc n) zero page ys h k = absurd (omega arith)
take-take_append (suc n) (suc at) [] ys h k = absurd (omega arith)
take-take_append (suc n) (suc at) (x ∷ page) ys h k =
    ap (◌∷◌ x) (take-take_append n at page ys (omega arith) (omega arith))

pub slice_before :
    (a n at : ℕ) (page ys : Bytes)
    → a + n ≤ at
    → at ≤ length page
    → take n (drop a (take at page ++ ys)) ≡ take n (drop a page)
slice_before zero n at page ys h k = take-take_append n at page ys (omega (arith, h)) k
slice_before (suc a) n zero page ys h k = absurd (omega arith)
slice_before (suc a) n (suc at) [] ys h k = absurd (omega arith)
slice_before (suc a) n (suc at) (x ∷ page) ys h k =
    slice_before a n at page ys (omega (arith, h)) (omega arith)

drop_past :
    (m at : ℕ) (xs page : Bytes)
    → at ≤ length page
    → drop (at + (length xs + m)) (splice at xs page) ≡ drop (at + (length xs + m)) page
drop_past m at xs page h =
    drop-add at (length xs + m) (splice at xs page)
    ∙ ap (drop (length xs + m)) (drop_exact at (take at page) _ (length-take at page h))
    ∙ drop-add (length xs) m (xs ++ drop (at + length xs) page)
    ∙ ap (drop m) (drop-length_append xs (drop (at + length xs) page))
    ∙ sym (drop-add (at + length xs) m page)
    ∙ ap (λ i. drop i page) (omega arith)

pub drop-splice :
    (a at : ℕ) (xs page : Bytes)
    → at ≤ length page
    → at + length xs ≤ a
    → drop a (splice at xs page) ≡ drop a page
drop-splice a at xs page h k =
    let e : at + (length xs + (a - (at + length xs))) ≡ a = omega (arith, k) in
    ap (λ i. drop i (splice at xs page)) (sym e)
    ∙ drop_past (a - (at + length xs)) at xs page h
    ∙ ap (λ i. drop i page) e

-- What was written is read.
pub slice-splice :
    (at : ℕ) (xs page : Bytes)
    → at ≤ length page
    → take (length xs) (drop at (splice at xs page)) ≡ xs
slice-splice at xs page h =
    ap (take (length xs)) (drop_exact at (take at page) _ (length-take at page h))
    ∙ take-length_append xs (drop (at + length xs) page)

-- The bytes before and behind are left.
pub slice-splice_other :
    (a n at : ℕ) (xs page : Bytes)
    → at ≤ length page
    → (a + n ≤ at) ⊎ (at + length xs ≤ a)
    → take n (drop a (splice at xs page)) ≡ take n (drop a page)
slice-splice_other a n at xs page h (inl before) = slice_before a n at page _ before h
slice-splice_other a n at xs page h (inr after) = ap (take n) (drop-splice a at xs page h after)

pub length-put :
    (at v : ℕ) (page : Bytes) → at + 8 ≤ length page → length (put at v page) ≡ length page
unfolding put
length-put at v page h =
    length-splice at (to_le_bytes 8 v) page (omega (arith, h, length-to_le_bytes 8 v))

pub get-put :
    (at v : ℕ) (page : Bytes) → at + 8 ≤ length page → v < 2 ^ 64 → get (put at v page) at ≡ v
unfolding put get
get-put at v page h k =
    let eight = length-to_le_bytes 8 v in
    let e : at + 8 - at ≡ length (to_le_bytes 8 v) = omega (arith, eight) in
    ap (λ n. from_le_bytes (take n (drop at (splice at (to_le_bytes 8 v) page)))) e
    ∙ ap from_le_bytes (slice-splice at (to_le_bytes 8 v) page (omega (arith, h)))
    ∙ from_le_bytes-to_le_bytes 8 v (omega (arith, k))

pub slice-put :
    (a b at v : ℕ) (page : Bytes)
    → at + 8 ≤ length page
    → a ≤ b
    → (b ≤ at) ⊎ (at + 8 ≤ a)
    → slice a b (put at v page) ≡ slice a b page
unfolding put
slice-put a b at v page h k s =
    let eight = length-to_le_bytes 8 v in
    slice-splice_other a (b - a) at (to_le_bytes 8 v) page (omega (arith, h)) (apart s eight)
  where
    apart :
        (b ≤ at) ⊎ (at + 8 ≤ a)
        → length (to_le_bytes 8 v) ≡ 8
        → (a + (b - a) ≤ at) ⊎ (at + length (to_le_bytes 8 v) ≤ a)
    apart (inl x) e = inl (omega (arith, x, k))
    apart (inr y) e = inr (omega (arith, y, e))

pub get-put_other :
    (a at v : ℕ) (page : Bytes)
    → at + 8 ≤ length page
    → (a + 8 ≤ at) ⊎ (at + 8 ≤ a)
    → get (put at v page) a ≡ get page a
unfolding get
get-put_other a at v page h s = ap from_le_bytes (slice-put a (a + 8) at v page h (omega arith) s)

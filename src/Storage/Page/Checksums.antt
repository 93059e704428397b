-- ===== src/Storage/Page/Checksums.antt =====
-- The checksum of a page after each write.
use mathlib.Core.Path.{subst}
use eve_db.Base.{
  ℕ, ◌+◌, ◌-◌, ◌^◌, ◌≤◌, ◌<◌, ◌≡◌, sym, ap, ◌∙◌, ◌++◌, length, take, drop, length-append,
  length-take, length-drop, arith, ok,
}
use eve_db.Codec.LittleEndian.{
  Bytes, to_le_bytes, from_le_bytes, from_le_bytes-to_le_bytes, length-to_le_bytes,
}
use eve_db.Codec.Parses.{drop-add, drop-length_append, take-length_append}
use eve_db.Checksum.{initial, update, finish}
use eve_db.Storage.Frame.{slice}
use eve_db.Storage.Page.{
  zeros, page_size, slot_size, upper_offset, lower_offset, count_offset, splice, read_u16,
  write_u16, computed_checksum, refresh_checksum, place, record_count, insert_record,
}

pub take_exact : (n : ℕ) (xs ys : Bytes) → length xs ≡ n → take n (xs ++ ys) ≡ xs
take_exact n xs ys e = rw (← e) (take-length_append xs ys)

pub drop_exact : (n : ℕ) (xs ys : Bytes) → length xs ≡ n → drop n (xs ++ ys) ≡ ys
drop_exact n xs ys e = rw (← e) (drop-length_append xs ys)

-- A page of the right length, whose checksum field holds its checksum.
pub record IsSealed (page : Bytes) : Type 0 where
  pub whole : length page ≡ page_size
  pub sealed : from_le_bytes (slice 32 36 page) ≡ computed_checksum page

pub length-splice :
    (offset : ℕ) (xs page : Bytes)
    → offset + length xs ≤ length page
    → length (splice offset xs page) ≡ length page
length-splice offset xs page h = omega (
  arith,
  length-append (take offset page) (xs ++ drop (offset + length xs) page),
  length-append xs (drop (offset + length xs) page),
  length-take offset page (omega arith),
  length-drop (offset + length xs) page,
)

-- The three parts of a page that has a new checksum.
refresh_checksum-parts :
    (page : Bytes)
    → length page ≡ page_size
    → (take 32 (refresh_checksum page) ≡ take 32 page)
      × (slice 32 36 (refresh_checksum page) ≡ to_le_bytes 4 (computed_checksum page))
      × (drop 36 (refresh_checksum page) ≡ drop 36 page)
unfolding refresh_checksum
refresh_checksum-parts page h =
    let crc = to_le_bytes 4 (computed_checksum page) in
    let four = length-to_le_bytes 4 (computed_checksum page) in
    let first = length-take 32 page (omega (arith, h)) in
    let middle = drop_exact 32 (take 32 page) (crc ++ drop (32 + length crc) page) first in
    (
      take_exact 32 (take 32 page) _ first,
      ap (take 4) middle ∙ take_exact 4 crc _ four,
      drop-add 32 4 (splice 32 crc page)
          ∙ ap (drop 4) middle
          ∙ drop_exact 4 crc _ four
          ∙ ap (λ n. drop (32 + n) page) four,
    )

computed_checksum-lt : (page : Bytes) → computed_checksum page < 2 ^ 32
unfolding computed_checksum
computed_checksum-lt page = omega arith

-- The checksum reads nothing of its own field.
computed_checksum-eq :
    (page other : Bytes)
    → take 32 other ≡ take 32 page
    → drop 36 other ≡ drop 36 page
    → computed_checksum page ≡ computed_checksum other
unfolding computed_checksum
computed_checksum-eq page other front back =
    rw (← front)
      (ap (λ x. finish (update (update (update initial (take 32 other)) (zeros 4)) x)) (sym back))

pub refresh_checksum-IsSealed :
    (page : Bytes) → length page ≡ page_size → IsSealed (refresh_checksum page)
unfolding refresh_checksum
refresh_checksum-IsSealed page h =
    let (front, field, back) = refresh_checksum-parts page h in
    record {
      whole =
          length-splice 32 (to_le_bytes 4 (computed_checksum page)) page
            (omega (arith, h, length-to_le_bytes 4 (computed_checksum page)))
          ∙ h;
      sealed =
          ap from_le_bytes field
          ∙ from_le_bytes-to_le_bytes 4 (computed_checksum page) (computed_checksum-lt page)
          ∙ computed_checksum-eq page (refresh_checksum page) front back;
    }

pub length-write_u16 :
    (offset value : ℕ) (page : Bytes)
    → length page ≡ page_size
    → offset + 2 ≤ page_size
    → length (write_u16 offset value page) ≡ page_size
length-write_u16 offset value page h fits =
    length-splice offset (to_le_bytes 2 value) page
      (omega (arith, h, fits, length-to_le_bytes 2 value))
    ∙ h

pub insert_record-parts :
    (record_bytes page after : Bytes) (slot : ℕ)
    → insert_record record_bytes page ≡ ok (slot, after)
    → (length record_bytes + slot_size ≤ read_u16 page upper_offset - read_u16 page lower_offset)
      × (after ≡ refresh_checksum (place record_bytes page))
unfolding insert_record
insert_record-parts record_bytes page after slot e = ground arith

pub length-place :
    (record_bytes page : Bytes)
    → length page ≡ page_size
    → read_u16 page upper_offset ≤ page_size
    → length record_bytes + slot_size ≤ read_u16 page upper_offset - read_u16 page lower_offset
    → length (place record_bytes page) ≡ page_size
length-place record_bytes page h u fits =
    let lower = read_u16 page lower_offset in
    let offset = read_u16 page upper_offset - length record_bytes in
    let stored = length-splice offset record_bytes page (omega (arith, h, u, fits)) ∙ h in
    let a =
      length-write_u16 lower offset (splice offset record_bytes page) stored
        (omega (arith, u, fits)) in
    let b = length-write_u16 (lower + 2) (length record_bytes) _ a (omega (arith, u, fits)) in
    let c = length-write_u16 count_offset (record_count page + 1) _ b (omega arith) in
    let d = length-write_u16 lower_offset (lower + slot_size) _ c (omega arith) in
    length-write_u16 upper_offset offset _ d (omega arith)

-- An insertion that succeeds leaves a page of the same size, under its right checksum, if the free
-- space of the page ends inside it.
pub insert_record-IsSealed :
    (record_bytes page after : Bytes) (slot : ℕ)
    → length page ≡ page_size
    → read_u16 page upper_offset ≤ page_size
    → insert_record record_bytes page ≡ ok (slot, after)
    → IsSealed after
unfolding insert_record
insert_record-IsSealed record_bytes page after slot h u e =
    let (fits, done) = insert_record-parts record_bytes page after slot e in
    subst IsSealed (sym done) (
      refresh_checksum-IsSealed (place record_bytes page) (length-place record_bytes page h u fits))

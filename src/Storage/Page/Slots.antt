-- ===== src/Storage/Page/Slots.antt =====
-- The records of a page, by slot, before and after an insertion.
use mathlib.Core.Path.{subst}
use eve_db.Base.{
  ℕ, ◌+◌, ◌-◌, ◌*◌, ◌^◌, ◌≤◌, ◌<◌, ◌≡◌, refl, sym, ap, ◌∙◌, ◌⊎◌, inl, inr, none, some, length, take,
  drop, arith, ok, leb, ◌==◌, Bool-cases, false,
}
use eve_db.Codec.LittleEndian.{
  Bytes, to_le_bytes, from_le_bytes, from_le_bytes-to_le_bytes, length-to_le_bytes,
}
use eve_db.Storage.Page.{
  page_size, header_size, slot_size, upper_offset, lower_offset, count_offset, splice, read_u16,
  write_u16, computed_checksum, refresh_checksum, place, record_count, record_location, get_record,
  insert_record,
}
use eve_db.Storage.Page.Checksums.{
  length-splice, length-write_u16, insert_record-parts, refresh_checksum-IsSealed,
}
use eve_db.Storage.Index.Splices.{slice-splice, slice-splice_other}

-- A page whose slots end where its records may begin, with every record behind its free space.
pub record IsPage (page : Bytes) : Type 0 where
  pub whole : length page ≡ page_size
  pub lower_eq : read_u16 page lower_offset ≡ header_size + record_count page * slot_size
  pub ordered : read_u16 page lower_offset ≤ read_u16 page upper_offset
  pub inside : read_u16 page upper_offset ≤ page_size
  pub slots :
      (s : ℕ)
      → s < record_count page
      → ((record_location page s).0 ≡ 0)
        ⊎ ((read_u16 page upper_offset ≤ (record_location page s).0)
            × ((record_location page s).0 + (record_location page s).1 ≤ page_size))

read_u16-write_u16 :
    (at v : ℕ) (page : Bytes)
    → at + 2 ≤ length page
    → v < 2 ^ 16
    → read_u16 (write_u16 at v page) at ≡ v
read_u16-write_u16 at v page h k =
    let two = length-to_le_bytes 2 v in
    let e : at + 2 - at ≡ length (to_le_bytes 2 v) = omega (arith, two) in
    ap (λ n. from_le_bytes (take n (drop at (splice at (to_le_bytes 2 v) page)))) e
    ∙ ap from_le_bytes (slice-splice at (to_le_bytes 2 v) page (omega (arith, h)))
    ∙ from_le_bytes-to_le_bytes 2 v (omega (arith, k))

slice-write_u16 :
    (x n at v : ℕ) (page : Bytes)
    → at ≤ length page
    → (x + n ≤ at) ⊎ (at + 2 ≤ x)
    → take n (drop x (write_u16 at v page)) ≡ take n (drop x page)
slice-write_u16 x n at v page h (inl before) =
    slice-splice_other x n at (to_le_bytes 2 v) page h (inl before)
slice-write_u16 x n at v page h (inr after) =
    slice-splice_other x n at (to_le_bytes 2 v) page h
      (inr (omega (arith, after, length-to_le_bytes 2 v)))

slice-refresh_checksum :
    (x n : ℕ) (page : Bytes)
    → length page ≡ page_size
    → (x + n ≤ 32) ⊎ (36 ≤ x)
    → take n (drop x (refresh_checksum page)) ≡ take n (drop x page)
unfolding refresh_checksum
slice-refresh_checksum x n page h (inl before) =
    slice-splice_other x n 32 (to_le_bytes 4 (computed_checksum page)) page (omega (arith, h))
      (inl before)
slice-refresh_checksum x n page h (inr after) =
    slice-splice_other x n 32 (to_le_bytes 4 (computed_checksum page)) page (omega (arith, h))
      (inr (omega (arith, after, length-to_le_bytes 4 (computed_checksum page))))

read_u16-eq :
    (P Q : Bytes) (at : ℕ) → take 2 (drop at P) ≡ take 2 (drop at Q) → read_u16 P at ≡ read_u16 Q at
read_u16-eq P Q at e =
    let n : at + 2 - at ≡ 2 = omega arith in
    ap (λ i. from_le_bytes (take i (drop at P))) n
    ∙ ap from_le_bytes e
    ∙ ap (λ i. from_le_bytes (take i (drop at Q))) (sym n)

-- A page with another record, by what is read in it.
record IsPlaced (r page after : Bytes) : Type 0 where
  whole : length after ≡ page_size
  lower_eq : read_u16 after lower_offset ≡ read_u16 page lower_offset + slot_size
  upper_eq : read_u16 after upper_offset ≡ read_u16 page upper_offset - length r
  count_eq : record_count after ≡ record_count page + 1
  offset_eq : read_u16 after (read_u16 page lower_offset) ≡ read_u16 page upper_offset - length r
  size_eq : read_u16 after (read_u16 page lower_offset + 2) ≡ length r
  stored : take (length r) (drop (read_u16 page upper_offset - length r) after) ≡ r
  kept :
      (x n : ℕ)
      → 36 ≤ x
      → (x + n ≤ read_u16 page lower_offset) ⊎ (read_u16 page upper_offset ≤ x)
      → take n (drop x after) ≡ take n (drop x page)

place-IsPlaced :
    (r page : Bytes)
    → IsPage page
    → length r + slot_size ≤ read_u16 page upper_offset - read_u16 page lower_offset
    → IsPlaced r page (refresh_checksum (place r page))
place-IsPlaced r page p fits =
    let lower = read_u16 page lower_offset in
    let upper = read_u16 page upper_offset in
    let offset = upper - length r in
    let count = record_count page in
    let low : 40 ≤ lower = omega (arith, p.lower_eq) in
    let room : lower + 4 ≤ offset = omega (arith, fits) in
    let end : offset + length r ≡ upper = omega (arith, fits) in
    let top : upper ≤ 8192 = p.inside in
    let A = splice offset r page in
    let B = write_u16 lower offset A in
    let C = write_u16 (lower + 2) (length r) B in
    let D = write_u16 count_offset (count + 1) C in
    let E = write_u16 lower_offset (lower + slot_size) D in
    let F = write_u16 upper_offset offset E in
    let a : length A ≡ page_size =
      length-splice offset r page (omega (arith, p.whole, end, top)) ∙ p.whole in
    let b = length-write_u16 lower offset A a (omega (arith, room, end, top)) in
    let c = length-write_u16 (lower + 2) (length r) B b (omega (arith, room, end, top)) in
    let d = length-write_u16 count_offset (count + 1) C c (omega arith) in
    let e = length-write_u16 lower_offset (lower + slot_size) D d (omega arith) in
    let f : length F ≡ page_size = length-write_u16 upper_offset offset E e (omega arith) in
    let from_c : (x n : ℕ) → 36 ≤ x → take n (drop x (refresh_checksum F)) ≡ take n (drop x C) =
      λ x n q.
        slice-refresh_checksum x n F f (inr q)
        ∙ slice-write_u16 x n upper_offset offset E (omega (arith, e)) (inr (omega (arith, q)))
        ∙ slice-write_u16 x n lower_offset (lower + slot_size) D (omega (arith, d))
            (inr (omega (arith, q)))
        ∙ slice-write_u16 x n count_offset (count + 1) C (omega (arith, c))
            (inr (omega (arith, q))) in
    let field : (at : ℕ) → at + 2 ≤ 32 → read_u16 (refresh_checksum F) at ≡ read_u16 F at =
      λ at q. read_u16-eq (refresh_checksum F) F at (slice-refresh_checksum at 2 F f (inl q)) in
    let slot_field : (at : ℕ) → 36 ≤ at → read_u16 (refresh_checksum F) at ≡ read_u16 C at =
      λ at q. read_u16-eq (refresh_checksum F) C at (from_c at 2 q) in
    let from_a : (x n : ℕ)
        → (x + n ≤ lower) ⊎ (lower + 4 ≤ x)
        → take n (drop x C) ≡ take n (drop x A) =
      λ x n q.
        slice-write_u16 x n (lower + 2) (length r) B (omega (arith, b, room, end, top))
          (elim q [ inl q1 ↦ inl (omega (arith, q1)) | inr q2 ↦ inr (omega (arith, q2)) ])
        ∙ slice-write_u16 x n lower offset A (omega (arith, a, room, end, top))
            (elim q [ inl q1 ↦ inl q1 | inr q2 ↦ inr (omega (arith, q2)) ]) in
    record {
      whole = (refresh_checksum-IsSealed F f).whole;
      lower_eq =
          field lower_offset (omega arith)
          ∙ read_u16-eq F E lower_offset (
              slice-write_u16 lower_offset 2 upper_offset offset E (omega (arith, e))
                (inl (omega arith)))
          ∙ read_u16-write_u16 lower_offset (lower + slot_size) D (omega (arith, d))
              (omega (arith, room, end, top));
      upper_eq =
          field upper_offset (omega arith)
          ∙ read_u16-write_u16 upper_offset offset E (omega (arith, e)) (omega (arith, end, top));
      count_eq =
          field count_offset (omega arith)
          ∙ read_u16-eq F E count_offset (
              slice-write_u16 count_offset 2 upper_offset offset E (omega (arith, e))
                (inl (omega arith)))
          ∙ read_u16-eq E D count_offset (
              slice-write_u16 count_offset 2 lower_offset (lower + slot_size) D (omega (arith, d))
                (inl (omega arith)))
          ∙ read_u16-write_u16 count_offset (count + 1) C (omega (arith, c))
              (omega (arith, p.lower_eq, room, end, top));
      offset_eq =
          slot_field lower (omega (arith, low))
          ∙ read_u16-eq C B lower (
              slice-write_u16 lower 2 (lower + 2) (length r) B (omega (arith, b, room, end, top))
                (inl (omega arith)))
          ∙ read_u16-write_u16 lower offset A (omega (arith, a, room, end, top))
              (omega (arith, end, top));
      size_eq =
          slot_field (lower + 2) (omega (arith, low))
          ∙ read_u16-write_u16 (lower + 2) (length r) B (omega (arith, b, room, end, top))
              (omega (arith, end, top));
      stored =
          from_c offset (length r) (omega (arith, low, room))
          ∙ from_a offset (length r) (inr room)
          ∙ slice-splice offset r page (omega (arith, p.whole, end, top));
      kept = λ x n q out.
          from_c x n q
          ∙ from_a x n (elim out [ inl q1 ↦ inl q1 | inr q2 ↦ inr (omega (arith, q2, room, end)) ])
          ∙ slice-splice_other x n offset r page (omega (arith, p.whole, end, top)) (elim out [
            | inl q1 ↦ inl (omega (arith, q1, room))
            | inr q2 ↦ inr (omega (arith, q2, end))
          ]);
    }

-- The location of an old slot, and of the new one.
location_before :
    (r page after : Bytes) (s : ℕ)
    → IsPage page
    → IsPlaced r page after
    → s < record_count page
    → ((record_location after s).0 ≡ (record_location page s).0)
      × ((record_location after s).1 ≡ (record_location page s).1)
location_before r page after s p placed q = (
  read_u16-eq after page (40 + s * 4)
      (placed.kept (40 + s * 4) 2 (omega arith) (inl (omega (arith, p.lower_eq, q)))),
  read_u16-eq after page (40 + s * 4 + 2)
      (placed.kept (40 + s * 4 + 2) 2 (omega arith) (inl (omega (arith, p.lower_eq, q)))),
)

location_new :
    (r page after : Bytes)
    → IsPage page
    → IsPlaced r page after
    → ((record_location after (record_count page)).0 ≡ read_u16 page upper_offset - length r)
      × ((record_location after (record_count page)).1 ≡ length r)
location_new r page after p placed =
    let e : 40 + record_count page * 4 ≡ read_u16 page lower_offset = omega (arith, p.lower_eq) in
    (
      ap (read_u16 after) e ∙ placed.offset_eq,
      ap (λ at. read_u16 after (at + 2)) e ∙ placed.size_eq,
    )

-- What an insertion keeps and adds.
pub record HasRecord (r page after : Bytes) (slot : ℕ) : Type 0 where
  pub slot_eq : slot ≡ record_count page
  pub count_eq : record_count after ≡ record_count page + 1
  pub added : get_record after slot ≡ some r
  pub others : (s : ℕ) → s < slot → get_record after s ≡ get_record page s
  pub is_page : IsPage after

get_record_at :
    (page : Bytes) (s o n : ℕ)
    → s < record_count page
    → (record_location page s).0 ≡ o
    → (record_location page s).1 ≡ n
    → 0 < o
    → get_record page s ≡ some (take n (drop o page))
unfolding get_record
get_record_at page s o n q a b positive =
    let inside : leb (record_count page) s ≡ false = ground (arith, q) in
    let nonzero : (o == 0) ≡ false = ground (arith, positive) in
    let size : o + n - o ≡ n = omega arith in rw (inside, a, b, nonzero, size) refl

get_record_empty :
    (page : Bytes) (s : ℕ)
    → s < record_count page
    → (record_location page s).0 ≡ 0
    → get_record page s ≡ none
unfolding get_record
get_record_empty page s q a =
    let inside : leb (record_count page) s ≡ false = ground (arith, q) in rw (inside, a) refl

get_record_other :
    (r page after : Bytes) (s : ℕ)
    → IsPage page
    → IsPlaced r page after
    → s < record_count page
    → get_record after s ≡ get_record page s
get_record_other r page after s p placed q =
    let (same_offset, same_size) = location_before r page after s p placed q in
    let still : s < record_count after = omega (arith, placed.count_eq, q) in
    elim (p.slots s q) [
      | inl zero_eq ↦
          get_record_empty after s still (same_offset ∙ zero_eq)
          ∙ sym (get_record_empty page s q zero_eq)
      | inr held ↦
          (let positive : 0 < (record_location page s).0 =
              omega (arith, held.0, p.ordered, p.lower_eq) in
            get_record_at after s _ _ still same_offset same_size positive
            ∙ ap some (
                placed.kept (record_location page s).0 (record_location page s).1
                  (omega (arith, held.0, p.ordered, p.lower_eq)) (inr held.0))
            ∙ sym (get_record_at page s _ _ q refl refl positive))
    ]

placed-IsPage :
    (r page after : Bytes)
    → IsPage page
    → IsPlaced r page after
    → length r + slot_size ≤ read_u16 page upper_offset - read_u16 page lower_offset
    → IsPage after
placed-IsPage r page after p placed fits = record {
  whole = placed.whole;
  lower_eq = omega (arith, placed.lower_eq, placed.count_eq, p.lower_eq);
  ordered = omega (arith, placed.lower_eq, placed.upper_eq, fits);
  inside = omega (arith, placed.upper_eq, p.inside);
  slots = λ s q. elim (Bool-cases (leb (record_count page) s)) [
    | inl y ↦
        (let last : s ≡ record_count page = ground (arith, y, q, placed.count_eq) in
          let (offset_eq, size_eq) = location_new r page after p placed in
          inr (
            omega (arith, ap (λ i. (record_location after i).0) last, offset_eq, placed.upper_eq),
            omega (
              arith,
              ap (λ i. (record_location after i).0) last,
              ap (λ i. (record_location after i).1) last,
              offset_eq,
              size_eq,
              p.inside,
              fits,
            ),
          ))
    | inr x ↦
        (let old : s < record_count page = ground (arith, x) in
          let (same_offset, same_size) = location_before r page after s p placed old in
          elim (p.slots s old) [
            | inl zero_eq ↦ inl (same_offset ∙ zero_eq)
            | inr held ↦ inr (
              omega (arith, held.0, same_offset, placed.upper_eq),
              omega (arith, held.1, same_offset, same_size),
            )
          ])
  ];
}

insert_record-slot :
    (r page after : Bytes) (slot : ℕ)
    → insert_record r page ≡ ok (slot, after)
    → slot ≡ record_count page
unfolding insert_record
insert_record-slot r page after slot e = ground (arith, e)

-- An insertion that succeeds adds the record to the page: it returns the number of slots that were
-- there, this slot then reads the record, every slot before it reads what it read before, and the
-- page has the layout of a page again. The page has that layout before.
pub insert_record-HasRecord :
    (r page after : Bytes) (slot : ℕ)
    → IsPage page
    → insert_record r page ≡ ok (slot, after)
    → HasRecord r page after slot
insert_record-HasRecord r page after slot p e =
    let (fits, done) = insert_record-parts r page after slot e in
    let first = insert_record-slot r page after slot e in
    let placed = subst (IsPlaced r page) (sym done) (place-IsPlaced r page p fits) in
    let (offset_eq, size_eq) = location_new r page after p placed in
    record {
      slot_eq = first;
      count_eq = placed.count_eq;
      added =
          ap (get_record after) first
          ∙ get_record_at after (record_count page) _ _ (omega (arith, placed.count_eq)) offset_eq
              size_eq (omega (arith, fits, p.lower_eq))
          ∙ ap some placed.stored;
      others = λ s q. get_record_other r page after s p placed (omega (arith, first, q));
      is_page = placed-IsPage r page after p placed fits;
    }

-- ===== src/Storage/Page/Layout.antt =====
-- The pages that `from_bytes` accepts.
use eve_db.Base.{
  ℕ, zero, suc, ◌+◌, ◌*◌, ◌≤◌, ◌<◌, ◌≡◌, refl, sym, ◌⊎◌, inl, inr, length, arith, ok, ◌==◌, ◌&&◌,
  Bool-cases, Result, err,
}
use eve_db.Codec.LittleEndian.{Bytes}
use eve_db.Storage.Page.{
  page_size, read_u16, upper_offset, lower_offset, record_count, record_location, check_slots,
  from_bytes, PageError,
}
use eve_db.Storage.Page.Slots.{IsPage}

abbrev IsSlot : Bytes → ℕ → ℕ → Type 0
IsSlot page upper s =
    ((record_location page s).0 ≡ 0)
    ⊎ ((upper ≤ (record_location page s).0)
        × ((record_location page s).0 + (record_location page s).1 ≤ page_size))

record Checked (n slot upper end : ℕ) (page : Bytes) (last : ℕ) : Type 0 where
  here : IsSlot page upper slot
  next_end : ℕ
  next_end_le : next_end ≤ page_size
  rest : check_slots n (slot + 1) upper next_end page ≡ ok last

check_slots-Checked :
    (n slot upper end : ℕ) (page : Bytes) (last : ℕ)
    → end ≤ page_size
    → check_slots (suc n) slot upper end page ≡ ok last
    → Checked n slot upper end page last
unfolding check_slots
check_slots-Checked n slot upper end page last p h =
    let o = (record_location page slot).0 in
    let m = (record_location page slot).1 in
    elim (Bool-cases (o == 0 && m == 0)) [
      | inl y ↦ record {
        here = inl (ground (arith, y));
        next_end = end;
        next_end_le = p;
        rest = ground (arith, h, y);
      }
      | inr x ↦ record {
        here = inr (ground (arith, h, x), ground (arith, h, x, p));
        next_end = o;
        next_end_le = ground (arith, h, x, p);
        rest = ground (arith, h, x);
      }
    ]

check_slots-IsSlot :
    (n slot upper end : ℕ) (page : Bytes) (last s : ℕ)
    → end ≤ page_size
    → check_slots n slot upper end page ≡ ok last
    → slot ≤ s
    → s < slot + n
    → IsSlot page upper s
check_slots-IsSlot zero slot upper end page last s p h q r = absurd (omega (arith, q, r))
check_slots-IsSlot (suc n) slot upper end page last s p h q r =
    let checked = check_slots-Checked n slot upper end page last p h in
    elim (Bool-cases (slot == s)) [
      | inl y ↦ (let same : slot ≡ s = ground (arith, y) in rw (← same) checked.here)
      | inr x ↦
          check_slots-IsSlot n (slot + 1) upper checked.next_end page last s checked.next_end_le
            checked.rest (ground (arith, q, x)) (omega (arith, r))
    ]

-- What `from_bytes` has found.
record Accepted (bytes page : Bytes) : Type 0 where
  same : bytes ≡ page
  whole : length bytes ≡ page_size
  lower_eq : read_u16 bytes lower_offset ≡ 40 + record_count bytes * 4
  ordered : read_u16 bytes lower_offset ≤ read_u16 bytes upper_offset
  inside : read_u16 bytes upper_offset ≤ page_size
  last : ℕ
  slots : check_slots (record_count bytes) 0 (read_u16 bytes upper_offset) page_size bytes ≡ ok last

from_bytes-Accepted : (bytes page : Bytes) → from_bytes bytes ≡ ok page → Accepted bytes page
unfolding from_bytes
from_bytes-Accepted bytes page h = accepted _ refl
  where
    accepted :
        (r : Result PageError ℕ)
        → check_slots (record_count bytes) 0 (read_u16 bytes upper_offset) page_size bytes ≡ r
        → Accepted bytes page
    accepted (err e) x = absurd (ground (arith, h, x))
    accepted (ok last) x = record {
      same = ground (arith, h, x);
      whole = ground (arith, h);
      lower_eq = ground (arith, h);
      ordered = ground (arith, h);
      inside = ground (arith, h);
      last = last;
      slots = x;
    }

-- A page that `from_bytes` accepts is the bytes that it was given, and has the layout of a page:
-- its slots end where the code looks for the next one, and every record is behind the free space.
pub from_bytes-IsPage :
    (bytes page : Bytes) → from_bytes bytes ≡ ok page → (page ≡ bytes) × IsPage page
from_bytes-IsPage bytes page h =
    let a = from_bytes-Accepted bytes page h in
    (
      sym a.same,
      rw (← a.same) (record {
        whole = a.whole;
        lower_eq = a.lower_eq;
        ordered = a.ordered;
        inside = a.inside;
        slots = λ s q.
            check_slots-IsSlot (record_count bytes) 0 (read_u16 bytes upper_offset) page_size bytes
              a.last s (omega arith) a.slots (omega arith) (omega (arith, q));
      }),
    )

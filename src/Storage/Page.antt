-- ===== src/Storage/Page.antt =====
-- storage/page.rs: slotted pages. A page is its bytes; a write replaces bytes in place. The reads
-- and writes of the code are inside the page, where `splice` and `slice` are those of Rust.
pub mod Checksums
pub mod Slots
pub mod Layout
mod Tests
use eve_db.Base.{
  ℕ, zero, suc, ◌+◌, ◌-◌, ◌*◌, ◌^◌, ◌%◌, Bool, true, false, not, ◌&&◌, ◌||◌, ltb, leb, ◌==◌,
  if◌then◌else◌, Option, none, some, List, [], ◌∷◌, ◌++◌, length, take, drop, Result, ok, err,
  ◌>>=◌, ◌>>◌,
}
use eve_db.Codec.LittleEndian.{Bytes, to_le_bytes, from_le_bytes}
use eve_db.Checksum.{initial, update, finish}
use eve_db.Model.Schemas.Names.{same_bytes}
use eve_db.Storage.Frame.{slice}

abbrev pub page_size : ℕ
page_size = 8192

abbrev pub header_size : ℕ
header_size = 40

abbrev pub slot_size : ℕ
slot_size = 4

abbrev pub count_offset : ℕ
count_offset = 16

abbrev pub lower_offset : ℕ
lower_offset = 18

abbrev pub upper_offset : ℕ
upper_offset = 20

-- `b"EVPG"`
abbrev pub page_magic : Bytes
page_magic = 69 ∷ 86 ∷ 80 ∷ 71 ∷ []

abbrev pub max_record_size : ℕ
max_record_size = page_size - header_size - slot_size

pub data PageError : Type 0 where
  invalid_size : PageError
  invalid_header : PageError
  unsupported_version : ℕ → PageError
  invalid_layout : PageError
  record_too_large : PageError
  full : PageError
  checksum_mismatch : PageError

-- `bytes[offset..offset + xs.len()].copy_from_slice(xs)`
abbrev pub splice : ℕ → Bytes → Bytes → Bytes
splice offset xs page = take offset page ++ (xs ++ drop (offset + length xs) page)

abbrev pub zeros : ℕ → Bytes
zeros zero = []
zeros (suc n) = 0 ∷ zeros n

abbrev pub read_u16 : Bytes → ℕ → ℕ
read_u16 page offset = from_le_bytes (slice offset (offset + 2) page)

abbrev pub write_u16 : ℕ → ℕ → Bytes → Bytes
write_u16 offset value page = splice offset (to_le_bytes 2 value) page

pub computed_checksum : Bytes → ℕ
computed_checksum page =
    finish (update (update (update initial (take 32 page)) (zeros 4)) (drop 36 page))

pub refresh_checksum : Bytes → Bytes
refresh_checksum page = splice 32 (to_le_bytes 4 (computed_checksum page)) page

-- `SlottedPage::new`
pub new_page : ℕ → Bytes
new_page page_id =
    let page = splice 0 page_magic (zeros page_size) in
    let page = write_u16 4 2 page in
    let page = write_u16 6 page_size page in
    let page = splice 8 (to_le_bytes 8 page_id) page in
    let page = write_u16 lower_offset header_size page in
    let page = write_u16 upper_offset page_size page in refresh_checksum page

abbrev pub page_id : Bytes → ℕ
page_id page = from_le_bytes (slice 8 16 page)

abbrev pub page_lsn : Bytes → ℕ
page_lsn page = from_le_bytes (slice 24 32 page)

pub set_lsn : ℕ → Bytes → Bytes
set_lsn lsn page = refresh_checksum (splice 24 (to_le_bytes 8 lsn) page)

abbrev pub record_count : Bytes → ℕ
record_count page = read_u16 page count_offset

-- The difference of two `u16`s that every page has in order.
abbrev pub free_space : Bytes → ℕ
free_space page = read_u16 page upper_offset - read_u16 page lower_offset

abbrev pub record_location : Bytes → ℕ → ℕ × ℕ
record_location page slot =
    let entry = header_size + slot * slot_size in (read_u16 page entry, read_u16 page (entry + 2))

-- The loop of `from_bytes` from a slot on: the end that the next record must have, or an error.
pub check_slots : ℕ → ℕ → ℕ → ℕ → Bytes → Result PageError ℕ
check_slots zero slot upper expected_end page = ok expected_end
check_slots (suc n) slot upper expected_end page =
    let (offset, size) = record_location page slot in
    if offset == 0 && size == 0
    then check_slots n (slot + 1) upper expected_end page
    else if ltb offset upper || not (offset + size == expected_end)
    then err PageError.invalid_layout
    else check_slots n (slot + 1) upper offset page

pub from_bytes : Bytes → Result PageError Bytes
from_bytes page =
    if not (length page == page_size)
    then err PageError.invalid_size
    else if not (same_bytes (take 4 page) page_magic)
    then err PageError.invalid_header
    else if not (read_u16 page 4 == 2)
    then err (PageError.unsupported_version (read_u16 page 4))
    else if not (read_u16 page 6 == page_size)
        || not (read_u16 page 22 == 0)
        || not (same_bytes (slice 36 40 page) (zeros 4))
    then err PageError.invalid_header
    else (let lower = read_u16 page lower_offset in
        let upper = read_u16 page upper_offset in
        if not (lower == header_size + record_count page * slot_size)
          || ltb upper lower
          || ltb page_size upper
        then err PageError.invalid_layout
        else do
          last ← check_slots (record_count page) 0 upper page_size page
          if not (last == upper)
              then err PageError.invalid_layout
              else if not (from_le_bytes (slice 32 36 page) == computed_checksum page)
              then err PageError.checksum_mismatch
              else ok page)

-- The writes of `insert`: the record, its slot, and the header.
abbrev pub place : Bytes → Bytes → Bytes
place record_bytes page =
    let slot = record_count page in
    let lower = read_u16 page lower_offset in
    let upper = read_u16 page upper_offset in
    let offset = upper - length record_bytes in
    let page = splice offset record_bytes page in
    let page = write_u16 lower offset page in
    let page = write_u16 (lower + 2) (length record_bytes) page in
    let page = write_u16 count_offset (slot + 1) page in
    let page = write_u16 lower_offset (lower + slot_size) page in write_u16 upper_offset offset page

-- `insert`: the slot, and the page after the call.
unfoldable pub insert_record : Bytes → Bytes → Result PageError (ℕ × Bytes)
insert_record record_bytes page =
    if ltb max_record_size (length record_bytes)
    then err PageError.record_too_large
    else if ltb (free_space page) (length record_bytes + slot_size)
    then err PageError.full
    else ok (record_count page, refresh_checksum (place record_bytes page))

pub get_record : Bytes → ℕ → Option Bytes
get_record page slot =
    if leb (record_count page) slot
    then none
    else (let (offset, size) = record_location page slot in
        if offset == 0 then none else some (slice offset (offset + size) page))

pub append_optional : Option Bytes → Bytes → Result PageError Bytes
append_optional (some record_bytes) page = insert_record record_bytes page >>= λ r. ok (r.1)
append_optional none page =
    if ltb (free_space page) slot_size
    then err PageError.full
    else (let lower = read_u16 page lower_offset in
        let page = write_u16 lower 0 page in
        let page = write_u16 (lower + 2) 0 page in
        let page = write_u16 lower_offset (lower + slot_size) page in
        let page = write_u16 count_offset (record_count page + 1) page in
        ok (refresh_checksum page))

-- The loop that `replace` and `remove` share: slot by slot, with another record at one of them.
pub rebuild : ℕ → ℕ → ℕ → Option Bytes → Bytes → Bytes → Result PageError Bytes
rebuild zero index slot other page rebuilt = ok rebuilt
rebuild (suc n) index slot other page rebuilt = do
  next ← append_optional (if index == slot then other else get_record page index) rebuilt
  rebuild n (index + 1) slot other page next

pub replace_record : ℕ → Bytes → Bytes → Result PageError Bytes
replace_record slot record_bytes page = elim (get_record page slot) [
  | none ↦ err PageError.invalid_layout
  | some old ↦
      if ltb max_record_size (length record_bytes)
      then err PageError.record_too_large
      else rebuild (record_count page) 0 slot (some record_bytes) page
          (set_lsn (page_lsn page) (new_page (page_id page)))
]

-- The inner error is the panic of `expect`.
pub remove_record : ℕ → Bytes → Result PageError (Bool × Bytes)
remove_record slot page = elim (get_record page slot) [
  | none ↦ ok (false, page)
  | some old ↦
      rebuild (record_count page) 0 slot none page
        (set_lsn (page_lsn page) (new_page (page_id page)))
      >>= λ rebuilt. ok (true, rebuilt)
]

-- ===== src/Storage/Page/Tests.antt =====
-- A record that goes into an empty page.
use eve_db.Base.{◌≡◌, refl, [], ◌∷◌, length, arith, ok}
use eve_db.Codec.LittleEndian.{Bytes, to_le_bytes, from_le_bytes}
use eve_db.Storage.Page.{
  page_size, header_size, lower_offset, upper_offset, write_u16, zeros, place, refresh_checksum,
  insert_record, from_bytes, new_page, check_slots, computed_checksum,
}
use eve_db.Storage.Page.Slots.{IsPage, HasRecord, insert_record-HasRecord}
use eve_db.Storage.Page.Layout.{from_bytes-IsPage}
use eve_db.Checksum.{update, table_entry}
use eve_db.Model.Schemas.Names.{same_bytes}
use eve_db.Storage.Page.Checksums.{IsSealed, insert_record-IsSealed}

-- An empty page that has no magic and no checksum yet.
abbrev page : Bytes
page = write_u16 upper_offset page_size (write_u16 lower_offset header_size (zeros page_size))

abbrev after : Bytes
after = refresh_checksum (place (1 ∷ 2 ∷ 3 ∷ []) page)

insert_ok : insert_record (1 ∷ 2 ∷ 3 ∷ []) page ≡ ok (0, after)
unfolding insert_record to_le_bytes from_le_bytes
insert_ok = refl

page_whole : length page ≡ page_size
unfolding to_le_bytes
page_whole = refl

insert_record-IsSealed_example : IsSealed after
unfolding to_le_bytes from_le_bytes
insert_record-IsSealed_example =
    insert_record-IsSealed (1 ∷ 2 ∷ 3 ∷ []) page after 0 page_whole (omega arith) insert_ok

page-IsPage : IsPage page
unfolding to_le_bytes from_le_bytes
page-IsPage = record {
  whole = refl;
  lower_eq = refl;
  ordered = omega arith;
  inside = omega arith;
  slots = λ s q. absurd (omega arith);
}

insert_record-HasRecord_example : HasRecord (1 ∷ 2 ∷ 3 ∷ []) page after 0
insert_record-HasRecord_example =
    insert_record-HasRecord (1 ∷ 2 ∷ 3 ∷ []) page after 0 page-IsPage insert_ok

new_page_ok : from_bytes (new_page 5) ≡ ok (new_page 5)
unfolding from_bytes new_page check_slots refresh_checksum computed_checksum to_le_bytes
    from_le_bytes update same_bytes table_entry
new_page_ok = refl

from_bytes-IsPage_example : (new_page 5 ≡ new_page 5) × IsPage (new_page 5)
from_bytes-IsPage_example = from_bytes-IsPage (new_page 5) (new_page 5) new_page_ok

-- ===== src/Storage/Index/Tests.antt =====
-- An index of three entries, and a file that is none.
use eve_db.Base.{◌≡◌, ◌≢◌, refl, List, [], ◌∷◌, none, some, false, ok, arith}
use eve_db.Base.Order.{nat_ord, pair_ord}
use eve_db.Codec.LittleEndian.{Bytes}
use eve_db.Storage.Page.{page_size, zeros}
use eve_db.Storage.Index.{Key, Value}
use eve_db.Storage.Index.Writer.{build}
use eve_db.Storage.Index.Reader.{descend}
use eve_db.Storage.Index.Refinement.{IsIndex, build-IsIndex}
use eve_db.Storage.Index.Cursor.{IndexCursor, next_entry, next_entry-ends}
use eve_db.Storage.Index.Termination.{descend-ends}

abbrev three : List (Key × Value)
three = ((1, 1), (7, 7)) ∷ ((1, 4), (8, 0)) ∷ ((2, 0), (9, 1)) ∷ []

build-IsIndex_example :
    (index : Bytes) × (build [] 77 0 three ≡ ok index) × IsIndex index 77 0 three
unfolding nat_ord pair_ord
build-IsIndex_example =
    build-IsIndex [] 77 0 three refl ((refl, (refl, tt)), ((refl, tt), (tt, tt)))
      (
        ((omega arith, omega arith), (omega arith, omega arith)),
        (
          ((omega arith, omega arith), (omega arith, omega arith)),
          (((omega arith, omega arith), (omega arith, omega arith)), tt),
        ),
      )
      (omega arith) (omega arith)

descend-ends_example : descend (1 ∷ 2 ∷ 3 ∷ []) 77 0 (1, 4) ≢ none
descend-ends_example = descend-ends (1 ∷ 2 ∷ 3 ∷ []) 77 0 (1, 4)

-- At the end of a leaf whose page is all zeros.
abbrev at_end : IndexCursor
at_end = record {
  file = 1 ∷ 2 ∷ 3 ∷ [];
  lsn = 77;
  upper = (9, 9);
  leaf = some (zeros page_size);
  position = 0;
  failed = false;
}

next_entry-ends_example : next_entry at_end ≢ none
next_entry-ends_example = next_entry-ends at_end

-- ===== src/Storage/Index.antt =====
-- storage/index.rs: the pages of the immutable B+tree. A page is its bytes, and a file is its bytes.
pub mod Writer
pub mod Reader
pub mod Splices
pub mod Search
pub mod Rows
pub mod Pages
pub mod Nodes
pub mod Entries
pub mod Children
pub mod Trees
pub mod Descents
pub mod Reaches
pub mod Files
pub mod Levels
pub mod Branches
pub mod Roots
pub mod Builds
pub mod Meta
pub mod Refinement
pub mod Termination
pub mod Cursor
mod Tests
use eve_db.Base.{
  ℕ, zero, suc, ◌+◌, ◌-◌, ◌*◌, ◌/◌, Bool, true, false, not, ◌&&◌, ◌||◌, ltb, leb, ◌==◌,
  if◌then◌else◌, Option, none, some, List, [], ◌∷◌, ◌++◌, length, Error, Result, ok, err, ◌>>=◌,
  ◌>>◌, ensure, corrupt, plain,
}
use eve_db.Base.Order.{below, same, nat_ord, pair_ord}
use eve_db.Codec.LittleEndian.{Bytes, to_le_bytes, from_le_bytes}
use eve_db.Checksum.{crc32c}
use eve_db.Model.Schemas.Names.{same_bytes}
use eve_db.Storage.Frame.{slice}
use eve_db.Storage.Page.{page_size, splice, zeros}

abbrev pub Key : Type 0
Key = ℕ × ℕ

abbrev pub Value : Type 0
Value = ℕ × ℕ

abbrev pub header : ℕ
header = 40

abbrev pub leaf_width : ℕ
leaf_width = 32

abbrev pub branch_width : ℕ
branch_width = 24

abbrev pub leaf_capacity : ℕ
leaf_capacity = (page_size - header) / leaf_width

abbrev pub branch_capacity : ℕ
branch_capacity = (page_size - header) / branch_width

-- `b"EVIX"`
abbrev pub magic : Bytes
magic = 69 ∷ 86 ∷ 73 ∷ 88 ∷ []

unfoldable pub put : ℕ → ℕ → Bytes → Bytes
put at value bytes = splice at (to_le_bytes 8 value) bytes

unfoldable pub get : Bytes → ℕ → ℕ
get bytes at = from_le_bytes (slice at (at + 8) bytes)

unfoldable pub page : ℕ → ℕ → ℕ → ℕ → ℕ → Bytes
page kind id lsn count next =
    let bytes = splice 0 magic (zeros page_size) in
    let bytes = splice 4 (to_le_bytes 2 1) bytes in
    let bytes = splice 6 (to_le_bytes 2 kind) bytes in
    let bytes = put 8 id bytes in
    let bytes = put 16 lsn bytes in
    let bytes = splice 24 (to_le_bytes 2 count) bytes in put 32 next bytes

-- `write`: the file after it, at its end.
unfoldable pub seal : Bytes → Bytes
seal bytes = splice 28 (to_le_bytes 4 (crc32c bytes)) bytes

abbrev pub kind : Bytes → ℕ
kind node = from_le_bytes (slice 6 8 node)

abbrev pub count : Bytes → ℕ
count node = from_le_bytes (slice 24 26 node)

abbrev pub lsn : Bytes → ℕ
lsn node = get node 16

abbrev pub next : Bytes → ℕ
next node = get node 32

abbrev pub width : Bytes → ℕ
width node = if kind node == 1 then leaf_width else branch_width

unfoldable pub key : Bytes → ℕ → Key
key node index = let at = header + index * width node in (get node at, get node (at + 8))

unfoldable pub value : Bytes → ℕ → Value
value node index = let at = header + index * leaf_width in (get node (at + 16), get node (at + 24))

unfoldable pub child : Bytes → ℕ → ℕ
child node index = get node (header + index * branch_width + 16)

-- The checks of the loop of `Node::decode` on an entry.
abbrev pub check_entry : Bytes → ℕ → Option Key → ℕ → Result Error (Unit {0})
check_entry node id previous i =
    if is_out_of_order previous
    then err (corrupt (plain "unordered index node"))
    else if kind node == 2 && (child node i == 0 || leb id (child node i))
    then err (corrupt (plain "invalid index child"))
    else ok tt
  where
    is_out_of_order : Option Key → Bool
    is_out_of_order none = false
    is_out_of_order (some p) = not (below p (key node i))

-- The loop of `Node::decode`: `n` entries from `i` on.
unfoldable pub check_entries : ℕ → Bytes → ℕ → Option Key → ℕ → Result Error (Unit {0})
check_entries zero node id previous i = ok tt
check_entries (suc n) node id previous i =
    check_entry node id previous i >> check_entries n node id (some (key node i)) (i + 1)

abbrev pub check_node : Bytes → ℕ → Result Error Bytes
check_node node id =
    if count node == 0 || ltb ((page_size - header) / width node) (count node)
    then err (corrupt (plain "invalid index node count"))
    else check_entries (count node) node id none 0
      >> (if kind node == 1 && not (next node == 0) && leb (next node) id
          then err (corrupt (plain "cyclic index leaf chain"))
          else ok node)

-- The kinds that `Node::decode` tells apart.
unfoldable pub check_kind : Bytes → ℕ → Result Error Bytes
check_kind node id =
    if kind node == 0 && count node == 0 && (next node == 0 || ltb id (next node))
    then ok node
    else if kind node == 1 || kind node == 2
    then check_node node id
    else err (corrupt (plain "invalid index node kind"))

-- `Node::decode`: the page with its checksum cleared.
unfoldable pub decode : ℕ → Bytes → Result Error Bytes
decode id bytes =
    let expected = from_le_bytes (slice 28 32 bytes) in
    let node = splice 28 (zeros 4) bytes in
    if not (same_bytes (slice 0 4 node) magic)
      || not (same_bytes (slice 4 6 node) (to_le_bytes 2 1))
      || not (get node 8 == id)
      || not (same_bytes (slice 26 28 node) (zeros 2))
      || not (crc32c node == expected)
    then err (corrupt (plain "invalid index page header or checksum"))
    else check_kind node id

-- `Node::lower_bound` with `high - low` as the bound of its rounds.
unfoldable pub search : ℕ → Bytes → Key → ℕ → ℕ → ℕ
search zero node k low high = low
search (suc n) node k low high =
    let middle = low + (high - low) / 2 in
    let right = search n node k (middle + 1) high in
    let left = search n node k low middle in
    if ltb low high then (if below (key node middle) k then right else left) else low

unfoldable pub lower_bound : Bytes → Key → ℕ
lower_bound node k = search (count node) node k 0 (count node)

unfoldable pub floor_index : Bytes → Key → Option ℕ
floor_index node k =
    let index = lower_bound node k in
    if ltb index (count node) && same (key node index) k
    then some index
    else if index == 0
    then none
    else some (index - 1)

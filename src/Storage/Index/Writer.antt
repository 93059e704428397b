-- ===== src/Storage/Index/Writer.antt =====
-- storage/index.rs: `IndexWriter`, which builds a tree from entries in key order, level by level.
-- A write appends its page to the file; the operating system takes every write.
use eve_db.Base.{
  ℕ, zero, suc, ◌+◌, ◌*◌, ◌==◌, Bool, true, not, if◌then◌else◌, Option, none, some, List, [], ◌∷◌,
  ◌++◌, length, take, drop, ltb, Error, Result, ok, err, ◌>>=◌, corrupt, plain,
}
use eve_db.Base.Order.{below, nat_ord, pair_ord}
use eve_db.Codec.LittleEndian.{Bytes}
use eve_db.Storage.Page.{page_size, splice, zeros}
use eve_db.Storage.Index.{
  Key, Value, header, leaf_width, branch_width, leaf_capacity, branch_capacity, put, page, seal,
}

pub record IndexWriter : Type 0 where
  pub file : Bytes
  pub lsn : ℕ
  pub next : ℕ
  pub base : ℕ
  pub count : ℕ
  pub leaf : List (Key × Value)
  pub level : List (Key × ℕ)
  pub previous : Option Key

abbrev pub from_file : Bytes → ℕ → ℕ → IndexWriter
from_file file lsn base = record {
  file = file ++ zeros page_size;
  lsn = lsn;
  next = base + 1;
  base = base;
  count = 0;
  leaf = [];
  level = [];
  previous = none;
}

abbrev pub put_entry : ℕ → Key → Value → Bytes → Bytes
put_entry at k v bytes =
    put (at + 24) (v.1) (put (at + 16) (v.0) (put (at + 8) (k.1) (put at (k.0) bytes)))

-- The loop of `flush_leaf`, from an index on.
unfoldable pub put_entries : ℕ → List (Key × Value) → Bytes → Bytes
put_entries i [] bytes = bytes
put_entries i ((k, v) ∷ es) bytes =
    put_entries (i + 1) es (put_entry (header + i * leaf_width) k v bytes)

abbrev pub put_child : ℕ → Key → ℕ → Bytes → Bytes
put_child at k id bytes = put (at + 16) id (put (at + 8) (k.1) (put at (k.0) bytes))

-- The inner loop of `finish_part`, from an index on.
unfoldable pub put_children : ℕ → List (Key × ℕ) → Bytes → Bytes
put_children i [] bytes = bytes
put_children i ((k, id) ∷ cs) bytes =
    put_children (i + 1) cs (put_child (header + i * branch_width) k id bytes)

-- A leaf page with these entries, and the entry of it in the level; the last leaf has `next` 0.
abbrev pub write_leaf : ℕ → List (Key × Value) → IndexWriter → IndexWriter
write_leaf next [] w = w
write_leaf next (e ∷ es) w = record w {
  file = w.file ++ seal (put_entries 0 (e ∷ es) (page 1 w.next w.lsn (length (e ∷ es)) next));
  level = w.level ++ (e.0, w.next) ∷ [];
  next = w.next + 1;
  leaf = [];
}

unfoldable pub flush_leaf : ℕ → IndexWriter → IndexWriter
flush_leaf next w = write_leaf next w.leaf w

abbrev pub is_ordered : Option Key → Key → Bool
is_ordered none k = true
is_ordered (some previous) k = below previous k

unfoldable pub append : Key → Value → IndexWriter → Result Error IndexWriter
append k v w =
    if not (is_ordered w.previous k)
    then err (corrupt (plain "index keys are not strictly ordered"))
    else (let flushed = if length w.leaf == leaf_capacity then flush_leaf (w.next + 1) w else w in
        ok (record flushed {
          leaf = flushed.leaf ++ (k, v) ∷ [];
          previous = some k;
          count = flushed.count + 1;
        }))

-- A branch page with these children, and the entry of it in the level above.
abbrev pub write_branch : List (Key × ℕ) → IndexWriter → IndexWriter
write_branch [] w = w
write_branch (c ∷ cs) w = record w {
  file = w.file ++ seal (put_children 0 (c ∷ cs) (page 2 w.next w.lsn (length (c ∷ cs)) 0));
  level = w.level ++ (c.0, w.next) ∷ [];
  next = w.next + 1;
}

-- The `for` loop of `finish_part` over `chunks`, with the parents in the level; `n` bounds its rounds.
unfoldable pub write_parents : ℕ → List (Key × ℕ) → IndexWriter → IndexWriter
write_parents zero children w = w
write_parents (suc n) [] w = w
write_parents (suc n) (c ∷ cs) w =
    write_parents n (drop branch_capacity (c ∷ cs)) (write_branch (take branch_capacity (c ∷ cs)) w)

-- The `while` loop of `finish_part`, with a bound on its rounds.
unfoldable pub write_levels : ℕ → IndexWriter → IndexWriter
write_levels zero w = w
write_levels (suc n) w =
    let rest = write_levels n (write_parents (length w.level) w.level (record w { level = [] })) in
    if ltb 1 (length w.level) then rest else w

abbrev pub root : List (Key × ℕ) → ℕ
root [] = 0
root (c ∷ cs) = c.1

-- `finish_part`: the file, with its position at its end.
unfoldable pub finish_part : IndexWriter → Bytes
finish_part start =
    let flushed = flush_leaf 0 start in
    let w = write_levels (length flushed.level) flushed in
    splice (w.base * page_size) (seal (put 40 w.count (page 0 w.base w.lsn 0 (root w.level))))
      w.file

-- The calls of a client: entry by entry, and the end.
unfoldable pub append_all : List (Key × Value) → IndexWriter → Result Error IndexWriter
append_all [] w = ok w
append_all ((k, v) ∷ es) w = append k v w >>= append_all es

unfoldable pub build : Bytes → ℕ → ℕ → List (Key × Value) → Result Error Bytes
build file lsn base es = append_all es (from_file file lsn base) >>= λ w. ok (finish_part w)

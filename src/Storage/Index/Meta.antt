-- ===== src/Storage/Index/Meta.antt =====
-- The first page of an index, and a descent from it to the leaf of a key.
use mathlib.Core.List.{append-nil}
use mathlib.Core.Path.{subst}
use eve_db.Base.{
  ℕ, zero, suc, ◌+◌, ◌*◌, ◌%◌, ◌^◌, ◌≤◌, ◌<◌, ◌≡◌, refl, sym, ap, ◌∙◌, List, [], ◌∷◌, ◌++◌, length,
  arith, ltb, true, none, some, ok, All, ◌==◌, ◌||◌,
}
use eve_db.Base.Order.{nat_ord, pair_ord}
use eve_db.Base.Assoc.{IsSorted, lookup, last_up_to}
use eve_db.Codec.LittleEndian.{Bytes}
use eve_db.Storage.Page.{page_size, splice}
use eve_db.Storage.Page.Checksums.{length-splice}
use eve_db.Storage.Index.{Key, put, page, seal, value}
use eve_db.Storage.Index.Writer.{IndexWriter, root}
use eve_db.Storage.Index.Reader.{descend_from, descend, leaf_value, leaf_floor, with_leaf}
use eve_db.Storage.Index.Pages.{IsHeader, IsHeader-put, page-IsHeader}
use eve_db.Storage.Index.Nodes.{IsLeaf, decode-meta}
use eve_db.Storage.Index.Rows.{at_index-eq-lookup, floor_index-eq-last_up_to}
use eve_db.Storage.Index.Trees.{Entries, Forest, Tree, Tree-imp}
use eve_db.Storage.Index.Reaches.{Holds, descend_from-Tree}
use eve_db.Storage.Index.Files.{length-seal, Holds-small, Holds-splice, node-splice}
use eve_db.Storage.Index.Levels.{IsFilling, IsFile, Held}

-- The last page of a writer, and the reads of the leaf below it.
abbrev pub meta_page : IndexWriter → Bytes
meta_page w = put 40 w.count (page 0 w.base w.lsn 0 (root w.level))

abbrev pub with_meta : IndexWriter → Bytes
with_meta w = splice (w.base * page_size) (seal (meta_page w)) w.file

pub meta_page-IsHeader :
    (w : IndexWriter)
    → IsFile w
    → root w.level < 2 ^ 64
    → w.base < 2 ^ 64
    → IsHeader (meta_page w) 0 w.base w.lsn 0 (root w.level)
meta_page-IsHeader w f r b =
    IsHeader-put _ 0 w.base w.lsn 0 (root w.level) 40 w.count
      (page-IsHeader 0 w.base w.lsn 0 (root w.level) (omega arith) b f.lsn_lt (omega arith) r)
      (omega arith) (omega arith)

leaf_value-eq :
    (P : Bytes) (id sequence after : ℕ) (es : Entries) (k : Key)
    → IsLeaf P id sequence after es
    → IsSorted es
    → leaf_value k P ≡ lookup k es
unfolding leaf_value
leaf_value-eq P id sequence after es k leaf s =
    at_index-eq-lookup P (value P) k es leaf.rows (sym leaf.header.count_eq) s

leaf_floor-eq :
    (P : Bytes) (id sequence after : ℕ) (es : Entries) (k : Key)
    → IsLeaf P id sequence after es
    → IsSorted es
    → leaf_floor k P ≡ last_up_to none k es
unfolding leaf_floor
leaf_floor-eq P id sequence after es k leaf s =
    floor_index-eq-last_up_to P (value P) k es leaf.rows (sym leaf.header.count_eq) s

-- A root is a page that the file can address.
pub root-lt :
    (w : IndexWriter) (h : ℕ) (level : List (Key × ℕ)) (es : Entries)
    → Forest (Tree (Held w) w.lsn h) level es
    → root level < 2 ^ 64
root-lt w h [] es f = omega arith
root-lt w zero (c ∷ cs) es f =
    omega (arith, Holds-small w.file w.base w.lsn c.1 f.tree.page f.tree.held)
root-lt w (suc h) (c ∷ cs) es f =
    omega (arith, Holds-small w.file w.base w.lsn c.1 f.tree.page f.tree.held)

root_forward :
    (w : IndexWriter) (level : List (Key × ℕ))
    → All (λ c. (w.base < c.1) × (c.1 < w.next)) level
    → (root level == 0 || ltb w.base (root level)) ≡ true
root_forward w [] a = refl
root_forward w (c ∷ cs) a = ground (arith, a.0.0)

-- The loop of a descent from the root, in the file with its first page.
pub from_root :
    (w : IndexWriter) (h : ℕ) (es : Entries) (k : Key) (level : List (Key × ℕ))
    → IsFile w
    → length (seal (meta_page w)) ≡ page_size
    → Forest (Tree (Held w) w.lsn h) level es
    → length level ≤ 1
    → IsSorted es
    → (with_leaf (leaf_value k) (descend_from (root level + 1) (with_meta w) w.lsn k (root level))
        ≡ some (ok (lookup k es)))
      × (with_leaf (leaf_floor k) (descend_from (root level + 1) (with_meta w) w.lsn k (root level))
          ≡ some (ok (last_up_to none k es)))
unfolding descend_from lookup last_up_to
from_root w h es k [] f size forest short s = rw (forest) (refl, refl)
from_root w h es k (c ∷ d ∷ cs) f size forest short s = absurd (omega (arith, short))
from_root w h es k (c ∷ []) f size forest short s =
    let T = Tree (Holds (with_meta w) w.base w.lsn) w.lsn h in
    let whole : forest.first ∷ forest.front ≡ es = sym (
      forest.whole
      ∙ ap (λ l. forest.first ∷ (forest.front ++ l)) forest.rest
      ∙ append-nil (forest.first ∷ forest.front)) in
    let tree =
      Tree-imp (Held w) (Holds (with_meta w) w.base w.lsn) w.lsn
        (λ i Q x.
          Holds-splice w.file (seal (meta_page w)) w.base w.lsn i Q size
            (omega (arith, f.whole, f.past)) x)
        h c.1 (forest.first ∷ forest.front) forest.tree in
    let reached =
      descend_from-Tree (with_meta w) w.base w.lsn k h c.1 (c.1 + 1) es (subst (T c.1) whole tree) s
        (omega arith) in
    (
      ap (with_leaf (leaf_value k)) reached.result
          ∙ ap (λ x. some (ok x))
              (leaf_value-eq reached.page reached.leaf_id w.lsn reached.after reached.part k
                  reached.leaf reached.answers.sorted
                ∙ reached.answers.lookup_eq),
      ap (with_leaf (leaf_floor k)) reached.result
          ∙ ap (λ x. some (ok x))
              (leaf_floor-eq reached.page reached.leaf_id w.lsn reached.after reached.part k
                  reached.leaf reached.answers.sorted
                ∙ reached.answers.floor_eq),
    )

-- A descent from the first page.
pub descend-eq :
    (w : IndexWriter) (h : ℕ) (es : Entries) (k : Key)
    → IsFilling w h es
    → w.base * page_size < 2 ^ 64
    → descend (with_meta w) w.lsn w.base k
      ≡ descend_from (root w.level + 1) (with_meta w) w.lsn k (root w.level)
unfolding descend
descend-eq w h es k f small =
    let header =
      meta_page-IsHeader w f.is_file (root-lt w h w.level es f.level.forest)
        (omega (arith, small)) in
    let size = length-seal (meta_page w) header.whole in
    let inside : (w.base + 1) * page_size ≤ length w.file =
      omega (arith, f.is_file.whole, f.is_file.past) in
    let meta =
      node-splice w.file w.base w.lsn (meta_page w) header.whole inside small
        (decode-meta (meta_page w) w.base w.lsn (root w.level) header
          (root_forward w w.level f.level.ids))
        header.lsn_eq in
    let even : length (with_meta w) ≡ w.next * page_size =
      length-splice (w.base * page_size) (seal (meta_page w)) w.file (omega (arith, size, inside))
      ∙ f.is_file.whole in
    let aligned : (length (with_meta w) % page_size == 0) ≡ true = ground (arith, even) in
    rw (descend, aligned, meta, header.kind_eq, header.next_eq) refl

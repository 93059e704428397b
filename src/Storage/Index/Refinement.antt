-- ===== src/Storage/Index/Refinement.antt =====
-- An index that was built from entries in key order, read as the sorted list of them.
use mathlib.Core.List.{append-nil}
use mathlib.Core.Path.{subst}
use eve_db.Base.{
  ℕ, ◌+◌, ◌*◌, ◌^◌, ◌≤◌, ◌<◌, ◌≡◌, refl, sym, ap, ◌∙◌, [], ◌++◌, length, length-append, arith, none,
  some, ok, ◌>>=◌,
}
use eve_db.Base.Order.{nat_ord, pair_ord}
use eve_db.Base.Assoc.{IsSorted, lookup, last_up_to}
use eve_db.Codec.LittleEndian.{Bytes}
use eve_db.Storage.Page.{page_size, zeros}
use eve_db.Storage.Index.{Key}
use eve_db.Storage.Index.Writer.{
  IndexWriter, from_file, flush_leaf, write_levels, finish_part, build,
}
use eve_db.Storage.Index.Reader.{lookup_at, floor_at, leaf_value, leaf_floor, with_leaf}
use eve_db.Storage.Index.Entries.{AreEntries}
use eve_db.Storage.Index.Trees.{Entries}
use eve_db.Storage.Index.Files.{length-seal}
use eve_db.Storage.Index.Levels.{IsFilling, flush_leaf-leaf}
use eve_db.Storage.Index.Roots.{write_levels-Rooted}
use eve_db.Storage.Index.Builds.{need, IsAppending, flush_leaf-IsFlushed, append_all-AllAppended}
use eve_db.Storage.Index.Meta.{
  meta_page, with_meta, meta_page-IsHeader, root-lt, from_root, descend-eq,
}

-- The file is an index of these entries: a lookup reads the value at a key, and a floor the last
-- entry that is not above it.
pub record IsIndex (file : Bytes) (sequence base : ℕ) (es : Entries) : Type 0 where
  pub lookup_eq : (k : Key) → lookup_at file sequence base k ≡ some (ok (lookup k es))
  pub floor_eq : (k : Key) → floor_at file sequence base k ≡ some (ok (last_up_to none k es))

with_meta-IsIndex :
    (w : IndexWriter) (h : ℕ) (es : Entries)
    → IsFilling w h es
    → length w.level ≤ 1
    → w.base * page_size < 2 ^ 64
    → IsSorted es
    → IsIndex (with_meta w) w.lsn w.base es
unfolding lookup_at floor_at
with_meta-IsIndex w h es f short small s =
    let size =
      length-seal (meta_page w)
        (meta_page-IsHeader w f.is_file (root-lt w h w.level es f.level.forest)
          (omega (arith, small))).whole in
    let found : (k : Key) → _ =
      λ k. from_root w h es k w.level f.is_file size f.level.forest short s in
    record {
      lookup_eq = λ k. ap (with_leaf (leaf_value k)) (descend-eq w h es k f small) ∙ (found k).0;
      floor_eq = λ k. ap (with_leaf (leaf_floor k)) (descend-eq w h es k f small) ∙ (found k).1;
    }

-- A writer that has taken all entries ends in an index of them.
finish_part-IsIndex :
    (w : IndexWriter) (es : Entries)
    → IsAppending w es
    → need w (length w.leaf) * page_size < 2 ^ 64
    → w.base * page_size < 2 ^ 64
    → IsSorted es
    → AreEntries es
    → IsIndex (finish_part w) w.lsn w.base es
unfolding finish_part
finish_part-IsIndex w es a room small s words =
    let flushed = flush_leaf 0 w in
    let f = flush_leaf-IsFlushed w 0 es w.leaf refl a room s words (omega arith) refl in
    let empty = flush_leaf-leaf w 0 in
    let whole : f.appending.done ≡ es =
      sym (append-nil f.appending.done)
      ∙ ap (λ l. f.appending.done ++ l) (sym empty)
      ∙ f.appending.whole in
    let top =
      write_levels-Rooted (length flushed.level) flushed 0 es (omega arith)
        (subst (IsFilling flushed 0) whole f.appending.filling) (omega (arith, f.needs, room)) s
        words in
    let base_eq = top.base_eq ∙ f.base_eq in
    subst (λ b. IsIndex (with_meta (write_levels (length flushed.level) flushed)) b w.base es)
      (top.lsn_eq ∙ f.lsn_eq)
      (subst
        (λ b.
          IsIndex (with_meta (write_levels (length flushed.level) flushed))
            (write_levels (length flushed.level) flushed).lsn b es)
        base_eq
        (with_meta-IsIndex (write_levels (length flushed.level) flushed) top.height es top.filling
          top.single (omega (arith, base_eq, small)) s))

-- An index that is built from entries in key order, behind the `base` pages that a file has, is
-- written without an error, and then reads as the sorted list of them: for every key a lookup
-- gives its value and a floor the last entry that is not above it, whatever the number of levels.
-- Keys, values and the sequence number fit a word, and so do the offsets of the pages, of which
-- there are at most two for an entry.
pub build-IsIndex :
    (file : Bytes) (sequence base : ℕ) (es : Entries)
    → length file ≡ base * page_size
    → IsSorted es
    → AreEntries es
    → sequence < 2 ^ 64
    → (base + 3 + 2 * length es) * page_size < 2 ^ 64
    → (index : Bytes) × (build file sequence base es ≡ ok index) × IsIndex index sequence base es
unfolding build
build-IsIndex file sequence base es whole s words small room =
    let start = from_file file sequence base in
    let first : IsAppending start [] = record {
      done = [];
      filling = record {
        is_file = record {
          whole = omega (arith, length-append file (zeros page_size), whole);
          past = omega arith;
          lsn_lt = small;
        };
        level = record { forest = refl; ids = tt };
      };
      whole = refl;
      short = omega arith;
    } in
    let all = append_all-AllAppended es start [] es first refl tt (omega (arith, room)) s words in
    (
      finish_part all.after,
      ap (λ r. r >>= λ w. ok (finish_part w)) all.result,
      subst (λ b. IsIndex (finish_part all.after) b base es) all.lsn_eq
          (subst (λ b. IsIndex (finish_part all.after) all.after.lsn b es) all.base_eq
            (finish_part-IsIndex all.after es all.appending (omega (arith, all.needs, room))
              (omega (arith, all.base_eq, room)) s words)),
    )

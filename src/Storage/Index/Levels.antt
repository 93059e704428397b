-- ===== src/Storage/Index/Levels.antt =====
-- The levels of an index, as its writer makes them.
use mathlib.Core.Path.{subst}
use eve_db.Base.{
  ℕ, ◌+◌, ◌*◌, ◌^◌, ◌≤◌, ◌<◌, ◌≡◌, refl, sym, ap, List, [], ◌∷◌, ◌++◌, length, length-append, arith,
  ok, ltb, true, ◌==◌, ◌||◌, All, All-append, All-imp,
}
use eve_db.Base.Order.{nat_ord, pair_ord}
use eve_db.Base.Assoc.{IsSorted}
use eve_db.Codec.LittleEndian.{Bytes}
use eve_db.Storage.Page.{page_size}
use eve_db.Storage.Index.{Key, Value, page, seal, decode, lsn}
use eve_db.Storage.Index.Writer.{IndexWriter, put_entries, write_leaf, flush_leaf}
use eve_db.Storage.Index.Pages.{page-IsHeader}
use eve_db.Storage.Index.Entries.{AreEntries, put_entries-IsHeader, put_entries-Rows}
use eve_db.Storage.Index.Nodes.{IsLeaf, decode-leaf}
use eve_db.Storage.Index.Trees.{Entries, Tree, Forest, Forest-imp, Tree-imp, Forest-append}
use eve_db.Storage.Index.Reaches.{Holds}
use eve_db.Storage.Index.Files.{length-seal, Holds-append, Holds-last}

-- Every page of the index is before the limit of the addresses, with room for these more.
abbrev pub HasRoom : IndexWriter → ℕ → Type 0
HasRoom w n = (w.next + n) * page_size < 2 ^ 64

abbrev pub Held : IndexWriter → ℕ → Bytes → Type 0
Held w = Holds w.file w.base w.lsn

-- The roots of the trees of a height, for these entries, in the file of a writer.
pub record IsLevel (w : IndexWriter) (h : ℕ) (cs : List (Key × ℕ)) (es : Entries) : Type 0 where
  pub forest : Forest (Tree (Held w) w.lsn h) cs es
  pub ids : All (λ c. (w.base < c.1) × (c.1 < w.next)) cs

pub record IsFile (w : IndexWriter) : Type 0 where
  pub whole : length w.file ≡ w.next * page_size
  pub past : w.base < w.next
  pub lsn_lt : w.lsn < 2 ^ 64

-- A writer after another page.
pub record Written (w after : IndexWriter) (P : Bytes) : Type 0 where
  pub file_eq : after.file ≡ w.file ++ seal P
  pub next_eq : after.next ≡ w.next + 1
  pub base_eq : after.base ≡ w.base
  pub lsn_eq : after.lsn ≡ w.lsn

pub Written-IsFile :
    (w after : IndexWriter) (P : Bytes)
    → Written w after P
    → length P ≡ page_size
    → IsFile w
    → IsFile after
Written-IsFile w after P g p f = record {
  whole =
      rw (g.file_eq)
        (omega (arith, length-append w.file (seal P), length-seal P p, f.whole, g.next_eq));
  past = omega (arith, f.past, g.next_eq, g.base_eq);
  lsn_lt = omega (arith, f.lsn_lt, g.lsn_eq);
}

pub Written-Held-last :
    (w after : IndexWriter) (P : Bytes)
    → Written w after P
    → IsFile w
    → HasRoom w 0
    → length P ≡ page_size
    → decode w.next (seal P) ≡ ok P
    → lsn P ≡ w.lsn
    → Held after w.next P
Written-Held-last w after P g f r p d l =
    rw (g.file_eq, g.base_eq, g.lsn_eq)
      (Holds-last w.file w.base w.lsn w.next P f.whole p f.past (omega (arith, r)) d l)

-- A level is still there after another page.
pub Written-IsLevel :
    (w after : IndexWriter) (P : Bytes) (h : ℕ) (cs : List (Key × ℕ)) (es : Entries)
    → Written w after P
    → IsLevel w h cs es
    → IsLevel after h cs es
Written-IsLevel w after P h cs es g level = record {
  forest =
      rw (g.file_eq, g.base_eq, g.lsn_eq)
        (Forest-imp (Tree (Held w) w.lsn h) (Tree (Holds (w.file ++ seal P) w.base w.lsn) w.lsn h)
          (λ id xs t.
            Tree-imp (Held w) (Holds (w.file ++ seal P) w.base w.lsn) w.lsn
              (λ i Q x. Holds-append w.file (seal P) w.base w.lsn i Q x) h id xs t)
          cs es level.forest);
  ids =
      All-imp (λ c x. (omega (arith, x.0, g.base_eq), omega (arith, x.1, g.next_eq))) cs level.ids;
}

-- A page that is the root of a tree, one more of its level.
pub append-IsLevel :
    (w after : IndexWriter) (P : Bytes) (h : ℕ) (cs : List (Key × ℕ)) (es : Entries) (k : Key)
    (e : Key × Value) (fs : Entries)
    → k ≡ e.0
    → Written w after P
    → IsFile w
    → IsLevel w h cs es
    → Tree (Held after) after.lsn h w.next (e ∷ fs)
    → IsLevel after h (cs ++ (k, w.next) ∷ []) (es ++ e ∷ fs)
append-IsLevel w after P h cs es k e fs key_eq g f level t =
    let kept = Written-IsLevel w after P h cs es g level in
    record {
      forest =
          rw (key_eq)
            (Forest-append (Tree (Held after) after.lsn h) cs es w.next e fs kept.forest t);
      ids =
          All-append _ cs ((k, w.next) ∷ []) kept.ids
            ((omega (arith, f.past, g.base_eq), omega (arith, g.next_eq)), tt);
    }

-- A writer between two entries, with the entries of its level.
pub record IsFilling (w : IndexWriter) (h : ℕ) (es : Entries) : Type 0 where
  pub is_file : IsFile w
  pub level : IsLevel w h w.level es

-- What a flush leaves.
pub record Flushed (w after : IndexWriter) (h : ℕ) (es : Entries) : Type 0 where
  pub page_bytes : Bytes
  pub written : Written w after page_bytes
  pub filling : IsFilling after h es
  pub length_eq : length after.level ≡ length w.level + 1

pub flush_leaf-Flushed :
    (w : IndexWriter) (after : ℕ) (done : Entries) (e : Key × Value) (es : Entries)
    → w.leaf ≡ e ∷ es
    → IsFilling w 0 done
    → HasRoom w 0
    → IsSorted (e ∷ es)
    → AreEntries (e ∷ es)
    → length (e ∷ es) ≤ 254
    → after < 2 ^ 64
    → (after == 0 || ltb w.next after) ≡ true
    → Flushed w (flush_leaf after w) 0 (done ++ e ∷ es)
unfolding flush_leaf
flush_leaf-Flushed w after done e es eq f room s words short small forward =
    let size = length (e ∷ es) in
    let blank = page 1 w.next w.lsn size after in
    let P = put_entries 0 (e ∷ es) blank in
    let first =
      page-IsHeader 1 w.next w.lsn size after (omega arith) (omega (arith, room)) f.is_file.lsn_lt
        (omega (arith, short)) small in
    let header =
      put_entries-IsHeader (e ∷ es) blank 1 w.next w.lsn size after 0 first
        (omega (arith, short)) in
    let leaf : IsLeaf P w.next w.lsn after (e ∷ es) = record {
      header = header;
      rows =
          put_entries-Rows (e ∷ es) blank w.next w.lsn size after 0 first words
            (omega (arith, short));
    } in
    let decoded = decode-leaf P w.next w.lsn after e es leaf s short forward in
    let grown : Written w (write_leaf after (e ∷ es) w) P = record {
      file_eq = refl;
      next_eq = refl;
      base_eq = refl;
      lsn_eq = refl;
    } in
    let held = Written-Held-last w _ P grown f.is_file room header.whole decoded header.lsn_eq in
    subst (λ x. Flushed w x 0 (done ++ e ∷ es)) (sym (ap (λ l. write_leaf after l w) eq))
      (record {
        filling = record {
          is_file = Written-IsFile w _ P grown header.whole f.is_file;
          level =
              append-IsLevel w _ P 0 w.level done e.0 e es refl grown f.is_file f.level
                (record { page = P; held = held; after = after; leaf = leaf });
        };
        page_bytes = P;
        written = grown;
        length_eq = length-append w.level ((e.0, w.next) ∷ []);
      })

pub flush_leaf-leaf : (w : IndexWriter) (after : ℕ) → (flush_leaf after w).leaf ≡ []
unfolding flush_leaf
flush_leaf-leaf w after = emptied w.leaf refl
  where
    emptied : (l : List (Key × Value)) → w.leaf ≡ l → (write_leaf after l w).leaf ≡ []
    emptied [] e = e
    emptied (x ∷ l) e = refl

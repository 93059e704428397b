-- ===== src/Storage/Index/Branches.antt =====
-- The branch pages of an index: each level is grouped below the next, until one root is left.
use mathlib.Core.List.{append_assoc, append-nil}
use mathlib.Core.Path.{subst}
use eve_db.Base.{
  ℕ, zero, suc, ◌+◌, ◌*◌, ◌/◌, ◌^◌, ◌≤◌, ◌<◌, ◌≡◌, refl, sym, ap, ◌∙◌, List, [], ◌∷◌, ◌++◌, length,
  take, drop, length-append, length-drop, arith, All, All-append_left, All-append_right, All-imp,
  take-drop, length-take_le,
}
use eve_db.Base.Order.{nat_ord, pair_ord}
use eve_db.Base.Assoc.{IsSorted}
use eve_db.Storage.Page.{page_size}
use eve_db.Storage.Index.{Key, page}
use eve_db.Storage.Index.Writer.{IndexWriter, put_children, write_branch, write_parents}
use eve_db.Storage.Index.Pages.{page-IsHeader}
use eve_db.Storage.Index.Entries.{AreEntries, AreChildren, IsWords}
use eve_db.Storage.Index.Children.{put_children-IsHeader, put_children-Rows}
use eve_db.Storage.Index.Nodes.{IsBranch, decode-branch}
use eve_db.Storage.Index.Trees.{
  Entries, Tree, Forest, Forest-split, Forest-IsSorted, IsSorted-left, IsSorted-right,
}
use eve_db.Storage.Index.Levels.{
  HasRoom, Held, IsLevel, IsFilling, Flushed, Written, Written-IsFile, Written-Held-last,
  Written-IsLevel, append-IsLevel,
}

-- The keys of a level are those of entries.
Forest-IsWords :
    (T : ℕ → Entries → Type 0) (cs : List (Key × ℕ)) (es : Entries)
    → Forest T cs es
    → AreEntries es
    → All (λ c. IsWords c.0) cs
Forest-IsWords T [] es f a = tt
Forest-IsWords T (c ∷ cs) es f a =
    let here : AreEntries (f.first ∷ (f.front ++ f.back)) = subst AreEntries f.whole a in
    (
      rw (f.key_eq) here.0.0,
      Forest-IsWords T cs f.back f.rest (All-append_right _ f.front f.back here.1),
    )

children-words :
    (cs : List (Key × ℕ)) (base next : ℕ)
    → All (λ c. IsWords c.0) cs
    → All (λ c. (base < c.1) × (c.1 < next)) cs
    → next * page_size < 2 ^ 64
    → AreChildren cs
children-words [] base next k i r = tt
children-words (c ∷ cs) base next k i r =
    ((k.0, omega (arith, i.0.1, r)), children-words cs base next k.1 i.1 r)

write_branch-Flushed :
    (w : IndexWriter) (h : ℕ) (c : Key × ℕ) (cs : List (Key × ℕ)) (done part : Entries)
    → IsFilling w (suc h) done
    → IsLevel w h (c ∷ cs) part
    → HasRoom w 0
    → IsSorted part
    → AreEntries part
    → length (c ∷ cs) ≤ 339
    → Flushed w (write_branch (c ∷ cs) w) (suc h) (done ++ part)
write_branch-Flushed w h c cs done part f below room s words short =
    let size = length (c ∷ cs) in
    let blank = page 2 w.next w.lsn size 0 in
    let P = put_children 0 (c ∷ cs) blank in
    let next_small : w.next * page_size < 2 ^ 64 = omega (arith, room) in
    let child_words =
      children-words (c ∷ cs) w.base w.next (Forest-IsWords _ (c ∷ cs) part below.forest words)
        below.ids next_small in
    let first =
      page-IsHeader 2 w.next w.lsn size 0 (omega arith) (omega (arith, room)) f.is_file.lsn_lt
        (omega (arith, short)) (omega arith) in
    let header =
      put_children-IsHeader (c ∷ cs) blank 2 w.next w.lsn size 0 0 first (omega (arith, short)) in
    let branch : IsBranch P w.next w.lsn (c ∷ cs) = record {
      header = header;
      rows =
          put_children-Rows (c ∷ cs) blank w.next w.lsn size 0 0 first child_words
            (omega (arith, short));
    } in
    let ordered = Forest-IsSorted _ (c ∷ cs) part below.forest s in
    let range : All (λ d. (0 < d.1) × (d.1 < w.next)) (c ∷ cs) =
      All-imp (λ d x. (omega (arith, x.0), x.1)) (c ∷ cs) below.ids in
    let decoded = decode-branch P w.next w.lsn c cs branch ordered range short in
    let grown : Written w (write_branch (c ∷ cs) w) P = record {
      file_eq = refl;
      next_eq = refl;
      base_eq = refl;
      lsn_eq = refl;
    } in
    let held = Written-Held-last w _ P grown f.is_file room header.whole decoded header.lsn_eq in
    let kept = Written-IsLevel w _ P h (c ∷ cs) part grown below in
    let cut = below.forest in
    record {
      filling = record {
        is_file = Written-IsFile w _ P grown header.whole f.is_file;
        level = rw (cut.whole) (
            append-IsLevel w _ P (suc h) w.level done c.0 cut.first (cut.front ++ cut.back)
              cut.key_eq grown f.is_file f.level
              (record {
                page = P;
                held = held;
                child = c;
                children = cs;
                branch = branch;
                sorted = ordered;
                range = range;
                forest =
                    subst
                      (λ l.
                        Forest
                          (Tree (Held (write_branch (c ∷ cs) w)) (write_branch (c ∷ cs) w).lsn h)
                          (c ∷ cs) l)
                      cut.whole kept.forest;
              }));
      };
      page_bytes = P;
      written = grown;
      length_eq = length-append w.level ((c.0, w.next) ∷ []);
    }

-- A writer after a level, which has `n` children below it.
pub record Grouped (w after : IndexWriter) (h n : ℕ) (es : Entries) : Type 0 where
  pub filling : IsFilling after (suc h) es
  pub pages : after.next + length w.level ≡ w.next + length after.level
  pub grows : length w.level ≤ length after.level
  pub few : length after.level ≤ length w.level + (n + 338) / 339
  pub some_parent : 0 < n → length w.level < length after.level
  pub base_eq : after.base ≡ w.base
  pub lsn_eq : after.lsn ≡ w.lsn

Grouped-none :
    (w : IndexWriter) (h : ℕ) (done rest : Entries)
    → IsFilling w (suc h) done
    → rest ≡ []
    → Grouped w w h 0 (done ++ rest)
Grouped-none w h done rest f e = record {
  filling = rw (e, append-nil done) f;
  pages = refl;
  grows = omega arith;
  few = omega arith;
  some_parent = λ p. absurd (omega (arith, p));
  base_eq = refl;
  lsn_eq = refl;
}

pub write_parents-Grouped :
    (n : ℕ) (cs : List (Key × ℕ)) (w : IndexWriter) (h : ℕ) (done rest : Entries)
    → length cs ≤ n
    → IsFilling w (suc h) done
    → IsLevel w h cs rest
    → HasRoom w ((length cs + 338) / 339)
    → IsSorted rest
    → AreEntries rest
    → Grouped w (write_parents n cs w) h (length cs) (done ++ rest)
unfolding write_parents
write_parents-Grouped zero [] w h done rest p f below room s words =
    Grouped-none w h done rest f below.forest
write_parents-Grouped zero (c ∷ cs) w h done rest p f below room s words = absurd (omega (arith, p))
write_parents-Grouped (suc n) [] w h done rest p f below room s words =
    Grouped-none w h done rest f below.forest
write_parents-Grouped (suc n) (c ∷ cs) w h done rest p f below room s words =
    let T = Tree (Held w) w.lsn h in
    let chunk = take 339 (c ∷ cs) in
    let later = drop 339 (c ∷ cs) in
    let joined = take-drop 339 (c ∷ cs) in
    let parts =
      Forest-split T chunk later rest (subst (λ l. Forest T l rest) (sym joined) below.forest) in
    let ids = subst (All (λ d. (w.base < d.1) × (d.1 < w.next))) (sym joined) below.ids in
    let ordered = subst IsSorted parts.whole s in
    let known = subst AreEntries parts.whole words in
    let one =
      write_branch-Flushed w h c (take 338 cs) done parts.left f
        (record { forest = parts.left_forest; ids = All-append_left _ chunk later ids })
        (omega (arith, room)) (IsSorted-left parts.left parts.right ordered)
        (All-append_left _ parts.left parts.right known) (length-take_le 339 (c ∷ cs)) in
    let few = length-drop 339 (c ∷ cs) in
    let again =
      write_parents-Grouped n later (write_branch chunk w) h (done ++ parts.left) parts.right
        (omega (arith, few, p)) one.filling
        (Written-IsLevel w (write_branch chunk w) one.page_bytes h later parts.right one.written
          (record { forest = parts.right_forest; ids = All-append_right _ chunk later ids }))
        (omega (arith, few, room, one.written.next_eq))
        (IsSorted-right parts.left parts.right ordered)
        (All-append_right _ parts.left parts.right known) in
    record {
      filling =
          subst (λ l. IsFilling (write_parents n later (write_branch chunk w)) (suc h) l)
            (append_assoc done parts.left parts.right ∙ ap (λ l. done ++ l) (sym parts.whole))
            again.filling;
      pages = omega (arith, again.pages, one.written.next_eq, one.length_eq);
      grows = omega (arith, again.grows, one.length_eq);
      few = omega (arith, again.few, few, one.length_eq);
      some_parent = λ q. omega (arith, again.grows, one.length_eq);
      base_eq = again.base_eq ∙ one.written.base_eq;
      lsn_eq = again.lsn_eq ∙ one.written.lsn_eq;
    }

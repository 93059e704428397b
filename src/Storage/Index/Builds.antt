-- ===== src/Storage/Index/Builds.antt =====
-- The index that a writer leaves after all its entries, against the list of them.
use mathlib.Core.List.{append_assoc, append-nil}
use mathlib.Core.Path.{subst}
use eve_db.Base.{
  ℕ, ◌+◌, ◌*◌, ◌^◌, ◌≤◌, ◌<◌, ◌≡◌, refl, sym, ap, ◌∙◌, inl, inr, [], ◌∷◌, ◌++◌, length,
  length-append, arith, ltb, if◌then◌else◌, Bool-cases, true, Option, none, some, ok, ◌>>=◌,
  All-append_left, All-append_right, ◌==◌, ◌||◌,
}
use eve_db.Base.Order.{nat_ord, pair_ord, above-below}
use eve_db.Base.Assoc.{IsSorted, Above}
use eve_db.Storage.Page.{page_size}
use eve_db.Storage.Index.{Key, Value}
use eve_db.Storage.Index.Writer.{
  IndexWriter, flush_leaf, write_leaf, append, append_all, is_ordered,
}
use eve_db.Storage.Index.Entries.{AreEntries}
use eve_db.Storage.Index.Trees.{Entries, IsSorted-left, IsSorted-right}
use eve_db.Storage.Index.Levels.{IsFilling, flush_leaf-Flushed, flush_leaf-leaf}

-- The pages that a writer may still need, with these entries to come.
abbrev pub need : IndexWriter → ℕ → ℕ
need w n = w.next + length w.level + 2 * n + 2

-- A writer that has put these entries in pages or holds them for the next leaf.
pub record IsAppending (w : IndexWriter) (es : Entries) : Type 0 where
  pub done : Entries
  pub filling : IsFilling w 0 done
  pub whole : done ++ w.leaf ≡ es
  pub short : length w.leaf ≤ 254

-- The writer after a flush that keeps its entries.
pub record IsFlushed (w after : IndexWriter) (es : Entries) : Type 0 where
  pub appending : IsAppending after es
  pub needs : need after (length after.leaf) ≤ need w (length w.leaf)
  pub base_eq : after.base ≡ w.base
  pub lsn_eq : after.lsn ≡ w.lsn

unflushed : (w : IndexWriter) (es : Entries) → IsAppending w es → IsFlushed w w es
unflushed w es a = record { appending = a; needs = omega arith; base_eq = refl; lsn_eq = refl }

pub flush_leaf-IsFlushed :
    (w : IndexWriter) (after : ℕ) (es leaf : Entries)
    → w.leaf ≡ leaf
    → IsAppending w es
    → need w (length w.leaf) * page_size < 2 ^ 64
    → IsSorted es
    → AreEntries es
    → after ≤ w.next + 1
    → (after == 0 || ltb w.next after) ≡ true
    → IsFlushed w (flush_leaf after w) es
unfolding flush_leaf
flush_leaf-IsFlushed w after es [] e a room s words small forward =
    subst (λ x. IsFlushed w x es) (sym (ap (λ l. write_leaf after l w) e)) (unflushed w es a)
flush_leaf-IsFlushed w after es (x ∷ leaf) e a room s words small forward =
    let whole : a.done ++ x ∷ leaf ≡ es = ap (λ l. a.done ++ l) (sym e) ∙ a.whole in
    let ordered = subst IsSorted (sym whole) s in
    let known = subst AreEntries (sym whole) words in
    let size : length w.leaf ≡ length (x ∷ leaf) = ap length e in
    let f =
      flush_leaf-Flushed w after a.done x leaf e a.filling (omega (arith, room))
        (IsSorted-right a.done (x ∷ leaf) ordered) (All-append_right _ a.done (x ∷ leaf) known)
        (omega (arith, a.short, size)) (omega (arith, small, room)) forward in
    let empty = flush_leaf-leaf w after in
    record {
      appending = record {
        done = a.done ++ x ∷ leaf;
        filling = f.filling;
        whole = ap (λ l. (a.done ++ x ∷ leaf) ++ l) empty ∙ append-nil (a.done ++ x ∷ leaf) ∙ whole;
        short = omega (arith, ap length empty);
      };
      needs = omega (arith, f.length_eq, f.written.next_eq, ap length empty, size);
      base_eq = f.written.base_eq;
      lsn_eq = f.written.lsn_eq;
    }

-- The next entry is above the one before.
abbrev pub IsAfter : Option Key → Entries → Type 0
IsAfter none es = Unit
IsAfter (some p) es = Above p es

is_ordered-true :
    (previous : Option Key) (e : Key × Value) (es : Entries)
    → IsAfter previous (e ∷ es)
    → is_ordered previous e.0 ≡ true
is_ordered-true none e es h = refl
is_ordered-true (some p) e es h = above-below p e.0 h.0

-- What `append` leaves.
record Appended (w : IndexWriter) (k : Key) (v : Value) (es : Entries) : Type 0 where
  after : IndexWriter
  result : append k v w ≡ ok after
  appending : IsAppending after (es ++ (k, v) ∷ [])
  previous_eq : after.previous ≡ some k
  needs : need after (length after.leaf) ≤ need w (length w.leaf) + 2
  base_eq : after.base ≡ w.base
  lsn_eq : after.lsn ≡ w.lsn

-- The entry pushed on the leaf of a writer that has room in it.
abbrev pushed : Key → Value → IndexWriter → IndexWriter
pushed k v w = record w { leaf = w.leaf ++ (k, v) ∷ []; previous = some k; count = w.count + 1 }

pushed-Appended :
    (w flushed : IndexWriter) (k : Key) (v : Value) (es : Entries)
    → append k v w ≡ ok (pushed k v flushed)
    → IsFlushed w flushed es
    → length flushed.leaf < 254
    → Appended w k v es
pushed-Appended w flushed k v es e f short =
    let a = f.appending in
    let size = length-append flushed.leaf ((k, v) ∷ []) in
    record {
      after = pushed k v flushed;
      result = e;
      appending = record {
        done = a.done;
        filling = record {
          is_file = record {
            whole = a.filling.is_file.whole;
            past = a.filling.is_file.past;
            lsn_lt = a.filling.is_file.lsn_lt;
          };
          level = record { forest = a.filling.level.forest; ids = a.filling.level.ids };
        };
        whole =
            sym (append_assoc a.done flushed.leaf ((k, v) ∷ []))
            ∙ ap (λ l. l ++ (k, v) ∷ []) a.whole;
        short = omega (arith, size, short);
      };
      previous_eq = refl;
      needs = omega (arith, f.needs, size);
      base_eq = f.base_eq;
      lsn_eq = f.lsn_eq;
    }

append-Appended :
    (w : IndexWriter) (k : Key) (v : Value) (es : Entries)
    → IsAppending w es
    → is_ordered w.previous k ≡ true
    → need w (length w.leaf) * page_size < 2 ^ 64
    → IsSorted es
    → AreEntries es
    → Appended w k v es
unfolding append
append-Appended w k v es a o room s words = elim (Bool-cases (length w.leaf == 254)) [
  | inl y ↦
      pushed-Appended w (flush_leaf (w.next + 1) w) k v es (rw (append, o, y, if◌then◌else◌) refl)
        (flush_leaf-IsFlushed w (w.next + 1) es w.leaf refl a room s words (omega arith)
          (ground arith))
        (omega (arith, ap length (flush_leaf-leaf w (w.next + 1))))
  | inr x ↦
      pushed-Appended w w k v es (rw (append, o, x, if◌then◌else◌) refl) (unflushed w es a)
        (ground (arith, x, a.short))
]

-- What `append_all` leaves.
pub record AllAppended (w : IndexWriter) (es all : Entries) : Type 0 where
  pub after : IndexWriter
  pub result : append_all es w ≡ ok after
  pub appending : IsAppending after all
  pub needs : need after (length after.leaf) ≤ need w (length w.leaf) + 2 * length es
  pub base_eq : after.base ≡ w.base
  pub lsn_eq : after.lsn ≡ w.lsn

pub append_all-AllAppended :
    (es : Entries) (w : IndexWriter) (before all : Entries)
    → IsAppending w before
    → before ++ es ≡ all
    → IsAfter w.previous es
    → (need w (length w.leaf) + 2 * length es) * page_size < 2 ^ 64
    → IsSorted all
    → AreEntries all
    → AllAppended w es all
unfolding append_all
append_all-AllAppended [] w before all a e later room s words = record {
  after = w;
  result = refl;
  appending = subst (IsAppending w) (sym (append-nil before) ∙ e) a;
  needs = omega arith;
  base_eq = refl;
  lsn_eq = refl;
}
append_all-AllAppended ((k, v) ∷ es) w before all a e later room s words =
    let ordered = subst IsSorted (sym e) s in
    let known = subst AreEntries (sym e) words in
    let one =
      append-Appended w k v before a (is_ordered-true w.previous (k, v) es later)
        (omega (arith, room)) (IsSorted-left before _ ordered) (All-append_left _ before _ known) in
    let rest =
      append_all-AllAppended es one.after (before ++ (k, v) ∷ []) all one.appending
        (append_assoc before ((k, v) ∷ []) es ∙ e)
        (subst (λ p. IsAfter p es) (sym one.previous_eq) (IsSorted-right before _ ordered).0)
        (omega (arith, room, one.needs)) s words in
    record {
      after = rest.after;
      result = ap (λ r. r >>= append_all es) one.result ∙ rest.result;
      appending = rest.appending;
      needs = omega (arith, rest.needs, one.needs);
      base_eq = rest.base_eq ∙ one.base_eq;
      lsn_eq = rest.lsn_eq ∙ one.lsn_eq;
    }

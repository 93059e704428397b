-- ===== src/Storage/Index/Reaches.antt =====
-- The descent of a tree of pages reaches a leaf that answers for all its entries.
use eve_db.Base.{ℕ, zero, suc, ◌<◌, ◌≡◌, refl, ◌∙◌, false, some, arith, ok, ◌==◌}
use eve_db.Base.Order.{nat_ord, pair_ord}
use eve_db.Base.Assoc.{IsSorted}
use eve_db.Codec.LittleEndian.{Bytes}
use eve_db.Storage.Index.{Key, kind}
use eve_db.Storage.Index.Nodes.{IsLeaf}
use eve_db.Storage.Index.Reader.{step, node, descend_from}
use eve_db.Storage.Index.Trees.{Entries, Tree}
use eve_db.Storage.Index.Descents.{
  pick, pick-in_range, step-pick, Answers, Answers-trans, Answers-all, select,
}

-- The page with an identifier, behind the first page of the index.
pub record Holds (file : Bytes) (base sequence id : ℕ) (page : Bytes) : Type 0 where
  pub past : base < id
  pub reads : node file id sequence ≡ ok page

descend_from-branch :
    (file : Bytes) (sequence : ℕ) (k : Key) (id fuel below_id : ℕ) (page : Bytes)
    → 0 < id
    → node file id sequence ≡ ok page
    → kind page ≡ 2
    → step k page ≡ below_id
    → descend_from (suc fuel) file sequence k id ≡ descend_from fuel file sequence k below_id
unfolding descend_from
descend_from-branch file sequence k id fuel below_id page p e two_eq s =
    let nonzero : (id == 0) ≡ false = ground (arith, p) in
    rw (descend_from, nonzero, e, two_eq, s) refl

pub record Reached (file : Bytes) (sequence fuel id : ℕ) (k : Key) (es : Entries) : Type 0 where
  pub page : Bytes
  pub leaf_id : ℕ
  pub after : ℕ
  pub part : Entries
  pub result : descend_from fuel file sequence k id ≡ some (ok (some page))
  pub leaf : IsLeaf page leaf_id sequence after part
  pub answers : Answers part es k

pub descend_from-Tree :
    (file : Bytes) (base sequence : ℕ) (k : Key) (h id fuel : ℕ) (es : Entries)
    → Tree (Holds file base sequence) sequence h id es
    → IsSorted es
    → id < fuel
    → Reached file sequence fuel id k es
unfolding descend_from
descend_from-Tree file base sequence k h id zero es t s p = absurd (omega arith)
descend_from-Tree file base sequence k zero id (suc fuel) es t s p = record {
  page = t.page;
  leaf_id = id;
  after = t.after;
  part = es;
  result =
      (let nonzero : (id == 0) ≡ false = ground (arith, t.held.past) in
        rw (descend_from, nonzero, t.held.reads, t.leaf.header.kind_eq) refl);
  leaf = t.leaf;
  answers = Answers-all k es es refl s;
}
descend_from-Tree file base sequence k (suc h) id (suc fuel) es t s p =
    let chosen =
      select (Tree (Holds file base sequence) sequence h) k t.child t.children es t.forest s
        t.sorted in
    let where_to = step-pick t.page id sequence k t.child t.children t.branch t.sorted in
    let further =
      descend_from-Tree file base sequence k h (pick t.child k t.children).1 fuel chosen.part
        chosen.tree chosen.answers.sorted
        (omega (arith, (pick-in_range id k t.child t.children t.range).1, p)) in
    record {
      page = further.page;
      leaf_id = further.leaf_id;
      after = further.after;
      part = further.part;
      result =
          descend_from-branch file sequence k id fuel _ t.page (omega (arith, t.held.past))
            t.held.reads t.branch.header.kind_eq where_to
          ∙ further.result;
      leaf = further.leaf;
      answers = Answers-trans k _ _ _ further.answers chosen.answers;
    }

-- ===== src/Storage/Index/Children.antt =====
-- The rows that the writer of an index puts in its branch pages.
use eve_db.Base.{ℕ, ◌+◌, ◌*◌, ◌^◌, ◌≤◌, ◌<◌, ◌≡◌, refl, ◌∙◌, inl, List, [], ◌∷◌, length, arith}
use eve_db.Base.Order.{nat_ord, pair_ord}
use eve_db.Codec.LittleEndian.{Bytes}
use eve_db.Storage.Page.{page_size}
use eve_db.Storage.Index.{Key, put, get, child}
use eve_db.Storage.Index.Writer.{put_child, put_children}
use eve_db.Storage.Index.Splices.{length-put, get-put, get-put_other}
use eve_db.Storage.Index.Rows.{Rows}
use eve_db.Storage.Index.Pages.{IsHeader, IsHeader-put}
use eve_db.Storage.Index.Entries.{branch_key, pair-eq, AreChildren, IsWords}

-- The words of a child, and the words before it.
put_child-words :
    (P : Bytes) (at id : ℕ) (k : Key)
    → length P ≡ page_size
    → at + 24 ≤ page_size
    → IsWords k
    → id < 2 ^ 64
    → (length (put_child at k id P) ≡ page_size)
      × (get (put_child at k id P) at ≡ k.0)
      × (get (put_child at k id P) (at + 8) ≡ k.1)
      × (get (put_child at k id P) (at + 16) ≡ id)
put_child-words P at id k h fits p q =
    let A = put at k.0 P in
    let B = put (at + 8) k.1 A in
    let a : length A ≡ page_size = length-put at k.0 P (omega (arith, h, fits)) ∙ h in
    let b : length B ≡ page_size = length-put (at + 8) k.1 A (omega (arith, a, fits)) ∙ a in
    let last : (i : ℕ) → i + 8 ≤ at + 16 → get (put (at + 16) id B) i ≡ get B i =
      λ i l. get-put_other i (at + 16) id B (omega (arith, b, fits)) (inl l) in
    (
      length-put (at + 16) id B (omega (arith, b, fits)) ∙ b,
      last at (omega arith)
          ∙ get-put_other at (at + 8) k.1 A (omega (arith, a, fits)) (inl (omega arith))
          ∙ get-put at k.0 P (omega (arith, h, fits)) p.0,
      last (at + 8) (omega arith) ∙ get-put (at + 8) k.1 A (omega (arith, a, fits)) p.1,
      get-put (at + 16) id B (omega (arith, b, fits)) q,
    )

put_child-IsHeader :
    (P : Bytes) (kind_of id sequence n after at at_id : ℕ) (k : Key)
    → IsHeader P kind_of id sequence n after
    → 40 ≤ at
    → at + 24 ≤ page_size
    → IsHeader (put_child at k at_id P) kind_of id sequence n after
put_child-IsHeader P kind_of id sequence n after at at_id k h p q =
    IsHeader-put _ kind_of id sequence n after (at + 16) at_id
      (IsHeader-put _ kind_of id sequence n after (at + 8) k.1
        (IsHeader-put P kind_of id sequence n after at k.0 h p (omega (arith, q)))
        (omega (arith, p)) (omega (arith, q)))
      (omega (arith, p)) (omega (arith, q))

put_child-before :
    (P : Bytes) (at a id : ℕ) (k : Key)
    → length P ≡ page_size
    → at + 24 ≤ page_size
    → a + 8 ≤ at
    → get (put_child at k id P) a ≡ get P a
put_child-before P at a id k h fits p =
    let A = put at k.0 P in
    let B = put (at + 8) k.1 A in
    let x : length A ≡ page_size = length-put at k.0 P (omega (arith, h, fits)) ∙ h in
    let y : length B ≡ page_size = length-put (at + 8) k.1 A (omega (arith, x, fits)) ∙ x in
    get-put_other a (at + 16) id B (omega (arith, y, fits)) (inl (omega (arith, p)))
    ∙ get-put_other a (at + 8) k.1 A (omega (arith, x, fits)) (inl (omega (arith, p)))
    ∙ get-put_other a at k.0 P (omega (arith, h, fits)) (inl p)

put_children-before :
    (cs : List (Key × ℕ)) (P : Bytes) (i a : ℕ)
    → length P ≡ page_size
    → AreChildren cs
    → 40 + (i + length cs) * 24 ≤ page_size
    → a + 8 ≤ 40 + i * 24
    → get (put_children i cs P) a ≡ get P a
unfolding put_children
put_children-before [] P i a h w fits p = refl
put_children-before ((k, c) ∷ cs) P i a h w fits p =
    put_children-before cs (put_child (40 + i * 24) k c P) (i + 1) a
      (put_child-words P (40 + i * 24) c k h (omega (arith, fits)) w.0.0 w.0.1).0 w.1
      (omega (arith, fits)) (omega (arith, p))
    ∙ put_child-before P (40 + i * 24) a c k h (omega (arith, fits)) p

pub put_children-IsHeader :
    (cs : List (Key × ℕ)) (P : Bytes) (k id sequence n after i : ℕ)
    → IsHeader P k id sequence n after
    → 40 + (i + length cs) * 24 ≤ page_size
    → IsHeader (put_children i cs P) k id sequence n after
unfolding put_children
put_children-IsHeader [] P k id sequence n after i h fits = h
put_children-IsHeader ((a, c) ∷ cs) P k id sequence n after i h fits =
    put_children-IsHeader cs _ k id sequence n after (i + 1)
      (put_child-IsHeader P k id sequence n after (40 + i * 24) c a h (omega arith)
        (omega (arith, fits)))
      (omega (arith, fits))

branch_child : (P : Bytes) (i : ℕ) → child P i ≡ get P (40 + i * 24 + 16)
unfolding child
branch_child P i = refl

pub put_children-Rows :
    (cs : List (Key × ℕ)) (P : Bytes) (id sequence n after i : ℕ)
    → IsHeader P 2 id sequence n after
    → AreChildren cs
    → 40 + (i + length cs) * 24 ≤ page_size
    → Rows (put_children i cs P) (child (put_children i cs P)) i cs
unfolding put_children
put_children-Rows [] P id sequence n after i h w fits = tt
put_children-Rows ((k, c) ∷ cs) P id sequence n after i h w fits =
    let at = 40 + i * 24 in
    let one = put_child at k c P in
    let header =
      put_child-IsHeader P 2 id sequence n after at c k h (omega arith) (omega (arith, fits)) in
    let words = put_child-words P at c k h.whole (omega (arith, fits)) w.0.0 w.0.1 in
    let rest : 40 + (i + 1 + length cs) * 24 ≤ page_size = omega (arith, fits) in
    let whole = put_children-IsHeader cs one 2 id sequence n after (i + 1) header rest in
    let kept : (a : ℕ)
        → a + 8 ≤ 40 + (i + 1) * 24
        → get (put_children (i + 1) cs one) a ≡ get one a =
      λ a l. put_children-before cs one (i + 1) a header.whole w.1 rest l in
    (
      branch_key _ i whole.kind_eq
          ∙ pair-eq (kept at (omega arith) ∙ words.1) (kept (at + 8) (omega arith) ∙ words.2),
      branch_child _ i ∙ kept (at + 16) (omega arith) ∙ words.3,
      put_children-Rows cs one id sequence n after (i + 1) header w.1 rest,
    )

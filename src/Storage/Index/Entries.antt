-- ===== src/Storage/Index/Entries.antt =====
-- The rows that the writer of an index puts in its pages.
use eve_db.Base.{ℕ, ◌+◌, ◌*◌, ◌^◌, ◌≤◌, ◌<◌, ◌≡◌, refl, ◌∙◌, inl, List, [], ◌∷◌, length, arith, All}
use eve_db.Base.Order.{nat_ord, pair_ord}
use eve_db.Codec.LittleEndian.{Bytes}
use eve_db.Storage.Page.{page_size}
use eve_db.Storage.Index.{Key, Value, put, get, kind, key, value}
use eve_db.Storage.Index.Writer.{put_entry, put_entries}
use eve_db.Storage.Index.Splices.{length-put, get-put, get-put_other}
use eve_db.Storage.Index.Rows.{Rows}
use eve_db.Storage.Index.Pages.{IsHeader, IsHeader-put}

abbrev pub IsWords : ℕ × ℕ → Type 0
IsWords k = (k.0 < 2 ^ 64) × (k.1 < 2 ^ 64)

abbrev pub AreEntries : List (Key × Value) → Type 0
AreEntries = All (λ e. IsWords e.0 × IsWords e.1)

abbrev pub AreChildren : List (Key × ℕ) → Type 0
AreChildren = All (λ e. IsWords e.0 × (e.1 < 2 ^ 64))

leaf_key :
    (P : Bytes) (i : ℕ) → kind P ≡ 1 → key P i ≡ (get P (40 + i * 32), get P (40 + i * 32 + 8))
unfolding key
leaf_key P i h = rw (h) refl

pub branch_key :
    (P : Bytes) (i : ℕ) → kind P ≡ 2 → key P i ≡ (get P (40 + i * 24), get P (40 + i * 24 + 8))
unfolding key
branch_key P i h = rw (h) refl

leaf_value : (P : Bytes) (i : ℕ) → value P i ≡ (get P (40 + i * 32 + 16), get P (40 + i * 32 + 24))
unfolding value
leaf_value P i = refl

abbrev two : ℕ → ℕ → Key
two a b = (a, b)

pub pair-eq : {a b c d : ℕ} → a ≡ b → c ≡ d → two a c ≡ two b d
pair-eq p q = rw (p, q) refl

-- The words of an entry, and the words before it.
put_entry-words :
    (P : Bytes) (at : ℕ) (k v : ℕ × ℕ)
    → length P ≡ page_size
    → at + 32 ≤ page_size
    → IsWords k
    → IsWords v
    → (length (put_entry at k v P) ≡ page_size)
      × (get (put_entry at k v P) at ≡ k.0)
      × (get (put_entry at k v P) (at + 8) ≡ k.1)
      × (get (put_entry at k v P) (at + 16) ≡ v.0)
      × (get (put_entry at k v P) (at + 24) ≡ v.1)
put_entry-words P at k v h fits p q =
    let A = put at k.0 P in
    let B = put (at + 8) k.1 A in
    let C = put (at + 16) v.0 B in
    let a : length A ≡ page_size = length-put at k.0 P (omega (arith, h, fits)) ∙ h in
    let b : length B ≡ page_size = length-put (at + 8) k.1 A (omega (arith, a, fits)) ∙ a in
    let c : length C ≡ page_size = length-put (at + 16) v.0 B (omega (arith, b, fits)) ∙ b in
    let last : (i : ℕ) → i + 8 ≤ at + 24 → get (put (at + 24) v.1 C) i ≡ get C i =
      λ i l. get-put_other i (at + 24) v.1 C (omega (arith, c, fits)) (inl l) in
    let third : (i : ℕ) → i + 8 ≤ at + 16 → get C i ≡ get B i =
      λ i l. get-put_other i (at + 16) v.0 B (omega (arith, b, fits)) (inl l) in
    (
      length-put (at + 24) v.1 C (omega (arith, c, fits)) ∙ c,
      last at (omega arith)
          ∙ third at (omega arith)
          ∙ get-put_other at (at + 8) k.1 A (omega (arith, a, fits)) (inl (omega arith))
          ∙ get-put at k.0 P (omega (arith, h, fits)) p.0,
      last (at + 8) (omega arith)
          ∙ third (at + 8) (omega arith)
          ∙ get-put (at + 8) k.1 A (omega (arith, a, fits)) p.1,
      last (at + 16) (omega arith) ∙ get-put (at + 16) v.0 B (omega (arith, b, fits)) q.0,
      get-put (at + 24) v.1 C (omega (arith, c, fits)) q.1,
    )

put_entry-IsHeader :
    (P : Bytes) (k id sequence n after at : ℕ) (a b : ℕ × ℕ)
    → IsHeader P k id sequence n after
    → 40 ≤ at
    → at + 32 ≤ page_size
    → IsHeader (put_entry at a b P) k id sequence n after
put_entry-IsHeader P k id sequence n after at a b h p q =
    IsHeader-put _ k id sequence n after (at + 24) b.1
      (IsHeader-put _ k id sequence n after (at + 16) b.0
        (IsHeader-put _ k id sequence n after (at + 8) a.1
          (IsHeader-put P k id sequence n after at a.0 h p (omega (arith, q))) (omega (arith, p))
          (omega (arith, q)))
        (omega (arith, p)) (omega (arith, q)))
      (omega (arith, p)) (omega (arith, q))

put_entry-before :
    (P : Bytes) (at a : ℕ) (k v : ℕ × ℕ)
    → length P ≡ page_size
    → at + 32 ≤ page_size
    → a + 8 ≤ at
    → get (put_entry at k v P) a ≡ get P a
put_entry-before P at a k v h fits p =
    let A = put at k.0 P in
    let B = put (at + 8) k.1 A in
    let C = put (at + 16) v.0 B in
    let x : length A ≡ page_size = length-put at k.0 P (omega (arith, h, fits)) ∙ h in
    let y : length B ≡ page_size = length-put (at + 8) k.1 A (omega (arith, x, fits)) ∙ x in
    let z : length C ≡ page_size = length-put (at + 16) v.0 B (omega (arith, y, fits)) ∙ y in
    get-put_other a (at + 24) v.1 C (omega (arith, z, fits)) (inl (omega (arith, p)))
    ∙ get-put_other a (at + 16) v.0 B (omega (arith, y, fits)) (inl (omega (arith, p)))
    ∙ get-put_other a (at + 8) k.1 A (omega (arith, x, fits)) (inl (omega (arith, p)))
    ∙ get-put_other a at k.0 P (omega (arith, h, fits)) (inl p)

put_entries-before :
    (es : List (Key × Value)) (P : Bytes) (i a : ℕ)
    → length P ≡ page_size
    → AreEntries es
    → 40 + (i + length es) * 32 ≤ page_size
    → a + 8 ≤ 40 + i * 32
    → get (put_entries i es P) a ≡ get P a
unfolding put_entries
put_entries-before [] P i a h w fits p = refl
put_entries-before ((k, v) ∷ es) P i a h w fits p =
    put_entries-before es (put_entry (40 + i * 32) k v P) (i + 1) a
      (put_entry-words P (40 + i * 32) k v h (omega (arith, fits)) w.0.0 w.0.1).0 w.1
      (omega (arith, fits)) (omega (arith, p))
    ∙ put_entry-before P (40 + i * 32) a k v h (omega (arith, fits)) p

pub put_entries-IsHeader :
    (es : List (Key × Value)) (P : Bytes) (k id sequence n after i : ℕ)
    → IsHeader P k id sequence n after
    → 40 + (i + length es) * 32 ≤ page_size
    → IsHeader (put_entries i es P) k id sequence n after
unfolding put_entries
put_entries-IsHeader [] P k id sequence n after i h fits = h
put_entries-IsHeader ((a, b) ∷ es) P k id sequence n after i h fits =
    put_entries-IsHeader es _ k id sequence n after (i + 1)
      (put_entry-IsHeader P k id sequence n after (40 + i * 32) a b h (omega arith)
        (omega (arith, fits)))
      (omega (arith, fits))

pub put_entries-Rows :
    (es : List (Key × Value)) (P : Bytes) (id sequence n after i : ℕ)
    → IsHeader P 1 id sequence n after
    → AreEntries es
    → 40 + (i + length es) * 32 ≤ page_size
    → Rows (put_entries i es P) (value (put_entries i es P)) i es
unfolding put_entries
put_entries-Rows [] P id sequence n after i h w fits = tt
put_entries-Rows ((k, v) ∷ es) P id sequence n after i h w fits =
    let at = 40 + i * 32 in
    let one = put_entry at k v P in
    let header =
      put_entry-IsHeader P 1 id sequence n after at k v h (omega arith) (omega (arith, fits)) in
    let words = put_entry-words P at k v h.whole (omega (arith, fits)) w.0.0 w.0.1 in
    let rest : 40 + (i + 1 + length es) * 32 ≤ page_size = omega (arith, fits) in
    let whole = put_entries-IsHeader es one 1 id sequence n after (i + 1) header rest in
    let kept : (a : ℕ)
        → a + 8 ≤ 40 + (i + 1) * 32
        → get (put_entries (i + 1) es one) a ≡ get one a =
      λ a l. put_entries-before es one (i + 1) a header.whole w.1 rest l in
    (
      leaf_key _ i whole.kind_eq
          ∙ pair-eq (kept at (omega arith) ∙ words.1) (kept (at + 8) (omega arith) ∙ words.2),
      leaf_value _ i
          ∙ pair-eq (kept (at + 16) (omega arith) ∙ words.3)
              (kept (at + 24) (omega arith) ∙ words.4),
      put_entries-Rows es one id sequence n after (i + 1) header w.1 rest,
    )

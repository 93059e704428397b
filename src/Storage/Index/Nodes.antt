-- ===== src/Storage/Index/Nodes.antt =====
-- `decode` of the pages that the writer of an index has sealed.
use eve_db.Base.{
  ℕ, ◌+◌, ◌^◌, ◌≤◌, ◌<◌, ◌≡◌, refl, sym, ap, ◌∙◌, true, false, Bool-cases, inl, inr, ◌&&◌, ◌||◌,
  leb, ltb, ◌==◌, Option, none, some, List, [], ◌∷◌, ◌++◌, length, take, drop, take-drop, arith, ok,
  All,
}
use eve_db.Base.Order.{nat_ord, pair_ord, below, above-below}
use eve_db.Base.Assoc.{IsSorted, Above}
use eve_db.Codec.LittleEndian.{
  Bytes, to_le_bytes, from_le_bytes, from_le_bytes-to_le_bytes, length-to_le_bytes,
}
use eve_db.Codec.Parses.{drop-add}
use eve_db.Checksum.{crc32c}
use eve_db.Model.Schemas.Names.{same_bytes}
use eve_db.Storage.Frame.{slice}
use eve_db.Storage.Page.{page_size, splice, zeros}
use eve_db.Storage.Index.{
  Key, Value, magic, kind, seal, decode, check_kind, check_entries, key, value, child,
}
use eve_db.Storage.Index.Splices.{slice-splice, drop-splice, slice_before}
use eve_db.Storage.Index.Rows.{Rows}
use eve_db.Storage.Index.Pages.{IsHeader}

crc32c-lt : (bytes : Bytes) → crc32c bytes < 2 ^ 32
unfolding crc32c
crc32c-lt bytes = omega arith

-- Clearing the checksum of a sealed page gives the page.
unseal :
    (P : Bytes) → length P ≡ page_size → slice 28 32 P ≡ zeros 4 → splice 28 (zeros 4) (seal P) ≡ P
unfolding seal
unseal P h z =
    let crc = to_le_bytes 4 (crc32c P) in
    let four = length-to_le_bytes 4 (crc32c P) in
    let front : take 28 (splice 28 crc P) ≡ take 28 P =
      slice_before 0 28 28 P _ (omega arith) (omega (arith, h)) in
    let back : drop 32 (splice 28 crc P) ≡ drop 32 P =
      drop-splice 32 28 crc P (omega (arith, h)) (omega (arith, four)) in
    rw (front, back)
      (ap (λ x. take 28 P ++ (x ++ drop 32 P)) (sym z)
        ∙ ap (λ x. take 28 P ++ (slice 28 32 P ++ x)) (drop-add 28 4 P)
        ∙ ap (λ x. take 28 P ++ x) (take-drop 4 (drop 28 P))
        ∙ take-drop 28 P)

seal-field : (P : Bytes) → length P ≡ page_size → from_le_bytes (slice 28 32 (seal P)) ≡ crc32c P
unfolding seal
seal-field P h =
    let four = length-to_le_bytes 4 (crc32c P) in
    ap (λ n. from_le_bytes (take n (drop 28 (splice 28 (to_le_bytes 4 (crc32c P)) P)))) (sym four)
    ∙ ap from_le_bytes (slice-splice 28 (to_le_bytes 4 (crc32c P)) P (omega (arith, h)))
    ∙ from_le_bytes-to_le_bytes 4 (crc32c P) (crc32c-lt P)

same_bytes_self : (xs : Bytes) → same_bytes xs xs ≡ true
unfolding same_bytes
same_bytes_self [] = refl
same_bytes_self (x ∷ xs) = ground (arith, same_bytes_self xs)

decode-seal :
    (P : Bytes) (k id sequence n after : ℕ)
    → IsHeader P k id sequence n after
    → decode id (seal P) ≡ check_kind P id
unfolding decode
decode-seal P k id sequence n after h =
    rw (unseal P h.whole h.unsealed, seal-field P h.whole, h.starts, h.version, h.id_eq, h.reserved)
      (rw (same_bytes_self magic, same_bytes_self (to_le_bytes 2 1), same_bytes_self (zeros 2))
        (ground arith))

-- The key before the rows.
abbrev Follows : {V : Type 0} → Option Key → List (Key × V) → Type 0
Follows none es = Unit
Follows (some p) es = Above p es

check_entries-ok :
    {V : Type 0} (es : List (Key × V)) (P : Bytes) (f : ℕ → V) (id i : ℕ) (previous : Option Key)
    → Rows P f i es
    → IsSorted es
    → Follows previous es
    → ((j : ℕ)
        → i ≤ j
        → j < i + length es
        → (kind P == 2 && (child P j == 0 || leb id (child P j))) ≡ false)
    → check_entries (length es) P id previous i ≡ ok tt
unfolding check_entries
check_entries-ok [] P f id i previous rows s above c = refl
check_entries-ok (e ∷ es) P f id i none rows s above c = rw (c i (omega arith) (omega arith)) (
    check_entries-ok es P f id (i + 1) (some (key P i)) rows.2 s.1 (rw (rows.0) s.0)
      (λ j p q. c j (omega (arith, p)) (omega (arith, q))))
check_entries-ok (e ∷ es) P f id i (some p) rows s above c =
    let higher : below p (key P i) ≡ true = rw (rows.0) (above-below p e.0 above.0) in
    rw (higher, c i (omega arith) (omega arith))
      (check_entries-ok es P f id (i + 1) (some (key P i)) rows.2 s.1 (rw (rows.0) s.0)
        (λ j p q. c j (omega (arith, p)) (omega (arith, q))))

-- A leaf with these entries, in a sealed page.
pub record IsLeaf (P : Bytes) (id sequence after : ℕ) (es : List (Key × Value)) : Type 0 where
  pub header : IsHeader P 1 id sequence (length es) after
  pub rows : Rows P (value P) 0 es

pub decode-leaf :
    (P : Bytes) (id sequence after : ℕ) (e : Key × Value) (es : List (Key × Value))
    → IsLeaf P id sequence after (e ∷ es)
    → IsSorted (e ∷ es)
    → length (e ∷ es) ≤ 254
    → (after == 0 || ltb id after) ≡ true
    → decode id (seal P) ≡ ok P
unfolding check_kind
decode-leaf P id sequence after e es leaf s short forward =
    let h = leaf.header in
    let checked =
      check_entries-ok (e ∷ es) P (value P) id 0 none leaf.rows s tt
        (λ j p q. rw (h.kind_eq) refl) in
    decode-seal P 1 id sequence (length (e ∷ es)) after h
    ∙ rw (h.kind_eq, h.count_eq, checked, h.next_eq) (ground (arith, short, forward))

pub record IsBranch (P : Bytes) (id sequence : ℕ) (cs : List (Key × ℕ)) : Type 0 where
  pub header : IsHeader P 2 id sequence (length cs) 0
  pub rows : Rows P (child P) 0 cs

child_in_range :
    (cs : List (Key × ℕ)) (P : Bytes) (id i j : ℕ)
    → Rows P (child P) i cs
    → All (λ c. (0 < c.1) × (c.1 < id)) cs
    → i ≤ j
    → j < i + length cs
    → (child P j == 0 || leb id (child P j)) ≡ false
child_in_range [] P id i j rows a p q = absurd (omega (arith, p, q))
child_in_range (c ∷ cs) P id i j rows a p q = elim (Bool-cases (i == j)) [
  | inl y ↦
      (let here : i ≡ j = ground (arith, y) in
        let this : child P j ≡ c.1 = ap (child P) (sym here) ∙ rows.1 in
        rw (this) (ground (arith, a.0)))
  | inr x ↦ child_in_range cs P id (i + 1) j rows.2 a.1 (ground (arith, p, x)) (omega (arith, q))
]

pub decode-branch :
    (P : Bytes) (id sequence : ℕ) (c : Key × ℕ) (cs : List (Key × ℕ))
    → IsBranch P id sequence (c ∷ cs)
    → IsSorted (c ∷ cs)
    → All (λ c. (0 < c.1) × (c.1 < id)) (c ∷ cs)
    → length (c ∷ cs) ≤ 339
    → decode id (seal P) ≡ ok P
unfolding check_kind
decode-branch P id sequence c cs branch s range short =
    let h = branch.header in
    let checked =
      check_entries-ok (c ∷ cs) P (child P) id 0 none branch.rows s tt
        (λ j p q. rw (h.kind_eq) (child_in_range (c ∷ cs) P id 0 j branch.rows range p q)) in
    decode-seal P 2 id sequence (length (c ∷ cs)) 0 h
    ∙ rw (h.kind_eq, h.count_eq, checked) (ground (arith, short))

pub decode-meta :
    (P : Bytes) (id sequence after : ℕ)
    → IsHeader P 0 id sequence 0 after
    → (after == 0 || ltb id after) ≡ true
    → decode id (seal P) ≡ ok P
unfolding check_kind
decode-meta P id sequence after h forward =
    decode-seal P 0 id sequence 0 after h ∙ rw (h.kind_eq, h.count_eq, h.next_eq, forward) refl

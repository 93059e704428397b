-- ===== src/Storage/Index/Pages.antt =====
-- The pages that the writer of an index makes, and that `decode` takes them back.
use eve_db.Base.{ℕ, ◌+◌, ◌^◌, ◌≤◌, ◌<◌, ◌≡◌, refl, ap, ◌∙◌, inl, length, arith}
use eve_db.Base.Order.{nat_ord, pair_ord}
use eve_db.Codec.LittleEndian.{Bytes, to_le_bytes, from_le_bytes, from_le_bytes-to_le_bytes}
use eve_db.Storage.Frame.{slice}
use eve_db.Storage.Page.{page_size, zeros}
use eve_db.Storage.Index.{magic, put, get, page, kind, count, lsn, next}
use eve_db.Storage.Index.Splices.{length-put, slice-put}

pub record IsHeader (P : Bytes) (kind_of id sequence n after : ℕ) : Type 0 where
  pub whole : length P ≡ page_size
  pub starts : slice 0 4 P ≡ magic
  pub version : slice 4 6 P ≡ to_le_bytes 2 1
  pub kind_eq : kind P ≡ kind_of
  pub id_eq : get P 8 ≡ id
  pub lsn_eq : lsn P ≡ sequence
  pub count_eq : count P ≡ n
  pub reserved : slice 26 28 P ≡ zeros 2
  pub unsealed : slice 28 32 P ≡ zeros 4
  pub next_eq : next P ≡ after

pub page-IsHeader :
    (k id sequence n after : ℕ)
    → k < 2 ^ 16
    → id < 2 ^ 64
    → sequence < 2 ^ 64
    → n < 2 ^ 16
    → after < 2 ^ 64
    → IsHeader (page k id sequence n after) k id sequence n after
unfolding page put get to_le_bytes
page-IsHeader k id sequence n after p q r s t = record {
  whole = refl;
  starts = refl;
  version = refl;
  kind_eq = from_le_bytes-to_le_bytes 2 k p;
  id_eq = from_le_bytes-to_le_bytes 8 id q;
  lsn_eq = from_le_bytes-to_le_bytes 8 sequence r;
  count_eq = from_le_bytes-to_le_bytes 2 n s;
  reserved = refl;
  unsealed = refl;
  next_eq = from_le_bytes-to_le_bytes 8 after t;
}

pub IsHeader-put :
    (P : Bytes) (k id sequence n after at v : ℕ)
    → IsHeader P k id sequence n after
    → 40 ≤ at
    → at + 8 ≤ page_size
    → IsHeader (put at v P) k id sequence n after
unfolding get
IsHeader-put P k id sequence n after at v h p q =
    let inside : at + 8 ≤ length P = omega (arith, h.whole, q) in
    let kept : (a b : ℕ) → a ≤ b → b ≤ 40 → slice a b (put at v P) ≡ slice a b P =
      λ a b x y. slice-put a b at v P inside x (inl (omega (arith, y, p))) in
    record {
      whole = length-put at v P inside ∙ h.whole;
      starts = kept 0 4 (omega arith) (omega arith) ∙ h.starts;
      version = kept 4 6 (omega arith) (omega arith) ∙ h.version;
      kind_eq = ap from_le_bytes (kept 6 8 (omega arith) (omega arith)) ∙ h.kind_eq;
      id_eq = ap from_le_bytes (kept 8 16 (omega arith) (omega arith)) ∙ h.id_eq;
      lsn_eq = ap from_le_bytes (kept 16 24 (omega arith) (omega arith)) ∙ h.lsn_eq;
      count_eq = ap from_le_bytes (kept 24 26 (omega arith) (omega arith)) ∙ h.count_eq;
      reserved = kept 26 28 (omega arith) (omega arith) ∙ h.reserved;
      unsealed = kept 28 32 (omega arith) (omega arith) ∙ h.unsealed;
      next_eq = ap from_le_bytes (kept 32 40 (omega arith) (omega arith)) ∙ h.next_eq;
    }

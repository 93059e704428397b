-- ===== src/Storage/Index/Search.antt =====
-- The binary search of a page, against the list of its rows.
use eve_db.Base.{
  ℕ, zero, suc, ◌+◌, ◌-◌, ◌/◌, ◌≤◌, ◌<◌, ◌≡◌, true, false, ltb, if◌then◌else◌, Bool-cases, inl, inr,
  arith,
}
use eve_db.Base.Order.{below, nat_ord, pair_ord}
use eve_db.Codec.LittleEndian.{Bytes}
use eve_db.Storage.Index.{Key, key, count, search, lower_bound}

-- The keys before `r` are below `k`, and those from `r` on are not.
pub record IsSplit (node : Bytes) (k : Key) (r : ℕ) : Type 0 where
  pub within : r ≤ count node
  pub before : (i : ℕ) → i < r → below (key node i) k ≡ true
  pub behind : (i : ℕ) → r ≤ i → i < count node → below (key node i) k ≡ false

abbrev pub IsMonotone : Bytes → Key → Type 0
IsMonotone node k =
    (i j : ℕ) → i ≤ j → j < count node → below (key node j) k ≡ true → below (key node i) k ≡ true

search-IsSplit :
    (n : ℕ) (node : Bytes) (k : Key) (low high : ℕ)
    → IsMonotone node k
    → high ≤ low + n
    → low ≤ high
    → high ≤ count node
    → ((i : ℕ) → i < low → below (key node i) k ≡ true)
    → ((i : ℕ) → high ≤ i → i < count node → below (key node i) k ≡ false)
    → IsSplit node k (search n node k low high)
unfolding search
search-IsSplit zero node k low high m f h c lower upper = record {
  within = omega arith;
  before = lower;
  behind = λ i p q. upper i (omega arith) q;
}
search-IsSplit (suc n) node k low high m f h c lower upper = elim (Bool-cases (ltb low high)) [
  | inr stop ↦
      rw (stop, if◌then◌else◌)
        (record {
          within = omega arith;
          before = lower;
          behind = λ i p q. upper i (ground (arith, stop, p, h)) q;
        })
  | inl go ↦
      (let smaller : low < high = ground (arith, go) in
        let middle = low + (high - low) / 2 in
        rw (go, if◌then◌else◌)
          (elim (Bool-cases (below (key node middle) k)) [
            | inl y ↦
                rw (y, if◌then◌else◌)
                  (search-IsSplit n node k (middle + 1) high m (omega (arith, smaller, f))
                    (omega (arith, smaller)) c
                    (λ i p. m i middle (omega (arith, p)) (omega (arith, smaller, c)) y) upper)
            | inr x ↦
                rw (x, if◌then◌else◌)
                  (search-IsSplit n node k low middle m (omega (arith, smaller, f)) (omega arith)
                    (omega (arith, smaller, c)) lower
                    (λ i p q. elim (Bool-cases (below (key node i) k)) [
                      | inr z ↦ z
                      | inl z ↦ absurd (ground (arith, m middle i p q z, x))
                    ]))
          ]))
]

pub lower_bound-IsSplit :
    (node : Bytes) (k : Key) → IsMonotone node k → IsSplit node k (lower_bound node k)
unfolding lower_bound
lower_bound-IsSplit node k m =
    search-IsSplit (count node) node k 0 (count node) m (omega arith) (omega arith) (omega arith)
      (λ i p. absurd (omega (arith, p))) (λ i p q. absurd (omega (arith, p, q)))

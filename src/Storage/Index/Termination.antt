-- ===== src/Storage/Index/Termination.antt =====
-- The descent of any file, whatever it holds: identifiers fall from page to page.
use eve_db.Base.{
  ℕ, zero, suc, ◌+◌, ◌-◌, ◌/◌, ◌≤◌, ◌<◌, ◌≡◌, ◌≢◌, refl, ap, ◌∙◌, arith, ◌==◌, Bool-cases, inl, inr,
  Option, none, some, Result, Error, ok, err, take, drop, ◌*◌,
}
use eve_db.Base.Order.{nat_ord, pair_ord}
use eve_db.Codec.LittleEndian.{Bytes}
use eve_db.Storage.Frame.{read_exact}
use eve_db.Storage.Page.{page_size, splice, zeros}
use eve_db.Storage.Pager.{read_page}
use eve_db.Storage.Index.{
  Key, decode, check_kind, check_entries, key, kind, count, child, search, lower_bound, floor_index,
  next,
}
use eve_db.Storage.Index.Reader.{node, step, descend_from, descend}

search-le : (n : ℕ) (P : Bytes) (k : Key) (low high : ℕ) → low ≤ high → search n P k low high ≤ high
unfolding search
search-le zero P k low high h = h
search-le (suc n) P k low high h =
    let middle = low + (high - low) / 2 in
    let right : low < high → search n P k (middle + 1) high ≤ high =
      λ p. search-le n P k (middle + 1) high (omega (arith, p)) in
    let left : low < high → search n P k low middle ≤ middle =
      λ p. search-le n P k low middle (omega (arith, p)) in
    ground (arith, right, left, h)

-- An entry that passes the checks, and those behind it.
record Passed (n : ℕ) (P : Bytes) (id : ℕ) (i : ℕ) : Type 0 where
  here : kind P ≡ 2 → child P i < id
  rest : check_entries n P id (some (key P i)) (i + 1) ≡ ok tt

check_entries-Passed :
    (n : ℕ) (P : Bytes) (id : ℕ) (previous : Option Key) (i : ℕ)
    → check_entries (suc n) P id previous i ≡ ok tt
    → Passed n P id i
unfolding check_entries
check_entries-Passed n P id none i h = record {
  here = λ two_eq. ground (arith, h, two_eq);
  rest = ground (arith, h);
}
check_entries-Passed n P id (some p) i h = record {
  here = λ two_eq. ground (arith, h, two_eq);
  rest = ground (arith, h);
}

-- The children of a page that has passed the checks are before it.
check_entries-child :
    (n : ℕ) (P : Bytes) (id : ℕ) (previous : Option Key) (i j : ℕ)
    → check_entries n P id previous i ≡ ok tt
    → kind P ≡ 2
    → i ≤ j
    → j < i + n
    → child P j < id
check_entries-child zero P id previous i j h two_eq p q = absurd (omega (arith, p, q))
check_entries-child (suc n) P id previous i j h two_eq p q =
    let passed = check_entries-Passed n P id previous i h in
    elim (Bool-cases (i == j)) [
      | inl y ↦ (let same : i ≡ j = ground (arith, y) in rw (← same) (passed.here two_eq))
      | inr x ↦
          check_entries-child n P id (some (key P i)) (i + 1) j passed.rest two_eq
            (ground (arith, p, x)) (omega (arith, q))
    ]

check_kind-child :
    (P Q : Bytes) (id : ℕ)
    → check_kind P id ≡ ok Q
    → kind Q ≡ 2
    → (0 < count Q) × ((j : ℕ) → j < count Q → child Q j < id)
unfolding check_kind
check_kind-child P Q id h two_eq =
    let same : P ≡ Q = ground (arith, h) in
    let two : kind P ≡ 2 = ap kind same ∙ two_eq in
    let checked : check_entries (count P) P id none 0 ≡ ok tt = ground (arith, h, two) in
    rw (← same) (
      ground (arith, h, two),
      λ j p.
          check_entries-child (count P) P id none 0 j checked two (omega arith) (omega (arith, p)),
    )

step-lt :
    (P : Bytes) (id : ℕ) (k : Key)
    → 0 < count P
    → ((j : ℕ) → j < count P → child P j < id)
    → step k P < id
unfolding step floor_index lower_bound
step-lt P id k some_child h =
    let r = search (count P) P k 0 (count P) in
    let within : r ≤ count P = search-le (count P) P k 0 (count P) (omega arith) in
    ground (arith, h 0 some_child, h r, h (r - 1), within)

-- What a page that is read as a branch has met.
node-child :
    (file : Bytes) (id sequence : ℕ) (P : Bytes)
    → node file id sequence ≡ ok P
    → kind P ≡ 2
    → (0 < count P) × ((j : ℕ) → j < count P → child P j < id)
unfolding node read_page read_exact decode
node-child file id sequence P h two_eq =
    let bytes = take page_size (drop (id * page_size) file) in
    check_kind-child (splice 28 (zeros 4) bytes) P id (ground (arith, h)) two_eq

check_kind-count : (P Q : Bytes) (id : ℕ) → check_kind P id ≡ ok Q → kind Q ≡ 1 → 0 < count Q
unfolding check_kind
check_kind-count P Q id h one_eq =
    let same : P ≡ Q = ground (arith, h) in
    let one : kind P ≡ 1 = ap kind same ∙ one_eq in rw (← same) (ground (arith, h, one))

-- A page with entries that is read has one.
pub node-count :
    (file : Bytes) (id sequence : ℕ) (P : Bytes)
    → node file id sequence ≡ ok P
    → kind P ≡ 1
    → 0 < count P
unfolding node read_page read_exact decode
node-count file id sequence P h one_eq =
    let bytes = take page_size (drop (id * page_size) file) in
    check_kind-count (splice 28 (zeros 4) bytes) P id (ground (arith, h)) one_eq

descend_from-ends :
    (fuel : ℕ) (file : Bytes) (sequence : ℕ) (k : Key) (id : ℕ)
    → id < fuel
    → descend_from fuel file sequence k id ≢ none
unfolding descend_from
descend_from-ends zero file sequence k id p h = absurd (omega arith)
descend_from-ends (suc fuel) file sequence k id p h =
    let next : (P : Bytes)
        → node file id sequence ≡ ok P
        → kind P ≡ 2
        → descend_from fuel file sequence k (step k P) ≢ none =
      λ P e two_eq.
        let (some_child, falls) = node-child file id sequence P e two_eq in
        descend_from-ends fuel file sequence k (step k P)
          (omega (arith, step-lt P id k some_child falls, p)) in
    page_ends (node file id sequence) refl next
  where
    page_ends :
        (r : Result Error Bytes)
        → node file id sequence ≡ r
        → ((P : Bytes)
            → node file id sequence ≡ ok P
            → kind P ≡ 2
            → descend_from fuel file sequence k (step k P) ≢ none)
        → ⊥
    page_ends (err e) r next = ground (arith, h, r)
    page_ends (ok P) r next = ground (arith, h, r, next P r)

-- A descent ends, whatever bytes the file holds: each page that it goes to is before the last.
pub descend-ends :
    (file : Bytes) (sequence base : ℕ) (k : Key) → descend file sequence base k ≢ none
unfolding descend
descend-ends file sequence base k h = page_ends (node file base sequence) refl
  where
    page_ends : (r : Result Error Bytes) → node file base sequence ≡ r → ⊥
    page_ends (err e) r = ground (arith, h, r)
    page_ends (ok P) r =
        ground (arith, h, r, descend_from-ends (next P + 1) file sequence k (next P) (omega arith))

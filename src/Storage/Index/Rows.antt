-- ===== src/Storage/Index/Rows.antt =====
-- The search of a page against the list of its rows.
use eve_db.Base.{
  ℕ, ◌+◌, ◌-◌, ◌≤◌, ◌<◌, ◌≡◌, refl, sym, ap, ◌∙◌, true, false, ◌&&◌, ltb, ◌==◌, if◌then◌else◌,
  Bool-cases, inl, inr, Option, none, some, List, [], ◌∷◌, length, arith,
}
use eve_db.Base.Order.{
  below, same, nat_ord, pair_ord, below-same, same_sym, not_below, below-at_most, not_below-at_most,
  same-eq, ◌≺◌, below_trans, above-at_most,
}
use eve_db.Base.Assoc.{IsSorted, Above, Above-trans, lookup, last_up_to, lookup-Above}
use eve_db.Codec.LittleEndian.{Bytes}
use eve_db.Storage.Index.{Key, key, count, lower_bound, floor_index}
use eve_db.Storage.Index.Search.{IsSplit, lower_bound-IsSplit}

-- The rows of a page from an index on, with their values by `f`.
abbrev pub Rows : {V : Type 0} → Bytes → (ℕ → V) → ℕ → List (Key × V) → Type 0
Rows node f i [] = Unit
Rows node f i (e ∷ es) = (key node i ≡ e.0) × (f i ≡ e.1) × Rows node f (i + 1) es

lookup-past :
    {V : Type 0} (k : Key) (e : Key × V) (es : List (Key × V))
    → below e.0 k ≡ true
    → lookup k (e ∷ es) ≡ lookup k es
unfolding lookup
lookup-past k e es h = rw (below-same e.0 k h) refl

lookup_here :
    {V : Type 0} (k : Key) (e : Key × V) (es : List (Key × V))
    → below e.0 k ≡ false
    → IsSorted (e ∷ es)
    → lookup k (e ∷ es) ≡ (if same e.0 k then some e.1 else none)
unfolding lookup
lookup_here k e es h s =
    let nothing : same e.0 k ≡ false → lookup k es ≡ none =
      λ d. lookup-Above es k (Above-trans k e.0 es (not_below e.0 k h d) s.0) in
    ground (arith, nothing, same_sym e.0 k)

pub last_up_to-Above :
    {V : Type 0} (result : Option (Key × V)) (k : Key) (es : List (Key × V))
    → Above k es
    → last_up_to result k es ≡ result
unfolding last_up_to
last_up_to-Above result k [] a = refl
last_up_to-Above result k (e ∷ es) a =
    rw (above-at_most k e.0 a.0) (last_up_to-Above result k es a.1)

last_up_to_here :
    {V : Type 0} (result : Option (Key × V)) (k : Key) (e : Key × V) (es : List (Key × V))
    → below e.0 k ≡ false
    → IsSorted (e ∷ es)
    → last_up_to result k (e ∷ es) ≡ (if same e.0 k then some e else result)
unfolding last_up_to
last_up_to_here result k e es h s = rw (not_below-at_most e.0 k h) (elim (Bool-cases (same e.0 k)) [
  | inl y ↦ rw (y, if◌then◌else◌) (last_up_to-Above (some e) k es (rw (← same-eq e.0 k y) s.0))
  | inr x ↦
      rw (x, if◌then◌else◌)
        (last_up_to-Above result k es (Above-trans k e.0 es (not_below e.0 k h x) s.0))
])

last_up_to-past :
    {V : Type 0} (result : Option (Key × V)) (k : Key) (e : Key × V) (es : List (Key × V))
    → below e.0 k ≡ true
    → last_up_to result k (e ∷ es) ≡ last_up_to (some e) k es
unfolding last_up_to
last_up_to-past result k e es h = rw (below-at_most e.0 k h) refl

module _ {V : Type 0} (node : Bytes) (f : ℕ → V) (k : Key) where
  -- The value at the index of the search, if its key is the one sought.
  abbrev pub at_index : ℕ → Option V
  at_index r = if ltb r (count node) && same (key node r) k then some (f r) else none

  -- The row at the index of the search, or the one before it.
  abbrev pub up_to_index : ℕ → Option (Key × V) → ℕ → Option (Key × V)
  up_to_index i result r =
      if ltb r (count node) && same (key node r) k
      then some (key node r, f r)
      else if r == i
      then result
      else some (key node (r - 1), f (r - 1))

  first_row :
      (e : Key × V) (es : List (Key × V)) (i r : ℕ)
      → Rows node f i (e ∷ es)
      → i ≡ r
      → (key node r ≡ e.0) × (f r ≡ e.1)
  first_row e es i r rows h = (ap (key node) (sym h) ∙ rows.0, ap f (sym h) ∙ rows.1)

  pub at_index-lookup :
      (es : List (Key × V)) (i r : ℕ)
      → Rows node f i es
      → i + length es ≡ count node
      → IsSorted es
      → i ≤ r
      → IsSplit node k r
      → at_index r ≡ lookup k es
  unfolding lookup
  at_index-lookup [] i r rows c s p split = ground (arith, split.within)
  at_index-lookup (e ∷ es) i r rows c s p split = elim (Bool-cases (i == r)) [
    | inr x ↦
        (let further : i < r = ground (arith, p, x) in
          at_index-lookup es (i + 1) r rows.2 (omega (arith, c)) s.1 (omega (arith, further)) split
          ∙ sym (lookup-past k e es (ap (λ j. below j k) (sym rows.0) ∙ split.before i further)))
    | inl y ↦
        (let here : i ≡ r = ground (arith, y) in
          let (first, second) = first_row e es i r rows here in
          let inside : ltb r (count node) ≡ true = ground (arith, c, here) in
          rw (inside, first, second)
            (sym (
              lookup_here k e es
                (ap (λ j. below j k) (sym rows.0)
                  ∙ split.behind i (omega (arith, here)) (omega (arith, c)))
                s)))
  ]

  pub up_to_index-last_up_to :
      (es : List (Key × V)) (i r : ℕ) (result : Option (Key × V))
      → Rows node f i es
      → i + length es ≡ count node
      → IsSorted es
      → i ≤ r
      → IsSplit node k r
      → up_to_index i result r ≡ last_up_to result k es
  unfolding last_up_to
  up_to_index-last_up_to [] i r result rows c s p split = ground (arith, split.within)
  up_to_index-last_up_to (e ∷ es) i r result rows c s p split = elim (Bool-cases (i == r)) [
    | inr x ↦
        (let further : i < r = ground (arith, p, x) in
          let here : i + 1 ≡ r → (key node (r - 1) ≡ e.0) × (f (r - 1) ≡ e.1) =
            λ h. first_row e es i (r - 1) rows (omega (arith, h)) in
          ground (arith, here, x, p)
          ∙ up_to_index-last_up_to es (i + 1) r (some e) rows.2 (omega (arith, c)) s.1
              (omega (arith, further)) split
          ∙ sym (
              last_up_to-past result k e es
                (ap (λ j. below j k) (sym rows.0) ∙ split.before i further)))
    | inl y ↦
        (let here : i ≡ r = ground (arith, y) in
          let (first, second) = first_row e es i r rows here in
          let inside : ltb r (count node) ≡ true = ground (arith, c, here) in
          let flat : r == i ≡ true = ground (arith, here) in
          rw (inside, first, second, flat)
            (sym (
              last_up_to_here result k e es
                (ap (λ j. below j k) (sym rows.0)
                  ∙ split.behind i (omega (arith, here)) (omega (arith, c)))
                s)))
  ]

  keys-Above :
      (a : Key) (es : List (Key × V)) (i j : ℕ)
      → Above a es
      → Rows node f i es
      → i ≤ j
      → j < i + length es
      → a ≺ key node j
  keys-Above a [] i j above rows p q = absurd (omega (arith, p, q))
  keys-Above a (e ∷ es) i j above rows p q = elim (Bool-cases (i == j)) [
    | inl y ↦ (let here : i ≡ j = ground (arith, y) in rw (← here, rows.0) above.0)
    | inr x ↦ keys-Above a es (i + 1) j above.1 rows.2 (ground (arith, p, x)) (omega (arith, q))
  ]

  Rows-IsMonotone :
      (es : List (Key × V)) (start i j : ℕ)
      → IsSorted es
      → Rows node f start es
      → start ≤ i
      → i ≤ j
      → j < start + length es
      → below (key node j) k ≡ true
      → below (key node i) k ≡ true
  Rows-IsMonotone [] start i j s rows p q r h = absurd (omega (arith, p, q, r))
  Rows-IsMonotone (e ∷ es) start i j s rows p q r h = elim (Bool-cases (i == j)) [
    | inl y ↦ (let here : i ≡ j = ground (arith, y) in rw here h)
    | inr x ↦ elim (Bool-cases (start == i)) [
      | inr z ↦
          Rows-IsMonotone es (start + 1) i j s.1 rows.2 (ground (arith, p, z)) q (omega (arith, r))
            h
      | inl w ↦
          (let here : start ≡ i = ground (arith, w) in
            below_trans (key node i) (key node j) k
              (rw (← here, rows.0)
                (keys-Above e.0 es (start + 1) j s.0 rows.2 (ground (arith, w, q, x))
                  (omega (arith, r))))
              h)
    ]
  ]

  -- The reads of a page that holds these rows.
  pub at_index-eq-lookup :
      (es : List (Key × V))
      → Rows node f 0 es
      → length es ≡ count node
      → IsSorted es
      → at_index (lower_bound node k) ≡ lookup k es
  at_index-eq-lookup es rows c s = at_index-lookup es 0 _ rows (omega (arith, c)) s (omega arith) (
      lower_bound-IsSplit node k
        (λ i j p q h. Rows-IsMonotone es 0 i j s rows (omega arith) p (omega (arith, q, c)) h))

  pub floor_index-eq-last_up_to :
      (es : List (Key × V))
      → Rows node f 0 es
      → length es ≡ count node
      → IsSorted es
      → (elim (floor_index node k) [ none ↦ none | some index ↦ some (key node index, f index) ])
        ≡ last_up_to none k es
  unfolding floor_index
  floor_index-eq-last_up_to es rows c s =
      ground arith
      ∙ up_to_index-last_up_to es 0 (lower_bound node k) none rows (omega (arith, c)) s
          (omega arith)
          (lower_bound-IsSplit node k
            (λ i j p q h. Rows-IsMonotone es 0 i j s rows (omega arith) p (omega (arith, q, c)) h))

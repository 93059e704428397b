-- ===== src/Base/Assoc.antt =====
-- Association lists in ascending key order with no repeated key: a `BTreeMap` of the standard
-- library, and the abstract view of the ordered map.
use Prim.Native.Nat.Ordering.{lt, eq, gt}
use eve_db.Base.{
  ◌≡◌, refl, Option, none, some, List, [], ◌∷◌, ◌++◌, arith, All, All-append, All-append_left,
  All-append_right, All-imp, keep, if◌then◌else◌, not, Bool, true, false,
}
use eve_db.Base.Order.{Ord, ◌≺◌, same, below, at_most}

module _ {ℓ κ} {K : Type ℓ} {V : Type κ} ⦃o : Ord K⦄ where
  abbrev pub Above : K → List (K × V) → Type 0
  Above k = All λ e. k ≺ e.0

  abbrev pub Below : K → List (K × V) → Type 0
  Below k = All λ e. e.0 ≺ k

  abbrev pub IsSorted : List (K × V) → Type 0
  IsSorted [] = Unit
  IsSorted (e ∷ es) = Above e.0 es × IsSorted es

  -- The value at a key.
  unfoldable pub lookup : K → List (K × V) → Option V
  lookup key [] = none
  lookup key ((k, v) ∷ es) = if same key k then some v else lookup key es

  -- The entry put in its place.
  unfoldable pub upsert : K → V → List (K × V) → List (K × V)
  upsert key value [] = (key, value) ∷ []
  upsert key value ((k, v) ∷ es) = elim (o.cmp key k) [
    | lt ↦ (key, value) ∷ (k, v) ∷ es
    | eq ↦ (key, value) ∷ es
    | gt ↦ (k, v) ∷ upsert key value es
  ]

  -- Every entry but the one at a key.
  abbrev pub erase : K → List (K × V) → List (K × V)
  erase key = keep λ e. not (same key e.0)

  -- The entries from a key on.
  abbrev pub from : K → List (K × V) → List (K × V)
  from key = keep λ e. not (below e.0 key)

  -- The last entry that is not above a key; `result` where there is none.
  unfoldable pub last_up_to : Option (K × V) → K → List (K × V) → Option (K × V)
  last_up_to result key [] = result
  last_up_to result key (e ∷ es) = last_up_to (if at_most e.0 key then some e else result) key es

  pub Above-trans : (j k : K) (es : List (K × V)) → j ≺ k → Above k es → Above j es
  Above-trans j k es h = All-imp (λ e. o.lt_trans j k e.0 h) es

  pub Below-trans : (j k : K) (es : List (K × V)) → j ≺ k → Below j es → Below k es
  Below-trans j k es h = All-imp (λ e p. o.lt_trans e.0 j k p h) es

  pub IsSorted-join :
      (xs : List (K × V)) (k : K) (v : V) (ys : List (K × V))
      → IsSorted xs
      → Below k xs
      → Above k ys
      → IsSorted ys
      → IsSorted (xs ++ (k, v) ∷ ys)
  IsSorted-join [] k v ys s b a t = (a, t)
  IsSorted-join (x ∷ xs) k v ys s b a t = (
    All-append _ xs ((k, v) ∷ ys) s.0 (b.0, Above-trans x.0 k ys b.0 a),
    IsSorted-join xs k v ys s.1 b.1 a t,
  )

  pub IsSorted-split :
      (xs : List (K × V)) (k : K) (v : V) (ys : List (K × V))
      → IsSorted (xs ++ (k, v) ∷ ys)
      → IsSorted xs × Below k xs × Above k ys × IsSorted ys
  IsSorted-split [] k v ys s = (tt, tt, s.0, s.1)
  IsSorted-split (x ∷ xs) k v ys s =
      let above = All-append_right (λ e. x.0 ≺ e.0) xs ((k, v) ∷ ys) s.0 in
      let rest = IsSorted-split xs k v ys s.1 in
      (
        (All-append_left (λ e. x.0 ≺ e.0) xs ((k, v) ∷ ys) s.0, rest.0),
        (above.0, rest.1),
        rest.2,
        rest.3,
      )

  pub upsert-append_lt :
      (xs ys : List (K × V)) (key k : K) (value v : V)
      → key ≺ k
      → upsert key value (xs ++ (k, v) ∷ ys) ≡ upsert key value xs ++ (k, v) ∷ ys
  unfolding upsert
  upsert-append_lt [] ys key k value v h = ground arith
  upsert-append_lt (x ∷ xs) ys key k value v h =
      ground (arith, upsert-append_lt xs ys key k value v h)

  pub upsert-append_past :
      (xs ys : List (K × V)) (key : K) (value : V)
      → Below key xs
      → upsert key value (xs ++ ys) ≡ xs ++ upsert key value ys
  unfolding upsert
  upsert-append_past [] ys key value h = refl
  upsert-append_past (x ∷ xs) ys key value h =
      ground (arith, o.cmp_flip x.0 key, upsert-append_past xs ys key value h.1)

  pub keep-All : (p : K × V → Bool) (es : List (K × V)) → All (λ e. p e ≡ true) es → keep p es ≡ es
  keep-All p [] h = refl
  keep-All p (e ∷ es) h = rw h.0 (rw (keep-All p es h.1) refl)

  pub keep-none :
      (p : K × V → Bool) (es : List (K × V)) → All (λ e. p e ≡ false) es → keep p es ≡ []
  keep-none p [] h = refl
  keep-none p (e ∷ es) h = rw h.0 (keep-none p es h.1)

  pub lookup-append_past :
      (xs ys : List (K × V)) (key : K) → Below key xs → lookup key (xs ++ ys) ≡ lookup key ys
  unfolding lookup
  lookup-append_past [] ys key h = refl
  lookup-append_past (x ∷ xs) ys key h =
      ground (arith, o.cmp_flip x.0 key, lookup-append_past xs ys key h.1)

  pub lookup-Above : (es : List (K × V)) (key : K) → Above key es → lookup key es ≡ none
  unfolding lookup
  lookup-Above [] key h = refl
  lookup-Above (e ∷ es) key h = ground (arith, lookup-Above es key h.1)

  pub lookup-append_before :
      (xs ys : List (K × V)) (key : K) → Above key ys → lookup key (xs ++ ys) ≡ lookup key xs
  unfolding lookup
  lookup-append_before [] ys key h = lookup-Above ys key h
  lookup-append_before (x ∷ xs) ys key h = ground (arith, lookup-append_before xs ys key h)

  pub lookup-upsert :
      (es : List (K × V)) (key : K) (value : V) (j : K)
      → lookup j (upsert key value es) ≡ (if same j key then some value else lookup j es)
  unfolding lookup upsert
  lookup-upsert [] key value j = refl
  lookup-upsert (e ∷ es) key value j = ground (
    arith,
    lookup-upsert es key value j,
    o.eq_of_cmp key e.0,
    o.eq_of_cmp j e.0,
    o.cmp_self key,
    o.cmp_flip key j,
    o.cmp_flip key e.0,
  )

  pub lookup-erase :
      (es : List (K × V)) (key j : K)
      → lookup j (erase key es) ≡ (if same j key then none else lookup j es)
  unfolding lookup
  lookup-erase [] key j = ground arith
  lookup-erase (e ∷ es) key j = ground (
    arith,
    lookup-erase es key j,
    o.eq_of_cmp key e.0,
    o.eq_of_cmp j e.0,
    o.eq_of_cmp j key,
    o.cmp_self key,
    o.cmp_self j,
  )

  pub lookup-from :
      (es : List (K × V)) (key j : K)
      → lookup j (from key es) ≡ (if below j key then none else lookup j es)
  unfolding lookup
  lookup-from [] key j = ground arith
  lookup-from (e ∷ es) key j = ground (arith, lookup-from es key j, o.eq_of_cmp j e.0)

  All-upsert :
      (P : K → Type 0) (es : List (K × V)) (key : K) (value : V)
      → P key
      → All (λ e. P e.0) es
      → All (λ e. P e.0) (upsert key value es)
  unfolding upsert
  All-upsert P [] key value p h = (p, tt)
  All-upsert P (e ∷ es) key value p h = ground (arith, All-upsert P es key value p h.1)

  pub upsert-IsSorted :
      (es : List (K × V)) (key : K) (value : V) → IsSorted es → IsSorted (upsert key value es)
  unfolding upsert
  upsert-IsSorted [] key value s = (tt, tt)
  upsert-IsSorted (e ∷ es) key value s = ground (
    arith,
    upsert-IsSorted es key value s.1,
    All-upsert (λ k. e.0 ≺ k) es key value,
    o.eq_of_cmp key e.0,
    o.cmp_flip key e.0,
    Above-trans key e.0 es,
  )

  All-keep :
      (P : K × V → Type 0) (p : K × V → Bool) (es : List (K × V)) → All P es → All P (keep p es)
  All-keep P p [] h = tt
  All-keep P p (e ∷ es) h = ground (arith, All-keep P p es h.1)

  pub keep-IsSorted : (p : K × V → Bool) (es : List (K × V)) → IsSorted es → IsSorted (keep p es)
  keep-IsSorted p [] s = tt
  keep-IsSorted p (e ∷ es) s =
      ground (arith, keep-IsSorted p es s.1, All-keep (λ x. e.0 ≺ x.0) p es s.0)

  -- Every entry of a sorted list is found at its key.
  pub lookup-entries : (es : List (K × V)) → IsSorted es → All (λ e. lookup e.0 es ≡ some e.1) es
  unfolding lookup
  lookup-entries [] s = tt
  lookup-entries (e ∷ es) s = (ground (arith, o.cmp_self e.0), later es s.0 (lookup-entries es s.1))
    where
      later :
          (fs : List (K × V))
          → Above e.0 fs
          → All (λ f. lookup f.0 es ≡ some f.1) fs
          → All (λ f. lookup f.0 (e ∷ es) ≡ some f.1) fs
      later [] a h = tt
      later (f ∷ fs) a h = (ground (arith, o.cmp_flip e.0 f.0), later fs a.1 h.1)

-- ===== src/OrderedMap/Updates.antt =====
-- The updates of ordered_map.rs on the list of entries.
use mathlib.Core.List.{append-nil}
use eve_db.Base.{◌≡◌, refl, List, [], ◌∷◌, ◌++◌, arith, All-imp, not, keep-append}
use eve_db.Base.Order.{Ord, same, below}
use eve_db.OrderedMap.{Tree, leaf, node, new_node, join, leftmost, insert, remove, retain_from}
use eve_db.Base.Assoc.{
  Above, Below, IsSorted, upsert, erase, from, Above-trans, Below-trans, IsSorted-split,
  upsert-append_lt, upsert-append_past, upsert-IsSorted, keep-All, keep-none, keep-IsSorted,
}
use eve_db.OrderedMap.Contents.{to_list, to_list-balance, to_list-join, to_list-leftmost, IsOrdered}

module _ {ℓ κ} {K : Type ℓ} {V : Type κ} ⦃o : Ord K⦄ where
  -- Inserting puts the entry in its place among the entries.
  pub to_list-insert :
      (t : Tree K V) (key : K) (value : V)
      → IsOrdered t
      → to_list (insert t key value) ≡ upsert key value (to_list t)
  unfolding insert upsert
  to_list-insert leaf key value s = refl
  to_list-insert (node k v l r h) key value s =
      let (sl, b, a, sr) = IsSorted-split (to_list l) k v (to_list r) s in
      ground (
        arith,
        to_list-balance (new_node k v (insert l key value) r),
        to_list-balance (new_node k v l (insert r key value)),
        to_list-balance (new_node key value l r),
        to_list-insert l key value sl,
        to_list-insert r key value sr,
        upsert-append_lt (to_list l) (to_list r) key k value v,
        upsert-append_past (to_list l) ((k, v) ∷ to_list r) key value,
        Below-trans k key (to_list l),
        o.eq_of_cmp key k,
        o.cmp_flip key k,
      )

  pub insert-IsOrdered :
      (t : Tree K V) (key : K) (value : V) → IsOrdered t → IsOrdered (insert t key value)
  insert-IsOrdered t key value s =
      rw (to_list-insert t key value s) (upsert-IsSorted (to_list t) key value s)

  erase-Above : (es : List (K × V)) (key : K) → Above key es → erase key es ≡ es
  erase-Above es key h = keep-All _ es (All-imp (λ e p. ground (arith, p)) es h)

  erase-Below : (es : List (K × V)) (key : K) → Below key es → erase key es ≡ es
  erase-Below es key h = keep-All _ es (All-imp (λ e p. ground (arith, p, o.cmp_flip e.0 key)) es h)

  erase_root :
      (xs : List (K × V)) (key : K) (v : V) (ys : List (K × V))
      → Below key xs
      → Above key ys
      → erase key (xs ++ (key, v) ∷ ys) ≡ xs ++ ys
  erase_root xs key v ys b a = ground (
    arith,
    keep-append (λ e. not (same key e.0)) xs ((key, v) ∷ ys),
    o.cmp_self key,
    erase-Below xs key b,
    erase-Above ys key a,
  )

  -- Lifting the first entry of the right tree into the root.
  to_list-lift :
      (l r : Tree K V) (k : K) (v : V) (es : List (K × V))
      → IsOrdered r
      → to_list r ≡ (k, v) ∷ es
      → to_list (remove r k) ≡ erase k (to_list r)
      → to_list (join l k v (remove r k)) ≡ to_list l ++ to_list r
  to_list-lift l r k v es s e h =
      let sorted : IsSorted ((k, v) ∷ es) = rw e at s in
      rw (to_list-join l k v (remove r k), h, e)
        (ground (arith, o.cmp_self k, erase-Above es k sorted.0))

  -- Removing takes out the entry at the key, and nothing else.
  pub to_list-remove :
      (t : Tree K V) (key : K) → IsOrdered t → to_list (remove t key) ≡ erase key (to_list t)
  unfolding remove
  to_list-remove leaf key s = refl
  to_list-remove (node k v l leaf h) key s =
      let (sl, b, a, sr) = IsSorted-split (to_list l) k v [] s in
      ground (
        arith,
        to_list-join (remove l key) k v leaf,
        to_list-join l k v leaf,
        to_list-remove l key sl,
        keep-append (λ e. not (same key e.0)) (to_list l) ((k, v) ∷ []),
        erase-Below (to_list l) key,
        Below-trans k key (to_list l),
        o.eq_of_cmp key k,
        o.cmp_flip key k,
        append-nil (to_list l),
      )
  to_list-remove (node k v l (node rk rv rl rr rh) h) key s =
      let r = node rk rv rl rr rh in
      let (sl, b, a, sr) = IsSorted-split (to_list l) k v (to_list r) s in
      let next = leftmost rk rv rl in
      let (es, first) = to_list-leftmost rk rv rl rr in
      ground (
        arith,
        to_list-join (remove l key) k v r,
        to_list-join l k v (remove (node rk rv rl rr rh) key),
        to_list-remove l key sl,
        to_list-remove (node rk rv rl rr rh) key sr,
        to_list-lift l r next.0 next.1 es sr first (to_list-remove (node rk rv rl rr rh) next.0 sr),
        keep-append (λ e. not (same key e.0)) (to_list l) ((k, v) ∷ to_list r),
        erase_root (to_list l) k v (to_list r) b a,
        erase-Below (to_list l) key,
        erase-Above (to_list r) key,
        Below-trans k key (to_list l),
        Above-trans key k (to_list r),
        o.eq_of_cmp key k,
        o.cmp_flip key k,
      )

  pub remove-IsOrdered : (t : Tree K V) (key : K) → IsOrdered t → IsOrdered (remove t key)
  remove-IsOrdered t key s = rw (to_list-remove t key s) (keep-IsSorted _ (to_list t) s)

  from-Above : (es : List (K × V)) (key : K) → Above key es → from key es ≡ es
  from-Above es key h = keep-All _ es (All-imp (λ e p. ground (arith, p, o.cmp_flip key e.0)) es h)

  from-Below : (es : List (K × V)) (key : K) → Below key es → from key es ≡ []
  from-Below es key h = keep-none _ es (All-imp (λ e p. ground (arith, p)) es h)

  -- `retain_from` keeps the entries whose key is not below the bound.
  pub to_list-retain_from :
      (t : Tree K V) (key : K) → IsOrdered t → to_list (retain_from t key) ≡ from key (to_list t)
  unfolding retain_from
  to_list-retain_from leaf key s = refl
  to_list-retain_from (node k v l r h) key s =
      let (sl, b, a, sr) = IsSorted-split (to_list l) k v (to_list r) s in
      ground (
        arith,
        to_list-join (retain_from l key) k v r,
        to_list-retain_from l key sl,
        to_list-retain_from r key sr,
        keep-append (λ e. not (below e.0 key)) (to_list l) ((k, v) ∷ to_list r),
        from-Below (to_list l) key,
        from-Above (to_list r) key,
        Below-trans k key (to_list l),
        Above-trans key k (to_list r),
        o.eq_of_cmp k key,
        o.cmp_flip key k,
      )

  pub retain_from-IsOrdered : (t : Tree K V) (key : K) → IsOrdered t → IsOrdered (retain_from t key)
  retain_from-IsOrdered t key s = rw (to_list-retain_from t key s) (keep-IsSorted _ (to_list t) s)

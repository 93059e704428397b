-- ===== src/OrderedMap/Reads.antt =====
-- What the reads of the map return, in terms of its entries; the map's reads after each update.
use eve_db.Base.{◌≡◌, refl, Option, none, some, List, [], ◌∷◌, ◌++◌, arith, if◌then◌else◌}
use eve_db.Base.Order.{Ord, same, below, at_most}
use eve_db.OrderedMap.{Tree, leaf, node, get, floor, floor_from, insert, remove, retain_from}
use eve_db.Base.Assoc.{
  Above, lookup, last_up_to, Below-trans, Above-trans, IsSorted-split, lookup-append_past,
  lookup-append_before, lookup-upsert, lookup-erase, lookup-from,
}
use eve_db.OrderedMap.Contents.{to_list, IsOrdered}
use eve_db.OrderedMap.Updates.{
  to_list-insert, to_list-remove, to_list-retain_from, insert-IsOrdered, remove-IsOrdered,
  retain_from-IsOrdered,
}

module _ {ℓ κ} {K : Type ℓ} {V : Type κ} ⦃o : Ord K⦄ where
  -- The walk down the tree finds what a search of the entries finds.
  pub get-eq-lookup : (t : Tree K V) (key : K) → IsOrdered t → get t key ≡ lookup key (to_list t)
  unfolding get lookup
  get-eq-lookup leaf key s = refl
  get-eq-lookup (node k v l r h) key s =
      let (sl, b, a, sr) = IsSorted-split (to_list l) k v (to_list r) s in
      ground (
        arith,
        get-eq-lookup l key sl,
        get-eq-lookup r key sr,
        lookup-append_past (to_list l) ((k, v) ∷ to_list r) key,
        lookup-append_before (to_list l) ((k, v) ∷ to_list r) key,
        Below-trans k key (to_list l),
        Above-trans key k (to_list r),
        o.eq_of_cmp key k,
        o.cmp_flip key k,
      )

  last_up_to-append :
      (result : Option (K × V)) (key : K) (xs ys : List (K × V))
      → last_up_to result key (xs ++ ys) ≡ last_up_to (last_up_to result key xs) key ys
  unfolding last_up_to
  last_up_to-append result key [] ys = refl
  last_up_to-append result key (e ∷ xs) ys =
      last_up_to-append (if at_most e.0 key then some e else result) key xs ys

  last_up_to-Above :
      (result : Option (K × V)) (key : K) (es : List (K × V))
      → Above key es
      → last_up_to result key es ≡ result
  unfolding last_up_to
  last_up_to-Above result key [] h = refl
  last_up_to-Above result key (e ∷ es) h =
      ground (arith, o.cmp_flip key e.0, last_up_to-Above result key es h.1)

  floor_from-eq :
      (t : Tree K V) (result : Option (K × V)) (key : K)
      → IsOrdered t
      → floor_from t result key ≡ last_up_to result key (to_list t)
  unfolding floor_from last_up_to
  floor_from-eq leaf result key s = refl
  floor_from-eq (node k v l r h) result key s =
      let (sl, b, a, sr) = IsSorted-split (to_list l) k v (to_list r) s in
      ground (
        arith,
        last_up_to-append result key (to_list l) ((k, v) ∷ to_list r),
        floor_from-eq l result key sl,
        floor_from-eq r (some (k, v)) key sr,
        last_up_to-Above (last_up_to result key (to_list l)) key (to_list r),
        Above-trans key k (to_list r),
        o.cmp_flip key k,
      )

  -- In a search tree, `floor` returns the last entry whose key is not above the bound, and none
  -- if there is none.
  pub floor-eq-last_up_to :
      (t : Tree K V) (key : K) → IsOrdered t → floor t key ≡ last_up_to none key (to_list t)
  unfolding floor
  floor-eq-last_up_to t key s = floor_from-eq t none key s

  -- In a search tree, after an insertion the key reads the new value, and every other key what
  -- it read before.
  pub get-insert :
      (t : Tree K V) (key : K) (value : V) (j : K)
      → IsOrdered t
      → get (insert t key value) j ≡ (if same j key then some value else get t j)
  get-insert t key value j s =
      rw
        (
          get-eq-lookup (insert t key value) j (insert-IsOrdered t key value s),
          to_list-insert t key value s,
          get-eq-lookup t j s,
        )
        (lookup-upsert (to_list t) key value j)

  -- In a search tree, after a removal the key reads nothing, and every other key what it read
  -- before.
  pub get-remove :
      (t : Tree K V) (key j : K)
      → IsOrdered t
      → get (remove t key) j ≡ (if same j key then none else get t j)
  get-remove t key j s =
      rw
        (
          get-eq-lookup (remove t key) j (remove-IsOrdered t key s),
          to_list-remove t key s,
          get-eq-lookup t j s,
        )
        (lookup-erase (to_list t) key j)

  -- In a search tree, after `retain_from` the keys below the bound read nothing, and the others
  -- what they read before.
  pub get-retain_from :
      (t : Tree K V) (key j : K)
      → IsOrdered t
      → get (retain_from t key) j ≡ (if below j key then none else get t j)
  get-retain_from t key j s =
      rw
        (
          get-eq-lookup (retain_from t key) j (retain_from-IsOrdered t key s),
          to_list-retain_from t key s,
          get-eq-lookup t j s,
        )
        (lookup-from (to_list t) key j)

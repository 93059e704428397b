-- ===== src/OrderedMap/Contents.antt =====
-- The entries of a tree of ordered_map.rs in key order, and the rebalancing steps on them.
use mathlib.Core.List.{append_assoc}
use eve_db.Base.{◌≡◌, refl, ap, List, [], ◌∷◌, ◌++◌, arith}
use eve_db.Base.Order.{Ord}
use eve_db.OrderedMap.{
  Tree, leaf, node, new_node, rotate_left, rotate_right, balance, join, leftmost,
}
use eve_db.Base.Assoc.{IsSorted}

module _ {ℓ κ} {K : Type ℓ} {V : Type κ} where
  abbrev pub to_list : Tree K V → List (K × V)
  to_list leaf = []
  to_list (node k v l r h) = to_list l ++ (k, v) ∷ to_list r

  to_list-rotate_left : (t : Tree K V) → to_list (rotate_left t) ≡ to_list t
  unfolding rotate_left
  to_list-rotate_left leaf = refl
  to_list-rotate_left (node k v l leaf h) = refl
  to_list-rotate_left (node k v l (node pk pv pl pr ph) h) = simp append_assoc

  to_list-rotate_right : (t : Tree K V) → to_list (rotate_right t) ≡ to_list t
  unfolding rotate_right
  to_list-rotate_right leaf = refl
  to_list-rotate_right (node k v leaf r h) = refl
  to_list-rotate_right (node k v (node pk pv pl pr ph) r h) = simp append_assoc

  pub to_list-balance : (t : Tree K V) → to_list (balance t) ≡ to_list t
  unfolding balance
  to_list-balance leaf = refl
  to_list-balance (node k v l r h) = ground (
    arith,
    to_list-rotate_left l,
    to_list-rotate_right r,
    to_list-rotate_right (new_node k v (rotate_left l) r),
    to_list-rotate_right (node k v l r h),
    to_list-rotate_left (new_node k v l (rotate_right r)),
    to_list-rotate_left (node k v l r h),
  )

  -- Joining two trees around an entry concatenates their entries.
  pub to_list-join :
      (l : Tree K V) (k : K) (v : V) (r : Tree K V)
      → to_list (join l k v r) ≡ to_list l ++ (k, v) ∷ to_list r
  unfolding join
  to_list-join leaf k v leaf = refl
  to_list-join leaf k v (node rk rv rl rr rh) =
      ground
        (arith, to_list-balance (new_node rk rv (join leaf k v rl) rr), to_list-join leaf k v rl)
  to_list-join (node lk lv ll lr lh) k v leaf = ground (
    arith,
    to_list-balance (new_node lk lv ll (join lr k v leaf)),
    to_list-join lr k v leaf,
    append_assoc (to_list ll) ((lk, lv) ∷ to_list lr) ((k, v) ∷ []),
  )
  to_list-join (node lk lv ll lr lh) k v (node rk rv rl rr rh) =
      let l = node lk lv ll lr lh in
      let r = node rk rv rl rr rh in
      ground (
        arith,
        to_list-balance (new_node lk lv ll (join lr k v r)),
        to_list-join lr k v (node rk rv rl rr rh),
        append_assoc (to_list ll) ((lk, lv) ∷ to_list lr) ((k, v) ∷ to_list r),
        to_list-balance (new_node rk rv (join l k v rl) rr),
        to_list-join (node lk lv ll lr lh) k v rl,
        append_assoc (to_list l) ((k, v) ∷ to_list rl) ((rk, rv) ∷ to_list rr),
      )

  -- The entry that `remove` lifts is the first of the right subtree.
  pub to_list-leftmost :
      (k : K) (v : V) (l r : Tree K V)
      → (es : List (K × V)) × (to_list l ++ (k, v) ∷ to_list r ≡ leftmost k v l ∷ es)
  unfolding leftmost
  to_list-leftmost k v leaf r = (to_list r, refl)
  to_list-leftmost k v (node lk lv ll lr lh) r =
      let (es, e) = to_list-leftmost lk lv ll lr in
      (es ++ (k, v) ∷ to_list r, ap (λ xs. xs ++ (k, v) ∷ to_list r) e)

module _ {ℓ κ} {K : Type ℓ} {V : Type κ} ⦃o : Ord K⦄ where
  -- The search order: the keys ascend from left to right.
  abbrev pub IsOrdered : Tree K V → Type 0
  IsOrdered t = IsSorted (to_list t)

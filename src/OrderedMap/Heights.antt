-- ===== src/OrderedMap/Heights.antt =====
-- The updates of ordered_map.rs and the AVL invariant.
use eve_db.Base.{ℕ, ◌+◌, ◌≤◌, ◌<◌, arith, ltb, inl, inr, Bool-cases, ltb→lt}
use eve_db.Base.Order.{Ord}
use eve_db.OrderedMap.{
  Tree, leaf, node, height, new_node, balance, join, leftmost, insert, remove, retain_from,
}
use eve_db.OrderedMap.Contents.{IsOrdered}
use eve_db.OrderedMap.Updates.{insert-IsOrdered, remove-IsOrdered, retain_from-IsOrdered}
use eve_db.OrderedMap.Balance.{
  IsBalanced, Mends, Grows, new_node-IsBalanced, balance-even, balance-Grows_left,
  balance-Grows_right,
}

module _ {ℓ κ} {K : Type ℓ} {V : Type κ} where
  join_step_left :
      (k : K) (v : V) (l r : Tree K V) (h : ℕ) (other j : Tree K V)
      → IsBalanced (node k v l r h)
      → height other + 1 < h
      → Mends r other j
      → Mends (node k v l r h) other (balance (new_node k v l j))
  join_step_left k v l r h other j b far m =
      let g = balance-Grows_right k v l r h j b (m.0, omega arith, omega arith) in
      (g.0, omega arith, omega arith)

  join_step_right :
      (k : K) (v : V) (l r : Tree K V) (h : ℕ) (other j : Tree K V)
      → IsBalanced (node k v l r h)
      → height other + 1 < h
      → Mends other l j
      → Mends other (node k v l r h) (balance (new_node k v j r))
  join_step_right k v l r h other j b far m =
      let g = balance-Grows_left k v l r h j b (m.0, omega arith, omega arith) in
      (g.0, omega arith, omega arith)

  new_node-Mends :
      (k : K) (v : V) (l r : Tree K V)
      → IsBalanced l
      → IsBalanced r
      → height l ≤ height r + 1
      → height r ≤ height l + 1
      → Mends l r (new_node k v l r)
  new_node-Mends k v l r bl br hl hr =
      (new_node-IsBalanced k v l r hl hr bl br, omega arith, omega arith)

  -- Joining balanced trees of any heights gives a balanced tree, at most one higher than both.
  pub join-Mends :
      (l : Tree K V) (k : K) (v : V) (r : Tree K V)
      → IsBalanced l
      → IsBalanced r
      → Mends l r (join l k v r)
  unfolding join
  join-Mends leaf k v leaf bl br = new_node-Mends k v leaf leaf tt tt (omega arith) (omega arith)
  join-Mends leaf k v (node rk rv rl rr rh) bl br = elim (Bool-cases (ltb 1 rh)) [
    | inl far ↦
        rw (far, join)
          (join_step_right rk rv rl rr rh leaf _ br (omega (arith, ltb→lt 1 rh))
            (join-Mends leaf k v rl bl br.3))
    | inr near ↦
        rw (near, join)
          (new_node-Mends k v leaf (node rk rv rl rr rh) bl br (omega arith) (ground arith))
  ]
  join-Mends (node lk lv ll lr lh) k v leaf bl br = elim (Bool-cases (ltb 1 lh)) [
    | inl far ↦
        rw (far, join)
          (join_step_left lk lv ll lr lh leaf _ bl (omega (arith, ltb→lt 1 lh))
            (join-Mends lr k v leaf bl.4 br))
    | inr near ↦
        rw (near, join)
          (new_node-Mends k v (node lk lv ll lr lh) leaf bl br (ground arith) (omega arith))
  ]
  join-Mends (node lk lv ll lr lh) k v (node rk rv rl rr rh) bl br =
      elim (Bool-cases (ltb (rh + 1) lh)) [
        | inl far ↦
            rw (far, join)
              (join_step_left lk lv ll lr lh (node rk rv rl rr rh) _ bl
                (omega (arith, ltb→lt (rh + 1) lh))
                (join-Mends lr k v (node rk rv rl rr rh) bl.4 br))
        | inr near ↦ elim (Bool-cases (ltb (lh + 1) rh)) [
          | inl far ↦
              rw (near, far, join)
                (join_step_right rk rv rl rr rh (node lk lv ll lr lh) _ br
                  (omega (arith, ltb→lt (lh + 1) rh))
                  (join-Mends (node lk lv ll lr lh) k v rl bl br.3))
          | inr close ↦
              rw (near, close, join)
                (new_node-Mends k v (node lk lv ll lr lh) (node rk rv rl rr rh) bl br (ground arith)
                  (ground arith))
        ]
      ]

module _ {ℓ κ} {K : Type ℓ} {V : Type κ} ⦃o : Ord K⦄ where
  insert-Grows : (t : Tree K V) (key : K) (value : V) → IsBalanced t → Grows t (insert t key value)
  unfolding insert
  insert-Grows leaf key value b = (
    new_node-IsBalanced key value leaf leaf (omega arith) (omega arith) tt tt,
    omega arith,
    omega arith,
  )
  insert-Grows (node k v l r h) key value b = ground (
    arith,
    balance-Grows_left k v l r h (insert l key value) b (insert-Grows l key value b.3),
    balance-Grows_right k v l r h (insert r key value) b (insert-Grows r key value b.4),
    balance-even key value l r b.1 b.2,
    new_node-IsBalanced key value l r b.1 b.2 b.3 b.4,
  )

  remove-IsBalanced : (t : Tree K V) (key : K) → IsBalanced t → IsBalanced (remove t key)
  unfolding remove
  remove-IsBalanced leaf key b = tt
  remove-IsBalanced (node k v l leaf h) key b = ground (
    arith,
    (join-Mends (remove l key) k v leaf (remove-IsBalanced l key b.3) tt).0,
    (join-Mends l k v leaf b.3 tt).0,
  )
  remove-IsBalanced (node k v l (node rk rv rl rr rh) h) key b =
      let r = node rk rv rl rr rh in
      let next = leftmost rk rv rl in
      let smaller = remove-IsBalanced (node rk rv rl rr rh) in
      ground (
        arith,
        (join-Mends (remove l key) k v r (remove-IsBalanced l key b.3) b.4).0,
        (join-Mends l k v (remove r key) b.3 (remove-IsBalanced (node rk rv rl rr rh) key b.4)).0,
        (join-Mends l next.0 next.1 (remove r next.0) b.3
            (remove-IsBalanced (node rk rv rl rr rh) next.0 b.4)).0,
      )

  retain_from-IsBalanced : (t : Tree K V) (key : K) → IsBalanced t → IsBalanced (retain_from t key)
  unfolding retain_from
  retain_from-IsBalanced leaf key b = tt
  retain_from-IsBalanced (node k v l r h) key b = ground (
    arith,
    retain_from-IsBalanced r key b.4,
    (join-Mends (retain_from l key) k v r (retain_from-IsBalanced l key b.3) b.4).0,
  )

  -- The invariant that the tests of ordered_map.rs check by `validate`.
  pub record IsAvl (t : Tree K V) : Type 0 where
    pub ordered : IsOrdered t
    pub balanced : IsBalanced t

  -- Inserting into a search tree with the AVL balance keeps the search order and the balance.
  pub insert-IsAvl : (t : Tree K V) (key : K) (value : V) → IsAvl t → IsAvl (insert t key value)
  insert-IsAvl t key value i = record {
    ordered = insert-IsOrdered t key value i.ordered;
    balanced = (insert-Grows t key value i.balanced).0;
  }

  -- Removing from a search tree with the AVL balance keeps the search order and the balance.
  pub remove-IsAvl : (t : Tree K V) (key : K) → IsAvl t → IsAvl (remove t key)
  remove-IsAvl t key i = record {
    ordered = remove-IsOrdered t key i.ordered;
    balanced = remove-IsBalanced t key i.balanced;
  }

  -- Dropping the keys below a bound from a search tree with the AVL balance keeps the search
  -- order and the balance, although it joins subtrees whose heights may differ by any amount.
  pub retain_from-IsAvl : (t : Tree K V) (key : K) → IsAvl t → IsAvl (retain_from t key)
  retain_from-IsAvl t key i = record {
    ordered = retain_from-IsOrdered t key i.ordered;
    balanced = retain_from-IsBalanced t key i.balanced;
  }

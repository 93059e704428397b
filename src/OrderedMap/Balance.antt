-- ===== src/OrderedMap/Balance.antt =====
-- The AVL invariant: every cached height is right, and sibling heights differ by one at most.
use eve_db.Base.{ap, ℕ, ap, ◌+◌, ◌≤◌, ◌≡◌, refl, max, arith, ◌<◌}
use native.Mathlib.Decide.{dec_lt}
use eve_db.OrderedMap.{Tree, leaf, node, height, new_node, rotate_left, rotate_right, balance}

module _ {ℓ κ} {K : Type ℓ} {V : Type κ} where
  abbrev pub IsBalanced : Tree K V → Type 0
  IsBalanced leaf = Unit
  IsBalanced (node k v l r h) =
      (h ≡ 1 + max (height l) (height r))
      × (height l ≤ height r + 1)
      × (height r ≤ height l + 1)
      × IsBalanced l
      × IsBalanced r

  -- `balance` mends a difference of two, and leaves what is balanced as it is.
  abbrev pub Mends : Tree K V → Tree K V → Tree K V → Type 0
  Mends l r t =
      IsBalanced t
      × (height t ≤ 1 + max (height l) (height r))
      × (max (height l) (height r) ≤ height t)

  pub new_node-IsBalanced :
      (k : K) (v : V) (l r : Tree K V)
      → height l ≤ height r + 1
      → height r ≤ height l + 1
      → IsBalanced l
      → IsBalanced r
      → IsBalanced (new_node k v l r)
  new_node-IsBalanced k v l r hl hr bl br = (refl, hl, hr, bl, br)

  rotation_single_left :
      (k : K) (v : V) (ck : K) (cv : V) (outer m other : Tree K V) (ch : ℕ)
      → height other + 1 < ch
      → height m ≤ height outer
      → balance (new_node k v (node ck cv outer m ch) other)
        ≡ new_node ck cv outer (new_node k v m other)
  unfolding balance rotate_left rotate_right
  rotation_single_left k v ck cv outer m other ch far light = ground arith

  rotation_double_left :
      (k : K) (v : V) (ck : K) (cv : V) (outer : Tree K V) (mk : K) (mv : V) (ml mr : Tree K V)
      (mh : ℕ) (other : Tree K V) (ch : ℕ)
      → height other + 1 < ch
      → height outer < mh
      → balance (new_node k v (node ck cv outer (node mk mv ml mr mh) ch) other)
        ≡ new_node mk mv (new_node ck cv outer ml) (new_node k v mr other)
  unfolding balance rotate_left rotate_right
  rotation_double_left k v ck cv outer mk mv ml mr mh other ch far heavy = ground arith

  balance-Mends_left :
      (k : K) (v : V) (l r : Tree K V)
      → IsBalanced l
      → IsBalanced r
      → height l ≡ height r + 2
      → Mends l r (balance (new_node k v l r))
  balance-Mends_left k v leaf other bl br h = absurd (omega arith)
  balance-Mends_left k v (node ck cv outer leaf ch) other bl br h =
      rw (rotation_single_left k v ck cv outer leaf other ch (omega arith) (omega arith)) (
        (new_node-IsBalanced ck cv outer (new_node k v leaf other) (omega arith) (omega arith) bl.3
            (new_node-IsBalanced k v leaf other (omega arith) (omega arith) bl.4 br)),
        omega arith,
        omega arith,
      )
  balance-Mends_left k v (node ck cv outer (node mk mv ml mr mh) ch) other bl br h =
      elim (dec_lt (height outer) mh) [
        | yes heavy ↦
            rw (rotation_double_left k v ck cv outer mk mv ml mr mh other ch (omega arith) heavy) (
              (new_node-IsBalanced mk mv (new_node ck cv outer ml) (new_node k v mr other)
                  (omega arith) (omega arith)
                  (new_node-IsBalanced ck cv outer ml (omega arith) (omega arith) bl.3 bl.4.3)
                  (new_node-IsBalanced k v mr other (omega arith) (omega arith) bl.4.4 br)),
              omega arith,
              omega arith,
            )
        | no light ↦
            rw
              (rotation_single_left k v ck cv outer (node mk mv ml mr mh) other ch (omega arith)
                (omega arith))
              (
                (new_node-IsBalanced ck cv outer (new_node k v (node mk mv ml mr mh) other)
                    (omega arith) (omega arith) bl.3
                    (new_node-IsBalanced k v (node mk mv ml mr mh) other (omega arith) (omega arith)
                      bl.4 br)),
                omega arith,
                omega arith,
              )
      ]

  rotation_single_right :
      (k : K) (v : V) (ck : K) (cv : V) (outer m other : Tree K V) (ch : ℕ)
      → height other + 1 < ch
      → height m ≤ height outer
      → balance (new_node k v other (node ck cv m outer ch))
        ≡ new_node ck cv (new_node k v other m) outer
  unfolding balance rotate_left rotate_right
  rotation_single_right k v ck cv outer m other ch far light = ground arith

  rotation_double_right :
      (k : K) (v : V) (ck : K) (cv : V) (outer : Tree K V) (mk : K) (mv : V) (ml mr : Tree K V)
      (mh : ℕ) (other : Tree K V) (ch : ℕ)
      → height other + 1 < ch
      → height outer < mh
      → balance (new_node k v other (node ck cv (node mk mv ml mr mh) outer ch))
        ≡ new_node mk mv (new_node k v other ml) (new_node ck cv mr outer)
  unfolding balance rotate_left rotate_right
  rotation_double_right k v ck cv outer mk mv ml mr mh other ch far heavy = ground arith

  balance-Mends_right :
      (k : K) (v : V) (l r : Tree K V)
      → IsBalanced l
      → IsBalanced r
      → height r ≡ height l + 2
      → Mends l r (balance (new_node k v l r))
  balance-Mends_right k v other leaf bl br h = absurd (omega arith)
  balance-Mends_right k v other (node ck cv leaf outer ch) bl br h =
      rw (rotation_single_right k v ck cv outer leaf other ch (omega arith) (omega arith)) (
        (new_node-IsBalanced ck cv (new_node k v other leaf) outer (omega arith) (omega arith)
            (new_node-IsBalanced k v other leaf (omega arith) (omega arith) bl br.3) br.4),
        omega arith,
        omega arith,
      )
  balance-Mends_right k v other (node ck cv (node mk mv ml mr mh) outer ch) bl br h =
      elim (dec_lt (height outer) mh) [
        | yes heavy ↦
            rw (rotation_double_right k v ck cv outer mk mv ml mr mh other ch (omega arith) heavy) (
              (new_node-IsBalanced mk mv (new_node k v other ml) (new_node ck cv mr outer)
                  (omega arith) (omega arith)
                  (new_node-IsBalanced k v other ml (omega arith) (omega arith) bl br.3.3)
                  (new_node-IsBalanced ck cv mr outer (omega arith) (omega arith) br.3.4 br.4)),
              omega arith,
              omega arith,
            )
        | no light ↦
            rw
              (rotation_single_right k v ck cv outer (node mk mv ml mr mh) other ch (omega arith)
                (omega arith))
              (
                (new_node-IsBalanced ck cv (new_node k v other (node mk mv ml mr mh)) outer
                    (omega arith) (omega arith)
                    (new_node-IsBalanced k v other (node mk mv ml mr mh) (omega arith) (omega arith)
                      bl br.3)
                    br.4),
                omega arith,
                omega arith,
              )
      ]

  pub balance-even :
      (k : K) (v : V) (l r : Tree K V)
      → height l ≤ height r + 1
      → height r ≤ height l + 1
      → balance (new_node k v l r) ≡ new_node k v l r
  unfolding balance
  balance-even k v l r hl hr = ground arith

  pub balance-Mends :
      (k : K) (v : V) (l r : Tree K V)
      → IsBalanced l
      → IsBalanced r
      → height l ≤ height r + 2
      → height r ≤ height l + 2
      → Mends l r (balance (new_node k v l r))
  balance-Mends k v l r bl br hl hr = elim (dec_lt (height r + 1) (height l)) [
    | yes far ↦ balance-Mends_left k v l r bl br (omega arith)
    | no near ↦ elim (dec_lt (height l + 1) (height r)) [
      | yes far ↦ balance-Mends_right k v l r bl br (omega arith)
      | no close ↦
          rw (balance-even k v l r (omega arith) (omega arith)) (
            new_node-IsBalanced k v l r (omega arith) (omega arith) bl br,
            omega arith,
            omega arith,
          )
    ]
  ]

  -- A tree that took one child's place may be one higher than it.
  abbrev pub Grows : Tree K V → Tree K V → Type 0
  Grows t u = IsBalanced u × (height t ≤ height u) × (height u ≤ height t + 1)

  height-balance_even :
      (k : K) (v : V) (l r : Tree K V)
      → height l ≤ height r + 1
      → height r ≤ height l + 1
      → height (balance (new_node k v l r)) ≡ 1 + max (height l) (height r)
  height-balance_even k v l r hl hr = ap height (balance-even k v l r hl hr)

  pub balance-Grows_left :
      (k : K) (v : V) (l r : Tree K V) (h : ℕ) (j : Tree K V)
      → IsBalanced (node k v l r h)
      → Grows l j
      → Grows (node k v l r h) (balance (new_node k v j r))
  balance-Grows_left k v l r h j b g =
      let m = balance-Mends k v j r g.0 b.4 (omega arith) (omega arith) in
      (m.0, ground (arith, m.2, height-balance_even k v j r), omega (arith, m))

  pub balance-Grows_right :
      (k : K) (v : V) (l r : Tree K V) (h : ℕ) (j : Tree K V)
      → IsBalanced (node k v l r h)
      → Grows r j
      → Grows (node k v l r h) (balance (new_node k v l j))
  balance-Grows_right k v l r h j b g =
      let m = balance-Mends k v l j b.3 g.0 (omega arith) (omega arith) in
      (m.0, ground (arith, m.2, height-balance_even k v l j), omega (arith, m))

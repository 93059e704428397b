-- ===== src/OrderedMap.antt =====
-- ordered_map.rs: the immutable AVL map that committed views share. `Arc` clones leave no trace in
-- a pure model: an update returns the new root, and the old one is still there.
pub mod Contents
pub mod Updates
pub mod Reads
pub mod Ranges
pub mod Balance
pub mod Heights
pub mod Size
pub mod Refinement
pub mod Bounds
mod Tests
use Prim.Native.Nat.Ordering.{lt, eq, gt}
use eve_db.Base.{
  ℕ, zero, suc, ◌+◌, max, Bool, true, false, Option, none, some, List, [], ◌∷◌, ltb, if◌then◌else◌,
}
use eve_db.Base.Order.{Ord, below, at_most}

-- `Link<K, V>`: `leaf` is `None`, and `node` is `Some(Arc<Node>)` with the fields of `Node`.
pub data Tree {ℓ κ} (K : Type ℓ) (V : Type κ) : Type (ℓ ⊔ κ) where
  leaf : Tree K V
  node : K → V → Tree K V → Tree K V → ℕ → Tree K V

-- `std::ops::Bound`
pub data Bound {ℓ} (K : Type ℓ) : Type ℓ where
  included : K → Bound K
  excluded : K → Bound K
  unbounded : Bound K

-- What the iterator reads of the nodes on its stack: key, value and right subtree.
abbrev pub Entry {ℓ κ} : Type ℓ → Type κ → Type (ℓ ⊔ κ)
Entry K V = K × V × Tree K V

-- The head of the list is the top of the stack.
pub record Range {ℓ κ} (K : Type ℓ) (V : Type κ) : Type (ℓ ⊔ κ) where
  pub stack : List (Entry K V)
  pub end : Bound K

module _ {ℓ κ} {K : Type ℓ} {V : Type κ} where
  -- `OrderedMap::new` and `clear`
  abbrev pub empty : Tree K V
  empty = leaf

  pub clear : Tree K V → Tree K V
  clear t = leaf

  abbrev pub height : Tree K V → ℕ
  height leaf = 0
  height (node k v l r h) = h

  -- The function `node`, which caches the height.
  abbrev pub new_node : K → V → Tree K V → Tree K V → Tree K V
  new_node key value left right = node key value left right (1 + max (height left) (height right))

  -- `expect("left rotation")` would panic at the first two clauses: `balance` calls this only
  -- where there is a pivot, whose height is above another height.
  pub rotate_left : Tree K V → Tree K V
  rotate_left leaf = leaf
  rotate_left (node k v l leaf h) = node k v l leaf h
  rotate_left (node k v l (node pk pv pl pr ph) h) = new_node pk pv (new_node k v l pl) pr

  pub rotate_right : Tree K V → Tree K V
  rotate_right leaf = leaf
  rotate_right (node k v leaf r h) = node k v leaf r h
  rotate_right (node k v (node pk pv pl pr ph) r h) = new_node pk pv pl (new_node k v pr r)

  abbrev pub left_of : Tree K V → Tree K V
  left_of leaf = leaf
  left_of (node k v l r h) = l

  abbrev pub right_of : Tree K V → Tree K V
  right_of leaf = leaf
  right_of (node k v l r h) = r

  pub balance : Tree K V → Tree K V
  balance leaf = leaf
  balance (node k v l r h) =
      if ltb (height r + 1) (height l)
      then rotate_right (
          if ltb (height (left_of l)) (height (right_of l))
          then new_node k v (rotate_left l) r
          else node k v l r h)
      else if ltb (height l + 1) (height r)
      then rotate_left (
          if ltb (height (right_of r)) (height (left_of r))
          then new_node k v l (rotate_right r)
          else node k v l r h)
      else node k v l r h

  -- Joins two trees of any heights around an entry.
  pub join : Tree K V → K → V → Tree K V → Tree K V
  join leaf key value leaf = new_node key value leaf leaf
  join leaf key value (node rk rv rl rr rh) = elim (ltb 1 rh) [
    | true ↦ balance (new_node rk rv (join leaf key value rl) rr)
    | false ↦ new_node key value leaf (node rk rv rl rr rh)
  ]
  join (node lk lv ll lr lh) key value leaf = elim (ltb 1 lh) [
    | true ↦ balance (new_node lk lv ll (join lr key value leaf))
    | false ↦ new_node key value (node lk lv ll lr lh) leaf
  ]
  join (node lk lv ll lr lh) key value (node rk rv rl rr rh) = elim (ltb (rh + 1) lh) [
    | true ↦ balance (new_node lk lv ll (join lr key value (node rk rv rl rr rh)))
    | false ↦ elim (ltb (lh + 1) rh) [
      | true ↦ balance (new_node rk rv (join (node lk lv ll lr lh) key value rl) rr)
      | false ↦ new_node key value (node lk lv ll lr lh) (node rk rv rl rr rh)
    ]
  ]

  -- The loop of `remove` that walks to the least entry of the right subtree.
  pub leftmost : K → V → Tree K V → K × V
  leftmost k v leaf = (k, v)
  leftmost k v (node lk lv ll lr lh) = leftmost lk lv ll

  -- The loop of `next` that stacks the left spine of a subtree.
  unfoldable pub push_spine : Tree K V → List (Entry K V) → List (Entry K V)
  push_spine leaf stack = stack
  push_spine (node k v l r h) stack = push_spine l ((k, v, r) ∷ stack)

module _ {ℓ} {K : Type ℓ} ⦃o : Ord K⦄ where
  -- `below` of `range`: does the entry lie before the start?
  abbrev pub before_start : Bound K → K → Bool
  before_start (included s) k = below k s
  before_start (excluded s) k = at_most k s
  before_start unbounded k = false

  -- `beyond` of `next`: does the entry lie after the end?
  abbrev pub beyond_end : Bound K → K → Bool
  beyond_end (included e) k = below e k
  beyond_end (excluded e) k = at_most e k
  beyond_end unbounded k = false

module _ {ℓ κ} {K : Type ℓ} {V : Type κ} ⦃o : Ord K⦄ where
  unfoldable pub get : Tree K V → K → Option V
  get leaf key = none
  get (node k v l r h) key = elim (o.cmp key k) [ lt ↦ get l key | gt ↦ get r key | eq ↦ some v ]

  -- The `result` variable of the loop is the second argument.
  unfoldable pub floor_from : Tree K V → Option (K × V) → K → Option (K × V)
  floor_from leaf result key = result
  floor_from (node k v l r h) result key = elim (at_most k key) [
    | true ↦ floor_from r (some (k, v)) key
    | false ↦ floor_from l result key
  ]

  unfoldable pub floor : Tree K V → K → Option (K × V)
  floor t key = floor_from t none key

  pub insert : Tree K V → K → V → Tree K V
  insert leaf key value = new_node key value leaf leaf
  insert (node k v l r h) key value = balance (elim (o.cmp key k) [
    | lt ↦ new_node k v (insert l key value) r
    | gt ↦ new_node k v l (insert r key value)
    | eq ↦ new_node key value l r
  ])

  pub remove : Tree K V → K → Tree K V
  remove leaf key = leaf
  remove (node k v l r h) key = elim (o.cmp key k) [
    | lt ↦ join (remove l key) k v r
    | gt ↦ join l k v (remove r key)
    | eq ↦ elim r [
      | leaf ↦ l
      | node rk rv rl rr rh ↦
          let (next_key, next_value) = leftmost rk rv rl in
          join l next_key next_value (remove r next_key)
    ]
  ]

  unfoldable pub retain_from : Tree K V → K → Tree K V
  retain_from leaf key = leaf
  retain_from (node k v l r h) key = elim (below k key) [
    | true ↦ retain_from r key
    | false ↦ join (retain_from l key) k v r
  ]

  -- The loop of `range`.
  unfoldable pub range_stack : Tree K V → Bound K → List (Entry K V) → List (Entry K V)
  range_stack leaf start stack = stack
  range_stack (node k v l r h) start stack = elim (before_start start k) [
    | true ↦ range_stack r start stack
    | false ↦ range_stack l start ((k, v, r) ∷ stack)
  ]

  unfoldable pub range : Tree K V → Bound K → Bound K → Range K V
  range t start end = record { stack = range_stack t start []; end = end }

  -- `Iterator::next`: the item, and the iterator after the call.
  unfoldable pub next : Range K V → Option (K × V) × Range K V
  next it = elim it.stack [
    | [] ↦ (none, it)
    | (k, v, r) ∷ stack ↦
        if beyond_end it.end k
        then (none, record it { stack = [] })
        else (some (k, v), record it { stack = push_spine r stack })
  ]

  -- `iter.collect()`, with a bound on the number of calls of `next`.
  unfoldable pub collect : ℕ → Range K V → List (K × V)
  collect zero it = []
  collect (suc fuel) it =
      let (item, rest) = next it in elim item [ none ↦ [] | some e ↦ e ∷ collect fuel rest ]

  -- `contains_key` and `extend`
  pub contains_key : Tree K V → K → Bool
  contains_key t key = elim (get t key) [ none ↦ false | some _ ↦ true ]

  pub extend : Tree K V → List (K × V) → Tree K V
  extend t [] = t
  extend t ((key, value) ∷ items) = extend (insert t key value) items

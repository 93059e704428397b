-- ===== src/OrderedMap/Size.antt =====
-- The height of a balanced tree of ordered_map.rs against the number of its entries.
use native.Mathlib.Decide.{dec_lt}
use native.Mathlib.Nat.{pow-suc, le_of_eq}
use eve_db.Base.{ℕ, zero, suc, ◌+◌, ◌^◌, ◌*◌, ◌≤◌, ◌≡◌, ap, max, arith, length, length-append, ◌∷◌}
use eve_db.OrderedMap.{Tree, leaf, node, height}
use eve_db.OrderedMap.Contents.{to_list}
use eve_db.OrderedMap.Balance.{IsBalanced}

-- The least number of entries, plus one, of a balanced tree of some height.
least : ℕ → ℕ
least zero = 1
least (suc zero) = 2
least (suc (suc h)) = least (suc h) + least h

least_step : (h : ℕ) → least h ≤ least (suc h)
unfolding least
least_step zero = omega arith
least_step (suc h) = omega arith

least_twice : (h : ℕ) → least (suc h) ≤ least h + least h
unfolding least
least_twice zero = omega arith
least_twice (suc h) = omega (arith, least_step h)

least_mono : (a b : ℕ) → a ≤ b → least a ≤ least b
least_mono a zero h = le_of_eq (ap least (omega arith))
least_mono a (suc b) h = elim (dec_lt b a) [
  | yes above ↦ le_of_eq (ap least (omega arith))
  | no below ↦ omega (arith, least_mono a b (omega arith), least_step b)
]

twice : ℕ → ℕ
twice zero = zero
twice (suc h) = suc (suc (twice h))

twice-eq : (h : ℕ) → twice h ≡ 2 * h
unfolding twice
twice-eq zero = omega arith
twice-eq (suc h) = omega (arith, twice-eq h)

-- Two levels more double it.
pow-le-least : (h : ℕ) → 2 ^ h ≤ least (twice h)
unfolding least twice
pow-le-least zero = omega arith
pow-le-least (suc h) = omega (arith, pow-le-least h, pow-suc 2 h, least_step (twice h))

level : (a h : ℕ) → h ≡ 1 + a → h ≡ suc a
level a h e = omega arith

level_eq : (a b : ℕ) → a ≤ b → b ≤ a → b ≡ a
level_eq a b h k = omega arith

sibling_step : (a b h : ℕ) → b ≡ suc a → h ≡ suc b → least h ≤ least a + least b
unfolding least
sibling_step a b h p q = rw (q, p) (omega arith)

least_siblings : (a b h : ℕ) → h ≡ 1 + max a b → a ≤ b + 1 → b ≤ a + 1 → least h ≤ least a + least b
least_siblings a b h e p q = elim (dec_lt a b) [
  | yes less ↦ omega (arith, sibling_step a b h (omega arith) (omega arith))
  | no more ↦ elim (dec_lt b a) [
    | yes less ↦ omega (arith, sibling_step b a h (omega arith) (omega arith))
    | no same ↦ omega (
      arith,
      least_twice a,
      ap least (level a h (omega arith)),
      ap least (level_eq a b (omega arith) (omega arith)),
    )
  ]
]

module _ {ℓ κ} {K : Type ℓ} {V : Type κ} where
  least-le-length : (t : Tree K V) → IsBalanced t → least (height t) ≤ length (to_list t) + 1
  unfolding least
  least-le-length leaf b = omega arith
  least-le-length (node k v l r h) b = omega (
    arith,
    length-append (to_list l) ((k, v) ∷ to_list r),
    least-le-length l b.3,
    least-le-length r b.4,
    least_siblings (height l) (height r) h b.0 b.1 b.2,
  )

  -- A balanced tree of height 2 h or more holds 2 ^ h - 1 entries or more.
  pub pow-le-length :
      (t : Tree K V) (h : ℕ) → IsBalanced t → 2 * h ≤ height t → 2 ^ h ≤ length (to_list t) + 1
  pow-le-length t h b p = omega (
    arith,
    pow-le-least h,
    least_mono (twice h) (height t) (omega (arith, twice-eq h)),
    least-le-length t b,
  )

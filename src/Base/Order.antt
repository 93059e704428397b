-- ===== src/Base/Order.antt =====
-- The bound `K: Ord` of the keys, with the laws that the trait's documentation asks of `cmp`.
use Prim.Native.Nat.{ℕ, compare, Ordering}
use Prim.Native.Nat.Ordering.{lt, eq, gt}
use mathlib.Core.Path.{◌≡◌}
use mathlib.Core.Bool.{Bool, true, false}
use native.Mathlib.Omega.{arith}

-- `Ordering::reverse`
abbrev pub flip : Ordering → Ordering
flip lt = gt
flip eq = eq
flip gt = lt

-- `Ordering::then`, by which tuples compare
abbrev pub and_then : Ordering → Ordering → Ordering
and_then eq second = second
and_then first _ = first

pub record Ord {ℓ} (K : Type ℓ) : Type ℓ where
  pub cmp : K → K → Ordering
  pub eq_of_cmp : (a b : K) → cmp a b ≡ eq → a ≡ b
  pub cmp_self : (a : K) → cmp a a ≡ eq
  pub cmp_flip : (a b : K) → cmp b a ≡ flip (cmp a b)
  pub lt_trans : (a b c : K) → cmp a b ≡ lt → cmp b c ≡ lt → cmp a c ≡ lt

module _ {ℓ} {K : Type ℓ} ⦃o : Ord K⦄ where
  infix 50 ◌≺◌
  abbrev pub ◌≺◌ : K → K → Type 0
  a ≺ b = o.cmp a b ≡ lt

  -- `a < b` and `a <= b` on keys
  abbrev pub below : K → K → Bool
  below a b = elim (o.cmp a b) [ lt ↦ true | _ ↦ false ]

  abbrev pub at_most : K → K → Bool
  at_most a b = elim (o.cmp a b) [ gt ↦ false | _ ↦ true ]

  abbrev pub same : K → K → Bool
  same a b = elim (o.cmp a b) [ eq ↦ true | _ ↦ false ]

  pub same_self : (a : K) → same a a ≡ true
  same_self a = ground (arith, o.cmp_self a)

  pub same-eq : (a b : K) → same a b ≡ true → a ≡ b
  same-eq a b h = ground (arith, h, o.eq_of_cmp a b)

  pub below-same : (a b : K) → below a b ≡ true → same b a ≡ false
  below-same a b h = ground (arith, h, o.cmp_flip a b)

  pub same_sym : (a b : K) → same b a ≡ same a b
  same_sym a b = ground (arith, o.cmp_flip a b)

  pub not_below : (a b : K) → below a b ≡ false → same a b ≡ false → b ≺ a
  not_below a b h k = ground (arith, h, k, o.cmp_flip a b)

  pub below-at_most : (a b : K) → below a b ≡ true → at_most a b ≡ true
  below-at_most a b h = ground (arith, h)

  pub below_trans : (a b c : K) → a ≺ b → below b c ≡ true → below a c ≡ true
  below_trans a b c h k = ground (arith, h, k, o.lt_trans a b c)

  pub above-below : (a b : K) → a ≺ b → below a b ≡ true
  above-below a b h = ground (arith, h)

  pub not_at_most : (a b : K) → at_most a b ≡ false → b ≺ a
  not_at_most a b h = ground (arith, h, o.cmp_flip a b)

  pub lt_of_at_most : (a b c : K) → a ≺ b → at_most b c ≡ true → a ≺ c
  lt_of_at_most a b c h k = ground (arith, h, k, o.lt_trans a b c, o.eq_of_cmp b c)

  pub above-at_most : (a b : K) → a ≺ b → at_most b a ≡ false
  above-at_most a b h = ground (arith, h, o.cmp_flip a b)

  pub not_below-at_most : (a b : K) → below a b ≡ false → at_most a b ≡ same a b
  not_below-at_most a b h = ground (arith, h)

pub nat-eq_of_cmp : (a b : ℕ) → compare a b ≡ eq → a ≡ b
nat-eq_of_cmp a b h = ground arith

pub nat-cmp_self : (a : ℕ) → compare a a ≡ eq
nat-cmp_self a = ground arith

pub nat-cmp_flip : (a b : ℕ) → compare b a ≡ flip (compare a b)
nat-cmp_flip a b = ground arith

pub nat-lt_trans : (a b c : ℕ) → compare a b ≡ lt → compare b c ≡ lt → compare a c ≡ lt
nat-lt_trans a b c h k = ground arith

instance unfoldable pub nat_ord : Ord ℕ
nat_ord = record {
  cmp = compare;
  eq_of_cmp = nat-eq_of_cmp;
  cmp_self = nat-cmp_self;
  cmp_flip = nat-cmp_flip;
  lt_trans = nat-lt_trans;
}

module _ {ℓ κ} {A : Type ℓ} {B : Type κ} ⦃a : Ord A⦄ ⦃b : Ord B⦄ where
  abbrev pub lex : A × B → A × B → Ordering
  lex x y = and_then (a.cmp x.0 y.0) (b.cmp x.1 y.1)

  pub lex-eq_of_cmp : (x y : A × B) → lex x y ≡ eq → x ≡ y
  lex-eq_of_cmp x y h = ground (arith, a.eq_of_cmp x.0 y.0, b.eq_of_cmp x.1 y.1)

  pub lex-cmp_self : (x : A × B) → lex x x ≡ eq
  lex-cmp_self x = simp (a.cmp_self, b.cmp_self)

  pub lex-cmp_flip : (x y : A × B) → lex y x ≡ flip (lex x y)
  lex-cmp_flip x y = ground (arith, a.cmp_flip x.0 y.0, b.cmp_flip x.1 y.1)

  pub lex-lt_trans : (x y z : A × B) → lex x y ≡ lt → lex y z ≡ lt → lex x z ≡ lt
  lex-lt_trans x y z h k = ground (
    arith,
    a.eq_of_cmp x.0 y.0,
    a.eq_of_cmp y.0 z.0,
    a.cmp_self x.0,
    a.lt_trans x.0 y.0 z.0,
    b.lt_trans x.1 y.1 z.1,
  )

  -- Tuples compare lexicographically: the keys `(table, entity)` of the overlay.
  instance unfoldable pub pair_ord : Ord (A × B)
  pair_ord = record {
    cmp = lex;
    eq_of_cmp = lex-eq_of_cmp;
    cmp_self = lex-cmp_self;
    cmp_flip = lex-cmp_flip;
    lt_trans = lex-lt_trans;
  }

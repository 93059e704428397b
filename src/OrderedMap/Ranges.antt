-- ===== src/OrderedMap/Ranges.antt =====
-- The range iterator of ordered_map.rs.
use eve_db.Base.{
  ℕ, zero, suc, ◌≤◌, ◌<◌, ◌≡◌, refl, ap, ◌∙◌, sym, Bool, true, false, not, ◌&&◌, List, [], ◌∷◌,
  ◌++◌, arith, length, All-imp, keep, keep-append,
}
use mathlib.Core.Path.{ap₂}
use mathlib.Core.List.{append_assoc, append-nil}
use eve_db.Base.Order.{Ord, ◌≺◌, below, at_most}
use eve_db.OrderedMap.{
  Tree, leaf, node, Entry, Bound, included, excluded, unbounded, push_spine, before_start,
  beyond_end, range_stack, range, next, collect,
}
use eve_db.Base.Assoc.{Above, Below, IsSorted, IsSorted-split, keep-All, keep-none, keep-IsSorted}
use eve_db.OrderedMap.Contents.{to_list, IsOrdered}

module _ {ℓ κ} {K : Type ℓ} {V : Type κ} where
  -- The entries that the iterator has not reached.
  abbrev pub remaining : List (Entry K V) → List (K × V)
  remaining [] = []
  remaining ((k, v, r) ∷ stack) = (k, v) ∷ (to_list r ++ remaining stack)

  remaining-push_spine :
      (t : Tree K V) (stack : List (Entry K V))
      → remaining (push_spine t stack) ≡ to_list t ++ remaining stack
  unfolding push_spine
  remaining-push_spine leaf stack = refl
  remaining-push_spine (node k v l r h) stack =
      remaining-push_spine l ((k, v, r) ∷ stack)
      ∙ sym (append_assoc (to_list l) ((k, v) ∷ to_list r) (remaining stack))

  keep_ext :
      (p q : K × V → Bool) (es : List (K × V)) → ((e : K × V) → p e ≡ q e) → keep p es ≡ keep q es
  keep_ext p q [] h = refl
  keep_ext p q (e ∷ es) h = ground (arith, h e, keep_ext p q es h)

  length-keep-le : (p : K × V → Bool) (es : List (K × V)) → length (keep p es) ≤ length es
  length-keep-le p [] = omega arith
  length-keep-le p (e ∷ es) = ground (arith, length-keep-le p es)

  keep-keep :
      (p q : K × V → Bool) (es : List (K × V)) → keep p (keep q es) ≡ keep (λ e. q e && p e) es
  keep-keep p q [] = refl
  keep-keep p q (e ∷ es) = ground (arith, keep-keep p q es)

module _ {ℓ} {K : Type ℓ} ⦃o : Ord K⦄ where
  -- `RangeBounds::contains`: the keys that lie between two bounds.
  abbrev pub from_start : Bound K → K → Bool
  from_start (included s) k = at_most s k
  from_start (excluded s) k = below s k
  from_start unbounded k = true

  abbrev pub to_end : Bound K → K → Bool
  to_end (included e) k = at_most k e
  to_end (excluded e) k = below k e
  to_end unbounded k = true

  abbrev pub contains : Bound K → Bound K → K → Bool
  contains start end k = from_start start k && to_end end k

  from_start-eq : (start : Bound K) (k : K) → not (before_start start k) ≡ from_start start k
  from_start-eq (included s) k = ground (arith, o.cmp_flip k s)
  from_start-eq (excluded s) k = ground (arith, o.cmp_flip k s)
  from_start-eq unbounded k = refl

  to_end-eq : (end : Bound K) (k : K) → not (beyond_end end k) ≡ to_end end k
  to_end-eq (included e) k = ground (arith, o.cmp_flip e k)
  to_end-eq (excluded e) k = ground (arith, o.cmp_flip e k)
  to_end-eq unbounded k = refl

  before_start-below :
      (start : Bound K) (j k : K)
      → j ≺ k
      → before_start start k ≡ true
      → before_start start j ≡ true
  before_start-below (included s) j k h b = ground (arith, o.lt_trans j k s)
  before_start-below (excluded s) j k h b = ground (arith, o.lt_trans j k s, o.eq_of_cmp k s)
  before_start-below unbounded j k h b = cc

  beyond_end-above :
      (end : Bound K) (j k : K) → j ≺ k → beyond_end end j ≡ true → beyond_end end k ≡ true
  beyond_end-above (included e) j k h b = ground (arith, o.lt_trans e j k)
  beyond_end-above (excluded e) j k h b = ground (arith, o.lt_trans e j k, o.eq_of_cmp e j)
  beyond_end-above unbounded j k h b = cc

module _ {ℓ κ} {K : Type ℓ} {V : Type κ} ⦃o : Ord K⦄ where
  abbrev after_start : Bound K → K × V → Bool
  after_start start e = not (before_start start e.0)

  abbrev until_end : Bound K → K × V → Bool
  until_end end e = not (beyond_end end e.0)

  keep-after_start-Below :
      (start : Bound K) (k : K) (es : List (K × V))
      → Below k es
      → before_start start k ≡ true
      → keep (after_start start) es ≡ []
  keep-after_start-Below start k es b h =
      keep-none _ es (All-imp (λ e p. ap not (before_start-below start e.0 k p h)) es b)

  keep-after_start-Above :
      (start : Bound K) (k : K) (es : List (K × V))
      → Above k es
      → before_start start k ≡ false
      → keep (after_start start) es ≡ es
  keep-after_start-Above start k es a h =
      keep-All _ es (All-imp (λ e p. ground (arith, before_start-below start k e.0 p)) es a)

  keep-until_end-Above :
      (end : Bound K) (k : K) (es : List (K × V))
      → Above k es
      → beyond_end end k ≡ true
      → keep (until_end end) es ≡ []
  keep-until_end-Above end k es a h =
      keep-none _ es (All-imp (λ e p. ap not (beyond_end-above end k e.0 p h)) es a)

  remaining-range_stack :
      (t : Tree K V) (start : Bound K) (stack : List (Entry K V))
      → IsOrdered t
      → remaining (range_stack t start stack)
        ≡ keep (after_start start) (to_list t) ++ remaining stack
  unfolding range_stack
  remaining-range_stack leaf start stack s = refl
  remaining-range_stack (node k v l r h) start stack s =
      let (sl, b, a, sr) = IsSorted-split (to_list l) k v (to_list r) s in
      ground (
        arith,
        remaining-range_stack r start stack sr,
        remaining-range_stack l start ((k, v, r) ∷ stack) sl,
        keep-append (after_start start) (to_list l) ((k, v) ∷ to_list r),
        keep-after_start-Below start k (to_list l) b,
        keep-after_start-Above start k (to_list r) a,
        append_assoc (keep (after_start start) (to_list l)) ((k, v) ∷ to_list r) (remaining stack),
      )

  IsSorted-append_right : (xs ys : List (K × V)) → IsSorted (xs ++ ys) → IsSorted ys
  IsSorted-append_right [] ys s = s
  IsSorted-append_right (x ∷ xs) ys s = IsSorted-append_right xs ys s.1

  -- With fuel for the entries left, the iterator yields those up to the end, and stops.
  collect-remaining :
      (fuel : ℕ) (stack : List (Entry K V)) (end : Bound K)
      → length (remaining stack) < fuel
      → IsSorted (remaining stack)
      → collect fuel (record { stack = stack; end = end }) ≡ keep (until_end end) (remaining stack)
  unfolding collect next
  collect-remaining zero stack end h s = absurd (omega arith)
  collect-remaining (suc fuel) [] end h s = refl
  collect-remaining (suc fuel) ((k, v, r) ∷ stack) end h s =
      let e = remaining-push_spine r stack in
      ground (
        arith,
        e,
        ap length e,
        keep-until_end-Above end k (to_list r ++ remaining stack) s.0,
        collect-remaining fuel (push_spine r stack) end (omega (arith, ap length e)) (rw e s.1),
      )

  -- In a search tree, a range holds exactly the entries within its bounds, in key order, and
  -- needs one call more than there are entries to end.
  pub collect-range :
      (t : Tree K V) (start end : Bound K) (fuel : ℕ)
      → IsOrdered t
      → length (to_list t) < fuel
      → collect fuel (range t start end) ≡ keep (λ e. contains start end e.0) (to_list t)
  unfolding range
  collect-range t start end fuel s h =
      let e = remaining-range_stack t start [] s ∙ append-nil _ in
      collect-remaining fuel (range_stack t start []) end
        (omega (arith, ap length e, length-keep-le (after_start start) (to_list t)))
        (rw e (keep-IsSorted _ (to_list t) s))
      ∙ rw e (keep-keep (until_end end) (after_start start) (to_list t))
      ∙ keep_ext _ _ (to_list t) (λ x. ap₂ ◌&&◌ (from_start-eq start x.0) (to_end-eq end x.0))

-- ===== src/Overlay/Counts.antt =====
-- The counts of the roots of overlay.rs.
use mathlib.Core.Path.{subst}
use eve_db.Base.{
  ℕ, ◌+◌, ◌-◌, ◌<◌, ◌≤◌, ◌≡◌, ◌≢◌, refl, sym, ap, ◌∙◌, Bool, true, false, Option, none, some, List,
  [], ◌∷◌, ◌==◌, arith, if◌then◌else◌, Bool-cases, inl, inr,
}
use eve_db.Base.Order.{nat_ord, pair_ord, Ord}
use eve_db.Base.Assoc.{lookup, upsert, IsSorted, Above, Above-trans, lookup-Above}
use Prim.Native.Nat.Ordering.{lt}
use eve_db.OrderedMap
use eve_db.OrderedMap.{Tree, get, remove}
use eve_db.OrderedMap.Contents.{to_list, IsOrdered}
use eve_db.OrderedMap.Reads.{get-eq-lookup, get-insert, get-remove}
use eve_db.OrderedMap.Updates.{to_list-insert, insert-IsOrdered, remove-IsOrdered}
use eve_db.Overlay.{
  Root, Overlay, same_generation, generation_of, root_at, less, release, counted, acquire, insert,
}

abbrev stored : Option (Root × ℕ × ℕ) → ℕ
stored none = 0
stored (some (root, count, bytes)) = count

abbrev pub reads : ℕ → Option Root → ℕ
reads g none = 0
reads g (some root) = if root.generation == g then 1 else 0

-- The counts of the roots are these numbers, and a root with no reader is not there.
pub record AreCounts (roots : Tree ℕ (Root × ℕ × ℕ)) (n : ℕ → ℕ) : Type 0 where
  pub ordered : IsOrdered roots
  pub exact : (g : ℕ) → stored (get roots g) ≡ n g
  pub positive : (g : ℕ) (root : Root) (bytes : ℕ) → get roots g ≢ some (root, 0, bytes)

stored-get-insert :
    (roots : Tree ℕ (Root × ℕ × ℕ)) (g count bytes : ℕ) (root : Root) (j : ℕ)
    → IsOrdered roots
    → stored (get (OrderedMap.insert roots g (root, count, bytes)) j)
      ≡ (if g == j then count else stored (get roots j))
unfolding nat_ord
stored-get-insert roots g count bytes root j s =
    ground (arith, get-insert roots g (root, count, bytes) j s)

stored-get-remove :
    (roots : Tree ℕ (Root × ℕ × ℕ)) (g j : ℕ)
    → IsOrdered roots
    → stored (get (remove roots g) j) ≡ (if g == j then 0 else stored (get roots j))
unfolding nat_ord
stored-get-remove roots g j s = ground (arith, get-remove roots g j s)

insert-AreCounts :
    (roots : Tree ℕ (Root × ℕ × ℕ)) (n : ℕ → ℕ) (root : Root) (g count bytes : ℕ)
    → AreCounts roots n
    → 0 < count
    → AreCounts
        (OrderedMap.insert roots g (root, count, bytes))
        (λ j. if g == j then count else n j)
unfolding nat_ord
insert-AreCounts roots n root g count bytes c p = record {
  ordered = insert-IsOrdered roots g (root, count, bytes) c.ordered;
  exact = λ j. ground (arith, stored-get-insert roots g count bytes root j c.ordered, c.exact j);
  positive = λ j other b h.
      ground
        (arith, get-insert roots g (root, count, bytes) j c.ordered, c.positive j other b, h, p);
}

remove-AreCounts :
    (roots : Tree ℕ (Root × ℕ × ℕ)) (n : ℕ → ℕ) (g : ℕ)
    → AreCounts roots n
    → AreCounts (remove roots g) (λ j. if g == j then 0 else n j)
unfolding nat_ord
remove-AreCounts roots n g c = record {
  ordered = remove-IsOrdered roots g c.ordered;
  exact = λ j. ground (arith, stored-get-remove roots g j c.ordered, c.exact j);
  positive = λ j other b h. ground (arith, get-remove roots g j c.ordered, c.positive j other b, h);
}

-- Numbers that agree.
AreCounts-ext :
    (roots : Tree ℕ (Root × ℕ × ℕ)) (n m : ℕ → ℕ)
    → ((g : ℕ) → n g ≡ m g)
    → AreCounts roots n
    → AreCounts roots m
AreCounts-ext roots n m e c = record {
  ordered = c.ordered;
  exact = λ g. c.exact g ∙ e g;
  positive = c.positive;
}

module _ {ℓ κ} {K : Type ℓ} {V : Type κ} ⦃o : Ord K⦄ (root_of : V → Option Root) where
  -- How many entries read the root of a generation.
  abbrev pub readers : ℕ → List (K × V) → ℕ
  readers g [] = 0
  readers g (e ∷ es) = reads g (root_of e.1) + readers g es

  lookup-before :
      (key k : K) (es : List (K × V)) → o.cmp key k ≡ lt → Above k es → lookup key es ≡ none
  lookup-before key k es h a = lookup-Above es key (Above-trans key k es h a)

  -- A value that is put in place of another.
  readers-upsert :
      (g : ℕ) (key : K) (value : V) (es : List (K × V))
      → IsSorted es
      → readers g (upsert key value es) + reads g (root_at root_of (lookup key es))
        ≡ readers g es + reads g (root_of value)
  unfolding upsert lookup
  readers-upsert g key value [] s = omega arith
  readers-upsert g key value ((k, v) ∷ es) s =
      let before : o.cmp key k ≡ lt → lookup key es ≡ none = λ h. lookup-before key k es h s.0 in
      ground (arith, readers-upsert g key value es s.1, before)

  -- An entry is among the readers of its root.
  lookup-readers :
      (g : ℕ) (key : K) (es : List (K × V))
      → reads g (root_at root_of (lookup key es)) ≤ readers g es
  unfolding lookup
  lookup-readers g key [] = omega arith
  lookup-readers g key ((k, v) ∷ es) = ground (arith, lookup-readers g key es)

module _ {ℓ} {V : Type ℓ} (root_of : V → Option Root) where
  less-AreCounts :
      (self : Overlay V) (n : ℕ → ℕ) (root : Root) (found : Option (Root × ℕ × ℕ))
      → AreCounts self.roots n
      → get self.roots root.generation ≡ found
      → 0 < n root.generation
      → AreCounts (less root_of root.generation found self).roots (λ g. n g - reads g (some root))
  less-AreCounts self n root none c e p = absurd (ground (arith, c.exact root.generation, e, p))
  less-AreCounts self n root (some (old, count, bytes)) c e p =
      let here : count ≡ n root.generation = ap stored (sym e) ∙ c.exact root.generation in
      elim (Bool-cases (count == 1)) [
        | inl y ↦
            rw (y, if◌then◌else◌)
              (AreCounts-ext _ _ _ (λ g. ground (arith, here, y))
                (remove-AreCounts self.roots n root.generation c))
        | inr x ↦
            rw (x, if◌then◌else◌)
              (AreCounts-ext _ _ _ (λ g. ground (arith, here, x))
                (insert-AreCounts self.roots n old root.generation (count - 1) bytes c
                  (ground (arith, here, x, p))))
      ]

  pub release-AreCounts :
      (self : Overlay V) (n : ℕ → ℕ) (out : Option Root)
      → AreCounts self.roots n
      → ((g : ℕ) → reads g out ≤ n g)
      → AreCounts (release root_of out self).roots (λ g. n g - reads g out)
  unfolding release
  release-AreCounts self n none c p = AreCounts-ext _ _ _ (λ g. omega arith) c
  release-AreCounts self n (some root) c p =
      less-AreCounts self n root _ c refl (ground (arith, p root.generation))

  counted-stored :
      (root : Root) (found : Option (Root × ℕ × ℕ)) → (counted root_of root found).0 ≡ stored found
  counted-stored root none = refl
  counted-stored root (some (old, count, bytes)) = refl

  acquire-AreCounts :
      (self : Overlay V) (n : ℕ → ℕ) (joined : Option Root)
      → AreCounts self.roots n
      → AreCounts (acquire root_of joined self).roots (λ g. n g + reads g joined)
  unfolding acquire
  acquire-AreCounts self n none c = AreCounts-ext _ _ _ (λ g. omega arith) c
  acquire-AreCounts self n (some root) c =
      let found = get self.roots root.generation in
      let here : (counted root_of root found).0 ≡ n root.generation =
        counted-stored root found ∙ c.exact root.generation in
      AreCounts-ext _ _ _ (λ g. ground (arith, here))
        (insert-AreCounts self.roots n root root.generation _ _ c (omega arith))

  same_generation-reads :
      (g : ℕ) (a b : Option Root)
      → same_generation (generation_of a) (generation_of b) ≡ true
      → reads g a ≡ reads g b
  same_generation-reads g none none h = refl
  same_generation-reads g (some a) (some b) h = ground (arith, h)
  same_generation-reads g none (some b) h = absurd (ground arith)
  same_generation-reads g (some a) none h = absurd (ground arith)

  -- The overlay is in order: its roots are counted by the entries that read them.
  pub record IsCounted (self : Overlay V) : Type ℓ where
    pub entries_ordered : IsOrdered self.entries
    pub counted_roots : AreCounts self.roots (λ g. readers root_of g (to_list self.entries))

  moved-AreCounts :
      (self : Overlay V) (previous next : Option Root) (n m : ℕ → ℕ)
      → AreCounts self.roots n
      → ((g : ℕ) → m g + reads g previous ≡ n g + reads g next)
      → ((g : ℕ) → reads g previous ≤ n g)
      → AreCounts
          (if same_generation (generation_of previous) (generation_of next)
            then self
            else acquire root_of next (release root_of previous self)).roots
          m
  moved-AreCounts self previous next n m c e p =
      elim (Bool-cases (same_generation (generation_of previous) (generation_of next))) [
        | inl y ↦
            rw (y, if◌then◌else◌)
              (AreCounts-ext _ _ _
                (λ g. omega (arith, e g, same_generation-reads g previous next y)) c)
        | inr x ↦
            rw (x, if◌then◌else◌)
              (AreCounts-ext _ _ _ (λ g. omega (arith, e g, p g))
                (acquire-AreCounts (release root_of previous self) _ next
                  (release-AreCounts self n previous c p)))
      ]

  less-entries :
      (self : Overlay V) (g : ℕ) (found : Option (Root × ℕ × ℕ))
      → (less root_of g found self).entries ≡ self.entries
  less-entries self g none = refl
  less-entries self g (some (old, count, bytes)) = ground arith

  release-entries :
      (self : Overlay V) (out : Option Root) → (release root_of out self).entries ≡ self.entries
  unfolding release
  release-entries self none = refl
  release-entries self (some root) =
      less-entries self root.generation (get self.roots root.generation)

  acquire-entries :
      (self : Overlay V) (joined : Option Root)
      → (acquire root_of joined self).entries ≡ self.entries
  unfolding acquire
  acquire-entries self none = refl
  acquire-entries self (some root) = refl

  moved-entries :
      (self : Overlay V) (previous next : Option Root) (b : Bool)
      → (if b then self else acquire root_of next (release root_of previous self)).entries
        ≡ self.entries
  moved-entries self previous next true = refl
  moved-entries self previous next false =
      acquire-entries (release root_of previous self) next ∙ release-entries self previous

  -- The readers before and after an insertion.
  pub readers-insert :
      (t : Tree (ℕ × ℕ) V) (key : ℕ × ℕ) (value : V) (g : ℕ)
      → IsOrdered t
      → (readers root_of g (to_list (OrderedMap.insert t key value))
            + reads g (root_at root_of (get t key))
          ≡ readers root_of g (to_list t) + reads g (root_of value))
        × (reads g (root_at root_of (get t key)) ≤ readers root_of g (to_list t))
  readers-insert t key value g s = (
    rw (to_list-insert t key value s, get-eq-lookup t key s)
        (readers-upsert root_of g key value (to_list t) s),
    rw (get-eq-lookup t key s) (lookup-readers root_of g key (to_list t)),
  )

  pub insert-entries :
      (self : Overlay V) (key : ℕ × ℕ) (value : V)
      → (insert root_of key value self).entries ≡ OrderedMap.insert self.entries key value
  unfolding insert
  insert-entries self key value =
      let previous = root_at root_of (get self.entries key) in
      ap (λ es. OrderedMap.insert es key value)
        (moved-entries self previous (root_of value)
          (same_generation (generation_of previous) (generation_of (root_of value))))

  -- An insertion keeps the overlay in order: the entries and the roots are maps, each root is counted
  -- by the entries that read it, and a root that no entry reads is not there. The overlay is in order before.
  pub insert-IsCounted :
      (self : Overlay V) (key : ℕ × ℕ) (value : V)
      → IsCounted self
      → IsCounted (insert root_of key value self)
  unfolding insert
  insert-IsCounted self key value c =
      let previous = root_at root_of (get self.entries key) in
      let kept =
        moved-entries self previous (root_of value)
          (same_generation (generation_of previous) (generation_of (root_of value))) in
      record {
        entries_ordered =
            subst (λ t. IsOrdered (OrderedMap.insert t key value)) (sym kept)
              (insert-IsOrdered self.entries key value c.entries_ordered);
        counted_roots =
            moved-AreCounts self previous (root_of value) _ _ c.counted_roots
              (λ g.
                ap
                  (λ t.
                    readers root_of g (to_list (OrderedMap.insert t key value)) + reads g previous)
                  kept
                ∙ (readers-insert self.entries key value g c.entries_ordered).0)
              (λ g. (readers-insert self.entries key value g c.entries_ordered).1);
      }

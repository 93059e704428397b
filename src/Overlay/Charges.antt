-- ===== src/Overlay/Charges.antt =====
-- The bytes that the roots of overlay.rs are charged.
use eve_db.Base.{
  ℕ, ◌+◌, ◌-◌, ◌^◌, ◌<◌, ◌≤◌, ◌≡◌, refl, Option, none, some, List, [], ◌∷◌, ◌==◌, arith,
  if◌then◌else◌, Bool-cases, inl, inr,
}
use eve_db.Base.Order.{nat_ord, pair_ord}
use eve_db.Base.Assoc.{lookup, upsert, erase, IsSorted, Above-trans, lookup-Above}
use eve_db.OrderedMap
use eve_db.OrderedMap.{Tree, get, remove}
use eve_db.OrderedMap.Contents.{to_list, IsOrdered}
use eve_db.OrderedMap.Reads.{get-eq-lookup}
use eve_db.OrderedMap.Updates.{to_list-insert, to_list-remove}
use eve_db.Overlay.{
  Root, Overlay, same_generation, generation_of, less, release, acquire, insert, sum_sizes,
}
use eve_db.Overlay.Counts.{IsCounted, AreCounts, release-AreCounts, readers-insert}

abbrev charge : Option (Root × ℕ × ℕ) → ℕ
charge none = 0
charge (some (root, count, bytes)) = bytes

-- What the roots are charged together.
abbrev pub charges : List (ℕ × (Root × ℕ × ℕ)) → ℕ
charges [] = 0
charges (e ∷ es) = charge (some e.1) + charges es

charges-upsert :
    (g : ℕ) (v : Root × ℕ × ℕ) (es : List (ℕ × (Root × ℕ × ℕ)))
    → IsSorted es
    → charges (upsert g v es) + charge (lookup g es) ≡ charges es + charge (some v)
unfolding upsert lookup nat_ord
charges-upsert g v [] s = omega arith
charges-upsert g v ((k, w) ∷ es) s =
    let before : g < k → lookup g es ≡ none =
      λ h. lookup-Above es g (Above-trans g k es (ground (arith, h)) s.0) in
    ground (arith, charges-upsert g v es s.1, before)

charges-erase :
    (g : ℕ) (es : List (ℕ × (Root × ℕ × ℕ)))
    → IsSorted es
    → charges (erase g es) + charge (lookup g es) ≡ charges es
unfolding lookup nat_ord
charges-erase g [] s = omega arith
charges-erase g ((k, w) ∷ es) s =
    let after : g ≡ k → lookup g es ≡ none = λ h. lookup-Above es g (ground (arith, h, s.0)) in
    ground (arith, charges-erase g es s.1, after)

charges-insert :
    (roots : Tree ℕ (Root × ℕ × ℕ)) (g : ℕ) (v : Root × ℕ × ℕ)
    → IsOrdered roots
    → charges (to_list (OrderedMap.insert roots g v)) + charge (get roots g)
      ≡ charges (to_list roots) + charge (some v)
charges-insert roots g v s =
    rw (to_list-insert roots g v s, get-eq-lookup roots g s) (charges-upsert g v (to_list roots) s)

charges-remove :
    (roots : Tree ℕ (Root × ℕ × ℕ)) (g : ℕ)
    → IsOrdered roots
    → charges (to_list (remove roots g)) + charge (get roots g) ≡ charges (to_list roots)
charges-remove roots g s =
    rw (to_list-remove roots g s, get-eq-lookup roots g s) (charges-erase g (to_list roots) s)

-- What a new root is charged.
abbrev pub size_of : Option Root → ℕ
size_of none = 0
size_of (some root) = sum_sizes 0 root.file_sizes

module _ {ℓ} {V : Type ℓ} (root_of : V → Option Root) where
  -- The bytes of the overlay are what its roots are charged.
  abbrev pub IsCharged : Overlay V → Type 0
  IsCharged self = self.bytes ≡ charges (to_list self.roots)

  less-IsCharged :
      (self : Overlay V) (g : ℕ) (found : Option (Root × ℕ × ℕ))
      → IsOrdered self.roots
      → get self.roots g ≡ found
      → self.bytes < 2 ^ 64
      → IsCharged self
      → IsCharged (less root_of g found self) × ((less root_of g found self).bytes ≤ self.bytes)
  less-IsCharged self g none s e p c = (c, omega arith)
  less-IsCharged self g (some (old, count, bytes)) s e p c = elim (Bool-cases (count == 1)) [
    | inl y ↦
        rw (y, if◌then◌else◌)
          (let removed = charges-remove self.roots g s in ground (arith, removed, e, c, p))
    | inr x ↦
        rw (x, if◌then◌else◌)
          (let put = charges-insert self.roots g (old, count - 1, bytes) s in
            ground (arith, put, e, c))
  ]

  release-IsCharged :
      (self : Overlay V) (out : Option Root)
      → IsOrdered self.roots
      → self.bytes < 2 ^ 64
      → IsCharged self
      → IsCharged (release root_of out self) × ((release root_of out self).bytes ≤ self.bytes)
  unfolding release
  release-IsCharged self none s p c = (c, omega arith)
  release-IsCharged self (some root) s p c = less-IsCharged self root.generation _ s refl p c

  joined-IsCharged :
      (self : Overlay V) (n : ℕ → ℕ) (root : Root) (found : Option (Root × ℕ × ℕ))
      → AreCounts self.roots n
      → get self.roots root.generation ≡ found
      → self.bytes + sum_sizes 0 root.file_sizes < 2 ^ 64
      → IsCharged self
      → IsCharged (acquire root_of (some root) self)
  unfolding acquire
  joined-IsCharged self n root none a e p c = rw (e) (
      let put =
        charges-insert self.roots root.generation (root, 1, sum_sizes 0 root.file_sizes)
          a.ordered in
      ground (arith, put, e, c, p))
  joined-IsCharged self n root (some (old, count, bytes)) a e p c = rw (e) (
      let put = charges-insert self.roots root.generation (root, count + 1, bytes) a.ordered in
      ground (arith, put, e, c, a.positive root.generation old bytes))

  acquire-IsCharged :
      (self : Overlay V) (n : ℕ → ℕ) (joined : Option Root)
      → AreCounts self.roots n
      → self.bytes + size_of joined < 2 ^ 64
      → IsCharged self
      → IsCharged (acquire root_of joined self)
  unfolding acquire
  acquire-IsCharged self n none a p c = c
  acquire-IsCharged self n (some root) a p c = joined-IsCharged self n root _ a refl p c

  moved-IsCharged :
      (self : Overlay V) (previous next : Option Root) (n : ℕ → ℕ)
      → IsOrdered self.roots
      → AreCounts (release root_of previous self).roots n
      → self.bytes + size_of next < 2 ^ 64
      → IsCharged self
      → IsCharged (
          if same_generation (generation_of previous) (generation_of next)
          then self
          else acquire root_of next (release root_of previous self))
  moved-IsCharged self previous next n s a p c =
      let (charged, smaller) = release-IsCharged self previous s (omega (arith, p)) c in
      elim (Bool-cases (same_generation (generation_of previous) (generation_of next))) [
        | inl y ↦ rw (y, if◌then◌else◌) c
        | inr x ↦
            rw (x, if◌then◌else◌)
              (acquire-IsCharged (release root_of previous self) n next a
                (omega (arith, smaller, p)) charged)
      ]

  -- An insertion keeps the bytes of the overlay at what its roots are charged together: a root is
  -- charged when its first reader comes and released when its last reader leaves. The overlay has
  -- its roots counted by their readers, and the bytes with the files of the new root fit a word.
  pub insert-IsCharged :
      (self : Overlay V) (key : ℕ × ℕ) (value : V)
      → IsCounted root_of self
      → self.bytes + size_of (root_of value) < 2 ^ 64
      → IsCharged self
      → IsCharged (insert root_of key value self)
  unfolding insert
  insert-IsCharged self key value i p c =
      moved-IsCharged self _ (root_of value) _ i.counted_roots.ordered
        (release-AreCounts root_of self _ _ i.counted_roots
          (λ g. (readers-insert root_of self.entries key value g i.entries_ordered).1))
        p c

-- ===== src/Storage/Index/Descents.antt =====
-- The descent of a tree of pages: the leaf that it reaches answers for all entries.
use mathlib.Core.List.{append-nil}
use mathlib.Core.Path.{subst}
use eve_db.Base.{
  ℕ, ◌<◌, ◌≡◌, refl, sym, ap, ◌∙◌, Bool-cases, inl, inr, true, Option, none, some, List, [], ◌∷◌,
  ◌++◌, arith, All, if◌then◌else◌,
}
use eve_db.Base.Order.{nat_ord, pair_ord, at_most, above-at_most, ◌≺◌, not_at_most, lt_of_at_most}
use eve_db.Base.Assoc.{
  IsSorted, Above, Below, Above-trans, IsSorted-split, lookup, last_up_to, lookup-append_past,
  lookup-append_before,
}
use eve_db.Codec.LittleEndian.{Bytes}
use eve_db.Storage.Index.{Key, Value, child}
use eve_db.Storage.Index.Nodes.{IsBranch}
use eve_db.Storage.Index.Rows.{floor_index-eq-last_up_to, last_up_to-Above}
use eve_db.Storage.Index.Reader.{step}
use eve_db.Storage.Index.Trees.{Entries, Cut, Forest, IsSorted-right}

-- The last child whose key is not above `k`, or the first.
abbrev pub pick : Key × ℕ → Key → List (Key × ℕ) → Key × ℕ
pick c k [] = c
pick c k (d ∷ cs) = pick (if at_most d.0 k then d else c) k cs

last_up_to-pick :
    (c : Key × ℕ) (k : Key) (cs : List (Key × ℕ)) → last_up_to (some c) k cs ≡ some (pick c k cs)
unfolding last_up_to
last_up_to-pick c k [] = refl
last_up_to-pick c k (d ∷ cs) = elim (Bool-cases (at_most d.0 k)) [
  | inl y ↦ rw (y, if◌then◌else◌) (last_up_to-pick d k cs)
  | inr x ↦ rw (x, if◌then◌else◌) (last_up_to-pick c k cs)
]

pick-Above : (c : Key × ℕ) (k : Key) (cs : List (Key × ℕ)) → Above k cs → pick c k cs ≡ c
pick-Above c k [] a = refl
pick-Above c k (d ∷ cs) a = rw (above-at_most k d.0 a.0) (pick-Above c k cs a.1)

pub pick-in_range :
    (id : ℕ) (k : Key) (c : Key × ℕ) (cs : List (Key × ℕ))
    → All (λ d. (0 < d.1) × (d.1 < id)) (c ∷ cs)
    → (0 < (pick c k cs).1) × ((pick c k cs).1 < id)
pick-in_range id k c [] a = a.0
pick-in_range id k c (d ∷ cs) a = elim (Bool-cases (at_most d.0 k)) [
  | inl y ↦ rw (pick, y, if◌then◌else◌) (pick-in_range id k d cs a.1)
  | inr x ↦ rw (pick, x, if◌then◌else◌) (pick-in_range id k c cs (a.0, a.1.1))
]

-- The child of a step.
abbrev child_of : ℕ → Option (Key × ℕ) → ℕ
child_of first none = first
child_of first (some c) = c.1

child_of-pick :
    (c : Key × ℕ) (k : Key) (cs : List (Key × ℕ))
    → IsSorted (c ∷ cs)
    → child_of c.1 (last_up_to none k (c ∷ cs)) ≡ (pick c k cs).1
unfolding last_up_to
child_of-pick c k cs s = elim (Bool-cases (at_most c.0 k)) [
  | inl y ↦ rw (y, if◌then◌else◌) (ap (child_of c.1) (last_up_to-pick c k cs))
  | inr x ↦
      (let above : Above k cs = Above-trans k c.0 cs (not_at_most c.0 k x) s.0 in
        rw (x, if◌then◌else◌)
          (ap (child_of c.1) (last_up_to-Above none k cs above)
            ∙ sym (ap (λ d. d.1) (pick-Above c k cs above))))
]

pub step-pick :
    (P : Bytes) (id sequence : ℕ) (k : Key) (c : Key × ℕ) (cs : List (Key × ℕ))
    → IsBranch P id sequence (c ∷ cs)
    → IsSorted (c ∷ cs)
    → step k P ≡ (pick c k cs).1
unfolding step
step-pick P id sequence k c cs b s = ground (
  arith,
  floor_index-eq-last_up_to P (child P) k (c ∷ cs) b.rows (sym b.header.count_eq) s,
  child_of-pick c k cs s,
  b.rows.1,
)

-- A part of the entries that answers for all of them.
pub record Answers (part es : Entries) (k : Key) : Type 0 where
  pub sorted : IsSorted part
  pub lookup_eq : lookup k part ≡ lookup k es
  pub floor_eq : last_up_to none k part ≡ last_up_to none k es

last_up_to-append :
    (k : Key) (xs ys : Entries) (result : Option (Key × Value))
    → last_up_to result k (xs ++ ys) ≡ last_up_to (last_up_to result k xs) k ys
unfolding last_up_to
last_up_to-append k [] ys result = refl
last_up_to-append k (x ∷ xs) ys result =
    last_up_to-append k xs ys (if at_most x.0 k then some x else result)

Above-lt : (k : Key) (e : Key × Value) (es : Entries) → k ≺ e.0 → Above e.0 es → Above k (e ∷ es)
Above-lt k e es h a = (h, Above-trans k e.0 es h a)

Below-at_most : (k j : Key) (xs : Entries) → at_most j k ≡ true → Below j xs → Below k xs
Below-at_most k j [] h b = tt
Below-at_most k j (x ∷ xs) h b = (lt_of_at_most x.0 j k b.0 h, Below-at_most k j xs h b.1)

-- The entries before a key.
Answers-left :
    (k : Key) (xs : Entries) (e : Key × Value) (ys : Entries)
    → IsSorted (xs ++ e ∷ ys)
    → k ≺ e.0
    → Answers xs (xs ++ e ∷ ys) k
Answers-left k xs e ys s h =
    let (left, below_e, above_e, right) = IsSorted-split xs e.0 e.1 ys s in
    let above = Above-lt k e ys h above_e in
    record {
      sorted = left;
      lookup_eq = sym (lookup-append_before xs (e ∷ ys) k above);
      floor_eq = sym (
          last_up_to-append k xs (e ∷ ys) none
          ∙ last_up_to-Above (last_up_to none k xs) k (e ∷ ys) above);
    }

-- The entries from a key on.
Answers-right :
    (k : Key) (xs : Entries) (e : Key × Value) (ys : Entries)
    → IsSorted (xs ++ e ∷ ys)
    → at_most e.0 k ≡ true
    → Answers (e ∷ ys) (xs ++ e ∷ ys) k
unfolding last_up_to
Answers-right k xs e ys s h =
    let (left, below_e, above_e, right) = IsSorted-split xs e.0 e.1 ys s in
    record {
      sorted = (above_e, right);
      lookup_eq = sym (lookup-append_past xs (e ∷ ys) k (Below-at_most k e.0 xs h below_e));
      floor_eq = rw (last_up_to-append k xs (e ∷ ys) none, h) refl;
    }

pub record Selected (T : ℕ → Entries → Type 0) (k : Key) (id : ℕ) (es : Entries) : Type 0 where
  pub part : Entries
  pub tree : T id part
  pub answers : Answers part es k

pub Answers-trans :
    (k : Key) (xs ys zs : Entries) → Answers xs ys k → Answers ys zs k → Answers xs zs k
Answers-trans k xs ys zs a b = record {
  sorted = a.sorted;
  lookup_eq = a.lookup_eq ∙ b.lookup_eq;
  floor_eq = a.floor_eq ∙ b.floor_eq;
}

pub Answers-all : (k : Key) (xs ys : Entries) → xs ≡ ys → IsSorted ys → Answers xs ys k
Answers-all k xs ys e s = rw (e) (record { sorted = s; lookup_eq = refl; floor_eq = refl })

-- The child that is picked answers for the forest.
pub select :
    (T : ℕ → Entries → Type 0) (k : Key) (c : Key × ℕ) (cs : List (Key × ℕ)) (es : Entries)
    → Cut T c (Forest T cs) es
    → IsSorted es
    → IsSorted (c ∷ cs)
    → Selected T k (pick c k cs).1 es
select T k c [] es f s t = record {
  part = f.first ∷ f.front;
  tree = f.tree;
  answers =
      Answers-all k _ es
        (sym (f.whole ∙ ap (λ l. f.first ∷ (f.front ++ l)) f.rest ∙ append-nil (f.first ∷ f.front)))
        s;
}
select T k c (d ∷ cs) es f s t =
    let g = f.rest in
    let xs = f.first ∷ f.front in
    let back = g.first ∷ (g.front ++ g.back) in
    let whole : es ≡ xs ++ back = f.whole ∙ ap (λ l. xs ++ l) g.whole in
    let ordered : IsSorted (xs ++ back) = subst IsSorted whole s in
    elim (Bool-cases (at_most d.0 k)) [
      | inl y ↦
          (let below_k : at_most g.first.0 k ≡ true = rw (← g.key_eq) y in
            let later =
              select T k d cs f.back g
                (subst IsSorted (sym g.whole) (IsSorted-right xs back ordered)) t.1 in
            rw (pick, y, if◌then◌else◌)
              (record {
                part = later.part;
                tree = later.tree;
                answers = Answers-trans k _ _ _ later.answers (
                    Answers-trans k _ _ _
                      (Answers-all k f.back back g.whole (IsSorted-right xs back ordered))
                      (Answers-trans k _ _ _
                        (Answers-right k xs g.first (g.front ++ g.back) ordered below_k)
                        (Answers-all k _ es (sym whole) s)));
              }))
      | inr x ↦
          (let above_k : k ≺ g.first.0 = rw (← g.key_eq) (not_at_most d.0 k x) in
            rw
              (
                pick,
                x,
                if◌then◌else◌,
                pick-Above c k cs (Above-trans k d.0 cs (not_at_most d.0 k x) t.1.0),
              )
              (record {
                part = xs;
                tree = f.tree;
                answers =
                    Answers-trans k _ _ _
                      (Answers-left k xs g.first (g.front ++ g.back) ordered above_k)
                      (Answers-all k _ es (sym whole) s);
              }))
    ]

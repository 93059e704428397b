-- ===== src/Storage/Index/Trees.antt =====
-- Trees of pages with the entries below them, whatever it means that a page has an identifier.
use mathlib.Core.List.{append_assoc, append-nil}
use mathlib.Core.Path.{subst}
use eve_db.Base.{
  ℕ, zero, suc, ◌<◌, ◌≡◌, refl, sym, ap, ◌∙◌, List, [], ◌∷◌, ◌++◌, All, All-append_left,
  All-append_right,
}
use eve_db.Base.Order.{nat_ord, pair_ord}
use eve_db.Base.Assoc.{IsSorted, Above}
use eve_db.Codec.LittleEndian.{Bytes}
use eve_db.Storage.Index.{Key, Value}
use eve_db.Storage.Index.Nodes.{IsLeaf, IsBranch}

abbrev pub Entries : Type 0
Entries = List (Key × Value)

-- The entries of a child, before those of the later children.
pub record Cut (T : ℕ → Entries → Type 0) (c : Key × ℕ) (Rest : Entries → Type 0) (es : Entries)
    : Type 0 where
  pub first : Key × Value
  pub front : Entries
  pub back : Entries
  pub whole : es ≡ first ∷ (front ++ back)
  pub key_eq : c.0 ≡ first.0
  pub tree : T (c.1) (first ∷ front)
  pub rest : Rest back

-- The entries are those of the children, child by child, each with its first key.
abbrev pub Forest : (ℕ → Entries → Type 0) → List (Key × ℕ) → Entries → Type 0
Forest T [] es = es ≡ []
Forest T (c ∷ cs) es = Cut T c (Forest T cs) es

pub IsSorted-right : (xs ys : Entries) → IsSorted (xs ++ ys) → IsSorted ys
IsSorted-right [] ys s = s
IsSorted-right (x ∷ xs) ys s = IsSorted-right xs ys s.1

pub IsSorted-left : (xs ys : Entries) → IsSorted (xs ++ ys) → IsSorted xs
IsSorted-left [] ys s = tt
IsSorted-left (x ∷ xs) ys s = (All-append_left _ xs ys s.0, IsSorted-left xs ys s.1)

pub record LeafAt (R : ℕ → Bytes → Type 0) (sequence id : ℕ) (es : Entries) : Type 0 where
  pub page : Bytes
  pub held : R id page
  pub after : ℕ
  pub leaf : IsLeaf page id sequence after es

pub record BranchAt (R : ℕ → Bytes → Type 0) (sequence : ℕ) (T : ℕ → Entries → Type 0) (id : ℕ)
    (es : Entries) : Type 0 where
  pub page : Bytes
  pub held : R id page
  pub child : Key × ℕ
  pub children : List (Key × ℕ)
  pub branch : IsBranch page id sequence (child ∷ children)
  pub sorted : IsSorted (child ∷ children)
  pub range : All (λ c. (0 < c.1) × (c.1 < id)) (child ∷ children)
  pub forest : Forest T (child ∷ children) es

-- A tree of a height, from the page with an identifier.
abbrev pub Tree : (ℕ → Bytes → Type 0) → ℕ → ℕ → ℕ → Entries → Type 0
Tree R sequence zero id es = LeafAt R sequence id es
Tree R sequence (suc h) id es = BranchAt R sequence (Tree R sequence h) id es

pub Forest-imp :
    (T U : ℕ → Entries → Type 0)
    → ((id : ℕ) (es : Entries) → T id es → U id es)
    → (cs : List (Key × ℕ)) (es : Entries) → Forest T cs es
    → Forest U cs es
Forest-imp T U f [] es h = h
Forest-imp T U f (c ∷ cs) es h = record {
  first = h.first;
  front = h.front;
  back = h.back;
  whole = h.whole;
  key_eq = h.key_eq;
  tree = f c.1 (h.first ∷ h.front) h.tree;
  rest = Forest-imp T U f cs h.back h.rest;
}

pub Tree-imp :
    (R S : ℕ → Bytes → Type 0) (sequence : ℕ)
    → ((id : ℕ) (page : Bytes) → R id page → S id page)
    → (h id : ℕ) (es : Entries) → Tree R sequence h id es
    → Tree S sequence h id es
Tree-imp R S sequence f zero id es t = record {
  page = t.page;
  held = f id t.page t.held;
  after = t.after;
  leaf = t.leaf;
}
Tree-imp R S sequence f (suc h) id es t = record {
  page = t.page;
  held = f id t.page t.held;
  child = t.child;
  children = t.children;
  branch = t.branch;
  sorted = t.sorted;
  range = t.range;
  forest =
      Forest-imp (Tree R sequence h) (Tree S sequence h)
        (λ i xs x. Tree-imp R S sequence f h i xs x) (t.child ∷ t.children) es t.forest;
}

pub Forest-append :
    (T : ℕ → Entries → Type 0) (cs : List (Key × ℕ)) (es : Entries) (id : ℕ) (e : Key × Value)
    (fs : Entries)
    → Forest T cs es
    → T id (e ∷ fs)
    → Forest T (cs ++ (e.0, id) ∷ []) (es ++ e ∷ fs)
Forest-append T [] es id e fs f t = record {
  first = e;
  front = fs;
  back = [];
  whole = rw (f, append-nil fs) refl;
  key_eq = refl;
  tree = t;
  rest = refl;
}
Forest-append T (c ∷ cs) es id e fs f t = record {
  first = f.first;
  front = f.front;
  back = f.back ++ e ∷ fs;
  whole = rw (f.whole) (ap (◌∷◌ f.first) (append_assoc f.front f.back (e ∷ fs)));
  key_eq = f.key_eq;
  tree = f.tree;
  rest = Forest-append T cs f.back id e fs f.rest t;
}

-- A forest in two parts.
pub record Parts (T : ℕ → Entries → Type 0) (xs ys : List (Key × ℕ)) (es : Entries) : Type 0 where
  pub left : Entries
  pub right : Entries
  pub whole : es ≡ left ++ right
  pub left_forest : Forest T xs left
  pub right_forest : Forest T ys right

pub Forest-split :
    (T : ℕ → Entries → Type 0) (xs ys : List (Key × ℕ)) (es : Entries)
    → Forest T (xs ++ ys) es
    → Parts T xs ys es
Forest-split T [] ys es f = record {
  left = [];
  right = es;
  whole = refl;
  left_forest = refl;
  right_forest = f;
}
Forest-split T (x ∷ xs) ys es f =
    let later = Forest-split T xs ys f.back f.rest in
    record {
      left = f.first ∷ (f.front ++ later.left);
      right = later.right;
      whole =
          f.whole
          ∙ ap (λ l. f.first ∷ (f.front ++ l)) later.whole
          ∙ ap (◌∷◌ f.first) (sym (append_assoc f.front later.left later.right));
      left_forest = record {
        first = f.first;
        front = f.front;
        back = later.left;
        whole = refl;
        key_eq = f.key_eq;
        tree = f.tree;
        rest = later.left_forest;
      };
      right_forest = later.right_forest;
    }

-- The first keys of a forest are in order.
pub Forest-Above :
    (T : ℕ → Entries → Type 0) (k : Key) (cs : List (Key × ℕ)) (es : Entries)
    → Forest T cs es
    → Above k es
    → Above k cs
Forest-Above T k [] es f a = tt
Forest-Above T k (c ∷ cs) es f a =
    let here : Above k (f.first ∷ (f.front ++ f.back)) = subst (λ l. Above k l) f.whole a in
    (
      rw (f.key_eq) here.0,
      Forest-Above T k cs f.back f.rest (All-append_right _ f.front f.back here.1),
    )

pub Forest-IsSorted :
    (T : ℕ → Entries → Type 0) (cs : List (Key × ℕ)) (es : Entries)
    → Forest T cs es
    → IsSorted es
    → IsSorted cs
Forest-IsSorted T [] es f s = tt
Forest-IsSorted T (c ∷ cs) es f s =
    let here : IsSorted (f.first ∷ (f.front ++ f.back)) = subst IsSorted f.whole s in
    (
      rw (f.key_eq)
          (Forest-Above T f.first.0 cs f.back f.rest (All-append_right _ f.front f.back here.0)),
      Forest-IsSorted T cs f.back f.rest (IsSorted-right f.front f.back here.1),
    )

-- ===== src/Storage/Index/Cursor.antt =====
-- storage/index.rs: `scan_at` and `IndexCursor`, which follows the chain of the leaves.
use eve_db.Base.{
  ℕ, zero, suc, ◌+◌, ◌<◌, ◌≡◌, ◌≢◌, refl, ◌==◌, Bool, true, false, if◌then◌else◌, Option, none,
  some, Error, Result, ok, err, corrupt, plain, arith,
}
use eve_db.Base.Order.{below, nat_ord, pair_ord}
use eve_db.Codec.LittleEndian.{Bytes}
use eve_db.Storage.Index.{Key, Value, kind, count, next, key, value, lower_bound}
use eve_db.Storage.Index.Reader.{node, descend}
use eve_db.Storage.Index.Termination.{node-count}

pub record IndexCursor : Type 0 where
  pub file : Bytes
  pub lsn : ℕ
  pub upper : Key
  pub leaf : Option Bytes
  pub position : ℕ
  pub failed : Bool

abbrev pub new_cursor : Bytes → ℕ → Key → Key → Option Bytes → IndexCursor
new_cursor file expected lower upper leaf = record {
  file = file;
  lsn = expected;
  upper = upper;
  leaf = leaf;
  position = position leaf;
  failed = false;
}
  where
    position : Option Bytes → ℕ
    position none = 0
    position (some page) = lower_bound page lower

unfoldable pub scan_at : Bytes → ℕ → ℕ → Key → Key → Option (Result Error IndexCursor)
scan_at file expected base lower upper = elim (descend file expected base lower) [
  | none ↦ none
  | some r ↦
      some (elim r [ err e ↦ err e | ok leaf ↦ ok (new_cursor file expected lower upper leaf) ])
]

-- The entry at the position, which is inside the leaf.
abbrev pub take_entry : Bytes → IndexCursor → Option (Result Error (Key × Value)) × IndexCursor
take_entry leaf c =
    let k = key leaf c.position in
    if below c.upper k
    then (none, record c { leaf = none })
    else (some (ok (k, value leaf c.position)), record c { position = c.position + 1 })

-- The loop of `IndexCursor::next`: `none` where the bound on its rounds is spent.
unfoldable pub next_loop :
    ℕ → IndexCursor → Option (Option (Result Error (Key × Value)) × IndexCursor)
next_loop zero c = none
next_loop (suc n) c = elim c.leaf [
  | none ↦ some (none, c)
  | some leaf ↦ elim (c.position == count leaf) [
    | false ↦ some (take_entry leaf c)
    | true ↦ elim (next leaf == 0) [
      | true ↦ some (none, record c { leaf = none })
      | false ↦ elim (node c.file (next leaf) c.lsn) [
        | err e ↦ some (some (err e), record c { failed = true })
        | ok page ↦ elim (kind page == 1) [
          | true ↦ next_loop n (record c { leaf = some page; position = 0 })
          | false ↦ some (
            some (err (corrupt (plain "leaf chain points to a branch"))),
            record c { failed = true },
          )
        ]
      ]
    ]
  ]
]

-- `IndexCursor::next`: a leaf that is read has an entry, so that two rounds are enough.
unfoldable pub next_entry : IndexCursor → Option (Option (Result Error (Key × Value)) × IndexCursor)
next_entry c = if c.failed then some (none, c) else next_loop 2 c

next_loop-ends :
    (c : IndexCursor) (leaf : Bytes)
    → c.leaf ≡ some leaf
    → 0 < count leaf
    → c.position ≡ 0
    → next_loop 1 c ≢ none
unfolding next_loop
next_loop-ends c leaf e p z h = ground (arith, h, e, p, z)

-- A call of the cursor ends, whatever bytes the file holds.
pub next_entry-ends : (c : IndexCursor) → next_entry c ≢ none
unfolding next_entry next_loop
next_entry-ends c h = leaf_ends c.leaf refl
  where
    page_ends :
        (leaf : Bytes)
        → c.leaf ≡ some leaf
        → (r : Result Error Bytes) → node c.file (next leaf) c.lsn ≡ r
        → ⊥
    page_ends leaf e (err x) r = ground (arith, h, e, r)
    page_ends leaf e (ok P) r =
        let further : kind P ≡ 1 → next_loop 1 (record c { leaf = some P; position = 0 }) ≢ none =
          λ one.
            next_loop-ends (record c { leaf = some P; position = 0 }) P refl
              (node-count c.file (next leaf) c.lsn P r one) refl in
        ground (arith, h, e, r, further)

    leaf_ends : (l : Option Bytes) → c.leaf ≡ l → ⊥
    leaf_ends none e = ground (arith, h, e)
    leaf_ends (some leaf) e = page_ends leaf e (node c.file (next leaf) c.lsn) refl

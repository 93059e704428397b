-- ===== src/Storage/Index/Reader.antt =====
-- storage/index.rs: reads of an index, which lies in a file from its page `base` on.
use eve_db.Base.{
  ℕ, zero, suc, ◌+◌, ◌%◌, ◌==◌, true, false, not, ◌&&◌, if◌then◌else◌, Option, none, some, length,
  ltb, Error, Result, ok, err, ◌>>=◌, corrupt, plain,
}
use eve_db.Base.Order.{same, nat_ord, pair_ord}
use eve_db.Codec.LittleEndian.{Bytes}
use eve_db.Storage.Page.{page_size}
use eve_db.Storage.Pager.{read_page}
use eve_db.Storage.Index.{
  Key, Value, decode, kind, count, lsn, next, key, value, child, lower_bound, floor_index,
}

-- `node`
unfoldable pub node : Bytes → ℕ → ℕ → Result Error Bytes
node file id expected = read_page file id (decode id) >>= λ page.
    if lsn page == expected
    then ok page
    else err (corrupt (plain "invalid index page header or checksum"))

-- The child that `descend` goes to.
unfoldable pub step : Key → Bytes → ℕ
step k page = elim (floor_index page k) [ none ↦ child page 0 | some index ↦ child page index ]

-- The loop of `descend`. `none` where the bound on its rounds is spent.
unfoldable pub descend_from : ℕ → Bytes → ℕ → Key → ℕ → Option (Result Error (Option Bytes))
descend_from zero file expected k id = none
descend_from (suc n) file expected k id = elim (id == 0) [
  | true ↦ some (ok none)
  | false ↦ elim (node file id expected) [
    | err e ↦ some (err e)
    | ok page ↦
        if kind page == 1
        then some (ok (some page))
        else if kind page == 2
        then descend_from n file expected k (step k page)
        else some (err (corrupt (plain "index root points to metadata")))
  ]
]

-- `descend`: the identifiers fall, so that the root bounds the rounds.
unfoldable pub descend : Bytes → ℕ → ℕ → Key → Option (Result Error (Option Bytes))
descend file expected base k =
    if not (length file % page_size == 0)
    then some (err (corrupt (plain "truncated index file")))
    else elim (node file base expected) [
      | err e ↦ some (err e)
      | ok meta ↦
          if not (kind meta == 0)
          then some (err (corrupt (plain "index root is not metadata")))
          else descend_from (next meta + 1) file expected k (next meta)
    ]

-- What `lookup_at` and `floor_at` do with the leaf.
abbrev pub with_leaf {ℓ} :
    {A : Type ℓ}
    → (Bytes → Option A)
    → Option (Result Error (Option Bytes))
    → Option (Result Error (Option A))
with_leaf f none = none
with_leaf f (some (err e)) = some (err e)
with_leaf f (some (ok none)) = some (ok none)
with_leaf f (some (ok (some leaf))) = some (ok (f leaf))

unfoldable pub leaf_value : Key → Bytes → Option Value
leaf_value k leaf =
    let index = lower_bound leaf k in
    if ltb index (count leaf) && same (key leaf index) k then some (value leaf index) else none

unfoldable pub leaf_floor : Key → Bytes → Option (Key × Value)
leaf_floor k leaf = elim (floor_index leaf k) [
  | none ↦ none
  | some index ↦ some (key leaf index, value leaf index)
]

unfoldable pub lookup_at : Bytes → ℕ → ℕ → Key → Option (Result Error (Option Value))
lookup_at file expected base k = with_leaf (leaf_value k) (descend file expected base k)

unfoldable pub floor_at : Bytes → ℕ → ℕ → Key → Option (Result Error (Option (Key × Value)))
floor_at file expected base k = with_leaf (leaf_floor k) (descend file expected base k)

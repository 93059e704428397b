-- ===== src/OrderedMap/Bounds.antt =====
-- The depth of the map of ordered_map.rs after any updates.
use eve_db.Base.{◌+◌, ◌*◌, ◌^◌, ◌≤◌, ℕ, List, length}
use eve_db.Base.Order.{Ord}
use eve_db.OrderedMap.{height, empty}
use eve_db.OrderedMap.Contents.{to_list}
use eve_db.OrderedMap.Size.{pow-le-length}
use eve_db.OrderedMap.Refinement.{Update, run, run_refines}

-- The height is logarithmic in the number of the entries after any sequence of insertions,
-- removals, `retain_from` and `clear` from the empty map: a map of height 2 h or more has 2 ^ h - 1
-- entries or more.
pub pow-le-length-run {ℓ κ} :
    {K : Type ℓ} {V : Type κ} ⦃o : Ord K⦄ (us : List (Update K V)) (h : ℕ)
    → 2 * h ≤ height (run us empty)
    → 2 ^ h ≤ length (to_list (run us empty)) + 1
pow-le-length-run us h p = pow-le-length (run us empty) h (run_refines us).0.balanced p

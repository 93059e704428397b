-- ===== src/OrderedMap/Tests.antt =====
-- Runs of the map on small inputs, and the theorems of its modules at such inputs.
use eve_db.Base.{ℕ, ◌+◌, ◌^◌, ◌≤◌, ◌≡◌, refl, none, some, List, [], ◌∷◌, arith, length}
use eve_db.Base.Order.{nat_ord}
use eve_db.OrderedMap.{
  Tree, leaf, height, included, excluded, empty, new_node, rotate_left, rotate_right, balance, join,
  leftmost, push_spine, get, floor_from, floor, insert, remove, retain_from, range_stack, range,
  next, collect, extend,
}
use eve_db.Base.Assoc.{lookup, upsert, last_up_to}
use eve_db.OrderedMap.Contents.{to_list}
use eve_db.OrderedMap.Reads.{floor-eq-last_up_to}
use eve_db.OrderedMap.Ranges.{collect-range}
use eve_db.OrderedMap.Heights.{IsAvl, insert-IsAvl, remove-IsAvl, join-Mends}
use eve_db.OrderedMap.Balance.{Mends}
use eve_db.OrderedMap.Bounds.{pow-le-length-run}
use eve_db.OrderedMap.Refinement.{
  Update, inserts, removes, retains_from, step, run, replay, run_refines,
}

-- What the tests run.
runs : ℕ
unfolding rotate_left rotate_right balance join leftmost push_spine get floor_from floor insert
    remove retain_from range_stack range next collect extend lookup upsert last_up_to step run
    replay nat_ord
runs = 0

abbrev updates : List (Update ℕ ℕ)
updates =
    inserts 1 10
    ∷ inserts 2 20
    ∷ inserts 3 30
    ∷ inserts 4 40
    ∷ inserts 5 50
    ∷ inserts 6 60
    ∷ removes 4
    ∷ inserts 2 21
    ∷ retains_from 2
    ∷ []

sample : Tree ℕ ℕ
sample = run updates empty

sample_root : height sample ≡ 3
unfolding sample runs
sample_root = refl

sample_entries : to_list sample ≡ (2, 21) ∷ (3, 30) ∷ (5, 50) ∷ (6, 60) ∷ []
unfolding sample runs
sample_entries = refl

sample_reads :
    (get sample 2 ≡ some 21)
    × (get sample 4 ≡ none)
    × (floor sample 4 ≡ some (3, 30))
    × (floor sample 1 ≡ none)
unfolding sample runs
sample_reads = (refl, refl, refl, refl)

sample-range : collect 5 (range sample (excluded 2) (included 5)) ≡ (3, 30) ∷ (5, 50) ∷ []
unfolding sample runs
sample-range = refl

run_refines_example : IsAvl sample × (to_list sample ≡ replay updates [])
unfolding sample
run_refines_example = run_refines updates

sample-IsAvl : IsAvl sample
sample-IsAvl = run_refines_example.0

insert-IsAvl_example : IsAvl (insert sample 4 44)
insert-IsAvl_example = insert-IsAvl sample 4 44 sample-IsAvl

remove-IsAvl_example : IsAvl (remove sample 3)
remove-IsAvl_example = remove-IsAvl sample 3 sample-IsAvl

-- The heights of the two trees differ by two, so that a rotation is needed.
join-Mends_example :
    Mends (new_node 0 0 leaf leaf) sample (join (new_node 0 0 leaf leaf) 1 1 sample)
join-Mends_example =
    join-Mends (new_node 0 0 leaf leaf) 1 1 sample (omega arith) sample-IsAvl.balanced

floor-eq-last_up_to_example : floor sample 4 ≡ last_up_to none 4 (to_list sample)
floor-eq-last_up_to_example = floor-eq-last_up_to sample 4 sample-IsAvl.ordered

collect-range_example : collect 5 (range sample (excluded 2) (included 5)) ≡ (3, 30) ∷ (5, 50) ∷ []
unfolding sample runs
collect-range_example =
    collect-range sample (excluded 2) (included 5) 5 sample-IsAvl.ordered (omega arith)

pow-le-length-run_example : 2 ^ 1 ≤ length (to_list sample) + 1
unfolding sample runs
pow-le-length-run_example = pow-le-length-run updates 1 (omega arith)

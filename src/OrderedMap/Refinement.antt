-- ===== src/OrderedMap/Refinement.antt =====
-- The map of ordered_map.rs as an abstract data type, on sequences of updates.
use eve_db.Base.{◌≡◌, refl, ◌∙◌, ap, List, [], ◌∷◌}
use eve_db.Base.Order.{Ord}
use eve_db.OrderedMap.{Tree, empty, clear, insert, remove, retain_from}
use eve_db.Base.Assoc.{upsert, erase, from}
use eve_db.OrderedMap.Contents.{to_list}
use eve_db.OrderedMap.Updates.{to_list-insert, to_list-remove, to_list-retain_from}
use eve_db.OrderedMap.Heights.{IsAvl, insert-IsAvl, remove-IsAvl, retain_from-IsAvl}

pub data Update {ℓ κ} (K : Type ℓ) (V : Type κ) : Type (ℓ ⊔ κ) where
  inserts : K → V → Update K V
  removes : K → Update K V
  retains_from : K → Update K V
  clears : Update K V

module _ {ℓ κ} {K : Type ℓ} {V : Type κ} ⦃o : Ord K⦄ where
  unfoldable pub step : Tree K V → Update K V → Tree K V
  step t (inserts key value) = insert t key value
  step t (removes key) = remove t key
  step t (retains_from key) = retain_from t key
  step t clears = clear t

  unfoldable pub run : List (Update K V) → Tree K V → Tree K V
  run [] t = t
  run (u ∷ us) t = run us (step t u)

  -- The same updates, on a sorted association list.
  unfoldable pub replay : List (Update K V) → List (K × V) → List (K × V)
  replay [] es = es
  replay (inserts key value ∷ us) es = replay us (upsert key value es)
  replay (removes key ∷ us) es = replay us (erase key es)
  replay (retains_from key ∷ us) es = replay us (from key es)
  replay (clears ∷ us) es = replay us []

  empty-IsAvl : IsAvl {K = K} {V = V} empty
  empty-IsAvl = record { ordered = tt; balanced = tt }

  run-IsAvl : (us : List (Update K V)) (t : Tree K V) → IsAvl t → IsAvl (run us t)
  unfolding run step clear
  run-IsAvl [] t i = i
  run-IsAvl (inserts key value ∷ us) t i = run-IsAvl us _ (insert-IsAvl t key value i)
  run-IsAvl (removes key ∷ us) t i = run-IsAvl us _ (remove-IsAvl t key i)
  run-IsAvl (retains_from key ∷ us) t i = run-IsAvl us _ (retain_from-IsAvl t key i)
  run-IsAvl (clears ∷ us) t i = run-IsAvl us _ empty-IsAvl

  to_list-run :
      (us : List (Update K V)) (t : Tree K V) → IsAvl t → to_list (run us t) ≡ replay us (to_list t)
  unfolding run step replay clear
  to_list-run [] t i = refl
  to_list-run (inserts key value ∷ us) t i =
      to_list-run us (insert t key value) (insert-IsAvl t key value i)
      ∙ ap (replay us) (to_list-insert t key value i.ordered)
  to_list-run (removes key ∷ us) t i =
      to_list-run us (remove t key) (remove-IsAvl t key i)
      ∙ ap (replay us) (to_list-remove t key i.ordered)
  to_list-run (retains_from key ∷ us) t i =
      to_list-run us (retain_from t key) (retain_from-IsAvl t key i)
      ∙ ap (replay us) (to_list-retain_from t key i.ordered)
  to_list-run (clears ∷ us) t i = to_list-run us empty empty-IsAvl

  -- From the empty map, any sequence of insertions, removals, `retain_from` and `clear` ends in a
  -- search tree with the AVL balance, whose entries are those of the same updates on a sorted
  -- association list.
  pub run_refines :
      (us : List (Update K V)) → IsAvl (run us empty) × (to_list (run us empty) ≡ replay us [])
  run_refines us = (run-IsAvl us empty empty-IsAvl, to_list-run us empty empty-IsAvl)

-- ===== src/Overlay/Tests.antt =====
-- Entities that read two roots, by the overlay of overlay.rs.
use eve_db.Base.{◌+◌, ◌<◌, ◌^◌, ℕ, ◌≡◌, refl, Option, none, some, [], ◌∷◌, arith}
use eve_db.Base.Order.{nat_ord, pair_ord}
use eve_db.OrderedMap.{empty, get}
use eve_db.Base.Assoc.{lookup}
use eve_db.OrderedMap.Reads.{get-eq-lookup}
use eve_db.Overlay.{sum_sizes, Root, Overlay, insert}
use eve_db.Overlay.Charges.{IsCharged, size_of, insert-IsCharged}
use eve_db.Overlay.Counts.{IsCounted, insert-IsCounted}

-- An entity that is the root it reads.
abbrev root_of : Option Root → Option Root
root_of r = r

abbrev first : Root
first = record { generation = 1; file_sizes = 10 ∷ 20 ∷ [] }

abbrev second : Root
second = record { generation = 2; file_sizes = 5 ∷ [] }

abbrev none_yet : Overlay (Option Root)
none_yet = record { entries = empty; roots = empty; bytes = 0 }

abbrev one : Overlay (Option Root)
one = insert root_of (1, 1) (some first) none_yet

get-empty : (g : ℕ) → get none_yet.roots g ≡ none
unfolding lookup nat_ord
get-empty g = get-eq-lookup none_yet.roots g tt

none_yet-IsCounted : IsCounted root_of none_yet
unfolding nat_ord
none_yet-IsCounted = record {
  entries_ordered = tt;
  counted_roots = record {
    ordered = tt;
    exact = λ g. rw (get-empty g) refl;
    positive = λ g root bytes h. ground (arith, get-empty g, h);
  };
}

none_yet-fits : none_yet.bytes + size_of (some first) < 2 ^ 64
unfolding sum_sizes
none_yet-fits = ground arith

insert-IsCounted_example : IsCounted root_of (insert root_of (1, 2) (some second) one)
insert-IsCounted_example =
    insert-IsCounted root_of one (1, 2) (some second)
      (insert-IsCounted root_of none_yet (1, 1) (some first) none_yet-IsCounted)

insert-IsCharged_example : IsCharged root_of (insert root_of (1, 1) (some first) none_yet)
insert-IsCharged_example =
    insert-IsCharged root_of none_yet (1, 1) (some first) none_yet-IsCounted none_yet-fits refl

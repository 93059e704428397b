-- ===== src/Overlay.antt =====
-- overlay.rs: the entities that are not in the last checkpoint, with the roots whose files they
-- read, each counted by its entities. An entity is seen by the root that it reads, `root_of`.
pub mod Charges
pub mod Counts
mod Tests
use eve_db.Base.{
  ℕ, ◌+◌, ◌-◌, ◌^◌, Bool, true, false, not, Option, none, some, List, [], ◌∷◌, min, ◌==◌,
  if◌then◌else◌,
}
use eve_db.Base.Order.{nat_ord, pair_ord}
use eve_db.OrderedMap
use eve_db.OrderedMap.{Tree, get, remove, empty}
use eve_db.CommitQueue.{saturating_add}
use eve_db.Resources.{sub_usize}

-- A root, by what the overlay asks of it: its generation and the sizes of its files.
pub record Root : Type 0 where
  pub generation : ℕ
  pub file_sizes : List ℕ

pub record Overlay {ℓ} (V : Type ℓ) : Type ℓ where
  pub entries : Tree (ℕ × ℕ) V
  pub roots : Tree ℕ (Root × ℕ × ℕ)
  pub bytes : ℕ

-- `.map(try_from).fold(0, saturating_add)`
unfoldable pub sum_sizes : ℕ → List ℕ → ℕ
sum_sizes total [] = total
sum_sizes total (size ∷ sizes) = sum_sizes (saturating_add total (min size (2 ^ 64 - 1))) sizes

abbrev pub same_generation : Option ℕ → Option ℕ → Bool
same_generation none none = true
same_generation (some a) (some b) = a == b
same_generation none (some b) = false
same_generation (some a) none = false

abbrev pub generation_of : Option Root → Option ℕ
generation_of none = none
generation_of (some root) = some root.generation

module _ {ℓ} {V : Type ℓ} (root_of : V → Option Root) where
  abbrev pub root_at : Option V → Option Root
  root_at none = none
  root_at (some v) = root_of v

  -- The count of the root that an entry leaves; the last entry takes the root with it. The code
  -- panics on a root with no count; here the overlay is left as it is.
  abbrev pub less : ℕ → Option (Root × ℕ × ℕ) → Overlay V → Overlay V
  less generation none self = self
  less generation (some (root, count, bytes)) self =
      if count == 1
      then record self { roots = remove self.roots generation; bytes = sub_usize self.bytes bytes }
      else record self { roots = OrderedMap.insert self.roots generation (root, count - 1, bytes) }

  unfoldable pub release : Option Root → Overlay V → Overlay V
  release none self = self
  release (some root) self = less root.generation (get self.roots root.generation) self

  abbrev pub counted : Root → Option (Root × ℕ × ℕ) → ℕ × ℕ
  counted root none = (0, sum_sizes 0 root.file_sizes)
  counted root (some (old, count, bytes)) = (count, bytes)

  -- The count of the root that an entry joins; the first entry is charged the files.
  unfoldable pub acquire : Option Root → Overlay V → Overlay V
  acquire none self = self
  acquire (some root) self =
      let (count, bytes) = counted root (get self.roots root.generation) in
      record self {
        bytes = if count == 0 then saturating_add self.bytes bytes else self.bytes;
        roots = OrderedMap.insert self.roots root.generation (root, count + 1, bytes);
      }

  unfoldable pub insert : ℕ × ℕ → V → Overlay V → Overlay V
  insert key value self =
      let previous = root_at (get self.entries key) in
      let moved =
        (if same_generation (generation_of previous) (generation_of (root_of value))
          then self
          else acquire (root_of value) (release previous self)) in
      record moved { entries = OrderedMap.insert moved.entries key value }

  -- `Extend::extend`
  unfoldable pub extend : List ((ℕ × ℕ) × V) → Overlay V → Overlay V
  extend [] self = self
  extend ((key, value) ∷ values) self = extend values (insert key value self)

-- ===== src/Database/Group/Published.antt =====
-- What the batches of a group leave in the committed state (database.rs), read by keys.
use mathlib.Core.Path.{subst}
use eve_db.Base.{
  ℕ, suc, ◌≡◌, refl, sym, ap, ◌∙◌, Option, none, some, List, [], ◌∷◌, map, All, Error, Result, ok,
  Bool-cases, inl, inr, if◌then◌else◌,
}
use eve_db.Base.Order.{nat_ord, pair_ord, same, same-eq}
use eve_db.Base.Assoc.{lookup, upsert, IsSorted, Above, lookup-Above}
use eve_db.OrderedMap
use eve_db.OrderedMap.{Tree, get}
use eve_db.OrderedMap.Contents.{IsOrdered}
use eve_db.OrderedMap.Reads.{get-insert}
use eve_db.OrderedMap.Updates.{insert-IsOrdered}
use eve_db.Overlay.Counts.{insert-entries}
use eve_db.Resources.{Reservation}
use eve_db.Model.History.{EntityData}
use eve_db.Database.Catalog.{Catalog}
use eve_db.Database.Group.{Prepared, Engine}
use eve_db.Database.Group.Publication.{
  sealed, root_of, publish_entities, refresh_overlay_bytes, publish_state, publish_all,
}

-- The entity that the group has under the key: that of the first list where it has one.
abbrev pub or_else {ℓ} : {A : Type ℓ} → Option A → Option A → Option A
or_else none old = old
or_else (some a) old = some a

-- The entity of a key after the batches: of the last batch that staged it, sealed at the sequence
-- of the batch, and as before where none staged it.
abbrev pub entity_after : ℕ → List (ℕ × Prepared) → ℕ × ℕ → Option EntityData → Option EntityData
entity_after first [] key old = old
entity_after first ((index, batch) ∷ more) key old =
    entity_after (suc first) more key
      (or_else (lookup key (map (sealed first batch.reservation) batch.staged)) old)

-- The catalog of the last batch.
abbrev pub catalog_after : List (ℕ × Prepared) → Catalog → Catalog
catalog_after [] old = old
catalog_after ((index, batch) ∷ more) old = catalog_after more batch.catalog

-- The staged entities are a map: their keys ascend.
abbrev pub AreMaps : List (ℕ × Prepared) → Type 0
AreMaps batches = All (λ b. IsSorted b.1.staged) batches

Above-sealed :
    (lsn : ℕ) (r : Reservation) (key : ℕ × ℕ) (es : List ((ℕ × ℕ) × EntityData))
    → Above key es
    → Above key (map (sealed lsn r) es)
Above-sealed lsn r key [] h = tt
Above-sealed lsn r key (e ∷ es) h = (h.0, Above-sealed lsn r key es h.1)

IsSorted-sealed :
    (lsn : ℕ) (r : Reservation) (es : List ((ℕ × ℕ) × EntityData))
    → IsSorted es
    → IsSorted (map (sealed lsn r) es)
IsSorted-sealed lsn r [] h = tt
IsSorted-sealed lsn r (e ∷ es) h = (Above-sealed lsn r e.0 es h.0, IsSorted-sealed lsn r es h.1)

-- One entity that is published, and those after it.
or_else-insert :
    (t : Tree (ℕ × ℕ) EntityData) (k key : ℕ × ℕ) (found : EntityData)
    (more : List ((ℕ × ℕ) × EntityData))
    → IsOrdered t
    → Above k more
    → or_else (lookup key more) (get (OrderedMap.insert t k found) key)
      ≡ or_else (lookup key ((k, found) ∷ more)) (get t key)
unfolding lookup
or_else-insert t k key found more s above = elim (Bool-cases (same key k)) [
  | inl y ↦
      let e = lookup-Above more k above in
      let none_after : lookup key more ≡ none =
        subst (λ j. lookup j more ≡ none) (sym (same-eq key k y)) e in
      rw (get-insert t k found key s, none_after, y, if◌then◌else◌) refl
  | inr x ↦ rw (get-insert t k found key s, x, if◌then◌else◌) refl
]

publish_entities-get :
    (entities : List ((ℕ × ℕ) × EntityData)) (db : Engine) (key : ℕ × ℕ)
    → IsSorted entities
    → IsOrdered db.state.overlay.entries
    → (get (publish_entities entities db).state.overlay.entries key
        ≡ or_else (lookup key entities) (get db.state.overlay.entries key))
      × IsOrdered (publish_entities entities db).state.overlay.entries
unfolding publish_entities lookup
publish_entities-get [] db key h s = (refl, s)
publish_entities-get ((k, found) ∷ more) db key h s =
    let same_entries = insert-entries root_of db.state.overlay k found in
    let ordered =
      subst IsOrdered (sym same_entries) (insert-IsOrdered db.state.overlay.entries k found s) in
    let rest = publish_entities-get more _ key h.1 ordered in
    (
      rest.0
          ∙ (ap (λ t. or_else (lookup key more) (get t key)) same_entries
              ∙ or_else-insert db.state.overlay.entries k key found more s h.0),
      rest.1,
    )

-- What the entities do not change.
pub publish_entities-frame :
    (entities : List ((ℕ × ℕ) × EntityData)) (db : Engine)
    → ((publish_entities entities db).wal ≡ db.wal)
      × ((publish_entities entities db).state.catalog ≡ db.state.catalog)
unfolding publish_entities
publish_entities-frame [] db = (refl, refl)
publish_entities-frame ((key, found) ∷ more) db = publish_entities-frame more _

pub publish_all-catalog :
    (first : ℕ) (batches : List (ℕ × Prepared)) (results : List (ℕ × Result Error ℕ)) (db : Engine)
    → (publish_all first batches results db).1.state.catalog
      ≡ catalog_after batches db.state.catalog
unfolding publish_all publish_state refresh_overlay_bytes
publish_all-catalog first [] results db = refl
publish_all-catalog first ((i, batch) ∷ more) results db =
    publish_all-catalog (suc first) more (upsert i (ok first) results)
      (publish_state first batch db)
    ∙ ap (catalog_after more)
        (publish_entities-frame (map (sealed first batch.reservation) batch.staged) _).1

pub publish_all-get :
    (first : ℕ) (batches : List (ℕ × Prepared)) (results : List (ℕ × Result Error ℕ)) (db : Engine)
    (key : ℕ × ℕ)
    → AreMaps batches
    → IsOrdered db.state.overlay.entries
    → get (publish_all first batches results db).1.state.overlay.entries key
      ≡ entity_after first batches key (get db.state.overlay.entries key)
unfolding publish_all publish_state refresh_overlay_bytes
publish_all-get first [] results db key m s = refl
publish_all-get first ((i, batch) ∷ more) results db key m s =
    let entities = map (sealed first batch.reservation) batch.staged in
    let (read, ordered) =
      publish_entities-get entities
        (record db {
          state = record db.state {
            charges = OrderedMap.insert db.state.charges first batch.reservation;
            catalog = batch.catalog;
          };
        })
        key (IsSorted-sealed first batch.reservation batch.staged m.0) s in
    publish_all-get (suc first) more (upsert i (ok first) results) (publish_state first batch db)
      key m.1 ordered
    ∙ ap (entity_after (suc first) more key) read

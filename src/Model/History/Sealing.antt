-- ===== src/Model/History/Sealing.antt =====
-- `EntityData::seal` of model.rs: the new events join the committed ones.
use mathlib.Core.Path.{subst}
use mathlib.Core.List.{append-nil, append_assoc, map-append}
use eve_db.Base.{
  ℕ, ◌+◌, ◌≤◌, ◌<◌, ◌≡◌, refl, sym, ap, ◌∙◌, Bool, List, [], ◌∷◌, ◌++◌, map, All, All-append, arith,
  ok,
}
use eve_db.Base.Order.{nat_ord}
use eve_db.Base.Assoc.{Below, upsert, upsert-append_past}
use eve_db.OrderedMap.{Tree, insert}
use eve_db.OrderedMap.Contents.{to_list, IsOrdered}
use eve_db.OrderedMap.Updates.{to_list-insert, insert-IsOrdered}
use eve_db.Model.{Event, Table}
use eve_db.Model.History.{EntityData, apply_all, entity_at, commit_all, seal}
use eve_db.Model.History.Replay.{Numbered, apply_all-Numbered, up_to}
use eve_db.Model.History.Views.{log, IsHistory, entity_at-replay}

abbrev payloads : Tree ℕ Event → List Event
payloads t = map (λ e. e.1) (to_list t)

abbrev IsKeyed : List (ℕ × Event) → Type 0
IsKeyed = All (λ e. e.0 ≡ e.1.version)

Numbered-lt :
    (b : ℕ) (xs : List Event) (e : Event) (es : List Event)
    → Numbered b (xs ++ e ∷ es)
    → b < e.version
Numbered-lt b [] e es n = omega (arith, n.0)
Numbered-lt b (x ∷ xs) e es n = omega (arith, Numbered-lt (b + 1) xs e es n.1)

Numbered-Below :
    (b : ℕ) (cs : List (ℕ × Event)) (e : Event) (es : List Event)
    → IsKeyed cs
    → Numbered b (map (λ c. c.1) cs ++ e ∷ es)
    → Below e.version cs
unfolding nat_ord
Numbered-Below b [] e es k n = tt
Numbered-Below b (c ∷ cs) e es k n =
    let later = Numbered-lt (b + 1) (map (λ c. c.1) cs) e es n.1 in
    (ground (arith, later, k.0, n.0), Numbered-Below (b + 1) cs e es k.1 n.1)

-- One event that comes after all others.
to_list-commit :
    (b : ℕ) (t : Tree ℕ Event) (e : Event) (es : List Event)
    → IsOrdered t
    → IsKeyed (to_list t)
    → Numbered b (payloads t ++ e ∷ es)
    → to_list (insert t e.version e) ≡ to_list t ++ (e.version, e) ∷ []
unfolding upsert
to_list-commit b t e es o k n =
    to_list-insert t e.version e o
    ∙ ap (upsert e.version e) (sym (append-nil (to_list t)))
    ∙ upsert-append_past (to_list t) [] e.version e (Numbered-Below b (to_list t) e es k n)

-- What the committed events are after the new ones have joined them.
record Joins (t after : Tree ℕ Event) (es : List Event) : Type 0 where
  ordered : IsOrdered after
  keyed : IsKeyed (to_list after)
  joined : payloads after ≡ payloads t ++ es

commit_all-Joins :
    (b : ℕ) (es : List Event) (t : Tree ℕ Event)
    → IsOrdered t
    → IsKeyed (to_list t)
    → Numbered b (payloads t ++ es)
    → Joins t (commit_all es t) es
unfolding commit_all
commit_all-Joins b [] t o k n = record { ordered = o; keyed = k; joined = sym (append-nil _) }
commit_all-Joins b (e ∷ es) t o k n =
    let t' = insert t e.version e in
    let last = to_list-commit b t e es o k n in
    let keyed : IsKeyed (to_list t') =
      subst IsKeyed (sym last) (All-append _ (to_list t) ((e.version, e) ∷ []) k (refl, tt)) in
    let step : payloads t' ≡ payloads t ++ e ∷ [] =
      ap (map (λ c. c.1)) last ∙ map-append (λ c. c.1) (to_list t) ((e.version, e) ∷ []) in
    let whole : payloads t' ++ es ≡ payloads t ++ e ∷ es =
      ap (λ x. x ++ es) step ∙ append_assoc (payloads t) (e ∷ []) es in
    let rest =
      commit_all-Joins b es t' (insert-IsOrdered t e.version e o) keyed
        (subst (Numbered b) (sym whole) n) in
    record { ordered = rest.ordered; keyed = rest.keyed; joined = rest.joined ∙ whole }

log-seal : (table : Table) (self : EntityData) → IsHistory table self → log (seal self) ≡ log self
unfolding seal
log-seal table self i =
    append-nil _
    ∙ (commit_all-Joins self.base.version self.events self.committed i.ordered i.keyed
        (apply_all-Numbered table self.base self.current (log self) i.whole)).joined

seal-IsHistory :
    (table : Table) (self : EntityData) → IsHistory table self → IsHistory table (seal self)
unfolding seal
seal-IsHistory table self i =
    let same = log-seal table self i in
    let done =
      commit_all-Joins self.base.version self.events self.committed i.ordered i.keyed
        (apply_all-Numbered table self.base self.current (log self) i.whole) in
    record {
      no_disk = i.no_disk;
      ordered = done.ordered;
      keyed = done.keyed;
      whole = ap (apply_all table self.base) same ∙ i.whole;
      snapshots_ordered = i.snapshots_ordered;
      snapshots_valid =
          subst
            (λ es.
              All
                (λ e.
                  (e.0 ≡ e.1.version)
                  × (self.base.version ≤ e.0 → apply_all table self.base (up_to e.0 es) ≡ ok e.1))
                (to_list self.snapshots))
            (sym same) i.snapshots_valid;
    }

-- Sealing keeps the parts of an entity in agreement and changes no state that can be read, at any
-- version from the base's to the current one, with snapshots or without: for an entity whose parts
-- agree and that has no history on disk.
pub entity_at-seal :
    (table : Table) (self : EntityData) (v : ℕ) (use_snapshots : Bool)
    → IsHistory table self
    → self.base.version ≤ v
    → v ≤ self.current.version
    → IsHistory table (seal self)
      × (entity_at table v use_snapshots (seal self) ≡ entity_at table v use_snapshots self)
unfolding seal
entity_at-seal table self v use_snapshots i low high =
    let after = seal-IsHistory table self i in
    let (s, a, b, c) = entity_at-replay table self v use_snapshots i low high in
    let (t, d, e, f) = entity_at-replay table (seal self) v use_snapshots after low high in
    (
      after,
      d
          ∙ sym e
          ∙ ap (λ es. apply_all table self.base (up_to v es)) (log-seal table self i)
          ∙ b
          ∙ sym a,
    )

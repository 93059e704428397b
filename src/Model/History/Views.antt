-- ===== src/Model/History/Views.antt =====
-- What an entity was at a version, for entities whose history is in memory.
use mathlib.Core.Path.{subst}
use eve_db.Base.{
  ℕ, ◌+◌, ◌≤◌, ◌≡◌, refl, sym, ap, ◌∙◌, Bool, true, false, ◌&&◌, ◌||◌, Option, none, some, List, [],
  ◌∷◌, ◌++◌, map, keep, All, length, ltb, leb, ◌==◌, arith, Error, Result, ok, ◌>>=◌, Bool-cases,
  Option-cases, inl, inr, if◌then◌else◌, keep-append,
}
use eve_db.Base.Order.{nat_ord, at_most}
use eve_db.Base.Assoc.{last_up_to}
use eve_db.OrderedMap.{excluded, included, floor}
use eve_db.OrderedMap.Contents.{to_list, IsOrdered}
use eve_db.OrderedMap.Ranges.{contains, collect-range}
use eve_db.OrderedMap.Reads.{floor-eq-last_up_to}
use eve_db.Model.{Entity, Event, Table}
use eve_db.Model.History.{
  EntityData, apply_all, apply_later, start, from_disk, committed_between, entity_at,
}
use eve_db.Model.History.Replay.{
  up_to, above, apply_all-Numbered, apply_all-append, above-Numbered, up_to-Numbered,
  up_to-Numbered_before, up_to-split, apply_later-eq, apply_all-up_to, apply_all-ge, up_to-whole,
}

-- All events after the base, in order.
abbrev pub log : EntityData → List Event
log self = map (λ e. e.1) (to_list self.committed) ++ self.events

abbrev pub IsSnapshot : Table → EntityData → ℕ × Entity → Type 0
IsSnapshot table self e =
    (e.0 ≡ e.1.version)
    × (self.base.version ≤ e.0 → apply_all table self.base (up_to e.0 (log self)) ≡ ok e.1)

-- The parts of an entity agree: the current state is the replay of the log from the base, and so is
-- each snapshot, up to its version; the maps are keyed by the versions. No history is on disk.
pub record IsHistory (table : Table) (self : EntityData) : Type 0 where
  pub no_disk : self.disk ≡ none
  pub ordered : IsOrdered self.committed
  pub keyed : All (λ e. e.0 ≡ e.1.version) (to_list self.committed)
  pub whole : apply_all table self.base (log self) ≡ ok self.current
  pub snapshots_ordered : IsOrdered self.snapshots
  pub snapshots_valid : All (IsSnapshot table self) (to_list self.snapshots)

-- A state that replaying the log gives, on the way to a version.
abbrev Reached : Table → EntityData → ℕ → Entity → Type 0
Reached table self v s =
    (self.base.version ≤ s.version)
    × (s.version ≤ v)
    × (apply_all table self.base (up_to s.version (log self)) ≡ ok s)

some_injective : (x f : ℕ × Entity) → some x ≡ some f → x ≡ f
some_injective x f k = ground arith

chosen :
    {P : ℕ × Entity → Type 0} (key : ℕ) (b : Bool) (x f : ℕ × Entity) (found : Option (ℕ × Entity))
    → (b ≡ true → x.0 ≤ key)
    → ((g : ℕ × Entity) → found ≡ some g → (g.0 ≤ key) × P g)
    → P x
    → (if b then some x else found) ≡ some f
    → (f.0 ≤ key) × P f
chosen {P = P} key true x f found low h p k =
    subst (λ g. (g.0 ≤ key) × P g) (some_injective x f k) (low refl, p)
chosen key false x f found low h p k = h f k

last_up_to-All :
    {P : ℕ × Entity → Type 0} (key : ℕ) (es : List (ℕ × Entity)) (found : Option (ℕ × Entity))
    (e : ℕ × Entity)
    → ((f : ℕ × Entity) → found ≡ some f → (f.0 ≤ key) × P f)
    → All P es
    → last_up_to found key es ≡ some e
    → (e.0 ≤ key) × P e
unfolding last_up_to nat_ord
last_up_to-All key [] found e h all eq = h e eq
last_up_to-All key (x ∷ es) found e h all eq =
    last_up_to-All key es (if at_most x.0 key then some x else found) e
      (λ f k. chosen key (at_most x.0 key) x f found (λ y. ground arith) h all.0 k) all.1 eq

base-Reached :
    (table : Table) (self : EntityData) (v : ℕ)
    → IsHistory table self
    → self.base.version ≤ v
    → Reached table self v self.base
unfolding apply_all
base-Reached table self v i h =
    let none_before =
      up_to-Numbered_before self.base.version self.base.version (log self) (omega arith)
        (apply_all-Numbered table self.base self.current (log self) i.whole) in
    (omega arith, h, rw none_before refl)

start-Reached :
    (table : Table) (self : EntityData) (v : ℕ) (use_snapshots : Bool)
    → IsHistory table self
    → self.base.version ≤ v
    → Reached table self v (start self v use_snapshots)
unfolding start
start-Reached table self v false i h = base-Reached table self v i h
start-Reached table self v true i h = elim (Option-cases (floor self.snapshots v)) [
  | inl e ↦ rw (e, start) (base-Reached table self v i h)
  | inr ((key, snapshot), e) ↦
      let (low, (keyed, whole)) =
        last_up_to-All v (to_list self.snapshots) none (key, snapshot)
          (λ f k. absurd (ground arith)) i.snapshots_valid
          (sym (floor-eq-last_up_to self.snapshots v i.snapshots_ordered) ∙ e) in
      elim (Bool-cases (leb self.base.version snapshot.version)) [
        | inl y ↦
            rw (e, start)
              (rw (y, if◌then◌else◌)
                (
                  ground arith,
                  ground arith,
                  subst (λ n. apply_all table self.base (up_to n (log self)) ≡ ok snapshot) keyed
                      (whole (ground arith)),
                ))
        | inr x ↦ rw (e, start) (rw (x, if◌then◌else◌) (base-Reached table self v i h))
      ]
]

contained :
    (w v : ℕ) (es : List (ℕ × Event))
    → All (λ e. e.0 ≡ e.1.version) es
    → map (λ e. e.1) (keep (λ e. contains (excluded w) (included v) e.0) es)
      ≡ above w (up_to v (map (λ e. e.1) es))
unfolding nat_ord
contained w v [] k = refl
contained w v (e ∷ es) k = ground (arith, contained w v es k.1)

committed_between-eq :
    (table : Table) (self : EntityData) (w v : ℕ)
    → IsHistory table self
    → committed_between self w v ≡ above w (up_to v (map (λ e. e.1) (to_list self.committed)))
unfolding committed_between
committed_between-eq table self w v i =
    ap (map (λ e. e.1)) (
      collect-range self.committed (excluded w) (included v) (length (to_list self.committed) + 1)
        i.ordered (omega arith))
    ∙ contained w v (to_list self.committed) i.keyed

ok_injective : (s t : Entity) → ◌≡◌ {A = Result Error Entity} (ok s) (ok t) → s ≡ t
ok_injective s t h = ground arith

above-above : (w u : ℕ) (es : List Event) → w ≤ u → above u (above w es) ≡ above u es
above-above w u [] h = refl
above-above w u (e ∷ es) h = ground (arith, above-above w u es h)

-- The loops of `at`, from a state on the way, give the replay up to the version.
loops-replay :
    (table : Table) (self : EntityData) (v : ℕ) (s r : Entity)
    → IsHistory table self
    → Reached table self v s
    → apply_all table self.base (up_to v (log self)) ≡ ok r
    → (m : Entity) × (apply_all table s (committed_between self s.version v) ≡ ok m)
      × (apply_later table m (up_to v self.events) ≡ ok r)
loops-replay table self v s r i h e =
    let committed = map (λ x. x.1) (to_list self.committed) in
    let w = s.version in
    let numbered = apply_all-Numbered table self.base self.current (log self) i.whole in
    let split : apply_all table self.base (up_to w (log self) ++ above w (up_to v (log self)))
        ≡ ok r =
      ap (apply_all table self.base)
        (sym (up_to-split self.base.version w v (log self) h.1 numbered))
      ∙ e in
    let (s', a, b) =
      apply_all-append table self.base r (up_to w (log self)) (above w (up_to v (log self)))
        split in
    let later = up_to v self.events in
    let same : s' ≡ s = ok_injective s' s (sym a ∙ h.2) in
    let cut : above w (up_to v (log self)) ≡ above w (up_to v committed) ++ above w later =
      ap (above w) (keep-append _ committed self.events)
      ∙ keep-append _ (up_to v committed) later in
    let b' : apply_all table s (above w (up_to v committed) ++ above w later) ≡ ok r =
      subst (λ x. apply_all table x (above w (up_to v committed) ++ above w later) ≡ ok r) same
        (subst (λ es. apply_all table s' es ≡ ok r) cut b) in
    let (m, c, d) = apply_all-append table s r (above w (up_to v committed)) (above w later) b' in
    let (k, _, f) = apply_all-append table self.base self.current committed self.events i.whole in
    let passed : above m.version later ≡ above w later =
      sym (above-above w m.version later (apply_all-ge table s m _ c))
      ∙ above-Numbered m.version m.version (above w later) (omega arith)
          (apply_all-Numbered table m r (above w later) d) in
    let rest : apply_later table m later ≡ ok r =
      apply_later-eq table k.version m later (
        up_to-Numbered k.version v self.events
          (apply_all-Numbered table k self.current self.events f))
      ∙ ap (apply_all table m) passed
      ∙ d in
    (m, rw (committed_between-eq table self w v i) c, rest)

-- At every version from the base's to the current one, the state that is read, with snapshots or
-- without, is the replay of the log from the base up to that version, it exists, and it has that
-- version: for an entity whose parts agree and that has no history on disk.
pub entity_at-replay :
    (table : Table) (self : EntityData) (v : ℕ) (use_snapshots : Bool)
    → IsHistory table self
    → self.base.version ≤ v
    → v ≤ self.current.version
    → (s : Entity) × (entity_at table v use_snapshots self ≡ ok s)
      × (apply_all table self.base (up_to v (log self)) ≡ ok s)
      × (s.version ≡ v)
unfolding entity_at from_disk start
entity_at-replay table self v use_snapshots i low high =
    let (r, e, same) = apply_all-up_to table self.base self.current (log self) v i.whole low high in
    let outside : (ltb v self.base.version || ltb self.current.version v) ≡ false = ground arith in
    let s = start self v use_snapshots in
    let disk : from_disk self v use_snapshots s ≡ ok s = rw (i.no_disk, from_disk) refl in
    let (m, c, d) =
      loops-replay table self v s r i (start-Reached table self v use_snapshots i low) e in
    let whole : (use_snapshots && v == self.current.version) ≡ true
        → log self ≡ up_to v (log self) =
      λ y.
        let top : self.current.version ≡ v = ground (arith, y) in
        sym (up_to-whole table self.base self.current (log self) i.whole)
        ∙ ap (λ n. up_to n (log self)) top in
    let last : (r.version == v) ≡ true = ground (arith, same) in
    (
      r,
      rw (outside, if◌then◌else◌)
          (elim (Bool-cases (use_snapshots && v == self.current.version)) [
            | inl y ↦
                rw (y, if◌then◌else◌) (sym i.whole ∙ ap (apply_all table self.base) (whole y) ∙ e)
            | inr x ↦
                rw (x, if◌then◌else◌)
                  (rw (disk, ◌>>=◌) (rw (c, ◌>>=◌) (rw (d, ◌>>=◌) (rw (last, if◌then◌else◌) refl))))
          ]),
      e,
      same,
    )

-- ===== src/Model/History/Replay.antt =====
-- Replaying events with `apply_event` of model.rs: versions, cuts and resumption.
use mathlib.Core.Path.{subst}
use eve_db.Base.{
  ℕ, ◌+◌, ◌≤◌, ◌≡◌, refl, sym, List, [], ◌∷◌, ◌++◌, keep, ltb, leb, arith, Error, Result, ok, err,
  ◌>>=◌, Bool-cases, inl, inr, if◌then◌else◌, ◌⊎◌,
}
use eve_db.Model.{Entity, Event, Table}
use eve_db.Model.History.{apply_event, apply_all, apply_later}

abbrev pub up_to : ℕ → List Event → List Event
up_to v = keep (λ e. leb e.version v)

abbrev pub above : ℕ → List Event → List Event
above v = keep (λ e. ltb v e.version)

-- The versions count up from the one after `b`.
abbrev pub Numbered : ℕ → List Event → Type 0
Numbered b [] = Unit
Numbered b (e ∷ es) = (e.version ≡ b + 1) × Numbered (b + 1) es

apply_event-version :
    (table : Table) (s next : Entity) (e : Event)
    → apply_event table s e ≡ ok next
    → (e.version ≡ s.version + 1) × (next.version ≡ s.version + 1)
unfolding apply_event
apply_event-version table s next e h = ground arith

Result-cases : (r : Result Error Entity) → ((s : Entity) × (r ≡ ok s)) ⊎ ((e : Error) × (r ≡ err e))
Result-cases (ok s) = inl (s, refl)
Result-cases (err e) = inr (e, refl)

-- The first event of a replay that succeeds.
pub apply_all-step :
    (table : Table) (s c : Entity) (e : Event) (es : List Event)
    → apply_all table s (e ∷ es) ≡ ok c
    → (next : Entity) × (apply_event table s e ≡ ok next)
      × (e.version ≡ s.version + 1)
      × (next.version ≡ s.version + 1)
      × (apply_all table next es ≡ ok c)
unfolding apply_all
apply_all-step table s c e es h = elim (Result-cases (apply_event table s e)) [
  | inl (next, k) ↦
      let v = apply_event-version table s next e k in (next, k, v.0, v.1, ground arith)
  | inr (f, k) ↦ absurd (ground arith)
]

pub apply_all-Numbered :
    (table : Table) (s c : Entity) (es : List Event)
    → apply_all table s es ≡ ok c
    → Numbered s.version es
apply_all-Numbered table s c [] h = tt
apply_all-Numbered table s c (e ∷ es) h =
    let (next, k, v, w, rest) = apply_all-step table s c e es h in
    (v, subst (λ n. Numbered n es) w (apply_all-Numbered table next c es rest))

pub apply_all-ge :
    (table : Table) (s c : Entity) (es : List Event)
    → apply_all table s es ≡ ok c
    → s.version ≤ c.version
unfolding apply_all
apply_all-ge table s c [] h = ground arith
apply_all-ge table s c (e ∷ es) h =
    let (next, k, v, w, rest) = apply_all-step table s c e es h in
    omega (arith, w, apply_all-ge table next c es rest)

pub apply_all-append :
    (table : Table) (s c : Entity) (xs ys : List Event)
    → apply_all table s (xs ++ ys) ≡ ok c
    → (m : Entity) × (apply_all table s xs ≡ ok m) × (apply_all table m ys ≡ ok c)
unfolding apply_all
apply_all-append table s c [] ys h = (s, refl, h)
apply_all-append table s c (x ∷ xs) ys h =
    let (next, k, v, w, rest) = apply_all-step table s c x (xs ++ ys) h in
    let (m, a, b) = apply_all-append table next c xs ys rest in (m, rw (k, ◌>>=◌) a, b)

pub above-Numbered : (b v : ℕ) (es : List Event) → v ≤ b → Numbered b es → above v es ≡ es
above-Numbered b v [] h n = refl
above-Numbered b v (e ∷ es) h n = ground (arith, above-Numbered (b + 1) v es)

pub up_to-Numbered_before : (b v : ℕ) (es : List Event) → v ≤ b → Numbered b es → up_to v es ≡ []
up_to-Numbered_before b v [] h n = refl
up_to-Numbered_before b v (e ∷ es) h n = ground (arith, up_to-Numbered_before (b + 1) v es)

pub up_to-Numbered : (b v : ℕ) (es : List Event) → Numbered b es → Numbered b (up_to v es)
up_to-Numbered b v [] n = tt
up_to-Numbered b v (e ∷ es) n = elim (Bool-cases (leb e.version v)) [
  | inl y ↦ rw (y, if◌then◌else◌) (n.0, up_to-Numbered (b + 1) v es n.1)
  | inr x ↦ rw (x, if◌then◌else◌) (rw (up_to-Numbered_before (b + 1) v es (ground arith) n.1) tt)
]

-- A cut of the events at a version, and the rest.
pub up_to-split :
    (b w v : ℕ) (es : List Event)
    → w ≤ v
    → Numbered b es
    → up_to v es ≡ up_to w es ++ above w (up_to v es)
up_to-split b w v [] h n = refl
up_to-split b w v (e ∷ es) h n = elim (Bool-cases (leb e.version w)) [
  | inl y ↦ ground (arith, up_to-split (b + 1) w v es h n.1)
  | inr x ↦
      let none_before : up_to w (e ∷ es) ≡ [] =
        up_to-Numbered_before b w (e ∷ es) (ground arith) n in
      rw none_before
        (sym (above-Numbered b w (up_to v (e ∷ es)) (ground arith) (up_to-Numbered b v (e ∷ es) n)))
]

-- Passing over what the state has is replaying what is above its version.
pub apply_later-eq :
    (table : Table) (b : ℕ) (s : Entity) (es : List Event)
    → Numbered b es
    → apply_later table s es ≡ apply_all table s (above s.version es)
unfolding apply_later apply_all
apply_later-eq table b s [] n = refl
apply_later-eq table b s (e ∷ es) n = elim (Bool-cases (ltb s.version e.version)) [
  | inr x ↦ ground (arith, apply_later-eq table (b + 1) s es n.1)
  | inl y ↦ elim (Result-cases (apply_event table s e)) [
    | inr (f, k) ↦ ground (arith, y, k)
    | inl (next, k) ↦
        let v = apply_event-version table s next e k in
        let rest = apply_later-eq table (b + 1) next es n.1 in
        let here = above-Numbered (b + 1) next.version es (omega (arith, v, n.0)) n.1 in
        let there = above-Numbered (b + 1) s.version es (omega (arith, v, n.0)) n.1 in
        ground (arith, y, k, rest, here, there)
  ]
]

-- A replay that succeeds can be stopped at any version on its way.
pub apply_all-up_to :
    (table : Table) (s c : Entity) (es : List Event) (v : ℕ)
    → apply_all table s es ≡ ok c
    → s.version ≤ v
    → v ≤ c.version
    → (m : Entity) × (apply_all table s (up_to v es) ≡ ok m) × (m.version ≡ v)
unfolding apply_all
apply_all-up_to table s c [] v h a b = (s, refl, ground arith)
apply_all-up_to table s c (e ∷ es) v h a b =
    let (next, k, p, q, rest) = apply_all-step table s c e es h in
    elim (Bool-cases (leb e.version v)) [
      | inl y ↦
          let (m, r, w) = apply_all-up_to table next c es v rest (ground arith) b in
          (m, rw (y, if◌then◌else◌) (rw (k, ◌>>=◌) r), w)
      | inr x ↦ (
        s,
        rw
            (up_to-Numbered_before s.version v (e ∷ es) (ground arith)
              (apply_all-Numbered table s c (e ∷ es) h))
            refl,
        ground arith,
      )
    ]

pub up_to-whole :
    (table : Table) (s c : Entity) (es : List Event)
    → apply_all table s es ≡ ok c
    → up_to c.version es ≡ es
up_to-whole table s c [] h = refl
up_to-whole table s c (e ∷ es) h =
    let (next, k, p, q, rest) = apply_all-step table s c e es h in
    ground (arith, p, q, apply_all-ge table next c es rest, up_to-whole table next c es rest)

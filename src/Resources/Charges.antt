-- ===== src/Resources/Charges.antt =====
-- The counters of resources.rs and the sums of the charges that are alive.
use mathlib.Core.Path.{subst}
use eve_db.Base.{
  ℕ, zero, suc, ◌^◌, ◌%◌, ◌<◌, ◌≡◌, refl, Option, none, some, List, [], ◌∷◌, arith, All, ap, ◌∙◌,
  sym,
}
use eve_db.Resources.{
  Limits, ResourceUsage, no_usage, PermitKind, admit_transaction, admit_snapshot, drop_permit,
  grow_decoded, recover, grow, drop_reservation, MemoryKind, grow_memory, new_memory, drop_memory,
}
use eve_db.Resources.Holders.{
  begins, pins, reserves, buffers, calls, grows_decoded, recovers, grows, grows_memory, drops,
  Holder, decoded_of, resident_of, read_of, scratch_of, pinned_of, plus, total, Call, call, kept,
  call_at, Action, State, act, run,
}

-- The counters are the totals, modulo the width of a `usize`.
pub record Counts (usage t : ResourceUsage) : Type 0 where
  pub decoded : usage.decoded_write_bytes ≡ t.decoded_write_bytes % 2 ^ 64
  pub reading : usage.read_memory_bytes ≡ t.read_memory_bytes % 2 ^ 64
  pub scratch : usage.scratch_bytes ≡ t.scratch_bytes % 2 ^ 64
  pub active : usage.transactions ≡ t.transactions % 2 ^ 64
  pub pinning : usage.snapshots ≡ t.snapshots % 2 ^ 64
  pub pinned : usage.pinned_bytes ≡ t.pinned_bytes % 2 ^ 64
  pub resident : usage.resident_write_bytes ≡ t.resident_write_bytes % 2 ^ 64

-- The sizes are values of a `usize`.
abbrev pub Fits : Holder → Type 0
Fits h =
    (decoded_of h < 2 ^ 64)
    × (resident_of h < 2 ^ 64)
    × (read_of h < 2 ^ 64)
    × (scratch_of h < 2 ^ 64)
    × (pinned_of h < 2 ^ 64)

abbrev pub present : Option Holder → ResourceUsage → ResourceUsage
present none t = t
present (some h) t = plus h t

abbrev pub FitsOption : Option Holder → Type 0
FitsOption none = Unit
FitsOption (some h) = Fits h

-- What a call keeps, for any charges of others.
abbrev Balances : Option Holder × ResourceUsage → ResourceUsage → Type 0
Balances r t = FitsOption r.0 × Counts r.1 (present r.0 t)

-- Each call keeps the sizes in range and the counters at their sums.
call-Balances :
    (l : Limits) (c : Call) (h : Holder) (usage t : ResourceUsage)
    → Fits h
    → Counts usage (plus h t)
    → Balances (call l c h usage) t
unfolding call grow_decoded recover grow grow_memory drop_permit drop_reservation drop_memory
call-Balances l (grows_decoded bytes recovery) (Holder.reserved r) usage t f h = ground arith
call-Balances l (recovers bytes) (Holder.reserved r) usage t f h = ground arith
call-Balances l (grows bytes) (Holder.reserved r) usage t f h = ground arith
call-Balances l (grows_memory bytes recovery) (Holder.memory m) usage t f h = ground arith
call-Balances l drops (Holder.permit PermitKind.transaction) usage t f h = ground arith
call-Balances l drops (Holder.permit (PermitKind.snapshot bytes)) usage t f h = ground arith
call-Balances l drops (Holder.reserved r) usage t f h = ground arith
call-Balances l drops (Holder.memory m) usage t f h = ground arith
call-Balances l (grows_decoded bytes recovery) (Holder.permit k) usage t f h = (f, h)
call-Balances l (grows_decoded bytes recovery) (Holder.memory m) usage t f h = (f, h)
call-Balances l (recovers bytes) (Holder.permit k) usage t f h = (f, h)
call-Balances l (recovers bytes) (Holder.memory m) usage t f h = (f, h)
call-Balances l (grows bytes) (Holder.permit k) usage t f h = (f, h)
call-Balances l (grows bytes) (Holder.memory m) usage t f h = (f, h)
call-Balances l (grows_memory bytes recovery) (Holder.permit k) usage t f h = (f, h)
call-Balances l (grows_memory bytes recovery) (Holder.reserved r) usage t f h = (f, h)

plus_comm : (g h : Holder) (t : ResourceUsage) → plus g (plus h t) ≡ plus h (plus g t)
plus_comm g h t = ground arith

pub total-plus :
    (h : Holder) (hs : List Holder) (t : ResourceUsage) → total hs (plus h t) ≡ plus h (total hs t)
total-plus h [] t = refl
total-plus h (g ∷ hs) t = ap (plus g) (total-plus h hs t) ∙ plus_comm g h (total hs t)

kept-Counts :
    (o : Option Holder) (hs : List Holder) (usage t : ResourceUsage)
    → FitsOption o
    → All Fits hs
    → Counts usage (present o (total hs t))
    → All Fits (kept o hs) × Counts usage (total (kept o hs) t)
kept-Counts none hs usage t f fs h = (fs, h)
kept-Counts (some g) hs usage t f fs h = ((f, fs), h)

call_at-Counts :
    (l : Limits) (c : Call) (n : ℕ) (hs : List Holder) (usage t : ResourceUsage)
    → All Fits hs
    → Counts usage (total hs t)
    → All Fits (call_at l c n hs usage).0
      × Counts (call_at l c n hs usage).1 (total (call_at l c n hs usage).0 t)
unfolding call_at
call_at-Counts l c n [] usage t f h = (tt, h)
call_at-Counts l c zero (g ∷ hs) usage t f h =
    let (fits, counts) = call-Balances l c g usage (total hs t) f.0 h in
    kept-Counts (call l c g usage).0 hs _ t fits f.1 counts
call_at-Counts l c (suc n) (g ∷ hs) usage t f h =
    let (fits, counts) =
      call_at-Counts l c n hs usage (plus g t) f.1
        (subst (Counts usage) (sym (total-plus g hs t)) h) in
    ((f.0, fits), subst (Counts _) (total-plus g _ t) counts)

-- The pinned bytes are a `usize`.
abbrev pub IsAction : Action → Type 0
IsAction (pins bytes) = bytes < 2 ^ 64
IsAction begins = Unit
IsAction reserves = Unit
IsAction (buffers kind bytes recovery) = Unit
IsAction (calls n c) = Unit

act-Counts :
    (l : Limits) (s : State) (a : Action)
    → IsAction a
    → All Fits s.0
    → Counts s.1 (total s.0 no_usage)
    → All Fits (act l s a).0 × Counts (act l s a).1 (total (act l s a).0 no_usage)
unfolding act admit_transaction admit_snapshot new_memory grow_memory
act-Counts l s begins b f h = ground arith
act-Counts l s (pins bytes) b f h = ground arith
act-Counts l s reserves b f h = ground arith
act-Counts l s (buffers MemoryKind.read bytes recovery) b f h = ground arith
act-Counts l s (buffers MemoryKind.scratch bytes recovery) b f h = ground arith
act-Counts l s (calls n c) b f h = call_at-Counts l c n s.0 s.1 no_usage f h

run-Counts :
    (l : Limits) (actions : List Action) (s : State)
    → All IsAction actions
    → All Fits s.0
    → Counts s.1 (total s.0 no_usage)
    → Counts (run l actions s).1 (total (run l actions s).0 no_usage)
unfolding run
run-Counts l [] s b f h = h
run-Counts l (a ∷ actions) s b f h =
    let (fits, counts) = act-Counts l s a b.0 f h in
    run-Counts l actions (act l s a) b.1 fits counts

-- Whatever is asked for, admitted or refused, grown and dropped, from no usage, and whatever the
-- limits are: every counter is the sum of what the permits and reservations that are alive have been
-- charged, modulo 2 ^ 64, where the bytes of each pin are below 2 ^ 64.
pub run-exact :
    (l : Limits) (actions : List Action)
    → All IsAction actions
    → Counts (run l actions ([], no_usage)).1 (total (run l actions ([], no_usage)).0 no_usage)
run-exact l actions b = run-Counts l actions ([], no_usage) b tt (ground arith)

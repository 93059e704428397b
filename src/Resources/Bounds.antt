-- ===== src/Resources/Bounds.antt =====
-- The counters of resources.rs and their limits, outside of recovery.
use mathlib.Core.Path.{subst}
use eve_db.Base.{
  ℕ, zero, suc, ◌^◌, ◌<◌, ◌≤◌, ◌≡◌, false, Option, none, some, List, [], ◌∷◌, arith, All, sym,
}
use eve_db.Resources.{
  Limits, ResourceUsage, no_usage, check, PermitKind, admit_transaction, admit_snapshot,
  drop_permit, grow_decoded, recover, grow, drop_reservation, MemoryKind, grow_memory, new_memory,
  drop_memory,
}
use eve_db.Resources.Charges.{total-plus}
use eve_db.Resources.Holders.{
  begins, pins, reserves, buffers, calls, grows_decoded, recovers, grows, grows_memory, drops,
  Holder, plus, total, Call, call, kept, call_at, Action, State, act, run,
}

-- The counters are the totals, and within the limits.
pub record Within (l : Limits) (usage t : ResourceUsage) : Type 0 where
  pub decoded :
      (usage.decoded_write_bytes ≡ t.decoded_write_bytes)
      × (usage.decoded_write_bytes ≤ l.max_resident_decoded_write_bytes)
  pub reading :
      (usage.read_memory_bytes ≡ t.read_memory_bytes)
      × (usage.read_memory_bytes ≤ l.max_read_memory_bytes)
  pub scratch :
      (usage.scratch_bytes ≡ t.scratch_bytes) × (usage.scratch_bytes ≤ l.max_scratch_bytes)
  pub active : (usage.transactions ≡ t.transactions) × (usage.transactions ≤ l.max_transactions)
  pub pinning : (usage.snapshots ≡ t.snapshots) × (usage.snapshots ≤ l.max_snapshots)
  pub pinned : (usage.pinned_bytes ≡ t.pinned_bytes) × (usage.pinned_bytes ≤ l.max_pinned_bytes)
  pub resident :
      (usage.resident_write_bytes ≡ t.resident_write_bytes)
      × (usage.resident_write_bytes ≤ l.max_resident_write_bytes)

-- The limits are values of a `usize`.
pub record IsLimits (l : Limits) : Type 0 where
  pub decoded : l.max_resident_decoded_write_bytes < 2 ^ 64
  pub reading : l.max_read_memory_bytes < 2 ^ 64
  pub scratch : l.max_scratch_bytes < 2 ^ 64
  pub active : l.max_transactions < 2 ^ 64
  pub pinning : l.max_snapshots < 2 ^ 64
  pub pinned : l.max_pinned_bytes < 2 ^ 64
  pub resident : l.max_resident_write_bytes < 2 ^ 64

-- A call that recovery does not make.
abbrev pub IsChecked : Call → Type 0
IsChecked (grows_decoded bytes recovery) = recovery ≡ false
IsChecked (recovers bytes) = ⊥
IsChecked (grows bytes) = Unit
IsChecked (grows_memory bytes recovery) = recovery ≡ false
IsChecked drops = Unit

abbrev pub IsCheckedAction : Action → Type 0
IsCheckedAction (buffers kind bytes recovery) = recovery ≡ false
IsCheckedAction (calls n c) = IsChecked c
IsCheckedAction begins = Unit
IsCheckedAction (pins bytes) = Unit
IsCheckedAction reserves = Unit

abbrev present : Option Holder → ResourceUsage → ResourceUsage
present none t = t
present (some h) t = plus h t

call-Within :
    (l : Limits) (c : Call) (h : Holder) (usage t : ResourceUsage)
    → IsLimits l
    → IsChecked c
    → Within l usage (plus h t)
    → Within l (call l c h usage).1 (present (call l c h usage).0 t)
unfolding call grow_decoded recover grow grow_memory drop_permit drop_reservation drop_memory check
call-Within l (recovers bytes) h usage t i c k = absurd c
call-Within l (grows_decoded bytes recovery) (Holder.reserved r) usage t i c h = ground arith
call-Within l (grows bytes) (Holder.reserved r) usage t i c h = ground arith
call-Within l (grows_memory bytes recovery) (Holder.memory m) usage t i c h = ground arith
call-Within l drops (Holder.permit PermitKind.transaction) usage t i c h = ground arith
call-Within l drops (Holder.permit (PermitKind.snapshot bytes)) usage t i c h = ground arith
call-Within l drops (Holder.reserved r) usage t i c h = ground arith
call-Within l drops (Holder.memory m) usage t i c h = ground arith
call-Within l (grows_decoded bytes recovery) (Holder.permit k) usage t i c h = h
call-Within l (grows_decoded bytes recovery) (Holder.memory m) usage t i c h = h
call-Within l (grows bytes) (Holder.permit k) usage t i c h = h
call-Within l (grows bytes) (Holder.memory m) usage t i c h = h
call-Within l (grows_memory bytes recovery) (Holder.permit k) usage t i c h = h
call-Within l (grows_memory bytes recovery) (Holder.reserved r) usage t i c h = h

kept-Within :
    (l : Limits) (o : Option Holder) (hs : List Holder) (usage t : ResourceUsage)
    → Within l usage (present o (total hs t))
    → Within l usage (total (kept o hs) t)
kept-Within l none hs usage t h = h
kept-Within l (some g) hs usage t h = h

call_at-Within :
    (l : Limits) (c : Call) (n : ℕ) (hs : List Holder) (usage t : ResourceUsage)
    → IsLimits l
    → IsChecked c
    → Within l usage (total hs t)
    → Within l (call_at l c n hs usage).1 (total (call_at l c n hs usage).0 t)
unfolding call_at
call_at-Within l c n [] usage t i b h = h
call_at-Within l c zero (g ∷ hs) usage t i b h =
    kept-Within l (call l c g usage).0 hs _ t (call-Within l c g usage (total hs t) i b h)
call_at-Within l c (suc n) (g ∷ hs) usage t i b h = subst (Within l _) (total-plus g _ t) (
    call_at-Within l c n hs usage (plus g t) i b
      (subst (Within l usage) (sym (total-plus g hs t)) h))

act-Within :
    (l : Limits) (s : State) (a : Action)
    → IsLimits l
    → IsCheckedAction a
    → Within l s.1 (total s.0 no_usage)
    → Within l (act l s a).1 (total (act l s a).0 no_usage)
unfolding act admit_transaction admit_snapshot new_memory grow_memory check
act-Within l s begins i b h = ground arith
act-Within l s (pins bytes) i b h = ground arith
act-Within l s reserves i b h = ground arith
act-Within l s (buffers MemoryKind.read bytes recovery) i b h = ground arith
act-Within l s (buffers MemoryKind.scratch bytes recovery) i b h = ground arith
act-Within l s (calls n c) i b h = call_at-Within l c n s.0 s.1 no_usage i b h

run-Within_from :
    (l : Limits) (actions : List Action) (s : State)
    → IsLimits l
    → All IsCheckedAction actions
    → Within l s.1 (total s.0 no_usage)
    → Within l (run l actions s).1 (total (run l actions s).0 no_usage)
unfolding run
run-Within_from l [] s i b h = h
run-Within_from l (a ∷ actions) s i b h =
    run-Within_from l actions (act l s a) i b.1 (act-Within l s a i b.0 h)

-- Whatever is asked for, grown and dropped outside of recovery, from no usage, under limits below
-- 2 ^ 64: every counter is exactly the sum of what the permits and reservations that are alive have
-- been charged, and none is above its limit.
pub run-Within :
    (l : Limits) (actions : List Action)
    → IsLimits l
    → All IsCheckedAction actions
    → Within l (run l actions ([], no_usage)).1 (total (run l actions ([], no_usage)).0 no_usage)
run-Within l actions i b = run-Within_from l actions ([], no_usage) i b (ground arith)

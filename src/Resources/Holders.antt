-- ===== src/Resources/Holders.antt =====
-- The permits and reservations of resources.rs that are alive, what they have been charged, and the
-- calls of their owners.
use eve_db.Base.{ℕ, zero, suc, ◌+◌, Bool, Option, none, some, List, [], ◌∷◌, Error, Result, ok, err}
use eve_db.Resources.{
  Limits, ResourceUsage, PermitKind, admit_transaction, admit_snapshot, drop_permit, Reservation,
  new_reservation, grow_decoded, recover, grow, drop_reservation, MemoryKind, MemoryReservation,
  grow_memory, new_memory, drop_memory,
}

-- A value that gives back its charge when it is dropped.
pub data Holder : Type 0 where
  permit : PermitKind → Holder
  reserved : Reservation → Holder
  memory : MemoryReservation → Holder

-- The part of a holder in each counter.
abbrev pub decoded_of : Holder → ℕ
decoded_of (Holder.reserved r) = r.decoded_bytes
decoded_of (Holder.permit k) = 0
decoded_of (Holder.memory m) = 0

abbrev pub resident_of : Holder → ℕ
resident_of (Holder.reserved r) = r.bytes
resident_of (Holder.permit k) = 0
resident_of (Holder.memory m) = 0

abbrev pub memory_of : MemoryKind → MemoryReservation → ℕ
memory_of MemoryKind.read m = elim m.kind [ MemoryKind.read ↦ m.bytes | MemoryKind.scratch ↦ 0 ]
memory_of MemoryKind.scratch m = elim m.kind [ MemoryKind.read ↦ 0 | MemoryKind.scratch ↦ m.bytes ]

abbrev pub read_of : Holder → ℕ
read_of (Holder.memory m) = memory_of MemoryKind.read m
read_of (Holder.permit k) = 0
read_of (Holder.reserved r) = 0

abbrev pub scratch_of : Holder → ℕ
scratch_of (Holder.memory m) = memory_of MemoryKind.scratch m
scratch_of (Holder.permit k) = 0
scratch_of (Holder.reserved r) = 0

abbrev pub transactions_of : Holder → ℕ
transactions_of (Holder.permit PermitKind.transaction) = 1
transactions_of (Holder.permit (PermitKind.snapshot bytes)) = 0
transactions_of (Holder.reserved r) = 0
transactions_of (Holder.memory m) = 0

abbrev pub snapshots_of : Holder → ℕ
snapshots_of (Holder.permit PermitKind.transaction) = 0
snapshots_of (Holder.permit (PermitKind.snapshot bytes)) = 1
snapshots_of (Holder.reserved r) = 0
snapshots_of (Holder.memory m) = 0

abbrev pub pinned_of : Holder → ℕ
pinned_of (Holder.permit PermitKind.transaction) = 0
pinned_of (Holder.permit (PermitKind.snapshot bytes)) = bytes
pinned_of (Holder.reserved r) = 0
pinned_of (Holder.memory m) = 0

-- The charges of a holder together with those of others.
abbrev pub plus : Holder → ResourceUsage → ResourceUsage
plus h t = record {
  decoded_write_bytes = decoded_of h + t.decoded_write_bytes;
  read_memory_bytes = read_of h + t.read_memory_bytes;
  scratch_bytes = scratch_of h + t.scratch_bytes;
  transactions = transactions_of h + t.transactions;
  snapshots = snapshots_of h + t.snapshots;
  pinned_bytes = pinned_of h + t.pinned_bytes;
  resident_write_bytes = resident_of h + t.resident_write_bytes;
}

abbrev pub total : List Holder → ResourceUsage → ResourceUsage
total [] t = t
total (h ∷ hs) t = plus h (total hs t)

-- A method of a holder that is alive.
pub data Call : Type 0 where
  grows_decoded : ℕ → Bool → Call
  recovers : ℕ → Call
  grows : ℕ → Call
  grows_memory : ℕ → Bool → Call
  drops : Call

abbrev pub after {ℓ} :
    {A : Type ℓ}
    → (A → Holder)
    → A
    → ResourceUsage
    → Result Error (A × ResourceUsage)
    → Option Holder × ResourceUsage
after f a usage (ok (b, counted)) = (some (f b), counted)
after f a usage (err e) = (some (f a), usage)

-- What is left of the holder, and the counters. A method that the type of the holder does not have
-- does nothing.
unfoldable pub call : Limits → Call → Holder → ResourceUsage → Option Holder × ResourceUsage
call l (grows_decoded bytes recovery) (Holder.reserved r) usage =
    after Holder.reserved r usage (grow_decoded l bytes recovery r usage)
call l (recovers bytes) (Holder.reserved r) usage =
    let (more, counted) = recover bytes r usage in (some (Holder.reserved more), counted)
call l (grows bytes) (Holder.reserved r) usage =
    after Holder.reserved r usage (grow l bytes r usage)
call l (grows_memory bytes recovery) (Holder.memory m) usage =
    after Holder.memory m usage (grow_memory l bytes recovery m usage)
call l drops (Holder.permit k) usage = (none, drop_permit k usage)
call l drops (Holder.reserved r) usage = (none, drop_reservation r usage)
call l drops (Holder.memory m) usage = (none, drop_memory m usage)
call l c h usage = (some h, usage)

-- A call on the holder at a position; a position past the end is no call.
abbrev pub kept : Option Holder → List Holder → List Holder
kept none hs = hs
kept (some h) hs = h ∷ hs

unfoldable pub call_at :
    Limits → Call → ℕ → List Holder → ResourceUsage → List Holder × ResourceUsage
call_at l c n [] usage = ([], usage)
call_at l c zero (h ∷ hs) usage = let (left, counted) = call l c h usage in (kept left hs, counted)
call_at l c (suc n) (h ∷ hs) usage =
    let (rest, counted) = call_at l c n hs usage in (h ∷ rest, counted)

-- What a client does: it asks for a permit or a reservation, or calls a method of one that it has.
pub data Action : Type 0 where
  begins : Action
  pins : ℕ → Action
  reserves : Action
  buffers : MemoryKind → ℕ → Bool → Action
  calls : ℕ → Call → Action

abbrev pub State : Type 0
State = List Holder × ResourceUsage

abbrev pub admitted {ℓ} :
    {A : Type ℓ} → (A → Holder) → State → Result Error (A × ResourceUsage) → State
admitted f s (ok (a, counted)) = (f a ∷ s.0, counted)
admitted f s (err e) = s

unfoldable pub act : Limits → State → Action → State
act l s begins = admitted Holder.permit s (admit_transaction l s.1)
act l s (pins bytes) = admitted Holder.permit s (admit_snapshot l bytes s.1)
act l s reserves = (Holder.reserved new_reservation ∷ s.0, s.1)
act l s (buffers kind bytes recovery) =
    admitted Holder.memory s (new_memory l kind bytes recovery s.1)
act l s (calls n c) = call_at l c n s.0 s.1

unfoldable pub run : Limits → List Action → State → State
run l [] s = s
run l (a ∷ actions) s = run l actions (act l s a)

-- ===== src/Resources.antt =====
-- resources.rs: admission limits, and the counters that permits and reservations are charged to.
-- A call that takes the lock is one step on the counters. A lock that a panic has poisoned is not
-- modelled. A `usize` has 64 bits, and its sums and differences wrap around.
pub mod Holders
pub mod Charges
pub mod Bounds
mod Tests
use eve_db.Base.{
  ℕ, ◌+◌, ◌-◌, ◌*◌, ◌^◌, ◌%◌, Bool, true, false, ◌&&◌, ◌||◌, ltb, leb, ◌==◌, if◌then◌else◌, String,
  Error, Result, ok, err, ◌>>=◌, ◌>>◌, limit_exceeded, invalid, plain,
}
use eve_db.Codec.{max_frame}

pub record Limits : Type 0 where
  pub max_decoded_record_bytes : ℕ
  pub max_transaction_decoded_bytes : ℕ
  pub max_resident_decoded_write_bytes : ℕ
  pub max_read_memory_bytes : ℕ
  pub max_scratch_bytes : ℕ
  pub max_read_result_bytes : ℕ
  pub max_history_batch_events : ℕ
  pub max_history_batch_bytes : ℕ
  pub max_transactions : ℕ
  pub max_snapshots : ℕ
  pub max_pinned_bytes : ℕ
  pub max_transaction_operations : ℕ
  pub max_transaction_bytes : ℕ
  pub max_resident_write_bytes : ℕ
  pub max_queued_commits : ℕ
  pub max_queued_commit_bytes : ℕ
  pub max_history_files : ℕ
  pub max_index_partitions : ℕ
  pub max_uncheckpointed_wal_bytes : ℕ

-- `Limits::default`
abbrev pub default_limits : Limits
default_limits = record {
  max_decoded_record_bytes = 64 * 1024 * 1024;
  max_transaction_decoded_bytes = 256 * 1024 * 1024;
  max_resident_decoded_write_bytes = 1024 * 1024 * 1024;
  max_read_memory_bytes = 256 * 1024 * 1024;
  max_scratch_bytes = 128 * 1024 * 1024;
  max_read_result_bytes = 64 * 1024 * 1024;
  max_history_batch_events = 4096;
  max_history_batch_bytes = 64 * 1024 * 1024;
  max_transactions = 1024;
  max_snapshots = 4096;
  max_pinned_bytes = 8 * 1024 * 1024 * 1024;
  max_transaction_operations = 100000;
  max_transaction_bytes = max_frame;
  max_resident_write_bytes = 512 * 1024 * 1024;
  max_queued_commits = 256;
  max_queued_commit_bytes = 128 * 1024 * 1024;
  max_history_files = 4096;
  max_index_partitions = 65536;
  max_uncheckpointed_wal_bytes = 512 * 1024 * 1024;
}

-- `Limits::validate`
unfoldable pub validate : Limits → Result Error (Unit {0})
validate l =
    if l.max_decoded_record_bytes == 0
      || l.max_transaction_decoded_bytes == 0
      || ltb l.max_resident_decoded_write_bytes l.max_transaction_decoded_bytes
      || l.max_read_memory_bytes == 0
      || l.max_scratch_bytes == 0
      || l.max_read_result_bytes == 0
      || l.max_history_batch_events == 0
      || l.max_history_batch_bytes == 0
      || l.max_uncheckpointed_wal_bytes == 0
      || l.max_transactions == 0
      || l.max_history_files == 0
      || l.max_index_partitions == 0
      || l.max_queued_commits == 0
      || ltb l.max_queued_commit_bytes l.max_transaction_bytes
      || l.max_snapshots == 0
      || l.max_transaction_operations == 0
      || ltb l.max_transaction_bytes 8
      || ltb max_frame l.max_transaction_bytes
      || ltb l.max_resident_write_bytes l.max_transaction_bytes
    then err (invalid (plain "invalid admission limits"))
    else ok tt

pub record ResourceUsage : Type 0 where
  pub decoded_write_bytes : ℕ
  pub read_memory_bytes : ℕ
  pub scratch_bytes : ℕ
  pub transactions : ℕ
  pub snapshots : ℕ
  pub pinned_bytes : ℕ
  pub resident_write_bytes : ℕ

abbrev pub no_usage : ResourceUsage
no_usage = record {
  decoded_write_bytes = 0;
  read_memory_bytes = 0;
  scratch_bytes = 0;
  transactions = 0;
  snapshots = 0;
  pinned_bytes = 0;
  resident_write_bytes = 0;
}

-- `a += b` and `a -= b`
abbrev pub add_usize : ℕ → ℕ → ℕ
add_usize a b = (a + b) % 2 ^ 64

abbrev pub sub_usize : ℕ → ℕ → ℕ
sub_usize a b = (a + (2 ^ 64 - b)) % 2 ^ 64

unfoldable pub check : String → ℕ → ℕ → ℕ → Result Error (Unit {0})
check resource used additional limit =
    if leb (2 ^ 64) (used + additional) || ltb limit (used + additional)
    then err (limit_exceeded resource limit)
    else ok tt

pub data PermitKind : Type 0 where
  transaction : PermitKind
  snapshot : ℕ → PermitKind

-- `Resources::transaction`
unfoldable pub admit_transaction :
    Limits → ResourceUsage → Result Error (PermitKind × ResourceUsage)
admit_transaction limits usage = do
  check "active transactions" usage.transactions 1 limits.max_transactions
  ok (PermitKind.transaction, record usage { transactions = add_usize usage.transactions 1 })

-- `Resources::snapshot`
pub admit_snapshot : Limits → ℕ → ResourceUsage → Result Error (PermitKind × ResourceUsage)
admit_snapshot limits bytes usage = do
  check "active snapshots" usage.snapshots 1 limits.max_snapshots
  check "pinned checkpoint bytes" usage.pinned_bytes bytes limits.max_pinned_bytes
  ok (
    PermitKind.snapshot bytes,
    record usage {
      snapshots = add_usize usage.snapshots 1;
      pinned_bytes = add_usize usage.pinned_bytes bytes;
    },
  )

-- `Drop for Permit`
pub drop_permit : PermitKind → ResourceUsage → ResourceUsage
drop_permit PermitKind.transaction usage = record usage {
  transactions = sub_usize usage.transactions 1;
}
drop_permit (PermitKind.snapshot bytes) usage = record usage {
  snapshots = sub_usize usage.snapshots 1;
  pinned_bytes = sub_usize usage.pinned_bytes bytes;
}

pub record Reservation : Type 0 where
  pub bytes : ℕ
  pub decoded_bytes : ℕ

-- `Resources::reservation`
abbrev pub new_reservation : Reservation
new_reservation = record { bytes = 0; decoded_bytes = 0 }

unfoldable pub grow_decoded :
    Limits → ℕ → Bool → Reservation → ResourceUsage → Result Error (Reservation × ResourceUsage)
grow_decoded limits bytes recovery r usage = do
  if recovery then ok tt else (do
    check "transaction decoded bytes" r.decoded_bytes bytes limits.max_transaction_decoded_bytes
    check "resident decoded write bytes" usage.decoded_write_bytes bytes
        limits.max_resident_decoded_write_bytes)
  ok (
    record r { decoded_bytes = add_usize r.decoded_bytes bytes },
    record usage { decoded_write_bytes = add_usize usage.decoded_write_bytes bytes },
  )

unfoldable pub recover : ℕ → Reservation → ResourceUsage → Reservation × ResourceUsage
recover bytes r usage = (
  record r { bytes = add_usize r.bytes bytes },
  record usage { resident_write_bytes = add_usize usage.resident_write_bytes bytes },
)

unfoldable pub grow :
    Limits → ℕ → Reservation → ResourceUsage → Result Error (Reservation × ResourceUsage)
grow limits bytes r usage = do
  check "resident mutation bytes" usage.resident_write_bytes bytes limits.max_resident_write_bytes
  ok (
    record r { bytes = add_usize r.bytes bytes },
    record usage { resident_write_bytes = add_usize usage.resident_write_bytes bytes },
  )

-- `Drop for Reservation`
pub drop_reservation : Reservation → ResourceUsage → ResourceUsage
drop_reservation r usage = record usage {
  resident_write_bytes = sub_usize usage.resident_write_bytes r.bytes;
  decoded_write_bytes = sub_usize usage.decoded_write_bytes r.decoded_bytes;
}

pub data MemoryKind : Type 0 where
  read scratch : MemoryKind

pub record MemoryReservation : Type 0 where
  pub kind : MemoryKind
  pub bytes : ℕ

-- The counter and the limit of a kind.
abbrev pub memory_used : MemoryKind → ResourceUsage → ℕ
memory_used MemoryKind.read usage = usage.read_memory_bytes
memory_used MemoryKind.scratch usage = usage.scratch_bytes

abbrev pub memory_limit : MemoryKind → Limits → ℕ
memory_limit MemoryKind.read limits = limits.max_read_memory_bytes
memory_limit MemoryKind.scratch limits = limits.max_scratch_bytes

abbrev pub memory_name : MemoryKind → String
memory_name MemoryKind.read = "decoded read bytes"
memory_name MemoryKind.scratch = "scratch bytes"

abbrev pub set_memory_used : MemoryKind → ℕ → ResourceUsage → ResourceUsage
set_memory_used MemoryKind.read n usage = record usage { read_memory_bytes = n }
set_memory_used MemoryKind.scratch n usage = record usage { scratch_bytes = n }

-- `MemoryReservation::grow`
unfoldable pub grow_memory :
    Limits
    → ℕ
    → Bool
    → MemoryReservation
    → ResourceUsage
    → Result Error (MemoryReservation × ResourceUsage)
grow_memory limits bytes recovery m usage = do
  if recovery
      then ok tt
      else check (memory_name m.kind) (memory_used m.kind usage) bytes (memory_limit m.kind limits)
  ok (
    record m { bytes = add_usize m.bytes bytes },
    set_memory_used m.kind (add_usize (memory_used m.kind usage) bytes) usage,
  )

-- `Resources::memory`
unfoldable pub new_memory :
    Limits
    → MemoryKind
    → ℕ
    → Bool
    → ResourceUsage
    → Result Error (MemoryReservation × ResourceUsage)
new_memory limits kind bytes recovery usage =
    grow_memory limits bytes recovery (record { kind = kind; bytes = 0 }) usage

-- `Drop for MemoryReservation`
pub drop_memory : MemoryReservation → ResourceUsage → ResourceUsage
drop_memory m usage = set_memory_used m.kind (sub_usize (memory_used m.kind usage) m.bytes) usage

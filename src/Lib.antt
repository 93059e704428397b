-- ===== src/Lib.antt =====
-- EveDB core: a model of the embedded, versioned entity store of src/evedb-core/src, with the
-- theorems about it. Paths below are relative to that directory.
--
-- The program keeps entities (rows of typed fields) with their whole history of events. Writers
-- stage events in a transaction, which admission limits bound; a group of commit requests is taken
-- from a queue and written to a log of checksummed frames; committed views share an immutable
-- ordered map; checkpoints move the history to pages on disk. This library models the parts below.
--
-- - OrderedMap: ordered_map.rs, the AVL map behind every committed view: `Tree` is the links, and
--   `insert`, `remove`, `retain_from`, `join`, `balance`, `floor`, `range` and `next` are the
--   functions of the same names. Sharing by `Arc` leaves no trace in a pure model.
-- - Codec: codec.rs, the encoder and the decoder with its cursor. A byte is a number below 256.
-- - Model: model.rs. Fields, Records and Tables are the byte codecs, Schemas is `Schema` with its
--   validation and `normalize`, History is `EntityData` with `apply_event`, `at` (here `entity_at`),
--   `retain` and `seal`. A float is its bit pattern. The history on disk is the interface
--   `DiskHistory`.
-- - Resources: resources.rs, the limits and the counters; a permit or a reservation that is alive is
--   a `Holder`, and each method that takes the lock is one step on the counters.
-- - CommitQueue: commit_queue.rs, the queue of commit requests over a store of tickets.
-- - Checksum: checksum.rs, CRC-32C by table.
-- - Storage: storage/frame.rs, the frames of the log (a file is its bytes), and storage/page.rs, the
--   slotted pages (a page is its bytes).
--   Index is storage/index.rs, the immutable B+tree: Writer is `IndexWriter`, Reader the descent with
--   `lookup_at` and `floor_at`, Cursor the scan. A descent is bounded by the identifier of its root,
--   a call of the cursor by two rounds, and the levels of a build by the number of leaves.
--   Storage/Pager is the read of a page: the caches of pager.rs give what a read would give.
-- - Memory: memory.rs, the decoded sizes that are charged. What a text or a buffer has reserved is a
--   parameter, as the sizes of the Rust types are.
-- - Database: database.rs. Operations is the record of a transaction in the log, Catalog the check of
--   a change to the tables, Staging the `Staging` of a transaction: an `Action` runs on its fields and
--   on the `World`, the counters and flags that it shares with the engine, and keeps what it has
--   changed when it fails. Staging/Methods has the methods, Staging/Commands their calls by a client,
--   between which the rest of the engine may change the world, and the recovery of a log record. The
--   committed view is `ReadState`, whose entities on disk are an interface. Group is the group commit
--   `commit_group` on an `Engine`, whose `readers` is the state that was published to them: the clock
--   is the sequence of its readings, and the answer of the operating system to the writes is an
--   argument, as is the checkpoint that may come first. Group/Rebinding moves batches to the root
--   that a checkpoint published. The fuel of its loop is a bound on its rounds. The reservations of
--   batches that fail are given back by their drop, which is in Resources and not in the group.
-- - Overlay: overlay.rs, the entities that are newer than the checkpoint; an entity is seen by the
--   root whose files it reads.
-- - Deadline: deadline.rs, time limits and leases. An instant is a number.
-- - Shared: shared.rs, the validation of a claimed group against the revisions of its coordinator.
-- - Base: the shared names, error.rs, sorted association lists (`BTreeMap`), and the order of keys.
--
-- Machine integers are natural numbers with their bounds as hypotheses, and wrap where the code can
-- wrap. Loops are structural recursion, or have a bound on their rounds that is named with their
-- part above; the number of calls of `collect` for the range iterator of the ordered map is one
-- more than the number of its entries, which is enough.
--
-- Not modelled: poisoned locks and notifications, failures of the file system other than the end of
-- a file, the heap of storage/ and the caches of its pager, the snapshot roots, the partitions, the
-- registry of deadline.rs, the scans and cursors of reader.rs and cursor.rs, the waiting and the
-- maintenance of shared.rs, and the checkpoints of database.rs, which later parts of the library
-- take up; and the printing of errors.
pub mod Base
pub mod OrderedMap
pub mod Codec
pub mod Model
pub mod Resources
pub mod CommitQueue
pub mod Checksum
pub mod Storage
pub mod Memory
pub mod Database
pub mod Shared
pub mod Deadline
pub mod Overlay

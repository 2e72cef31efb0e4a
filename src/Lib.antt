-- ===== src/Lib.antt =====
-- Verification of seerdb: the write-ahead log and its recovery, the durable formats, the page
-- mapping table, the page allocator, the buffer pool and the B-tree latch.
--
-- A mutation is a log record. `WalManager` collects records in a buffer and flushes them to the
-- log file; a commit envelope closes a run of mutations with their count and digest. A manifest
-- slot names the published state of the database. On open the log is scanned, compared with the
-- manifest and cut behind its last commit, and its unpublished commits are applied; the
-- allocator's frontier and free list are read from their serialization, and the page mapping table
-- says where each page lies. The manifest history and the retention registry keep older roots,
-- whose pages the retention state protects from reuse. A transaction stages mutations over a
-- retained root and commits them as one batch on the commit it started from. The buffer manager
-- keeps page images in frames between the B-tree and the device. Latches guard B-tree nodes.
--
-- Files, with the code that each is about:
--   Base, Base/*               lists, byte strings, Boolean tests, results and sets; no program code
--   Recovery/Record            src/recovery/record.rs, `RecordType`, `WalRecord`: encode and decode
--   Recovery/Parse             src/recovery/record.rs, `parse_records`, `parse_records_with_status`
--   Recovery/Wal               src/recovery/wal.rs, `WalManager`
--   Db/WalPayload              src/db/wal_recovery.rs, payload codecs and length checks
--   Db/WalRecovery             src/db/wal_recovery.rs, `analyze_wal_bytes`, `reconcile_wal`,
--                              `wal_has_unpublished_commits`
--   Db/WalReplay               src/db/wal_recovery.rs, `recover_from_wal`
--   Db/Batch                   src/db/batch.rs, `commit_batch_at`; `Engine` is what is used of `DB`
--   Db/Transaction             src/db/transaction.rs, `BatchTransaction`; its `put` and `delete` are
--                              `stage_put` and `stage_delete`
--   Db/RetentionState          src/db/retention_state.rs, `RetentionState`; its `insert` and `remove` are
--                              `insert_manifest` and `remove_snapshot`
--   Storage/Format             src/storage/format.rs, what the formats share
--   Storage/Format/Superblock, Storage/Format/CommitRecord, Storage/Format/Manifest
--                              src/storage/format.rs, the type of that name
--   Allocator                  src/allocator.rs, `PageAllocator`
--   Storage/History            src/storage/manifest_history.rs, `ManifestHistory`
--   Storage/Retention          src/storage/retention_format.rs, `RetentionRegistry`; its `insert` and
--                              `remove` are `insert_root` and `remove_root`
--   Btree/Page, Btree/Layout   src/btree/node/page_format.rs: `NodeHeader`, `validate_layout`
--   Btree/Node                 src/btree/node/access.rs, `Node`; Btree/Node/Reference has the scans that
--                              its searches are compared with
--   Btree/Insertion            src/btree/node/mutation.rs, internal_mutation.rs: the raw insertions
--   Btree/Order                the order of byte slices
--   Buffer/Frame               src/buffer/frame.rs, `Frame`, with src/buffer/types.rs and guard.rs
--   Buffer/Manager, Buffer/Writeback, Buffer/Validate
--                              src/buffer/manager.rs, `BufferManager`; a frame's bytes are lent as a
--                              whole page that is written
--   Mvcc/Pmt                   src/mvcc/pmt.rs, `PageMapping`, `PMT`
--   Blob/Record                src/blob/record.rs, `BlobRecord`
--   Concurrency/Latch          src/concurrency/latch.rs, `HybridLatch`
--   Tests, Tests/*             tests on concrete inputs, and instances of the theorems
-- The children of a file hold the proofs about it, by what they prove. A Rust function keeps its
-- name; a constructor function of `WalRecord` is `new_put` for `put`, since the record types have
-- those names, and a loop is a function of its own (`parse_round`, `parse_loop`, `scan_record`,
-- `scan_records`, `read_ids`, `encode_ids`).
--
-- Conventions. Integers are natural numbers; a cast that truncates and a counter that wraps have
-- their `%` written out, checked arithmetic returns an option, and `saturating_add` stops at 2 ^
-- 64 - 1. A byte string is a list of numbers, with `IsByte` as a hypothesis where it matters. A
-- file is its bytes. Errors are values of `Result`; `stuck` stands for a loop of the model that
-- runs out of fuel.
--
-- Fuel. The binary searches of a page are given the number of its keys, which is enough since each
-- round narrows the range. The loop of `parse_records_with_status` is given the length of the log:
-- a round that goes on takes nine bytes at least. The clock of the buffer pool makes the two turns
-- that the code bounds it by.
--
-- Parameters. CRC-32C belongs to the crc32c crate: it is any function from byte strings to numbers
-- below 2 ^ 32. The sink of `WalManager::flush` is any `Writer` that keeps the contract of
-- `std::io::Write`: a write that succeeds has accepted its bytes, and a flush that succeeds has
-- delivered what was accepted. The file operations of the retention state are any functions that return a
-- result. I/O errors elsewhere end a call and are left out.
--
-- Not modelled: replacement, removal and the rebuilding of B-tree pages, and the tree; the B-tree
-- and the blob manager that the replay changes (an interface, `Applier`, stands for
-- `mutation::apply`), the files and catalogs of the blob store, the device layer, the preparation
-- and installation of batches (part of the interface `Engine`, of which nothing is assumed),
-- publication and maintenance, metrics and diagnostics. Memory
-- orderings of the latch weaker than sequential consistency are not modelled: its word is the only
-- location.
pub mod Base
pub mod Buffer
pub mod Btree
pub mod Storage
pub mod Recovery
pub mod Db
pub mod Mvcc
pub mod Blob
pub mod Allocator
pub mod Concurrency
pub mod Tests

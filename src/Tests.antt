-- ===== src/Tests.antt =====
-- Tests of the definitions on concrete inputs, and instances of the theorems.
mod Fixtures
mod Recovery
mod Storage
mod Db
mod Replay
mod Allocator
mod Concurrency
mod Mvcc
mod Blob
mod Registry
mod Buffer
mod Btree
mod Transaction
mod Retention

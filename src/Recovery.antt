-- ===== src/Recovery.antt =====
-- recovery/: the write-ahead log.
pub mod Record
pub mod Parse
pub mod Wal

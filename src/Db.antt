-- ===== src/Db.antt =====
-- db/: the database handle's policies over the log, the formats and the tree.
pub mod WalPayload
pub mod WalRecovery
pub mod WalReplay
pub mod Batch
pub mod Transaction
pub mod RetentionState

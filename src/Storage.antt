-- ===== src/Storage.antt =====
-- storage/: the durable formats.
pub mod Format
pub mod History
pub mod Retention

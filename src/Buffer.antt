-- ===== src/Buffer.antt =====
-- buffer/: the buffer pool.
pub mod Frame
pub mod Manager
pub mod Writeback
pub mod Validate
pub mod Spares
pub mod Clock
pub mod Search
pub mod Fetch
pub mod Rekey
pub mod Steps
pub mod Progress
pub mod Pool

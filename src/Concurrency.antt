-- ===== src/Concurrency.antt =====
-- concurrency/: the latch on a B-tree node.
pub mod Latch

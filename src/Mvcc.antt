-- ===== src/Mvcc.antt =====
-- mvcc/: the page mapping table.
pub mod Pmt

-- ===== src/Blob.antt =====
-- blob/: values kept outside the B-tree.
pub mod Record

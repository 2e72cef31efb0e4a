-- ===== src/Btree.antt =====
-- btree/: the pages of the tree.
pub mod Order
pub mod Sorted
pub mod Page
pub mod Node
pub mod Layout
pub mod Insertion

-- ===== src/RbTree/Insertion.antt =====
-- `rbtree_insert` against an insertion into the tree that the memory holds.
pub mod Fix
pub mod Round
pub mod Loop
pub mod Attach
pub mod Descent
pub mod Whole
pub mod Balance
pub mod Order

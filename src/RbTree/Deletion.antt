-- ===== src/RbTree/Deletion.antt =====
-- `rbtree_delete` against the removal of a node from the tree that the memory holds.
pub mod Hangs
pub mod Push
pub mod Round
pub mod Goal
pub mod Loop
pub mod Lift
pub mod Repair
pub mod Placed
pub mod Place
pub mod Ends
pub mod Graft
pub mod Way
pub mod Cut
pub mod Finish
pub mod Direct
pub mod Successor
pub mod Replace
pub mod Whole

-- ===== src/RbTree.antt =====
-- rbtree.c and rbtree.h: the red-black tree over an explicit memory.
--
-- `Store` is the memory of the `struct rbtree_node`s, one function for each field, from the
-- address of a node to the field's content, together with the field `root` of the `struct rbtree`.
-- `NULL` is the address 0, at which the functions may have any value. The tree's fields
-- `sentinel` and `insert` do not change after `rbtree_init`, so they are arguments. The byte
-- `color` is read as a truth value, `red`: the code writes 0 and 1, and tests for nonzero.
-- The two mirrored copies of each routine are one definition over a `Side`.
mod Memory
mod Rotate
mod Insert
mod Delete
mod Search
pub mod Shape
pub mod Frames
pub mod Links
pub mod Rotation
pub mod Focus
pub mod Insertion
pub mod Balance
pub mod Order
pub mod Sequence
pub mod Minimum
pub mod Deletion
pub mod Remove
pub mod Walks
pub mod Printing
unfoldable pub use Memory.*
unfoldable pub use Rotate.*
unfoldable pub use Insert.*
unfoldable pub use Delete.*
unfoldable pub use Search.*

-- ===== src/Rbtree.antt =====
-- The red-black tree of `4.3 Redis/4.3.2Redis协议与异步方式/src/example/evnet/rbtree.h` and
-- `rbtree.c`, pointer by pointer: the nodes stand at addresses of a store, the sentinel among them.
pub mod Store
pub mod Rotate
pub mod Insert
pub mod Delete
pub mod Walk
pub mod Fields
pub mod Shape
pub mod Leftmost
pub mod Trail
pub mod Steps
pub mod Focus
pub mod Parts
pub mod Relink
pub mod Rotations
pub mod Balance
pub mod Fix
pub mod Rebalance
pub mod ClimbLeft
pub mod ClimbRight
pub mod Rounds
pub mod Place
pub mod Descent
pub mod Order
pub mod Put
pub mod Whole
pub mod Inserts
pub mod Visits
pub mod Settle
pub mod AbsorbLeft
pub mod AbsorbRight
pub mod Short
pub mod ShortLeft
pub mod ShortRight
pub mod Settles
pub mod Spot
pub mod Spine
pub mod Unhang
pub mod Succeed
pub mod Drop
pub mod Heir
pub mod Removal
pub mod Choose
pub mod Replaced
pub mod Removes
mod Tests

-- ===== src/Kfxx.antt =====
-- The kernel's template library, include/pbos/kfxx and kernel/kfxx.
mod Tests
pub mod Ordered
pub mod Rbtree
pub mod Dynarray
pub mod Hashset
pub mod List

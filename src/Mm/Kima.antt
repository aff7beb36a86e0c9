-- ===== src/Mm/Kima.antt =====
-- kernel/mm/kima: the allocator of the kernel's memory pools.
pub mod Alloc
pub mod Pages
pub mod Slots
pub mod Place
mod Tests

-- ===== src/Mm.antt =====
-- kernel/mm: the memory that a memory context maps.
mod Tests
pub mod Context
pub mod Vmr
pub mod Pgalloc
pub mod Kima
pub mod Probe

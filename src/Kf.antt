-- ===== src/Kf.antt =====
-- kernel/kf: what the kernel's parts share.
pub mod Hash
pub mod Tests

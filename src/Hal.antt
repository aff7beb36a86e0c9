-- ===== src/Hal.antt =====
-- hal/x86_64 and arch/x86_64: what the machine gives to the kernel.
pub mod Spinlock

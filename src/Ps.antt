-- ===== src/Ps.antt =====
-- kernel/ps: processes, threads, and the scheduler.
mod Tests
pub mod Pid
pub mod Sched
pub mod Mutex
pub mod RecMutex
pub mod RwMutex

-- ===== src/Ps/Mutex.antt =====
-- kernel/ps/mutex.cc, the plain mutex, over the spin lock of the machine. The current thread is an
-- argument. `none` is a panic of `kd_dbgcheck`.
pub mod Locking
use pbos.Common.{ℕ, Bool, true, false, ◌&&◌, Option, none, some, List, [], ◌∷◌, ◌==◌, if◌then◌else◌}
use pbos.Hal.Spinlock.{SpinlockOps, spinlock_unlocked, spinlock_locked}

-- `ps_mutex_t`.
pub record Mutex : Type 0 where
  pub lock_thread : Option ℕ
  pub spinlock : ℕ

-- `ps_init_mutex`.
abbrev pub init_mutex : Mutex
init_mutex = record { lock_thread = none; spinlock = spinlock_unlocked }

unfoldable pub same_thread : Option ℕ → ℕ → Bool
same_thread none t = false
same_thread (some u) t = u == t

module _ (hal : SpinlockOps) where
  -- `ps_try_lock_mutex`, and one round of the loop of `ps_lock_mutex`.
  unfoldable pub try_lock_mutex : ℕ → Mutex → Bool × Mutex
  try_lock_mutex t m =
      let r = hal.try_lock m.spinlock in
      if r.0
      then (true, record m { lock_thread = some t; spinlock = r.1 })
      else (false, record m { spinlock = r.1 })

  -- `ps_unlock_mutex`.
  unfoldable pub unlock_mutex : ℕ → Mutex → Option Mutex
  unfolding same_thread
  unlock_mutex t m =
      if same_thread m.lock_thread t && m.spinlock == spinlock_locked
      then some (record m { spinlock = hal.unlock m.spinlock })
      else none

  -- Threads that try one after another: what each is told.
  unfoldable pub try_all : List ℕ → Mutex → List Bool
  unfolding try_lock_mutex
  try_all [] m = []
  try_all (t ∷ ts) m = let r = try_lock_mutex t m in (r.0) ∷ try_all ts r.1

-- ===== src/Ps/RecMutex.antt =====
-- kernel/ps/mutex.cc, the recursive mutex, over the spin lock of the machine. The current thread is
-- an argument. `none` is a panic of `kd_dbgcheck`. `size_t` has 64 bits.
pub mod Nesting
use pbos.Common.{
  ℕ, zero, suc, ◌+◌, ◌-◌, ◌%◌, ◌^◌, Bool, true, false, Option, none, some, ◌==◌, if◌then◌else◌,
}
use pbos.Hal.Spinlock.{SpinlockOps, spinlock_unlocked}
use pbos.Ps.Mutex.{same_thread}

-- `ps_rec_mutex_t`.
pub record RecMutex : Type 0 where
  pub lock_thread : Option ℕ
  pub lock_times : ℕ
  pub spinlock : ℕ

-- `ps_init_rec_mutex`.
abbrev pub init_rec_mutex : RecMutex
init_rec_mutex = record { lock_thread = none; lock_times = 0; spinlock = spinlock_unlocked }

-- `++` of a `size_t`.
unfoldable pub inc : ℕ → ℕ
inc n = (n + 1) % 2 ^ 64

module _ (hal : SpinlockOps) where
  -- One round of the loop of `ps_lock_rec_mutex`: whether the thread has the mutex or yields.
  unfoldable pub lock_round : ℕ → RecMutex → Bool × RecMutex
  unfolding same_thread inc
  lock_round t m =
      let r = hal.try_lock m.spinlock in
      let m' = record m { spinlock = r.1 } in
      if r.0
      then (true, record m' { lock_thread = some t; lock_times = inc m.lock_times })
      else if same_thread m.lock_thread t
      then (true, record m' { lock_times = inc m.lock_times })
      else (false, m')

  -- `ps_try_lock_rec_mutex`.
  unfoldable pub try_lock_rec_mutex : ℕ → RecMutex → Bool × RecMutex
  unfolding same_thread inc
  try_lock_rec_mutex t m =
      let r = hal.try_lock m.spinlock in
      let m' = record m { spinlock = r.1 } in
      if r.0
      then (true, record m' { lock_thread = some t; lock_times = inc m.lock_times })
      else if same_thread m.lock_thread t
      then (true, m')
      else (false, m')

  -- `ps_unlock_rec_mutex`.
  unfoldable pub unlock_rec_mutex : ℕ → RecMutex → Option RecMutex
  unfolding same_thread
  unlock_rec_mutex t m =
      if same_thread m.lock_thread t
      then (if m.lock_times == 0
          then none
          else if m.lock_times == 1
          then some
              (record { lock_thread = none; lock_times = 0; spinlock = hal.unlock m.spinlock })
          else some (record m { lock_times = m.lock_times - 1 }))
      else none

  -- `n` times `ps_lock_rec_mutex` by one thread, each in its first round; `none` when a call has to
  -- wait.
  unfoldable pub lock_times_over : ℕ → ℕ → RecMutex → Option RecMutex
  unfolding lock_round
  lock_times_over t zero m = some m
  lock_times_over t (suc n) m =
      let r = lock_round t m in let rest = lock_times_over t n r.1 in if r.0 then rest else none

  unlock_again : ℕ → Option RecMutex → Option RecMutex
  unlock_again t none = none
  unlock_again t (some m) = unlock_rec_mutex t m

  -- `n` times `ps_unlock_rec_mutex` by one thread.
  unfoldable pub unlock_times_over : ℕ → ℕ → RecMutex → Option RecMutex
  unfolding unlock_again
  unlock_times_over t zero m = some m
  unlock_times_over t (suc n) m = unlock_again t (unlock_times_over t n m)

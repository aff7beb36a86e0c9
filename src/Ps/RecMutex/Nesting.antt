-- ===== src/Ps/RecMutex/Nesting.antt =====
-- Taking the recursive mutex again and again, with the spin lock of x86_64.
use pbos.Common.{ℕ, zero, suc, ◌+◌, ◌^◌, ◌<◌, ◌≡◌, ◌≢◌, ap, true, none, some, arith}
use pbos.Hal.Spinlock.{x86_64, try_lock_spinlock, unlock_spinlock, cmpxchg8-keeps}
use pbos.Ps.Mutex.{same_thread}
use pbos.Ps.RecMutex.{
  RecMutex, init_rec_mutex, inc, lock_round, try_lock_rec_mutex, unlock_rec_mutex, lock_times_over,
  unlock_times_over,
}

-- The mutex that a thread has taken `k` times, whose spin lock still reads as free.
abbrev pub held : ℕ → ℕ → RecMutex
held t k = record { lock_thread = some t; lock_times = k; spinlock = 0 }

inc_small : (k : ℕ) → k + 1 < 2 ^ 64 → inc k ≡ suc k
unfolding inc
inc_small k h = omega arith

lock_round-free : (t : ℕ) → lock_round x86_64 t init_rec_mutex ≡ (true, held t 1)
unfolding lock_round try_lock_spinlock
lock_round-free t = ground (arith, cmpxchg8-keeps 0 0 1, inc_small 0)

-- Whoever locks the mutex next has it, the holder or not.
lock_round-taken :
    (u t k : ℕ) → k + 1 < 2 ^ 64 → lock_round x86_64 u (held t k) ≡ (true, held u (suc k))
unfolding lock_round try_lock_spinlock
lock_round-taken u t k h = ground (arith, cmpxchg8-keeps 0 0 1, inc_small k h)

try_lock_rec_mutex-taken :
    (u t k : ℕ) → k + 1 < 2 ^ 64 → try_lock_rec_mutex x86_64 u (held t k) ≡ (true, held u (suc k))
unfolding try_lock_rec_mutex try_lock_spinlock
try_lock_rec_mutex-taken u t k h = ground (arith, cmpxchg8-keeps 0 0 1, inc_small k h)

unlock-last : (t : ℕ) → unlock_rec_mutex x86_64 t (held t 1) ≡ some init_rec_mutex
unfolding unlock_rec_mutex same_thread unlock_spinlock
unlock-last t = ground arith

unlock-held : (t k : ℕ) → unlock_rec_mutex x86_64 t (held t (suc (suc k))) ≡ some (held t (suc k))
unfolding unlock_rec_mutex same_thread
unlock-held t k = ground arith

unlock-other : (t u k : ℕ) → u ≢ t → unlock_rec_mutex x86_64 t (held u k) ≡ none
unfolding unlock_rec_mutex same_thread
unlock-other t u k other = ground arith

lock_times_over-held :
    (t n k m : ℕ) → k + n ≡ m → m < 2 ^ 64 → lock_times_over x86_64 t n (held t k) ≡ some (held t m)
unfolding lock_times_over
lock_times_over-held t zero k m e h = ap (λ i. some (held t i)) (omega arith)
lock_times_over-held t (suc n) k m e h =
    let again = lock_round-taken t t k (omega arith) in
    let rest = lock_times_over-held t n (suc k) m (omega arith) h in ground (arith, again, rest)

lock_times_over-init :
    (t n : ℕ)
    → n + 1 < 2 ^ 64
    → lock_times_over x86_64 t (suc n) init_rec_mutex ≡ some (held t (suc n))
unfolding lock_times_over
lock_times_over-init t n h =
    let rest = lock_times_over-held t n 1 (suc n) (omega arith) (omega arith) in
    ground (arith, lock_round-free t, rest)

unlock_times_over-held :
    (t n j m : ℕ) → n + suc j ≡ m → unlock_times_over x86_64 t n (held t m) ≡ some (held t (suc j))
unfolding unlock_times_over
unlock_times_over-held t zero j m e = ap (λ i. some (held t i)) (omega arith)
unlock_times_over-held t (suc n) j m e =
    rw (unlock_times_over-held t n (suc j) m (omega arith)) (unlock-held t j)

unlock_times_over-all :
    (t n : ℕ) → unlock_times_over x86_64 t (suc n) (held t (suc n)) ≡ some init_rec_mutex
unfolding unlock_times_over
unlock_times_over-all t n = rw (unlock_times_over-held t n 0 (suc n) (omega arith)) (unlock-last t)

-- Over the spin lock of x86_64, `n + 2` being below 2^64: a thread that takes a free mutex `n + 1`
-- times has it `n + 1` times; left alone, it still has it once after `n` unlocks, and after one more
-- the mutex is as it was initialised. But another thread that locks or tries the mutex meanwhile gets
-- it at once, counted on top, and then an unlock by the first thread panics.
pub unlock-lock :
    (t u n : ℕ)
    → u ≢ t
    → n + 2 < 2 ^ 64
    → (lock_times_over x86_64 t (suc n) init_rec_mutex ≡ some (held t (suc n)))
      × (unlock_times_over x86_64 t n (held t (suc n)) ≡ some (held t 1))
      × (unlock_times_over x86_64 t (suc n) (held t (suc n)) ≡ some init_rec_mutex)
      × (lock_round x86_64 u (held t (suc n)) ≡ (true, held u (suc (suc n))))
      × (try_lock_rec_mutex x86_64 u (held t (suc n)) ≡ (true, held u (suc (suc n))))
      × (unlock_rec_mutex x86_64 t (held u (suc (suc n))) ≡ none)
unlock-lock t u n other h = (
  lock_times_over-init t n (omega arith),
  unlock_times_over-held t n 0 (suc n) (omega arith),
  unlock_times_over-all t n,
  lock_round-taken u t (suc n) (omega arith),
  try_lock_rec_mutex-taken u t (suc n) (omega arith),
  unlock-other t u (suc (suc n)) other,
)

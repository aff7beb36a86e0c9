-- ===== src/Ps/Mutex/Locking.antt =====
-- Who gets the plain mutex, with the spin lock of x86_64.
use pbos.Common.{ℕ, ◌≡◌, refl, true, List, [], ◌∷◌, map, arith}
use pbos.Hal.Spinlock.{x86_64, try_lock_spinlock, cmpxchg8-keeps}
use pbos.Ps.Mutex.{Mutex, try_lock_mutex, try_all}

try_lock-x86_64 :
    (t : ℕ) (m : Mutex)
    → m.spinlock ≡ 0
    → ((try_lock_mutex x86_64 t m).0 ≡ true) × ((try_lock_mutex x86_64 t m).1.spinlock ≡ 0)
unfolding try_lock_mutex try_lock_spinlock
try_lock-x86_64 t m h = ground (arith, cmpxchg8-keeps m.spinlock 0 1)

-- Over the spin lock of x86_64: every thread that tries a free mutex gets it, however many already
-- have it.
pub try_all-x86_64 :
    (ts : List ℕ) (m : Mutex) → m.spinlock ≡ 0 → try_all x86_64 ts m ≡ map (λ _. true) ts
unfolding try_all
try_all-x86_64 [] m h = refl
try_all-x86_64 (t ∷ ts) m h =
    let (said, free) = try_lock-x86_64 t m h in
    let rest = try_all-x86_64 ts (try_lock_mutex x86_64 t m).1 free in cc

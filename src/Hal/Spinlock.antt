-- ===== src/Hal/Spinlock.antt =====
-- hal/x86_64/kf/spinlock.cc over arch/x86_64/atomic.h, and what include/pbos/hal/spinlock.h says
-- of them. A lock is the byte in its cell; an operation returns its result and the new byte.
use pbos.Common.{ℕ, ◌≡◌, Bool, ◌==◌, if◌then◌else◌, arith}

-- HAL_SPINLOCK_UNLOCKED and HAL_SPINLOCK_LOCKED.
abbrev pub spinlock_unlocked : ℕ
spinlock_unlocked = 0

abbrev pub spinlock_locked : ℕ
spinlock_locked = 0

-- The instruction `lock cmpxchg source, memory` of the processor: the accumulator and the memory
-- after it.
cmpxchg : ℕ → ℕ → ℕ → ℕ × ℕ
cmpxchg accumulator source memory =
    if accumulator == memory then (accumulator, source) else (memory, memory)

-- `arch_atomic_cmpxchg8`. The source operand of its instruction is `%0`, the accumulator, which
-- holds the expected value; the register with the replacement value is `%2`.
unfoldable pub atomic_cmpxchg8 : ℕ → ℕ → ℕ → ℕ × ℕ
unfolding cmpxchg
atomic_cmpxchg8 cell expected_value replacement_value = cmpxchg expected_value expected_value cell

-- `hal_try_lock_spinlock`.
unfoldable pub try_lock_spinlock : ℕ → Bool × ℕ
unfolding atomic_cmpxchg8
try_lock_spinlock cell = let r = atomic_cmpxchg8 cell 0 1 in ((r.0) == 0, r.1)

-- `hal_unlock_spinlock` assigns to its parameter, the pointer, and not to the cell.
unfoldable pub unlock_spinlock : ℕ → ℕ
unlock_spinlock cell = cell

-- `hal_is_spinlock_locked` compares the address of the lock with HAL_SPINLOCK_LOCKED.
unfoldable pub is_spinlock_locked : ℕ → Bool
is_spinlock_locked address = address == spinlock_locked

-- The operations of a spin lock that the kernel calls.
pub record SpinlockOps : Type 0 where
  pub try_lock : ℕ → Bool × ℕ
  pub unlock : ℕ → ℕ

-- Those of hal/x86_64.
abbrev pub x86_64 : SpinlockOps
x86_64 = record { try_lock = try_lock_spinlock; unlock = unlock_spinlock }

-- A compare-and-exchange never writes another value than the one it finds.
pub cmpxchg8-keeps : (cell expected value : ℕ) → (atomic_cmpxchg8 cell expected value).1 ≡ cell
unfolding atomic_cmpxchg8
cmpxchg8-keeps cell expected value = ground arith

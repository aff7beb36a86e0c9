-- ===== src/Ps/RwMutex.antt =====
-- kernel/ps/mutex.cc, the readers-writer mutex: what one thread at its place in the code does in one
-- turn, over atomic operations that work. `size_t` has 64 bits.
pub mod Writers
use pbos.Common.{
  ℕ, ◌+◌, ◌-◌, ◌%◌, ◌^◌, Bool, true, false, Option, none, some, List, ◌∷◌, ◌++◌, ◌≡◌, ◌==◌,
  if◌then◌else◌,
}
use pbos.Ps.RecMutex.{inc}

-- The fields of `ps_rw_mutex_t` that its operations use.
pub record RwMutex : Type 0 where
  pub is_writing : Bool
  pub read_count : ℕ

-- `ps_init_rw_mutex`, which leaves `is_writing` as the memory has it.
unfoldable pub init_rw_mutex : Bool → RwMutex
init_rw_mutex was = record { is_writing = was; read_count = 0 }

-- Where a thread stands: outside; in `ps_read_lock_rw_mutex` between the test and the increment;
-- with the read lock; in the loop of `ps_write_lock_rw_mutex`; with the write lock.
pub data Place : Type 0 where
  outside tested reading waiting writing : Place

-- What a thread outside wants.
pub data Wish : Type 0 where
  to_read to_write : Wish

unfoldable pub dec : ℕ → ℕ
dec n = (n + (2 ^ 64 - 1)) % 2 ^ 64

-- One turn, with one atomic operation: the round of a loop, or an unlocking. `none` is a panic of
-- `kd_dbgcheck`.
unfoldable pub act : Wish → Place → RwMutex → Option (Place × RwMutex)
unfolding inc dec
act to_read outside m = if m.is_writing then some (outside, m) else some (tested, m)
act to_write outside m =
    if m.is_writing then none else some (waiting, record m { is_writing = true })
act w tested m = some (reading, record m { read_count = inc m.read_count })
act w reading m = some (outside, record m { read_count = dec m.read_count })
act w waiting m = if m.read_count == 0 then some (writing, m) else some (waiting, m)
act w writing m = if m.is_writing then some (outside, record m { is_writing = false }) else none

-- The threads at their places, and the mutex.
pub record World : Type 0 where
  pub threads : List Place
  pub mutex : RwMutex

-- Some thread takes a turn.
pub data Turn : World → World → Type 0 where
  turn :
      (w : Wish) (p q : Place) (m n : RwMutex) (before after : List Place)
      → act w p m ≡ some (q, n)
      → Turn
          (record { threads = before ++ (p ∷ after); mutex = m })
          (record { threads = before ++ (q ∷ after); mutex = n })

-- The threads take turns in some order.
pub data Turns (start : World) : World → Type 0 where
  none_yet : Turns start start
  and_then : {u v : World} → Turns start u → Turn u v → Turns start v

-- ===== src/Ps/Sched.antt =====
-- kernel/ps/sched/simploop.c: the scheduler that runs the threads in turn, with the walks over the
-- process set and over the thread set of a process of kernel/ps/sched.cc. Each set is its contents
-- in order, by `pbos.Kfxx.Ordered`; a process is its thread set.
pub mod RoundRobin
use pbos.Common.{ℕ, zero, suc, Option, none, some, List, [], ◌∷◌}
use pbos.Kfxx.Ordered.{find, next_above}

abbrev pub Threads : Type 0 → Type 0
Threads T = List (ℕ × T)

abbrev pub Procs : Type 0 → Type 0
Procs T = List (ℕ × Threads T)

-- The thread that a tick chooses, by the number of its process and its own; a null pointer; or the
-- use of a null process.
pub data Choice : Type 0 where
  thread : ℕ → ℕ → Choice
  null : Choice
  fault : Choice

module _ {T : Type 0} where
  -- `ps_proc_thread_set_begin`.
  unfoldable pub thread_set_begin : ℕ → Threads T → Choice
  thread_set_begin pid [] = null
  thread_set_begin pid ((tid, t) ∷ ts) = thread pid tid

  -- `ps_global_proc_set_begin`, and the first thread of that process.
  unfoldable pub first_thread : Procs T → Choice
  unfolding thread_set_begin
  first_thread [] = fault
  first_thread ((pid, ts) ∷ ps) = thread_set_begin pid ts

  -- The first thread of the process after `pid`, or of the first process.
  unfoldable pub proc_after : Procs T → ℕ → Choice
  unfolding first_thread
  proc_after ps pid = elim (next_above pid ps) [
    | some p ↦ thread_set_begin p.0 p.1
    | none ↦ first_thread ps
  ]

  -- `ps_simploop_sched_next_thread`. The current thread, if there is one, is given by the number of
  -- the current process and its own.
  unfoldable pub next_thread : Procs T → Option (ℕ × ℕ) → Choice
  unfolding proc_after
  next_thread ps none = first_thread ps
  next_thread ps (some (pid, tid)) = elim (find pid ps) [
    | none ↦ fault
    | some ts ↦ elim (next_above tid ts) [ some u ↦ thread pid (u.0) | none ↦ proc_after ps pid ]
  ]

  -- The threads that the next `n` ticks choose, with the current one before them.
  unfoldable pub ticks : ℕ → Procs T → Option (ℕ × ℕ) → List (ℕ × ℕ)
  ticks zero ps cur = []
  ticks (suc n) ps cur = elim (next_thread ps cur) [
    | thread pid tid ↦ (pid, tid) ∷ ticks n ps (some (pid, tid))
    | null ↦ []
    | fault ↦ []
  ]

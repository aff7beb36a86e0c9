-- ===== src/Ps/Tests.antt =====
-- Runs of the process table, of the scheduler, and of the mutexes.
use pbos.Common.{
  ℕ, ◌+◌, ◌≤◌, ◌≡◌, refl, true, false, none, some, inr, [], ◌∷◌, ◌++◌, length, ◌==◌, if◌then◌else◌,
  arith,
}
use pbos.Kfxx.Ordered.{find, IsSorted}
use pbos.Hal.Spinlock.{x86_64}
use pbos.Ps.Pid.{ProcTable, create_proc, destroy_proc}
use pbos.Ps.Pid.Inv.{Inv}
use pbos.Ps.Pid.Create.{Created, create_proc-Created}
use pbos.Ps.Pid.Destroy.{destroy_proc-Inv}
use pbos.Ps.Sched.{Procs, ticks}
use pbos.Ps.Sched.RoundRobin.{turn, AllRun, ticks-turn}
use pbos.Ps.Mutex.{init_mutex, try_all}
use pbos.Ps.Mutex.Locking.{try_all-x86_64}
use pbos.Ps.RwMutex.{outside, writing, reading}
use pbos.Ps.RwMutex.Writers.{total, writes, marks, flag, Turns-one_writer, Turns-reader_and_writer}
use pbos.Ps.RecMutex.{
  init_rec_mutex, lock_round, try_lock_rec_mutex, unlock_rec_mutex, lock_times_over,
  unlock_times_over,
}
use pbos.Ps.RecMutex.Nesting.{held, unlock-lock}

-- Numbers 0 and 2 are in use.
abbrev table : ProcTable ℕ
table = record { procs = (0, 7) ∷ (2, 8) ∷ []; min_free_pid = 1; cur_max_pid = 2 }

table-Inv : Inv table
unfolding find
table-Inv = record {
  sorted = (omega arith, tt);
  used_below = λ i h e. ground arith;
  min_free_le = omega arith;
  free_above = λ i h. ground arith;
  max_used = inr (λ e. cc);
}

create_proc-Created_example : Created 9 table (create_proc 9 table)
create_proc-Created_example = create_proc-Created 9 table table-Inv

destroy_proc-Inv_example :
    Inv (destroy_proc 2 table)
    × ((j : ℕ)
        → find j ((destroy_proc 2 table).procs) ≡ (if 2 == j then none else find j table.procs))
destroy_proc-Inv_example = destroy_proc-Inv 2 table table-Inv

abbrev two_procs : Procs ℕ
two_procs = (1, (0, 5) ∷ (3, 6) ∷ []) ∷ (4, (0, 7) ∷ []) ∷ []

two_procs-IsSorted : IsSorted two_procs
two_procs-IsSorted = (omega arith, tt)

two_procs-AllRun : AllRun two_procs
two_procs-AllRun = ((tt, (omega arith, tt)), ((tt, tt), tt))

ticks-turn_example :
    ticks (length (turn two_procs) + 2) two_procs none ≡ turn two_procs ++ ticks 2 two_procs none
ticks-turn_example = ticks-turn two_procs two_procs-IsSorted two_procs-AllRun 2

try_all-x86_64_example : try_all x86_64 (4 ∷ 5 ∷ []) init_mutex ≡ true ∷ true ∷ []
try_all-x86_64_example = try_all-x86_64 (4 ∷ 5 ∷ []) init_mutex refl

unlock-lock_example :
    (lock_times_over x86_64 4 3 init_rec_mutex ≡ some (held 4 3))
    × (unlock_times_over x86_64 4 2 (held 4 3) ≡ some (held 4 1))
    × (unlock_times_over x86_64 4 3 (held 4 3) ≡ some init_rec_mutex)
    × (lock_round x86_64 5 (held 4 3) ≡ (true, held 5 4))
    × (try_lock_rec_mutex x86_64 5 (held 4 3) ≡ (true, held 5 4))
    × (unlock_rec_mutex x86_64 4 (held 5 4) ≡ none)
unlock-lock_example = unlock-lock 4 5 2 (λ e. omega arith) (omega arith)

Turns-one_writer_example : total writes (reading ∷ writing ∷ outside ∷ []) ≤ 1
Turns-one_writer_example =
    Turns-one_writer
      (record {
        threads = outside ∷ outside ∷ outside ∷ [];
        mutex = record { is_writing = false; read_count = 0 };
      })
      (record {
        threads = reading ∷ writing ∷ outside ∷ [];
        mutex = record { is_writing = true; read_count = 1 };
      })
      (unfold total marks flag in refl) (Turns-reader_and_writer (outside ∷ []))

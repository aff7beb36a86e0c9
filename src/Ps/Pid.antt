-- ===== src/Ps/Pid.antt =====
-- kernel/ps/proc.cc: process numbers. `ps_global_proc_set` is its contents in order, by
-- `pbos.Kfxx.Ordered`; the write lock of the set is held throughout each call.
pub mod Inv
pub mod Create
pub mod Destroy
use pbos.Common.{
  ℕ, zero, suc, ◌+◌, ◌-◌, Option, none, some, List, [], ltb, leb, ◌==◌, if◌then◌else◌,
}
use pbos.Kfxx.Ordered.{find, find_max_lteq, insert, remove}

-- `PS_PROC_ID_MAX` of include/pbos/ps/proc.h, which is no process number.
abbrev pub proc_id_max : ℕ
proc_id_max = 0xffff_ffff

-- `ps_global_proc_set`, `ki_min_free_pid` and `ki_cur_max_pid`. A process is its payload.
pub record ProcTable (P : Type 0) : Type 0 where
  pub procs : List (ℕ × P)
  pub min_free_pid : ℕ
  pub cur_max_pid : ℕ

module _ {P : Type 0} where
  unfoldable pub init : ProcTable P
  init = record { procs = []; min_free_pid = 0; cur_max_pid = 0 }

  -- `for (i = from; i != to; ++i) if (!ps_global_proc_set.find(i)) …`, on the rounds left.
  unfoldable pub first_free : ℕ → ℕ → List (ℕ × P) → Option ℕ
  first_free zero i m = none
  first_free (suc n) i m =
      let later = first_free n (i + 1) m in elim (find i m) [ none ↦ some i | some p ↦ later ]

  -- The number is taken: both marks move, and the process goes into the set.
  unfoldable pub take_pid : P → ProcTable P → ℕ → ProcTable P
  take_pid p t i = record {
    procs = insert i p t.procs;
    min_free_pid = i + 1;
    cur_max_pid = if leb t.cur_max_pid i then i else t.cur_max_pid;
  }

  -- `ps_create_proc`: the new table and the number, or `none` for KM_RESULT_NO_SLOT.
  unfoldable pub create_proc : P → ProcTable P → Option (ProcTable P × ℕ)
  unfolding take_pid
  create_proc p t = elim (first_free (proc_id_max - t.min_free_pid) t.min_free_pid t.procs) [
    | some i ↦ some (take_pid p t i, i)
    | none ↦ elim (first_free t.min_free_pid 0 t.procs) [
      | some i ↦ some (take_pid p t i, i)
      | none ↦ none
    ]
  ]

  unfoldable pub new_max : Option (ℕ × P) → ℕ
  new_max none = 0
  new_max (some e) = e.0

  -- The part of `ki_destroy_proc` under the lock: it takes the process out of the set if it is there.
  unfoldable pub destroy_proc : ℕ → ProcTable P → ProcTable P
  unfolding new_max
  destroy_proc pid t = elim (find pid t.procs) [
    | none ↦ t
    | some p ↦
        let procs = remove pid t.procs in
        record {
          procs = procs;
          min_free_pid = if ltb pid t.min_free_pid then pid else t.min_free_pid;
          cur_max_pid =
              if pid == t.cur_max_pid
              then new_max (find_max_lteq t.cur_max_pid procs)
              else t.cur_max_pid;
        }
  ]

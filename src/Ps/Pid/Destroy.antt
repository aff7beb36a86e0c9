-- ===== src/Ps/Pid/Destroy.antt =====
-- `ki_destroy_proc` gives the number back and keeps both marks right.
use pbos.Common.{
  ℕ, ◌≤◌, ◌<◌, ◌≡◌, ◌≢◌, refl, ◌⊎◌, inl, inr, Option, none, some, arith, ltb, ◌==◌, if◌then◌else◌,
  dec_lt, Option-cases, Bool-cases, false,
}
use pbos.Kfxx.Ordered.{find, find_max_lteq, remove}
use pbos.Kfxx.Ordered.Laws.{find-remove, remove-IsSorted, IsMaxLteq, find_max_lteq-IsMaxLteq}
use pbos.Ps.Pid.{ProcTable, proc_id_max, destroy_proc, new_max}
use pbos.Ps.Pid.Inv.{Used, Inv}

module _ {P : Type 0} (pid : ℕ) (t : ProcTable P) (v : Inv t) where
  free_after : (j : ℕ) → find j (remove pid t.procs) ≡ (if pid == j then none else find j t.procs)
  free_after j = find-remove pid j t.procs v.sorted

  Used-remove : (j : ℕ) → pid ≢ j → Used j t.procs → Used j (remove pid t.procs)
  Used-remove j n u e = ground (arith, free_after j)

  -- The mark for the greatest number in use, from the answer of the search below the old mark.
  new_max-free :
      (r : Option (ℕ × P))
      → pid ≡ t.cur_max_pid
      → IsMaxLteq t.cur_max_pid (remove pid t.procs) r
      → (j : ℕ) → new_max r < j
      → find j (remove pid t.procs) ≡ none
  unfolding new_max
  new_max-free none e q j h = elim (dec_lt t.cur_max_pid j) [
    | yes lt ↦ ground (arith, free_after j, v.free_above j lt)
    | no ge ↦ q j (omega arith)
  ]
  new_max-free (some m) e q j h = elim (dec_lt t.cur_max_pid j) [
    | yes lt ↦ ground (arith, free_after j, v.free_above j lt)
    | no ge ↦ q.2 j h (omega arith)
  ]

  new_max-Used :
      (r : Option (ℕ × P))
      → IsMaxLteq t.cur_max_pid (remove pid t.procs) r
      → (new_max r ≡ 0) ⊎ Used (new_max r) (remove pid t.procs)
  unfolding new_max
  new_max-Used none q = inl refl
  new_max-Used (some m) q = inr (λ e. let z = q.1 in cc)

  -- The table after a process with the number was taken out.
  removed : ProcTable P
  removed = record {
    procs = remove pid t.procs;
    min_free_pid = if ltb pid t.min_free_pid then pid else t.min_free_pid;
    cur_max_pid =
        if pid == t.cur_max_pid
        then new_max (find_max_lteq t.cur_max_pid (remove pid t.procs))
        else t.cur_max_pid;
  }

  mark_le : (if ltb pid t.min_free_pid then pid else t.min_free_pid) ≤ proc_id_max
  mark_le = ground (arith, v.min_free_le)

  below_mark :
      (j : ℕ)
      → j < (if ltb pid t.min_free_pid then pid else t.min_free_pid)
      → Used j (remove pid t.procs)
  below_mark j h = Used-remove j (ground arith) (v.used_below j (ground arith))

  above_max :
      (j : ℕ)
      → (if pid == t.cur_max_pid
          then new_max (find_max_lteq t.cur_max_pid (remove pid t.procs))
          else t.cur_max_pid)
        < j
      → find j (remove pid t.procs) ≡ none
  above_max j h = elim (Bool-cases (pid == t.cur_max_pid)) [
    | inl e ↦
        new_max-free (find_max_lteq t.cur_max_pid (remove pid t.procs)) (ground arith)
          (find_max_lteq-IsMaxLteq t.cur_max_pid (remove pid t.procs)
            (remove-IsSorted pid t.procs v.sorted))
          j (rw e at h)
    | inr n ↦ ground (arith, free_after j, v.free_above j (rw n at h))
  ]

  at_max :
      (t.cur_max_pid ≡ 0) ⊎ Used t.cur_max_pid t.procs
      → (removed.cur_max_pid ≡ 0) ⊎ Used removed.cur_max_pid removed.procs
  unfolding removed
  at_max m = elim (Bool-cases (pid == t.cur_max_pid)) [
    | inl e ↦ rw e (
        new_max-Used (find_max_lteq t.cur_max_pid (remove pid t.procs)) (
          find_max_lteq-IsMaxLteq t.cur_max_pid (remove pid t.procs)
            (remove-IsSorted pid t.procs v.sorted)))
    | inr n ↦ rw n (other n m)
  ]
    where
      other :
          (pid == t.cur_max_pid) ≡ false
          → (t.cur_max_pid ≡ 0) ⊎ Used t.cur_max_pid t.procs
          → (t.cur_max_pid ≡ 0) ⊎ Used t.cur_max_pid (remove pid t.procs)
      other n (inl z) = inl z
      other n (inr u) = inr (Used-remove t.cur_max_pid (ground arith) u)

  removed-Inv : Inv removed
  unfolding removed
  removed-Inv = record {
    sorted = remove-IsSorted pid t.procs v.sorted;
    used_below = below_mark;
    min_free_le = mark_le;
    free_above = above_max;
    max_used = at_max v.max_used;
  }

  -- From a table that keeps the invariant: after a process was destroyed its number is free, the
  -- other numbers stand for what they stood for, and the invariant holds. This is so also if the
  -- number stood for no process.
  pub destroy_proc-Inv :
      Inv (destroy_proc pid t)
      × ((j : ℕ)
          → find j ((destroy_proc pid t).procs) ≡ (if pid == j then none else find j t.procs))
  unfolding destroy_proc removed
  destroy_proc-Inv = elim (Option-cases (find pid t.procs)) [
    | inl e ↦ rw (e, destroy_proc) (v, λ j. ground arith)
    | inr (p, e) ↦ rw (e, destroy_proc) (removed-Inv, free_after)
  ]

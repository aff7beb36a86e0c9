-- ===== src/Ps/Pid/Create.antt =====
-- `ps_create_proc` gives out the least free number.
use pbos.Common.{
  ℕ, ◌-◌, ◌≤◌, ◌<◌, ◌≡◌, subst, ◌⊎◌, inl, inr, Option, none, some, arith, leb, ◌==◌, if◌then◌else◌,
  ℕ_discrete, dec_lt, Bool-cases, true, false,
}
use pbos.Kfxx.Ordered.{find, insert}
use pbos.Kfxx.Ordered.Laws.{find-insert, insert-IsSorted}
use pbos.Ps.Pid.{ProcTable, proc_id_max, first_free, take_pid, create_proc}
use pbos.Ps.Pid.Inv.{Used, Inv, FirstFree, first_free-FirstFree}

module _ {P : Type 0} where
  module _ (p : P) (t : ProcTable P) (v : Inv t) (i : ℕ) (free : find i t.procs ≡ none) where
    Used-insert_self : Used i (insert i p t.procs)
    Used-insert_self e = ground (arith, find-insert i i p t.procs free)

    Used-insert : (j : ℕ) → Used j t.procs → Used j (insert i p t.procs)
    Used-insert j u e = ground (arith, find-insert i j p t.procs free)

    take_pid-Inv : i < proc_id_max → ((j : ℕ) → j < i → Used j t.procs) → Inv (take_pid p t i)
    unfolding take_pid
    take_pid-Inv h below = record {
      sorted = insert-IsSorted i p t.procs v.sorted free;
      used_below = λ j lt. elim (ℕ_discrete i j) [
        | yes e ↦ subst (λ k. Used k (insert i p t.procs)) e Used-insert_self
        | no n ↦ Used-insert j (below j (omega arith))
      ];
      min_free_le = omega arith;
      free_above = λ j lt. ground (arith, find-insert i j p t.procs free, v.free_above j);
      max_used = inr (mark (Bool-cases (leb t.cur_max_pid i)) v.max_used);
    }
      where
        mark :
            ((leb t.cur_max_pid i ≡ true) ⊎ (leb t.cur_max_pid i ≡ false))
            → (t.cur_max_pid ≡ 0) ⊎ Used t.cur_max_pid t.procs
            → Used (if leb t.cur_max_pid i then i else t.cur_max_pid) (insert i p t.procs)
        mark (inl e) m = rw e Used-insert_self
        mark (inr e) (inl z) = absurd (ground arith)
        mark (inr e) (inr u) = rw e (Used-insert t.cur_max_pid u)

  -- What a call may end in: no slot, if every number is in use; otherwise the least free number,
  -- which the process then has in the new table, beside the processes of the old one.
  abbrev pub Created : P → ProcTable P → Option (ProcTable P × ℕ) → Type 0
  Created p t none = (i : ℕ) → i < proc_id_max → Used i t.procs
  Created p t (some r) =
      (r.1 < proc_id_max)
      × (find r.1 t.procs ≡ none)
      × ((j : ℕ) → j < r.1 → Used j t.procs)
      × ((j : ℕ) → find j (r.0.procs) ≡ (if r.1 == j then some p else find j t.procs))
      × Inv r.0

  module _ (p : P) (t : ProcTable P) (v : Inv t) where
    taken :
        (i : ℕ)
        → i < proc_id_max
        → find i t.procs ≡ none
        → ((j : ℕ) → j < i → Used j t.procs)
        → Created p t (some (take_pid p t i, i))
    unfolding take_pid
    taken i h free below =
        (h, free, below, λ j. find-insert i j p t.procs free, take_pid-Inv p t v i free h below)

    second :
        (r : Option ℕ)
        → ((j : ℕ) → t.min_free_pid ≤ j → j < proc_id_max → Used j t.procs)
        → FirstFree t.min_free_pid 0 t.procs r
        → Created p t (elim r [ some i ↦ some (take_pid p t i, i) | none ↦ none ])
    second none above f = λ j h. elim (dec_lt j t.min_free_pid) [
      | yes lt ↦ v.used_below j lt
      | no ge ↦ above j (omega arith) h
    ]
    second (some i) above f = absurd (v.used_below i (omega arith) f.2)

    first :
        (r : Option ℕ)
        → FirstFree (proc_id_max - t.min_free_pid) t.min_free_pid t.procs r
        → Created p t (elim r [
          | some i ↦ some (take_pid p t i, i)
          | none ↦ elim (first_free t.min_free_pid 0 t.procs) [
            | some i ↦ some (take_pid p t i, i)
            | none ↦ none
          ]
        ])
    first none f =
        second (first_free t.min_free_pid 0 t.procs)
          (λ j a b. let m = v.min_free_le in f j a (omega arith))
          (first_free-FirstFree t.min_free_pid 0 t.procs)
    first (some i) f =
        let m = v.min_free_le in
        taken i (omega arith) f.2 (λ j h. elim (dec_lt j t.min_free_pid) [
          | yes lt ↦ v.used_below j lt
          | no ge ↦ f.3 j (omega arith) h
        ])

    -- From a table that keeps the invariant, a call gives out the least number that is not in use
    -- and keeps the invariant; it reports that there is no slot only if every number is in use.
    pub create_proc-Created : Created p t (create_proc p t)
    unfolding create_proc
    create_proc-Created =
        first (first_free (proc_id_max - t.min_free_pid) t.min_free_pid t.procs)
          (first_free-FirstFree (proc_id_max - t.min_free_pid) t.min_free_pid t.procs)

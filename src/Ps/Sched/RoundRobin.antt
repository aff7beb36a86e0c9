-- ===== src/Ps/Sched/RoundRobin.antt =====
-- The scheduler runs every thread once in each turn of the processes.
use Prim.Native.Nat.add
use native.Mathlib.Nat.{zero-add}
use pbos.Common.{
  ℕ, zero, suc, ◌+◌, ◌≡◌, refl, sym, ap, ◌∙◌, subst, Option, none, some, List, [], ◌∷◌, ◌++◌,
  append_assoc, All, length,
}
use pbos.Kfxx.Ordered.{find, next_above, IsSorted}
use pbos.Kfxx.Ordered.Split.{head_of, next_above-split, find-split}
use pbos.Ps.Sched.{
  Threads, Procs, thread, thread_set_begin, first_thread, proc_after, next_thread, ticks,
}

module _ {T : Type 0} where
  abbrev pub HasThread : Threads T → Type 0
  HasThread [] = ⊥
  HasThread (t ∷ ts) = Unit

  -- Every process has a thread.
  abbrev pub AllRun : Procs T → Type 0
  AllRun = All (λ p. HasThread p.1 × IsSorted p.1)

  -- The threads of a process, and those of all processes, in order.
  pub keys : ℕ → Threads T → List (ℕ × ℕ)
  keys pid [] = []
  keys pid ((tid, t) ∷ ts) = (pid, tid) ∷ keys pid ts

  pub turn : Procs T → List (ℕ × ℕ)
  unfolding keys
  turn [] = []
  turn ((pid, ts) ∷ ps) = keys pid ts ++ turn ps

  All-split :
      (P : ℕ × Threads T → Type 0) (a : Procs T) (x : ℕ × Threads T) (b : Procs T)
      → All P (a ++ (x ∷ b))
      → P x × All P b
  All-split P [] x b h = h
  All-split P (y ∷ a) x b h = All-split P a x b h.1

  module _ (ps : Procs T) (sorted : IsSorted ps) (run : AllRun ps) where
    module _ (a : Procs T) (pid : ℕ) (ts : Threads T) (b : Procs T)
        (e : ps ≡ a ++ ((pid, ts) ∷ b)) where
      find-here : find pid ps ≡ some ts
      find-here =
          subst (λ m. find pid m ≡ some ts) (sym e)
            (find-split pid ts a b (subst IsSorted e sorted))

      next-here : next_above pid ps ≡ head_of b
      next-here =
          subst (λ m. next_above pid m ≡ head_of b) (sym e)
            (next_above-split pid ts a b (subst IsSorted e sorted))

      run-here : (HasThread ts × IsSorted ts) × AllRun b
      run-here = All-split _ a (pid, ts) b (subst AllRun e run)

    module _ (a : Procs T) (pid : ℕ) (xs : Threads T) (tid : ℕ) (t : T) where
      -- The tick after a thread chooses the thread behind it, or the process behind its own.
      next_thread-same :
          (uid : ℕ) (u : T) (ys : Threads T) (b : Procs T)
          → ps ≡ a ++ ((pid, xs ++ ((tid, t) ∷ ((uid, u) ∷ ys))) ∷ b)
          → next_thread ps (some (pid, tid)) ≡ thread pid uid
      unfolding next_thread
      next_thread-same uid u ys b e =
          rw (find-here a pid (xs ++ ((tid, t) ∷ ((uid, u) ∷ ys))) b e, next_thread)
            (rw
              (next_above-split tid t xs ((uid, u) ∷ ys)
                (run-here a pid (xs ++ ((tid, t) ∷ ((uid, u) ∷ ys))) b e).0.1)
              refl)

      next_thread-last :
          (b : Procs T)
          → ps ≡ a ++ ((pid, xs ++ ((tid, t) ∷ [])) ∷ b)
          → next_thread ps (some (pid, tid))
            ≡ elim (head_of b) [ some p ↦ thread_set_begin p.0 p.1 | none ↦ first_thread ps ]
      unfolding next_thread proc_after
      next_thread-last b e =
          rw (find-here a pid (xs ++ ((tid, t) ∷ [])) b e, next_thread)
            (rw (next_above-split tid t xs [] (run-here a pid (xs ++ ((tid, t) ∷ [])) b e).0.1)
              (rw (next-here a pid (xs ++ ((tid, t) ∷ [])) b e, proc_after) refl))

    ticks-next :
        (m pid tid : ℕ)
        → next_thread ps (some (pid, tid)) ≡ first_thread ps
        → ticks m ps (some (pid, tid)) ≡ ticks m ps none
    unfolding ticks next_thread
    ticks-next zero pid tid e = refl
    ticks-next (suc m) pid tid e = rw (e, ticks) refl

    ticks-thread :
        (m : ℕ) (cur : Option (ℕ × ℕ)) (pid tid : ℕ)
        → next_thread ps cur ≡ thread pid tid
        → ticks (suc m) ps cur ≡ (pid, tid) ∷ ticks m ps (some (pid, tid))
    unfolding ticks
    ticks-thread m cur pid tid e = rw (e, ticks) refl

    -- From a thread on, the ticks choose the later threads of its process, those of the later
    -- processes, and then go on as from the start.
    rest_of_turn :
        (m : ℕ) (a : Procs T) (pid : ℕ) (xs : Threads T) (tid : ℕ) (t : T) (b : Procs T)
        (ys : Threads T)
        → ps ≡ a ++ ((pid, xs ++ ((tid, t) ∷ ys)) ∷ b)
        → ticks (length (keys pid ys ++ turn b) + m) ps (some (pid, tid))
          ≡ (keys pid ys ++ turn b) ++ ticks m ps none
    unfolding keys turn
    rest_of_turn m a pid xs tid t [] [] e =
        rw zero-add (ticks-next m pid tid (next_thread-last a pid xs tid t [] e))
    rest_of_turn m a pid xs tid t ((qid, []) ∷ b) [] e =
        absurd (run-here a pid (xs ++ ((tid, t) ∷ [])) ((qid, []) ∷ b) e).1.0.0
    rest_of_turn m a pid xs tid t ((qid, (uid, u) ∷ us) ∷ b) [] e = rw add.suc (
        ticks-thread (length (keys qid us ++ turn b) + m) (some (pid, tid)) qid uid (
          next_thread-last a pid xs tid t ((qid, (uid, u) ∷ us) ∷ b) e
          ∙ unfold thread_set_begin in refl)
        ∙ ap (λ l. (qid, uid) ∷ l)
            (rest_of_turn m (a ++ ((pid, xs ++ ((tid, t) ∷ [])) ∷ [])) qid [] uid u b us
              (e ∙ sym (append_assoc a _ _))))
    rest_of_turn m a pid xs tid t b ((uid, u) ∷ ys) e = rw add.suc (
        ticks-thread (length (keys pid ys ++ turn b) + m) (some (pid, tid)) pid uid
          (next_thread-same a pid xs tid t uid u ys b e)
        ∙ ap (λ l. (pid, uid) ∷ l)
            (rest_of_turn m a pid (xs ++ ((tid, t) ∷ [])) uid u b ys
              (e ∙ ap (λ l. a ++ ((pid, l) ∷ b)) (sym (append_assoc xs _ _)))))

  -- If the sets are in order and every process has a thread, then from a processor without a
  -- current thread the ticks choose every thread once, in the order of the processes and of the
  -- threads of each, and then start over.
  pub ticks-turn :
      (ps : Procs T)
      → IsSorted ps
      → AllRun ps
      → (m : ℕ) → ticks (length (turn ps) + m) ps none ≡ turn ps ++ ticks m ps none
  unfolding turn keys
  ticks-turn [] s r m = rw zero-add refl
  ticks-turn ((pid, []) ∷ b) s r m = absurd r.0.0
  ticks-turn ((pid, (tid, t) ∷ ts) ∷ b) s r m = rw add.suc (
      ticks-thread ((pid, (tid, t) ∷ ts) ∷ b) s r (length (keys pid ts ++ turn b) + m) none pid tid
        (unfold next_thread first_thread thread_set_begin in refl)
      ∙ ap (λ l. (pid, tid) ∷ l)
          (rest_of_turn ((pid, (tid, t) ∷ ts) ∷ b) s r m [] pid [] tid t b ts refl))

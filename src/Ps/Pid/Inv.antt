-- ===== src/Ps/Pid/Inv.antt =====
-- What holds of the process table between calls, and the search for a free number.
use pbos.Common.{
  ℕ, zero, suc, ◌+◌, ◌≤◌, ◌<◌, ◌≡◌, ◌≢◌, refl, ◌⊎◌, inl, inr, sym, ◌∙◌, subst, ℕ_discrete, Option,
  none, some, List, arith, Option-cases,
}
use pbos.Kfxx.Ordered.{find, IsSorted}
use pbos.Ps.Pid.{ProcTable, proc_id_max, init, first_free}

module _ {P : Type 0} where
  -- The process number is in use.
  abbrev pub Used : ℕ → List (ℕ × P) → Type 0
  Used i m = find i m ≢ none

  pub record Inv (t : ProcTable P) : Type 0 where
    pub sorted : IsSorted t.procs
    -- Every number below the mark is in use.
    pub used_below : (i : ℕ) → i < t.min_free_pid → Used i t.procs
    pub min_free_le : t.min_free_pid ≤ proc_id_max
    -- No number above the other mark is in use.
    pub free_above : (i : ℕ) → t.cur_max_pid < i → find i t.procs ≡ none
    -- The mark is a number in use, unless it is 0.
    pub max_used : (t.cur_max_pid ≡ 0) ⊎ Used t.cur_max_pid t.procs

  pub init-Inv : Inv (init {P = P})
  unfolding init find
  init-Inv = record {
    sorted = tt;
    used_below = λ i h. elim h [ ];
    min_free_le = omega arith;
    free_above = λ i h. refl;
    max_used = inl refl;
  }

  -- What the search from `i` over `n` numbers may answer: the first free one, or none if all are
  -- in use.
  abbrev pub FirstFree : ℕ → ℕ → List (ℕ × P) → Option ℕ → Type 0
  FirstFree n i m none = (j : ℕ) → i ≤ j → j < i + n → Used j m
  FirstFree n i m (some p) =
      (i ≤ p) × (p < i + n) × (find p m ≡ none) × ((j : ℕ) → i ≤ j → j < p → Used j m)

  FirstFree-step :
      (n i : ℕ) (m : List (ℕ × P)) (r : Option ℕ)
      → Used i m
      → FirstFree n (i + 1) m r
      → FirstFree (suc n) i m r
  FirstFree-step n i m none u f = λ j a b e. elim (ℕ_discrete i j) [
    | yes q ↦ u (subst (λ k. find k m ≡ none) (sym q) e)
    | no q ↦ f j (omega arith) (omega arith) e
  ]
  FirstFree-step n i m (some p) u f = (
    omega arith,
    omega arith,
    f.2,
    λ j a b e. elim (ℕ_discrete i j) [
      | yes q ↦ u (subst (λ k. find k m ≡ none) (sym q) e)
      | no q ↦ f.3 j (omega arith) b e
    ],
  )

  pub first_free-FirstFree : (n i : ℕ) (m : List (ℕ × P)) → FirstFree n i m (first_free n i m)
  unfolding first_free
  first_free-FirstFree zero i m = λ j a b. absurd (omega arith)
  first_free-FirstFree (suc n) i m = elim (Option-cases (find i m)) [
    | inl e ↦ rw (e, first_free) (omega arith, omega arith, e, λ j a b. absurd (omega arith))
    | inr (p, e) ↦
        rw (e, first_free)
          (FirstFree-step n i m (first_free n (i + 1) m) (λ q. (let z = sym e ∙ q in cc))
            (first_free-FirstFree n (i + 1) m))
  ]

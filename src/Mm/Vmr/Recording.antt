-- ===== src/Mm/Vmr/Recording.antt =====
-- The block of `mm_mmap` that records the area.
use pbos.Common.{
  ◌∷◌, [], ℕ, ◌||◌, ◌⊎◌, List, Option, Bool-cases, ◌<◌, ◌≡◌, ◌≢◌, refl, Bool, false, none, some,
  inl, inr, Option-cases, arith,
}
use pbos.Kfxx.Ordered.{find, find_max_lteq, insert, remove, IsSorted}
use pbos.Kfxx.Ordered.Laws.{insert-IsSorted, remove-IsSorted}
use pbos.Mm.Context.{Vmr, Context, Outcome, returned, panicked, last_byte}
use pbos.Mm.Vmr.{
  Answer, given, out_of_memory, stopped, reaches, covered, new_vmr, record_vmr, remove_vmr,
}

-- The area, if there is one, does not reach `p`.
abbrev pub Clear : Option (ℕ × Vmr) → ℕ → Type 0
Clear none p = Unit
Clear (some (k, v)) p = last_byte k v.size < p

reaches-Clear : (o : Option (ℕ × Vmr)) (p : ℕ) → reaches o p ≡ false → Clear o p
unfolding reaches
reaches-Clear none p e = tt
reaches-Clear (some (k, v)) p e = ground (arith, e)

or_left : (a b : Bool) → (a || b) ≡ false → a ≡ false
or_left a b e = ground (arith, e)

or_right : (a b : Bool) → (a || b) ≡ false → b ≡ false
or_right a b e = ground (arith, e)

covered-IsClear :
    (m : List (ℕ × Vmr)) (base limit : ℕ)
    → covered m base limit ≡ false
    → Clear (find_max_lteq base m) base × Clear (find_max_lteq limit m) limit
unfolding covered
covered-IsClear [] base limit e = unfold find_max_lteq in (tt, tt)
covered-IsClear (x ∷ m) base limit e =
    let low = find_max_lteq base (x ∷ m) in
    let high = find_max_lteq limit (x ∷ m) in
    (
      reaches-Clear low base (or_left (reaches low base) (reaches high limit) e),
      reaches-Clear high limit (or_right (reaches low base) (reaches high limit) e),
    )

module _ {P : Type 0} where
  -- No area is in the way: none that begins at or below the first page reaches it, and none
  -- that begins at or below the limit reaches that.
  abbrev pub IsClear : Context P → ℕ → ℕ → Type 0
  IsClear c base limit =
      Clear (find_max_lteq base c.vmr_tree) base × Clear (find_max_lteq limit c.vmr_tree) limit

  -- The VMRs are in order and both mutexes are held as before.
  abbrev pub IsLeft : Context P → Context P → Type 0
  IsLeft c d = IsSorted d.vmr_tree × (d.vmr_locks ≡ c.vmr_locks) × (d.kernel_locks ≡ c.kernel_locks)

  -- A new VMR at the address was recorded, where no area was in the way and none began there.
  abbrev pub Recorded : Context P → ℕ → ℕ → ℕ → ℕ → ℕ → List (ℕ × Vmr) → Type 0
  Recorded c vaddr base limit size access tree =
      IsClear c base limit
      × (find vaddr c.vmr_tree ≡ none)
      × (tree ≡ insert vaddr (new_vmr size access) c.vmr_tree)

  -- What the block that records the area ends in.
  abbrev pub Records : Answer → Context P → ℕ → ℕ → ℕ → ℕ → ℕ → Outcome P → Type 0
  Records answer c vaddr base limit size access panicked =
      IsClear c base limit × ((answer ≡ stopped) ⊎ (find vaddr c.vmr_tree ≢ none))
  Records answer c vaddr base limit size access (returned code d) =
      IsLeft c d
      × (((code ≡ 0) × Recorded c vaddr base limit size access d.vmr_tree)
          ⊎ ((code ≢ 0) × (d.vmr_tree ≡ remove base c.vmr_tree)))

  uncovered-Records :
      (answer : Answer) (c : Context P) (vaddr base limit size access : ℕ)
      → IsSorted c.vmr_tree
      → covered c.vmr_tree base limit ≡ false
      → Records answer c vaddr base limit size access
          (record_vmr answer c vaddr base limit size access)
  unfolding record_vmr remove_vmr
  uncovered-Records stopped c vaddr base limit size access s n =
      rw n (covered-IsClear c.vmr_tree base limit n, inl refl)
  uncovered-Records out_of_memory c vaddr base limit size access s n =
      rw n (
        (remove-IsSorted base c.vmr_tree s, omega arith, refl),
        inr ((λ e. omega (arith, e)), refl),
      )
  uncovered-Records given c vaddr base limit size access s n =
      let clear = covered-IsClear c.vmr_tree base limit n in
      elim (Option-cases (find vaddr c.vmr_tree)) [
        | inl f ↦
            rw (n, f)
              (
                (insert-IsSorted vaddr (new_vmr size access) c.vmr_tree s f, omega arith, refl),
                inl (refl, (clear, f, refl)),
              )
        | inr (v, f) ↦ rw (n, f) (clear, inr (λ e. absurd (grind (arith, e, f))))
      ]

  pub record_vmr-Records :
      (answer : Answer) (c : Context P) (vaddr base limit size access : ℕ)
      → IsSorted c.vmr_tree
      → Records answer c vaddr base limit size access
          (record_vmr answer c vaddr base limit size access)
  unfolding record_vmr remove_vmr
  record_vmr-Records answer c vaddr base limit size access s =
      elim (Bool-cases (covered c.vmr_tree base limit)) [
        | inl y ↦ rw y (
          (remove-IsSorted base c.vmr_tree s, omega arith, refl),
          inr ((λ e. omega (arith, e)), refl),
        )
        | inr n ↦ uncovered-Records answer c vaddr base limit size access s n
      ]

-- ===== src/Mm/Probe/Range.antt =====
-- `mm_probe_and_lock_pages` and `mm_unlock_pages` on a range of user space.
use pbos.Common.{
  ℕ, zero, suc, ◌≡◌, ◌⊎◌, refl, subst, inl, inr, true, false, none, some, Option-cases, Bool-cases,
  List, map, length, ltb, arith,
}
use pbos.Kfxx.Ordered.{find_max_lteq}
use pbos.Mm.Context.{Vmr, km_result_ok, is_user_space, pgfloor, pgceil, last_byte}
use pbos.Mm.Probe.{
  Event, ended, endless, Walked, passed, stopped, out_of_fuel, area_end, probe_areas, unlock_areas,
  restore, probe_user, unlock_user, probe_and_lock_pages, unlock_pages, refuses, prev_area,
}
use pbos.Mm.Probe.Covering.{undone, Mirrors, unlock_areas-Mirrors}

Walked-cases :
    (r : Walked)
    → (r ≡ out_of_fuel)
      ⊎ (((k : ℕ) × ((t : List Event) × (r ≡ stopped k t)))
          ⊎ ((last : ℕ × Vmr) × ((t : List Event) × (r ≡ passed last t))))
Walked-cases out_of_fuel = inl refl
Walked-cases (stopped k t) = inr (inl (k, (t, refl)))
Walked-cases (passed last t) = inr (inr (last, (t, refl)))

module _ (tree : List (ℕ × Vmr)) (required : ℕ) where
  -- What stands behind a probe that succeeds.
  record Success (ptr limit : ℕ) (trace : List Event) : Type 0 where
    pub initial : ℕ × Vmr
    pub vmr_end : ℕ × Vmr
    pub last : ℕ × Vmr
    pub from : find_max_lteq ptr tree ≡ some initial
    pub to : find_max_lteq limit tree ≡ some vmr_end
    pub walk : probe_areas tree (length tree) required vmr_end.0 none initial ≡ passed last trace
    pub long_enough : ltb (area_end last) limit ≡ false

  probe_user-Success :
      (ptr limit : ℕ) (trace : List Event)
      → probe_user tree ptr limit required ≡ ended km_result_ok trace
      → Success ptr limit trace
  unfolding probe_user
  probe_user-Success ptr limit trace h = elim (Option-cases (find_max_lteq ptr tree)) [
    | inl e ↦ absurd (ground (arith, e, h))
    | inr (initial, e) ↦ elim (Option-cases (find_max_lteq limit tree)) [
      | inl g ↦ absurd (ground (arith, e, g, h))
      | inr (vmr_end, g) ↦
          elim (Walked-cases (probe_areas tree (length tree) required vmr_end.0 none initial)) [
            | inl w ↦ absurd (ground (arith, e, g, w, h))
            | inr (inl (k, (t, w))) ↦
                elim (Option-cases (restore tree (suc (length tree)) initial.0 k k)) [
                  | inl r ↦ absurd (ground (arith, e, g, w, r, h))
                  | inr (undo, r) ↦ absurd (ground (arith, e, g, w, r, h))
                ]
            | inr (inr (last, (t, w))) ↦ elim (Bool-cases (ltb (area_end last) limit)) [
              | inl short ↦ absurd (ground (arith, e, g, w, short, h))
              | inr long_enough ↦ record {
                initial = initial;
                vmr_end = vmr_end;
                last = last;
                from = e;
                to = g;
                walk = ground (arith, e, g, w, long_enough, h);
                long_enough = long_enough;
              }
            ]
          ]
    ]
  ]

  unlock_user_eq :
      (ptr limit : ℕ) (trace : List Event)
      → Success ptr limit trace
      → unlock_user tree ptr limit ≡ ended km_result_ok (map undone trace)
  unfolding unlock_user
  unlock_user_eq ptr limit trace s =
      let m = unlock_areas-Mirrors tree required (length tree) s.vmr_end.0 none s.initial in
      let w =
        subst
          (λ r.
            Mirrors tree required r (unlock_areas tree (length tree) s.vmr_end.0 none s.initial))
          s.walk m in
      ground (arith, s.from, s.to, w, s.long_enough)

  -- The checks on the range pass on to the walk over the areas.
  probe-user :
      (uninitialized : ℕ) (getmap : ℕ → ℕ) (ptr size : ℕ) (trace : List Event)
      → is_user_space (pgfloor ptr) ≡ true
      → probe_and_lock_pages tree uninitialized getmap ptr size required ≡ ended km_result_ok trace
      → (refuses ptr size ≡ false)
        × (probe_user tree ptr (last_byte (pgfloor ptr) (pgceil size)) required
            ≡ ended km_result_ok trace)
  unfolding probe_and_lock_pages
  probe-user uninitialized getmap ptr size trace user h = ground (arith, user, h)

  -- In user space: `mm_unlock_pages` on a range that `mm_probe_and_lock_pages` locked succeeds, and
  -- unlocks the areas that this locked, each as often.
  pub unlock_pages-probe_and_lock_pages :
      (uninitialized : ℕ) (getmap : ℕ → ℕ) (ptr size : ℕ) (trace : List Event)
      → is_user_space (pgfloor ptr) ≡ true
      → probe_and_lock_pages tree uninitialized getmap ptr size required ≡ ended km_result_ok trace
      → unlock_pages tree uninitialized getmap ptr size ≡ ended km_result_ok (map undone trace)
  unfolding unlock_pages
  unlock_pages-probe_and_lock_pages uninitialized getmap ptr size trace user h =
      let limit = last_byte (pgfloor ptr) (pgceil size) in
      let p = probe-user uninitialized getmap ptr size trace user h in
      ground
        (arith, user, p.0, unlock_user_eq ptr limit trace (probe_user-Success ptr limit trace p.1))

  restore-none :
      (n initial vmr i : ℕ) (prev : ℕ × Vmr)
      → prev_area tree initial vmr ≡ some prev
      → restore tree n initial vmr i ≡ none
  unfolding restore
  restore-none zero initial vmr i prev e = refl
  restore-none (suc n) initial vmr i prev e =
      ground (arith, e, restore-none n initial vmr prev.0 prev e)

  -- If the walk of the probe stops at an area that has one before it in the range: the loop of
  -- `restore_guard` does not end, however many rounds it gets, so the call does not end.
  pub probe_user-endless :
      (ptr limit k : ℕ) (trace : List Event) (initial vmr_end prev : ℕ × Vmr)
      → find_max_lteq ptr tree ≡ some initial
      → find_max_lteq limit tree ≡ some vmr_end
      → probe_areas tree (length tree) required vmr_end.0 none initial ≡ stopped k trace
      → prev_area tree initial.0 k ≡ some prev
      → ((n : ℕ) → restore tree n initial.0 k k ≡ none)
        × (probe_user tree ptr limit required ≡ endless)
  unfolding probe_user
  probe_user-endless ptr limit k trace initial vmr_end prev e g w b = (
    λ n. restore-none n initial.0 k k prev b,
    ground (arith, e, g, w, restore-none (suc (length tree)) initial.0 k k prev b),
  )

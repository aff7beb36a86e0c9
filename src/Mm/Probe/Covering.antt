-- ===== src/Mm/Probe/Covering.antt =====
-- What a successful probe says of the range, and that unlocking undoes it.
use pbos.Common.{
  ℕ, zero, suc, ◌+◌, ◌≤◌, ◌<◌, ◌≡◌, refl, subst, inl, inr, Bool, true, false, ◌||◌, Option, none,
  some, Option-cases, Bool-cases, List, [], ◌∷◌, map, dec_lt, arith,
}
use pbos.Kfxx.Ordered.{find, next_above, IsSorted}
use pbos.Kfxx.Ordered.Count.{above, above-passes}
use pbos.Kfxx.Ordered.Laws.{IsNext, next_above-IsNext}
use pbos.Mm.Context.{Vmr}
use pbos.Mm.Vmr.Areas.{IsDisjoint, found-Beyond}
use pbos.Mm.Probe.{
  Event, locks, unlocks, Walked, passed, stopped, out_of_fuel, denies, area_end, is_apart, logged,
  next_area, probe_areas, unlock_areas,
}

-- The unlocking of what was locked.
abbrev pub undone : Event → Event
undone (locks k) = unlocks k
undone (unlocks k) = locks k

neither : (a b : Bool) → (a || b) ≡ false → (a ≡ false) × (b ≡ false)
neither true b h = absurd (ground (arith, h))
neither false b h = (refl, h)

-- An area holds the byte at an address and permits the access.
abbrev pub Covered : List (ℕ × Vmr) → ℕ → ℕ → Type 0
Covered tree required a =
    (k : ℕ) × ((u : Vmr) × (find k tree ≡ some u)
      × (k ≤ a)
      × (a < k + u.size)
      × (denies required u.access ≡ false))

module _ (tree : List (ℕ × Vmr)) (required : ℕ) where
  probe_areas-stop :
      (n vmr_end : ℕ) (last : Option (ℕ × Vmr)) (e : ℕ × Vmr)
      → (is_apart last e || denies required e.1.access) ≡ true
      → probe_areas tree (suc n) required vmr_end last e ≡ stopped e.0 (locks e.0 ∷ [])
  unfolding probe_areas logged
  probe_areas-stop n vmr_end last e h = ground (arith, h)

  probe_areas-last :
      (n vmr_end : ℕ) (last : Option (ℕ × Vmr)) (e : ℕ × Vmr)
      → (is_apart last e || denies required e.1.access) ≡ false
      → next_area tree vmr_end e.0 ≡ none
      → probe_areas tree (suc n) required vmr_end last e ≡ passed e (locks e.0 ∷ [])
  unfolding probe_areas logged
  probe_areas-last n vmr_end last e h o = ground (arith, h, o)

  probe_areas-next :
      (n vmr_end : ℕ) (last : Option (ℕ × Vmr)) (e next : ℕ × Vmr)
      → (is_apart last e || denies required e.1.access) ≡ false
      → next_area tree vmr_end e.0 ≡ some next
      → probe_areas tree (suc n) required vmr_end last e
        ≡ logged (locks e.0) (probe_areas tree n required vmr_end (some e) next)
  unfolding probe_areas
  probe_areas-next n vmr_end last e next h o = ground (arith, h, o)

  -- What the walk of the unlocking does where that of the probe passed.
  abbrev pub Mirrors : Walked → Walked → Type 0
  Mirrors (passed end trace) r = r ≡ passed end (map undone trace)
  Mirrors (stopped k trace) r = Unit
  Mirrors out_of_fuel r = Unit

  logged-Mirrors :
      (k : ℕ) (r u : Walked) → Mirrors r u → Mirrors (logged (locks k) r) (logged (unlocks k) u)
  unfolding logged
  logged-Mirrors k (passed end trace) u q = rw q refl
  logged-Mirrors k (stopped j trace) u q = tt
  logged-Mirrors k out_of_fuel u q = tt

  unlock_areas-last :
      (n vmr_end : ℕ) (last : Option (ℕ × Vmr)) (e : ℕ × Vmr)
      → is_apart last e ≡ false
      → next_area tree vmr_end e.0 ≡ none
      → unlock_areas tree (suc n) vmr_end last e ≡ passed e (unlocks e.0 ∷ [])
  unfolding unlock_areas logged
  unlock_areas-last n vmr_end last e h o = ground (arith, h, o)

  unlock_areas-next :
      (n vmr_end : ℕ) (last : Option (ℕ × Vmr)) (e next : ℕ × Vmr)
      → is_apart last e ≡ false
      → next_area tree vmr_end e.0 ≡ some next
      → unlock_areas tree (suc n) vmr_end last e
        ≡ logged (unlocks e.0) (unlock_areas tree n vmr_end (some e) next)
  unfolding unlock_areas
  unlock_areas-next n vmr_end last e next h o = ground (arith, h, o)

  pub unlock_areas-Mirrors :
      (n vmr_end : ℕ) (last : Option (ℕ × Vmr)) (e : ℕ × Vmr)
      → Mirrors (probe_areas tree n required vmr_end last e) (unlock_areas tree n vmr_end last e)
  unlock_areas-Mirrors zero vmr_end last e = unfold probe_areas in tt
  unlock_areas-Mirrors (suc n) vmr_end last e =
      elim (Bool-cases (is_apart last e || denies required e.1.access)) [
        | inl h ↦ rw (probe_areas-stop n vmr_end last e h) tt
        | inr h ↦
            let near = (neither (is_apart last e) (denies required e.1.access) h).0 in
            elim (Option-cases (next_area tree vmr_end e.0)) [
              | inl o ↦
                  rw (probe_areas-last n vmr_end last e h o)
                    (unlock_areas-last n vmr_end last e near o)
              | inr (next, o) ↦
                  rw
                    (
                      probe_areas-next n vmr_end last e next h o,
                      unlock_areas-next n vmr_end last e next near o,
                    )
                    (logged-Mirrors e.0 (probe_areas tree n required vmr_end (some e) next)
                      (unlock_areas tree n vmr_end (some e) next)
                      (unlock_areas-Mirrors n vmr_end (some e) next))
            ]
      ]

module _ (tree : List (ℕ × Vmr)) (required : ℕ) (v : IsDisjoint tree) (sorted : IsSorted tree) where
  -- A walk that began at `e`, behind `last`.
  abbrev pub IsWalked : Option (ℕ × Vmr) → ℕ × Vmr → Walked → Type 0
  IsWalked last e (passed end trace) =
      (is_apart last e ≡ false) × ((a : ℕ) → e.0 ≤ a → a < area_end end → Covered tree required a)
  IsWalked last e (stopped k trace) = Unit
  IsWalked last e out_of_fuel = ⊥

  area_end_lem : (e : ℕ × Vmr) → find e.0 tree ≡ some e.1 → area_end e ≡ e.0 + e.1.size
  unfolding area_end
  area_end_lem e f = omega (arith, found-Beyond e.0 0 e.1 tree v f)

  own-Covered :
      (e : ℕ × Vmr) (a : ℕ)
      → find e.0 tree ≡ some e.1
      → denies required e.1.access ≡ false
      → e.0 ≤ a
      → a < area_end e
      → Covered tree required a
  own-Covered e a f allowed from to =
      (e.0, (e.1, f, from, omega (arith, area_end_lem e f, to), allowed))

  logged-IsWalked :
      (last : Option (ℕ × Vmr)) (e next : ℕ × Vmr) (event : Event) (r : Walked)
      → find e.0 tree ≡ some e.1
      → is_apart last e ≡ false
      → denies required e.1.access ≡ false
      → IsWalked (some e) next r
      → IsWalked last e (logged event r)
  unfolding logged is_apart
  logged-IsWalked last e next event (passed end trace) f near allowed q = (
    near,
    λ a from to. elim (dec_lt a next.0) [
      | yes lt ↦ own-Covered e a f allowed from (ground (arith, q.0, lt))
      | no ge ↦ q.1 a (omega arith) to
    ],
  )
  logged-IsWalked last e next event (stopped k trace) f near allowed q = tt
  logged-IsWalked last e next event out_of_fuel f near allowed q = q

  next_area-found :
      (vmr_end : ℕ) (e next : ℕ × Vmr)
      → next_area tree vmr_end e.0 ≡ some next
      → (e.0 < next.0) × (find next.0 tree ≡ some next.1)
  unfolding next_area
  next_area-found vmr_end e next o =
      let p : next_above e.0 tree ≡ some next = ground (arith, o) in
      let q = subst (IsNext e.0 tree) p (next_above-IsNext e.0 tree sorted) in (q.0, q.1)

  pub probe_areas-IsWalked :
      (n vmr_end : ℕ) (last : Option (ℕ × Vmr)) (e : ℕ × Vmr)
      → find e.0 tree ≡ some e.1
      → above e.0 tree ≤ n
      → IsWalked last e (probe_areas tree n required vmr_end last e)
  probe_areas-IsWalked zero vmr_end last e f enough =
      absurd (omega (arith, above-passes e.0 (suc e.0) e.1 tree f (omega arith)))
  probe_areas-IsWalked (suc n) vmr_end last e f enough =
      elim (Bool-cases (is_apart last e || denies required e.1.access)) [
        | inl h ↦ rw (probe_areas-stop tree required n vmr_end last e h) tt
        | inr h ↦ elim (Option-cases (next_area tree vmr_end e.0)) [
          | inl o ↦ rw (probe_areas-last tree required n vmr_end last e h o) (
            (neither (is_apart last e) (denies required e.1.access) h).0,
            λ a from to.
                own-Covered e a f (neither (is_apart last e) (denies required e.1.access) h).1 from
                  to,
          )
          | inr (next, o) ↦
              let g = next_area-found vmr_end e next o in
              rw (probe_areas-next tree required n vmr_end last e next h o) (
                logged-IsWalked last e next (locks e.0)
                  (probe_areas tree n required vmr_end (some e) next) f
                  (neither (is_apart last e) (denies required e.1.access) h).0
                  (neither (is_apart last e) (denies required e.1.access) h).1
                  (probe_areas-IsWalked n vmr_end (some e) next g.1
                    (omega (arith, above-passes e.0 next.0 e.1 tree f g.0))))
        ]
      ]

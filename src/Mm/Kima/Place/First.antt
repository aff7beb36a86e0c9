-- ===== src/Mm/Kima/Place/First.antt =====
-- The search finds the first aligned place between the blocks, and ends.
use native.Mathlib.Nat.{mod-lt}
use pbos.Common.{
  ℕ, zero, suc, ◌+◌, ◌%◌, ◌^◌, ◌≤◌, ◌<◌, ◌≡◌, ◌≢◌, inl, inr, Bool, none, some, Option-cases, [],
  ◌∷◌, length, ltb, dec_lt, if◌then◌else◌, arith,
}
use pbos.Kfxx.Ordered.{find, find_max_lteq}
use pbos.Mm.Kima.Place.{Blocks, Search, found, past, out_of_fuel, align_up, in_way, blocked, place}
use pbos.Mm.Kima.Place.Align.{align_up_bounds, align_up_aligned, align_up_least}
use pbos.Mm.Kima.Place.Safe.{IsOverlap, Apart, Free, Hits, clear-Free, blocked-Hits}

-- The blocks that end behind an address.
abbrev ahead : ℕ → Blocks → ℕ
ahead c [] = 0
ahead c ((k, (desc, size)) ∷ m) = (if ltb c (k + size) then 1 else 0) + ahead c m

ahead_bound : (c : ℕ) (m : Blocks) → ahead c m ≤ length m
ahead_bound c [] = omega arith
ahead_bound c ((k, (desc, size)) ∷ m) = ground (arith, ahead_bound c m)

ahead_mono : (c d : ℕ) (m : Blocks) → c ≤ d → ahead d m ≤ ahead c m
ahead_mono c d [] le = omega arith
ahead_mono c d ((k, (desc, size)) ∷ m) le = ground (arith, ahead_mono c d m le)

ahead-passes :
    (c k : ℕ) (u : ℕ × ℕ) (m : Blocks)
    → find k m ≡ some u
    → c < k + u.1
    → ahead (k + u.1) m < ahead c m
unfolding find
ahead-passes c k u [] e lt = absurd (ground (arith, e))
ahead-passes c k u ((j, (desc, size)) ∷ m) e lt =
    ground (arith, ahead-passes c k u m, ahead_mono c (k + u.1) m, e)

module _ (m : Blocks) (limit alignment size : ℕ) where
  -- No block leaves room at an aligned address from `base` on and before `end`.
  abbrev pub Taken : ℕ → ℕ → Type 0
  Taken base end = (y : ℕ) → base ≤ y → y < end → y % alignment ≡ 0 → ¬ Free y size m

  -- The first aligned place from `base` on that is free of blocks, or that there is none up to the
  -- limit.
  abbrev pub IsFirstFit : ℕ → Search → Type 0
  IsFirstFit base (found x) =
      (base ≤ x) × (x < limit + alignment) × (x % alignment ≡ 0) × Free x size m × Taken base x
  IsFirstFit base past = Taken base (limit + 1)
  IsFirstFit base out_of_fuel = ⊥

  IsFirstFit-later :
      (base next : ℕ) (r : Search)
      → base ≤ next
      → Taken base next
      → IsFirstFit next r
      → IsFirstFit base r
  IsFirstFit-later base next (found x) le t q = (
    omega arith,
    q.1,
    q.2,
    q.3,
    λ y from to aligned. elim (dec_lt y next) [
      | yes lt ↦ t y from lt aligned
      | no ge ↦ q.4 y (omega arith) to aligned
    ],
  )
  IsFirstFit-later base next past le t q = λ y from to aligned. elim (dec_lt y next) [
    | yes lt ↦ t y from lt aligned
    | no ge ↦ q y (omega arith) to aligned
  ]
  IsFirstFit-later base next out_of_fuel le t q = q

module _ (overlapped : ℕ → ℕ → ℕ → ℕ → Bool) (lawful : IsOverlap overlapped) (m : Blocks)
    (v : Apart m) (limit alignment size : ℕ) (pos : 0 < alignment) (size_pos : 0 < size)
    (fits : limit + alignment + size < 2 ^ 64) where
  hit-Taken :
      (base next : ℕ)
      → base ≤ limit
      → Hits m size (align_up alignment base) next
      → Taken m limit alignment size base next
  hit-Taken base next le h y from to aligned free =
      let above = align_up_least alignment pos base y (omega arith) from aligned in
      elim (free h.0 h.1.0 h.1.1) [ inl before ↦ omega arith | inr behind ↦ omega arith ]

  hit-ahead : (x next : ℕ) → Hits m size x next → ahead next m < ahead x m
  hit-ahead x next h = rw h.1.2 (ahead-passes x h.0 h.1.0 m h.1.1 (omega (arith, h.1.2, h.1.3)))

  place-past :
      (n base : ℕ) → limit < base → place overlapped (suc n) m limit alignment size base ≡ past
  unfolding place
  place-past n base over = ground arith

  place-found :
      (n base : ℕ)
      → ¬ (limit < base)
      → blocked overlapped m size (align_up alignment base) ≡ none
      → place overlapped (suc n) m limit alignment size base ≡ found (align_up alignment base)
  unfolding place
  place-found n base within e = ground (arith, e)

  place-next :
      (n base next : ℕ)
      → ¬ (limit < base)
      → blocked overlapped m size (align_up alignment base) ≡ some next
      → place overlapped (suc n) m limit alignment size base
        ≡ place overlapped n m limit alignment size next
  unfolding place
  place-next n base next within e = ground (arith, e)

  place-IsFirstFit-ahead :
      (n base : ℕ)
      → ahead base m < n
      → IsFirstFit m limit alignment size base (place overlapped n m limit alignment size base)
  place-IsFirstFit-ahead zero base enough = absurd (omega arith)
  place-IsFirstFit-ahead (suc n) base enough = elim (dec_lt limit base) [
    | yes over ↦ rw (place-past n base over) (λ y from to. absurd (omega arith))
    | no within ↦
        let up = align_up_bounds alignment pos base (omega arith) in
        elim (Option-cases (blocked overlapped m size (align_up alignment base))) [
          | inl clear ↦ rw (place-found n base within clear) (
            up.0,
            omega arith,
            align_up_aligned alignment pos base (omega arith),
            clear-Free overlapped lawful m v size size_pos (align_up alignment base) (omega arith)
                clear,
            λ y from to aligned free.
                absurd
                  (omega (arith, align_up_least alignment pos base y (omega arith) from aligned)),
          )
          | inr (next, e) ↦
              let h =
                blocked-Hits overlapped lawful m v size size_pos (align_up alignment base) next e in
              rw (place-next n base next within e) (
                IsFirstFit-later m limit alignment size base next
                  (place overlapped n m limit alignment size next) (omega (arith, h.1.3, up.0))
                  (hit-Taken base next (omega arith) h)
                  (place-IsFirstFit-ahead n next (
                    omega (
                      arith,
                      hit-ahead (align_up alignment base) next h,
                      ahead_mono base (align_up alignment base) m up.0,
                    ))))
        ]
  ]

  -- Where PBOS_ISOVERLAPPED tells whether two areas overlap, the blocks are apart, size and
  -- alignment are not 0, no address at stake passes the end of memory, and the fuel exceeds the
  -- number of blocks: the search ends, at the first aligned place from its start on that is free of
  -- blocks, or past the limit when there is none up to it.
  pub place-IsFirstFit :
      (n base : ℕ)
      → length m < n
      → IsFirstFit m limit alignment size base (place overlapped n m limit alignment size base)
  place-IsFirstFit n base enough = place-IsFirstFit-ahead n base (omega (arith, ahead_bound base m))

-- Without blocks, a search that starts at its limit and must move up to the alignment still finds
-- the aligned place, which is past the limit.
pub place-beyond_limit :
    (overlapped : ℕ → ℕ → ℕ → ℕ → Bool) (n limit alignment size : ℕ)
    → 0 < alignment
    → limit + alignment < 2 ^ 64
    → limit % alignment ≢ 0
    → (place overlapped (suc n) [] limit alignment size limit ≡ found (align_up alignment limit))
      × (limit < align_up alignment limit)
unfolding place align_up blocked in_way find_max_lteq
place-beyond_limit overlapped n limit alignment size pos fits e =
    (ground (arith, e), ground (arith, e, mod-lt limit pos))

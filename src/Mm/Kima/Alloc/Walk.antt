-- ===== src/Mm/Kima/Alloc/Walk.antt =====
-- The walk of `kima_alloc` over the pages ends, and what it ends with.
use pbos.Common.{
  ℕ, zero, suc, ◌+◌, ◌-◌, ◌%◌, ◌^◌, ◌≤◌, ◌<◌, ◌≡◌, ◌⊎◌, refl, inl, inr, Bool, Option, none, some,
  Option-cases, length, dec_lt, ℕ_discrete, arith,
}
use pbos.Kfxx.Ordered.{find, find_max_lteq, next_above, IsSorted}
use pbos.Kfxx.Ordered.Laws.{IsMaxLteq, find_max_lteq-IsMaxLteq, IsNext, next_above-IsNext}
use pbos.Mm.Kima.Slots.{ceil_align_to}
use pbos.Mm.Kima.Pages.{rounds, first_hole}
use pbos.Mm.Kima.Place.{Blocks, Search, found, past, out_of_fuel}
use pbos.Mm.Kima.Place.Safe.{IsOverlap, Apart, Free}
use pbos.Mm.Kima.Place.First.{IsFirstFit, place-IsFirstFit}
use pbos.Kfxx.Ordered.Count.{above_bound, above_mono, above-passes, above}
use pbos.Mm.Kima.Alloc.Entries.{
  ceil_align_to_bounds, rounds_bound, find-first_entry, first_hole_lem,
}
use pbos.Mm.Kima.Alloc.{Seek, suits, nowhere, endless, first_entry, place_from, seek}

module _ (overlapped : ℕ → ℕ → ℕ → ℕ → Bool) (page_size size alignment : ℕ) (blocks pages : Blocks)
    (lawful : IsOverlap overlapped) (v : Apart blocks) (sorted : IsSorted pages)
    (page_pos : 0 < page_size) (size_pos : 0 < size) (alignment_pos : 0 < alignment)
    (in_memory : (k : ℕ) (u : ℕ × ℕ)
      → find k pages ≡ some u
      → k + (size + page_size + page_size + alignment) < 2 ^ 64) where
  -- A place that is aligned, free of blocks and inside memory; or that there is none.
  abbrev pub IsSeek : Seek → Type 0
  IsSeek (suits page x) =
      (x % alignment ≡ 0) × (page ≤ x) × (x + size < 2 ^ 64) × Free x size blocks
  IsSeek nowhere = Unit
  IsSeek endless = ⊥

  abbrev IsEntry : Option (ℕ × (ℕ × ℕ)) → Type 0
  IsEntry none = Unit
  IsEntry (some e) = find e.0 pages ≡ some e.1

  -- The entries from an iterator on.
  abbrev from_it : Option (ℕ × (ℕ × ℕ)) → ℕ
  from_it none = 0
  from_it (some e) = above e.0 pages

  next-passes :
      (e : ℕ × (ℕ × ℕ)) (o : Option (ℕ × (ℕ × ℕ)))
      → IsEntry (some e)
      → IsNext e.0 pages o
      → IsEntry o × (from_it o < from_it (some e))
  next-passes e none f q = (tt, omega (arith, above-passes e.0 (suc e.0) e.1 pages f (omega arith)))
  next-passes e (some o) f q = (q.1, above-passes e.0 o.0 e.1 pages f q.0)

  back-stays :
      (e : ℕ × (ℕ × ℕ)) (hole : ℕ) (o : Option (ℕ × (ℕ × ℕ)))
      → IsEntry (some e)
      → e.0 ≤ hole
      → IsMaxLteq hole pages o
      → IsEntry o × (from_it o ≤ from_it (some e))
  back-stays e hole none f le q = (tt, omega arith)
  back-stays e hole (some o) f le q = (
    q.1,
    above_mono e.0 o.0 pages (elim (dec_lt o.0 e.0) [
      | yes lt ↦ absurd (ground (arith, q.2 e.0 lt le, f))
      | no ge ↦ omega arith
    ]),
  )

  hole-above :
      (e : ℕ × (ℕ × ℕ)) (hole : ℕ)
      → IsEntry (some e)
      → first_hole page_size (rounds page_size (ceil_align_to size page_size)) e.0 pages ≡ some hole
      → e.0 < hole
  hole-above e hole f h =
      let n = rounds page_size (ceil_align_to size page_size) in
      let room = in_memory e.0 e.1 f in
      let ceil = ceil_align_to_bounds size page_size page_pos (omega (arith, room)) in
      let q =
        first_hole_lem page_size n e.0 hole pages
          (omega (arith, rounds_bound page_size (ceil_align_to size page_size), ceil, room)) h in
      elim (ℕ_discrete e.0 hole) [
        | yes same ↦ absurd (grind (arith, q.1, f, same))
        | no differ ↦ omega (arith, q.0, differ)
      ]

  place_from-IsFirstFit :
      (e : ℕ × (ℕ × ℕ))
      → IsEntry (some e)
      → IsFirstFit blocks
          ((e.0 + (ceil_align_to size page_size - size)) % 2 ^ 64)
          alignment
          size
          e.0
          (place_from page_size overlapped size alignment blocks pages e.0)
  unfolding place_from
  place_from-IsFirstFit e f =
      let room = in_memory e.0 e.1 f in
      let ceil = ceil_align_to_bounds size page_size page_pos (omega (arith, room)) in
      place-IsFirstFit overlapped lawful blocks v
        ((e.0 + (ceil_align_to size page_size - size)) % 2 ^ 64) alignment size alignment_pos
        size_pos (omega (arith, room, ceil)) (suc (length blocks)) e.0 (omega arith)

  fit-IsSeek :
      (e : ℕ × (ℕ × ℕ)) (r : Search)
      → IsEntry (some e)
      → IsFirstFit blocks
          ((e.0 + (ceil_align_to size page_size - size)) % 2 ^ 64)
          alignment
          size
          e.0
          r
      → (r ≡ past) ⊎ ((x : ℕ) × (r ≡ found x) × IsSeek (suits e.0 x))
  fit-IsSeek e (found x) f q =
      let room = in_memory e.0 e.1 f in
      let ceil = ceil_align_to_bounds size page_size page_pos (omega (arith, room)) in
      inr (x, refl, (q.2, q.0, omega (arith, q.1, room, ceil), q.3))
  fit-IsSeek e past f q = inl refl
  fit-IsSeek e out_of_fuel f q = absurd q

  abbrev run : ℕ → ℕ → Option (ℕ × (ℕ × ℕ)) → Seek
  run = seek page_size overlapped size alignment blocks pages

  abbrev first_of : ℕ × (ℕ × ℕ) → Option ℕ
  first_of e = first_hole page_size (rounds page_size (ceil_align_to size page_size)) e.0 pages

  abbrev fit_of : ℕ × (ℕ × ℕ) → Search
  fit_of e = place_from page_size overlapped size alignment blocks pages e.0

  run-skip :
      (n base : ℕ) (e : ℕ × (ℕ × ℕ))
      → e.0 < base
      → run (suc n) base (some e) ≡ run n base (next_above e.0 pages)
  unfolding seek
  run-skip n base e lt = ground arith

  run-hole :
      (n base hole : ℕ) (e : ℕ × (ℕ × ℕ))
      → ¬ (e.0 < base)
      → first_of e ≡ some hole
      → run (suc n) base (some e) ≡ run n hole (find_max_lteq hole pages)
  unfolding seek
  run-hole n base hole e ge h = ground (arith, h)

  run-past :
      (n base : ℕ) (e : ℕ × (ℕ × ℕ))
      → ¬ (e.0 < base)
      → first_of e ≡ none
      → fit_of e ≡ past
      → run (suc n) base (some e) ≡ run n base (next_above e.0 pages)
  unfolding seek
  run-past n base e ge h r = ground (arith, h, r)

  run-found :
      (n base x : ℕ) (e : ℕ × (ℕ × ℕ))
      → ¬ (e.0 < base)
      → first_of e ≡ none
      → fit_of e ≡ found x
      → run (suc n) base (some e) ≡ suits e.0 x
  unfolding seek
  run-found n base x e ge h r = ground (arith, h, r)

  run-IsSeek :
      (n base : ℕ) (it : Option (ℕ × (ℕ × ℕ)))
      → IsEntry it
      → from_it it + above base pages < n
      → IsSeek (run n base it)
  unfolding seek
  run-IsSeek zero base it f enough = absurd (omega arith)
  run-IsSeek (suc n) base none f enough = tt
  run-IsSeek (suc n) base (some e) f enough =
      let next = next-passes e (next_above e.0 pages) f (next_above-IsNext e.0 pages sorted) in
      let onward = run-IsSeek n base (next_above e.0 pages) next.0 (omega (arith, next.1)) in
      elim (dec_lt e.0 base) [
        | yes lt ↦ rw (run-skip n base e lt) onward
        | no ge ↦ elim (Option-cases (first_of e)) [
          | inr (hole, h) ↦
              let over = hole-above e hole f h in
              let back =
                back-stays e hole (find_max_lteq hole pages) f (omega arith)
                  (find_max_lteq-IsMaxLteq hole pages sorted) in
              rw (run-hole n base hole e ge h) (
                run-IsSeek n hole (find_max_lteq hole pages) back.0 (
                  omega (
                    arith,
                    back.1,
                    above-passes e.0 hole e.1 pages f over,
                    above_mono base e.0 pages (omega arith),
                  )))
          | inl h ↦ elim (fit-IsSeek e (fit_of e) f (place_from-IsFirstFit e f)) [
            | inl r ↦ rw (run-past n base e ge h r) onward
            | inr (x, r, q) ↦ rw (run-found n base x e ge h r) q
          ]
        ]
      ]

  first_entry-IsEntry : (it : Option (ℕ × (ℕ × ℕ))) → first_entry pages ≡ it → IsEntry it
  first_entry-IsEntry none h = tt
  first_entry-IsEntry (some e) h = find-first_entry pages e h

  from_it_bound : (it : Option (ℕ × (ℕ × ℕ))) → from_it it ≤ length pages
  from_it_bound none = omega arith
  from_it_bound (some e) = above_bound e.0 pages

  -- Where PBOS_ISOVERLAPPED tells whether two areas overlap, the blocks are apart, no size is 0, and
  -- the pages lie so far below the end of memory that a place on them cannot pass it: the walk over
  -- the pages from the first one ends within its fuel, either without a place or at one that is
  -- aligned and free of blocks, at its page or above.
  pub seek-IsSeek : IsSeek (
      seek page_size overlapped size alignment blocks pages
        (suc (length pages + length pages))
        0
        (first_entry pages))
  seek-IsSeek =
      run-IsSeek (suc (length pages + length pages)) 0 (first_entry pages)
        (first_entry-IsEntry (first_entry pages) refl)
        (omega (arith, from_it_bound (first_entry pages), above_bound 0 pages))

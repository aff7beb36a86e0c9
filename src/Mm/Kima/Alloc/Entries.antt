-- ===== src/Mm/Kima/Alloc/Entries.antt =====
-- What the walk of `kima_alloc` passes: the entries at or above an address, and the first page that
-- has no descriptor.
use native.Mathlib.Nat.{mod-lt, div-mul-le_self, suc-mul}
use pbos.Common.{
  ℕ, zero, suc, ◌+◌, ◌-◌, ◌*◌, ◌%◌, ◌^◌, ◌≤◌, ◌<◌, ◌≡◌, inl, inr, none, some, Option-cases, [], ◌∷◌,
  arith,
}
use pbos.Kfxx.Ordered.{find}
use pbos.Mm.Kima.Slots.{ceil_align_to}
use pbos.Mm.Kima.Pages.{rounds, first_hole}
use pbos.Mm.Kima.Place.{Blocks}
use pbos.Mm.Kima.Alloc.{first_entry}

pub ceil_align_to_bounds :
    (size page_size : ℕ)
    → 0 < page_size
    → size + page_size < 2 ^ 64
    → (size ≤ ceil_align_to size page_size) × (ceil_align_to size page_size < size + page_size)
unfolding ceil_align_to
ceil_align_to_bounds size page_size pos fits =
    let less = mod-lt (page_size - size % page_size) pos in (omega arith, omega arith)

pub rounds_bound :
    (page_size bound : ℕ) → rounds page_size bound * page_size ≤ bound + (page_size - 1)
unfolding rounds
rounds_bound page_size bound = div-mul-le_self (bound + (page_size - 1)) page_size

pub find-first_entry :
    (m : Blocks) (e : ℕ × (ℕ × ℕ)) → first_entry m ≡ some e → find e.0 m ≡ some e.1
unfolding find first_entry
find-first_entry [] e h = absurd (ground (arith, h))
find-first_entry (d ∷ m) e h = grind (arith, h)

pub first_hole_lem :
    (page_size n addr hole : ℕ) (m : Blocks)
    → addr + n * page_size < 2 ^ 64
    → first_hole page_size n addr m ≡ some hole
    → (addr ≤ hole) × (find hole m ≡ none)
unfolding first_hole
first_hole_lem page_size zero addr hole m fits e = absurd (ground (arith, e))
first_hole_lem page_size (suc n) addr hole m fits e = elim (Option-cases (find addr m)) [
  | inl free ↦ grind (arith, free, e)
  | inr (w, f) ↦
      let later =
        first_hole_lem page_size n ((addr + page_size) % 2 ^ 64) hole m
          (omega (arith, suc-mul n page_size, fits)) (ground (arith, f, e)) in
      (omega (arith, later.0, suc-mul n page_size, fits), later.1)
]

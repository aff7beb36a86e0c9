-- ===== src/Mm/Pgalloc/Freeing.antt =====
-- What freeing a page means for the next allocation.
use pbos.Common.{
  ℕ, ◌≡◌, refl, subst, some_inj, some, none, Option, Option-cases, inl, inr, [], ◌∷◌, arith,
}
use pbos.Kfxx.Ordered.{find, find_max_lteq, update, IsSorted}
use pbos.Kfxx.Ordered.Laws.{IsMaxLteq, find_max_lteq-IsMaxLteq}
use pbos.Mm.Pgalloc.{
  Mad, Pmad, Memory, get_pmad, inside, mark_free, put_back, set_page_free, alloc_free_page,
}

alloc-update :
    (type base : ℕ) (area changed : Pmad) (mem : Memory)
    → find base mem ≡ some area
    → changed.type_of ≡ area.type_of
    → changed.free_list ≡ area.free_list
    → alloc_free_page type (update base changed mem) ≡ alloc_free_page type mem
unfolding alloc_free_page update find
alloc-update type base area changed [] f t l = refl
alloc-update type base area changed ((b, a) ∷ mem) f t l =
    ground (arith, alloc-update type base area changed mem)

mark_free-keeps :
    (addr : ℕ) (mad : Mad) (area changed : Pmad)
    → mark_free addr mad area ≡ some changed
    → (changed.type_of ≡ area.type_of) × (changed.free_list ≡ area.free_list)
unfolding mark_free
mark_free-keeps addr mad area changed e = ground (arith, e)

inside-area :
    (addr : ℕ) (r : Option (ℕ × Pmad)) (mem : Memory) (base : ℕ) (area : Pmad)
    → IsMaxLteq addr mem r
    → inside addr r ≡ some (base, area)
    → find base mem ≡ some area
unfolding inside
inside-area addr none mem base area h e = ground arith
inside-area addr (some r) mem base area h e = let found = h.1 in ground (arith, found, e)

-- The area of an address is one of the tree.
pub get_pmad-found :
    (addr : ℕ) (mem : Memory) (base : ℕ) (area : Pmad)
    → IsSorted mem
    → get_pmad addr mem ≡ some (base, area)
    → find base mem ≡ some area
unfolding get_pmad
get_pmad-found addr mem base area s =
    inside-area addr (find_max_lteq addr mem) mem base area (find_max_lteq-IsMaxLteq addr mem s)

put_back-alloc :
    (type base : ℕ) (area : Pmad) (r : Option Pmad) (mem after : Memory)
    → find base mem ≡ some area
    → ((changed : Pmad)
        → r ≡ some changed
        → (changed.type_of ≡ area.type_of) × (changed.free_list ≡ area.free_list))
    → put_back base mem r ≡ some after
    → alloc_free_page type after ≡ alloc_free_page type mem
unfolding put_back
put_back-alloc type base area none mem after f k e = let z = e in cc
put_back-alloc type base area (some changed) mem after f k e =
    let (same_type, same_list) = k changed refl in
    subst (λ m. alloc_free_page type m ≡ alloc_free_page type mem) (some_inj e)
      (alloc-update type base area changed mem f same_type same_list)

-- A free that ends without a panic changes no allocation that follows: from areas in order, the
-- search for a free page of any type answers after it what it answered before.
pub alloc_free_page-set_page_free :
    (type addr : ℕ) (mem after : Memory)
    → IsSorted mem
    → set_page_free addr mem ≡ some after
    → alloc_free_page type after ≡ alloc_free_page type mem
unfolding set_page_free
alloc_free_page-set_page_free type addr mem after s e = elim (Option-cases (get_pmad addr mem)) [
  | inl n ↦ ground (arith, n, e)
  | inr ((base, area), f) ↦ elim (Option-cases (find addr area.query_tree)) [
    | inl n ↦ ground (arith, f, n, e)
    | inr (mad, g) ↦
        let ends : put_back base mem (mark_free addr mad area) ≡ some after =
          ground (arith, f, g, e) in
        put_back-alloc type base area (mark_free addr mad area) mem after
          (get_pmad-found addr mem base area s f) (mark_free-keeps addr mad area) ends
  ]
]

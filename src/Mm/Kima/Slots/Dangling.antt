-- ===== src/Mm/Kima/Slots/Dangling.antt =====
-- The list of a pool's pages after its first page was given back.
use pbos.Common.{ℕ, ◌≡◌, none, some, [], arith}
use pbos.Kfxx.Ordered.{find, insert, remove, update, IsSorted}
use pbos.Kfxx.Ordered.Laws.{find-remove, update-IsSorted}
use pbos.Mm.Kima.Slots.{
  PoolPage, Supply, Layout, Slots, Outcome, got, null, panicked, fault, vpgalloc, vpgfree, refund,
  set_header, drop_slots, floor_align_to, use_page, alloc_desc, release_page, free_desc, count_down,
}

-- That the next descriptor that needs a page is a fault.
abbrev pub Dangles : {V : Type 0} → Layout → Outcome (Slots V × Supply) (Unit {0}) → Type 0
Dangles {V = V} layout (got u t) =
    (other : ℕ) (w : V) (count new : ℕ) (after : Supply)
    → vpgalloc t.1 ≡ (some new, after)
    → alloc_desc layout other w count t.0 t.1 ≡ fault
Dangles layout (null t) = ⊥
Dangles layout panicked = ⊥
Dangles layout fault = ⊥

module _ {V : Type 0} (layout : Layout) (s : Slots V) (supply : Supply) (ptr desc : ℕ) (v : V)
    (page : ℕ) (h : PoolPage) (described : find ptr s.query_tree ≡ some (desc, v))
    (on_page : floor_align_to desc layout.page_size ≡ page) (known : find page s.pages ≡ some h)
    (last : h.used_num ≡ 1) (alone : (h.prev ≡ none) × (h.next ≡ none))
    (first : s.poolpg_list ≡ some page) (sorted : IsSorted s.pages)
    (rest : drop_slots layout page 0 layout.slots_size (insert desc tt s.free_tree) ≡ []) where
  abbrev left : Slots V
  left = record s {
    pages = remove page (update page (count_down h) s.pages);
    query_tree = remove ptr s.query_tree;
    free_tree = drop_slots layout page 0 layout.slots_size (insert desc tt s.free_tree);
  }

  free_desc_eq :
      (counted : ℕ)
      → free_desc layout ptr counted s supply ≡ got tt (left, refund counted (vpgfree page supply))
  unfolding free_desc release_page set_header
  free_desc_eq counted = ground (arith, described, on_page, known, last, alone)

  left-faults :
      (other : ℕ) (w : V) (count new : ℕ) (now after : Supply)
      → vpgalloc now ≡ (some new, after)
      → alloc_desc layout other w count left now ≡ fault
  unfolding alloc_desc use_page set_header
  left-faults other w count new now after e = ground (
    arith,
    e,
    first,
    rest,
    find-remove page page (update page (count_down h) s.pages)
        (update-IsSorted page (count_down h) s.pages sorted),
  )

  -- Where the only page of the list holds one descriptor in use and the free slots are all its own:
  -- freeing that descriptor succeeds, and the next descriptor that takes a new page writes to the
  -- header of the page given back.
  pub free_desc-Dangles : (counted : ℕ) → Dangles layout (free_desc layout ptr counted s supply)
  free_desc-Dangles counted = rw (free_desc_eq counted) (λ other w count new after e.
      left-faults other w count new (refund counted (vpgfree page supply)) after e)

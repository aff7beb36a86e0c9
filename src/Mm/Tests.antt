-- ===== src/Mm/Tests.antt =====
-- Runs of the memory manager on a context with two areas.
use pbos.Common.{none, some, ℕ, suc, ◌≡◌, refl, true, List, [], ◌∷◌, map, arith}
use pbos.Kfxx.Ordered.{find, insert, find_max_lteq, next_above, update, IsSorted}
use pbos.Mm.Context.{
  Vmr, Context, Paging, returned, pgfloor, is_user_space, ignores_vmr, km_result_ok,
  km_result_invalid_args,
}
use pbos.Mm.Pgalloc.{
  Memory, set_page_free, set_page_used, get_pmad, Mad, Pmad, modify, alloc_free_page,
}
use pbos.Mm.Pgalloc.Freeing.{alloc_free_page-set_page_free}
use pbos.Mm.Pgalloc.References.{then_free, set_page_free-set_page_used}
use pbos.Mm.Probe.{
  Event, locks, ended, endless, stopped, probe_areas, prev_area, restore, probe_user,
  probe_and_lock_pages, unlock_pages,
}
use pbos.Mm.Probe.Covering.{undone}
use pbos.Mm.Probe.Range.{unlock_pages-probe_and_lock_pages, probe_user-endless}
use pbos.Mm.Vmr.{given, new_vmr, mmap, merge_mapped_area, split_mapped_area}
use pbos.Mm.Vmr.Areas.{IsDisjoint}
use pbos.Mm.Vmr.Splitting.{Keeps, and_then, merge-split}
use pbos.Mm.Vmr.Calls.{splits, merges, sets_access, calls, calls-Keeps}
use pbos.Mm.Vmr.Refusing.{mmap-mmap}

-- Page tables that count the calls, and never fail.
abbrev counting : Paging ℕ
counting = record {
  mmap = λ t vaddr paddr size access flags. (0, suc t);
  unmmap = λ t vaddr size flags. suc t;
  set_page_access = λ t vaddr size access. suc t;
  vmalloc = λ t minaddr maxaddr size access flags. (minaddr, suc t);
}

abbrev low : Vmr
low = new_vmr 0x3000 2

abbrev two_areas : Context ℕ
two_areas = record {
  vmr_tree = (0x1000, low) ∷ (0x4000, new_vmr 0x1000 6) ∷ [];
  vmr_locks = 0;
  kernel_locks = 0;
  page_table = 0;
}

two_areas-IsDisjoint : IsDisjoint two_areas.vmr_tree
two_areas-IsDisjoint =
    (omega arith, omega arith, omega arith, (omega arith, omega arith, omega arith, tt))

two_areas-IsSorted : IsSorted two_areas.vmr_tree
two_areas-IsSorted = (omega arith, tt)

merge-split_example :
    and_then
      (split_mapped_area given two_areas 0x1000 0x2000)
      (λ d. merge_mapped_area true d 0x1000 0x2000)
    ≡ returned km_result_ok two_areas
merge-split_example =
    merge-split two_areas 0x1000 0x2000 low two_areas-IsDisjoint (unfold find in refl) (omega arith)
      (omega arith)

calls-Keeps_example : Keeps two_areas (
    calls counting
      (splits given 0x1000 0x2000 ∷ sets_access 0x2000 0x1000 2 ∷ merges true 0x1000 0x2000 ∷ [])
      two_areas)
calls-Keeps_example =
    calls-Keeps counting
      (splits given 0x1000 0x2000 ∷ sets_access 0x2000 0x1000 2 ∷ merges true 0x1000 0x2000 ∷ [])
      two_areas two_areas-IsDisjoint ((λ e. absurd (grind (arith, e))), (tt, (refl, tt)))

-- The context after a page at 0x8000 was mapped.
abbrev three_areas : Context ℕ
three_areas = record {
  vmr_tree = (0x1000, low) ∷ (0x4000, new_vmr 0x1000 6) ∷ (0x8000, new_vmr 0x1000 6) ∷ [];
  vmr_locks = 0;
  kernel_locks = 0;
  page_table = 1;
}

map_run : mmap counting given two_areas 0x8000 0 0x1000 6 0 ≡ returned km_result_ok three_areas
unfolding mmap find insert find_max_lteq
map_run = refl

mmap-mmap_example :
    mmap counting given three_areas 0x8000 0 0x2000 6 0
    ≡ returned km_result_invalid_args (record three_areas { vmr_tree = two_areas.vmr_tree })
mmap-mmap_example =
    mmap-mmap counting given given two_areas three_areas 0x8000 0 0x1000 6 0 0 0x2000 6 0
      two_areas-IsSorted (unfold pgfloor in refl) (omega arith) (omega arith)
      (unfold ignores_vmr in refl) map_run (omega arith) (omega arith) (unfold ignores_vmr in refl)

-- An area of one page, with its references and its free list.
abbrev page : ℕ → Mad
page count = record { next_free = none; prev_free = none; ref_count = count }

abbrev page_area : ℕ → Pmad
page_area count = record {
  len = 0x1000;
  type_of = 0;
  free_list = none;
  query_tree = (0x1000, page count) ∷ [];
}

abbrev one_page : ℕ → Memory
one_page count = (0x1000, page_area count) ∷ []

free_run : set_page_free 0x1000 (one_page 1) ≡ some (one_page 0)
unfolding set_page_free find_max_lteq find modify update
free_run = refl

alloc_free_page-set_page_free_example :
    alloc_free_page 0 (one_page 0) ≡ alloc_free_page 0 (one_page 1)
alloc_free_page-set_page_free_example =
    alloc_free_page-set_page_free 0 0x1000 (one_page 1) (one_page 0) tt free_run

set_page_free-set_page_used_example :
    then_free 0x1000 (set_page_used 0x1000 (one_page 2)) ≡ some (one_page 2)
set_page_free-set_page_used_example =
    set_page_free-set_page_used 0x1000 0x1000 (page_area 2) (page 2) (one_page 2) tt
      (unfold get_pmad find_max_lteq in refl) (unfold find in refl) (omega arith) (omega arith)

-- A probe for reading of both areas, and what it locks.
abbrev both_locked : List Event
both_locked = locks 0x1000 ∷ locks 0x4000 ∷ []

abbrev no_access : ℕ → ℕ
no_access p = 0

probe_run :
    probe_and_lock_pages two_areas.vmr_tree 0 no_access 0x1000 0x4000 2
    ≡ ended km_result_ok both_locked
unfolding probe_and_lock_pages find_max_lteq next_above
probe_run = refl

unlock_pages-probe_and_lock_pages_example :
    unlock_pages two_areas.vmr_tree 0 no_access 0x1000 0x4000
    ≡ ended km_result_ok (map undone both_locked)
unlock_pages-probe_and_lock_pages_example =
    unlock_pages-probe_and_lock_pages two_areas.vmr_tree 2 0 no_access 0x1000 0x4000 both_locked
      (unfold is_user_space pgfloor in refl) probe_run

-- A probe for writing that the second area refuses.
abbrev second_refuses : List (ℕ × Vmr)
second_refuses = (0x1000, new_vmr 0x3000 6) ∷ (0x4000, new_vmr 0x1000 2) ∷ []

stop_run :
    probe_areas second_refuses 2 6 0x4000 none (0x1000, new_vmr 0x3000 6)
    ≡ stopped 0x4000 both_locked
unfolding probe_areas next_above
stop_run = refl

probe_user-endless_example :
    ((n : ℕ) → restore second_refuses n 0x1000 0x4000 0x4000 ≡ none)
    × (probe_user second_refuses 0x1000 0x4fff 6 ≡ endless)
probe_user-endless_example =
    probe_user-endless second_refuses 6 0x1000 0x4fff 0x4000 both_locked (0x1000, new_vmr 0x3000 6)
      (0x4000, new_vmr 0x1000 2) (0x1000, new_vmr 0x3000 6) (unfold find_max_lteq in refl)
      (unfold find_max_lteq in refl) stop_run (unfold prev_area find_max_lteq in refl)

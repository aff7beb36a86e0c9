-- ===== src/Mm/Kima/Alloc/Release.antt =====
-- What `kima_free` does to the blocks of a pool and to the references of their pages.
use pbos.Common.{ℕ, ◌+◌, ◌-◌, ◌%◌, ◌^◌, ◌<◌, ◌≡◌, refl, Bool, some}
use pbos.Kfxx.Ordered.{find, remove, IsSorted}
use pbos.Mm.Kima.Slots.{
  Supply, Layout, Slots, Outcome, got, null, panicked, fault, floor_align_to, ceil_align_to,
  free_ublk,
}
use pbos.Mm.Kima.Pages.{rounds, drop_refs}
use pbos.Mm.Kima.Place.Safe.{Apart}
use pbos.Mm.Kima.Alloc.{Pool, kima_free}
use pbos.Mm.Kima.Alloc.Keeping.{Kept, free_desc-Released}
use pbos.Mm.Kima.Alloc.Dropping.{among_pages, dropped, Held, drop_refs-Drops}
use pbos.Mm.Kima.Place.Apartness.{remove-Apart}

-- How many pages the `size` bytes at `ptr` touch.
abbrev pub page_count : ℕ → ℕ → ℕ → ℕ
page_count page_size ptr size =
    rounds page_size
      (ceil_align_to ((ptr + size) % 2 ^ 64) page_size - floor_align_to ptr page_size)

-- What `kima_free` ends in: the blocks of before without that of `ptr`, still apart; one reference
-- less of each page of the block, whose descriptor goes with the last; and no page given back.
abbrev pub Frees : ℕ → ℕ → ℕ → Pool → Outcome Pool (Unit {0}) → Type 0
Frees page_size ptr size p (got u q) =
    (q.ublks.query_tree ≡ remove ptr p.ublks.query_tree)
    × Apart q.ublks.query_tree
    × ((k : ℕ)
        → find k q.vpgdescs.query_tree
          ≡ dropped
              (among_pages page_size (page_count page_size ptr size) (floor_align_to ptr page_size)
                k)
              (find k p.vpgdescs.query_tree))
    × (q.supply ≡ p.supply)
Frees page_size ptr size p (null q) = ⊥
Frees page_size ptr size p panicked = ⊥
Frees page_size ptr size p fault = ⊥

module _ (overlapped : ℕ → ℕ → ℕ → ℕ → Bool) (page_size : ℕ)
    (ublk_layout vpgdesc_layout : Layout) where
  kima_free-runs :
      (ptr desc size : ℕ) (p : Pool) (t s : Slots ℕ) (supply : Supply)
      → find ptr p.ublks.query_tree ≡ some (desc, size)
      → drop_refs page_size vpgdesc_layout
          (page_count page_size ptr size)
          (floor_align_to ptr page_size)
          p.vpgdescs
          p.supply
        ≡ got tt (t, supply)
      → free_ublk ublk_layout ptr p.ublks supply ≡ got tt (s, supply)
      → kima_free overlapped page_size ublk_layout vpgdesc_layout ptr p
        ≡ got tt (record { ublks = s; vpgdescs = t; supply = supply })
  unfolding kima_free
  kima_free-runs ptr desc size p t s supply f d r = cc

  -- Where there is a block at `ptr` and the blocks are apart, the descriptors of pages are in order,
  -- each page that the block touches has one with at least one reference, and the pool's own pages
  -- keep descriptors in use - those of the descriptors of pages as many as the block touches and one
  -- more, those of the descriptors of blocks two: `kima_free` returns, without a panic or a fault.
  -- The block is gone and no other, those left are apart, each page of it has one reference less or,
  -- if it had but one, no descriptor, the other pages are as they were, and no page is given back.
  pub kima_free-Frees :
      (ptr desc size : ℕ) (p : Pool)
      → 0 < page_size
      → find ptr p.ublks.query_tree ≡ some (desc, size)
      → Apart p.ublks.query_tree
      → IsSorted p.vpgdescs.query_tree
      → Held page_size
          (page_count page_size ptr size)
          (floor_align_to ptr page_size)
          p.vpgdescs.query_tree
      → Kept vpgdesc_layout (page_count page_size ptr size) p.vpgdescs
      → Kept ublk_layout 1 p.ublks
      → Frees page_size ptr size p (kima_free overlapped page_size ublk_layout vpgdesc_layout ptr p)
  kima_free-Frees ptr desc size p pos f apart sorted held pages_kept kept =
      let (t, runs, all) =
        drop_refs-Drops page_size vpgdesc_layout (page_count page_size ptr size)
          (floor_align_to ptr page_size) p.vpgdescs p.supply pos sorted held pages_kept in
      let (s, frees, tree, s_kept) =
        free_desc-Released ublk_layout 0 ptr 1 desc size p.ublks p.supply apart.sorted f kept in
      rw (kima_free-runs ptr desc size p t s p.supply f runs (unfold free_ublk in frees))
        (tree, rw tree (remove-Apart ptr p.ublks.query_tree apart), all, refl)

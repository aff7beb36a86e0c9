-- ===== src/Mm/Kima/Tests.antt =====
-- Runs of the allocator on a pool with one block of 16 bytes.
use pbos.Common.{
  ℕ, ◌+◌, ◌^◌, ◌<◌, ◌≡◌, refl, ap, inr, some_inj, Bool, ◌&&◌, none, some, [], ◌∷◌, ltb, arith,
}
use pbos.Kfxx.Ordered.{find, find_max_lteq, insert, remove, update}
use pbos.Mm.Kima.Slots.{
  PoolPage, Supply, Layout, Slots, got, vpgalloc, drop_slots, alloc_desc, floor_align_to,
  ceil_align_to,
}
use pbos.Mm.Kima.Slots.Contents.{Describes, alloc_desc-Describes}
use pbos.Mm.Kima.Place.{Blocks, place}
use pbos.Mm.Kima.Place.Safe.{IsOverlap, Apart}
use pbos.Mm.Kima.Place.First.{IsFirstFit, place-IsFirstFit}
use pbos.Mm.Kima.Alloc.{Pool, kima_alloc, kima_free, first_entry, seek}
use pbos.Mm.Kima.Alloc.Walk.{IsSeek, seek-IsSeek}
use pbos.Mm.Kima.Alloc.Life.{Allocates, IsFresh, kima_alloc-Allocates}
use pbos.Mm.Kima.Alloc.Keeping.{Kept}
use pbos.Mm.Kima.Alloc.Dropping.{Held}
use pbos.Mm.Kima.Alloc.Release.{page_count, Frees, kima_free-Frees}
use pbos.Mm.Kima.Pages.{rounds}

-- Two areas overlap when each begins before the other ends.
abbrev meets : ℕ → ℕ → ℕ → ℕ → Bool
meets x m y n = ltb x (y + n) && ltb y (x + m)

meets-IsOverlap : IsOverlap meets
meets-IsOverlap = record {
  hits = λ x m y n e. (ground arith, ground arith);
  misses = λ x m y n e. ground arith;
}

abbrev blocks : Blocks
blocks = (0x8000, (0x1018, 16)) ∷ []

abbrev pages : Blocks
pages = (0x8000, (0x2018, 1)) ∷ []

block : (i : ℕ) (u : ℕ × ℕ) → find i blocks ≡ some u → (i ≡ 0x8000) × (u.1 ≡ 16)
unfolding find
block i u e = (ground arith, ground arith)

blocks-Apart : Apart blocks
blocks-Apart = record {
  sorted = tt;
  proper = λ i u e. (omega (arith, block i u e), omega (arith, block i u e));
  apart = λ i j u w e g lt. absurd (omega (arith, block i u e, block j w g));
}

pages_in_memory :
    (k : ℕ) (u : ℕ × ℕ) → find k pages ≡ some u → k + (16 + 0x1000 + 0x1000 + 8) < 2 ^ 64
unfolding find
pages_in_memory k u e = ground arith

abbrev layout : Layout
layout = record { page_size = 0x1000; slots_off = 24; slots_size = 2; slot_bytes = 64 }

abbrev poolpg : PoolPage
poolpg = record { prev = none; next = none; used_num = 1 }

-- One descriptor in use on one page.
abbrev one_slot : ℕ → Blocks → Slots ℕ
one_slot page used = record {
  poolpg_list = some page;
  pages = (page, poolpg) ∷ [];
  query_tree = used;
  free_tree = (page + 88, tt) ∷ [];
}

abbrev supply : Supply
supply = record { coming = some 0x10000 ∷ []; given_back = []; num_allocated_pages = 1 }

abbrev pool : Pool
pool = record { ublks = one_slot 0x1000 blocks; vpgdescs = one_slot 0x2000 pages; supply = supply }

pool-IsFresh : IsFresh 16 8 pool
unfolding vpgalloc
pool-IsFresh area rest e =
    let at : 0x10000 ≡ area = some_inj (ap (λ r. r.0) e) in
    (omega (arith, at), λ i u f. inr (omega (arith, at, block i u f)))

-- The pool after one more block of 16 bytes.
abbrev two_blocks : Pool
two_blocks = record {
  ublks = record {
    poolpg_list = some 0x1000;
    pages = (0x1000, record poolpg { used_num = 2 }) ∷ [];
    query_tree = (0x8000, (0x1018, 16)) ∷ (0x8010, (0x1058, 16)) ∷ [];
    free_tree = [];
  };
  vpgdescs = record pool.vpgdescs { query_tree = (0x8000, (0x2018, 2)) ∷ [] };
  supply = supply;
}

alloc_run : kima_alloc meets 0x1000 layout layout 16 8 pool ≡ some (got 0x8010 two_blocks)
unfolding kima_alloc find insert find_max_lteq update
alloc_run = refl

free_run : kima_free meets 0x1000 layout layout 0x8010 two_blocks ≡ got tt pool
unfolding kima_free find insert remove update
free_run = refl

place-IsFirstFit_example :
    IsFirstFit blocks 0x8ff0 8 16 0x8000 (place meets 2 blocks 0x8ff0 8 16 0x8000)
place-IsFirstFit_example =
    place-IsFirstFit meets meets-IsOverlap blocks blocks-Apart 0x8ff0 8 16 (omega arith)
      (omega arith) (omega arith) 2 0x8000 (omega arith)

seek-IsSeek_example :
    IsSeek meets 0x1000 16 8 blocks pages meets-IsOverlap blocks-Apart tt
      (omega arith)
      (omega arith)
      (omega arith)
      pages_in_memory
      (seek 0x1000 meets 16 8 blocks pages 3 0 (first_entry pages))
seek-IsSeek_example =
    seek-IsSeek meets 0x1000 16 8 blocks pages meets-IsOverlap blocks-Apart tt (omega arith)
      (omega arith) (omega arith) pages_in_memory

kima_alloc-Allocates_example : Allocates 16 8 pool (kima_alloc meets 0x1000 layout layout 16 8 pool)
kima_alloc-Allocates_example =
    kima_alloc-Allocates meets 0x1000 layout layout 16 8 pool meets-IsOverlap blocks-Apart tt
      (omega arith) (omega arith) (omega arith) pages_in_memory pool-IsFresh

-- A block across two pages, of which another block holds the second, and one on a page of its own.
abbrev wide : Layout
wide = record layout { slots_size = 4 }

abbrev three_used : PoolPage
three_used = record poolpg { used_num = 3 }

abbrev busy_slots : ℕ → Blocks → Slots ℕ
busy_slots page used = record {
  poolpg_list = some page;
  pages = (page, three_used) ∷ [];
  query_tree = used;
  free_tree = (page + 216, tt) ∷ [];
}

abbrev busy_blocks : Blocks
busy_blocks = (0x8ff0, (0x1018, 32)) ∷ (0x9100, (0x1058, 16)) ∷ (0xa000, (0x1098, 16)) ∷ []

abbrev busy_pages : Blocks
busy_pages = (0x8000, (0x2018, 1)) ∷ (0x9000, (0x2058, 2)) ∷ (0xa000, (0x2098, 1)) ∷ []

abbrev busy : Pool
busy = record {
  ublks = busy_slots 0x1000 busy_blocks;
  vpgdescs = busy_slots 0x2000 busy_pages;
  supply = supply;
}

busy_blocks-Apart : Apart busy_blocks
unfolding find
busy_blocks-Apart = record {
  sorted = (omega arith, (omega arith, tt));
  proper = λ i u e. ground arith;
  apart = λ i j u w e g lt. ground arith;
}

ublk_page : (k : ℕ) (e : ℕ × ℕ) → find k busy_blocks ≡ some e → floor_align_to (e.0) 0x1000 ≡ 0x1000
unfolding find floor_align_to
ublk_page k e f = ground arith

vpgdesc_page :
    (k : ℕ) (e : ℕ × ℕ) → find k busy_pages ≡ some e → floor_align_to (e.0) 0x1000 ≡ 0x2000
unfolding find floor_align_to
vpgdesc_page k e f = ground arith

ublks-Kept : Kept wide 1 busy.ublks
ublks-Kept k e f =
    (three_used, rw (ublk_page k e f) (unfold find in refl), omega arith, omega arith)

vpgdescs-Kept : Kept wide (page_count 0x1000 0x8ff0 32) busy.vpgdescs
unfolding rounds floor_align_to ceil_align_to
vpgdescs-Kept k e f =
    (three_used, rw (vpgdesc_page k e f) (unfold find in refl), omega arith, omega arith)

busy-Held : Held 0x1000 (page_count 0x1000 0x8ff0 32) (floor_align_to 0x8ff0 0x1000) busy_pages
unfolding rounds floor_align_to ceil_align_to find
busy-Held = (
  (0x2018, (1, refl, omega arith, omega arith)),
  omega arith,
  ((0x2058, (2, refl, omega arith, omega arith)), omega arith, tt),
)

kima_free-Frees_example : Frees 0x1000 0x8ff0 32 busy (kima_free meets 0x1000 wide wide 0x8ff0 busy)
kima_free-Frees_example =
    kima_free-Frees meets 0x1000 wide wide 0x8ff0 0x1018 32 busy (omega arith) (unfold find in refl)
      busy_blocks-Apart (omega arith, (omega arith, tt)) busy-Held vpgdescs-Kept ublks-Kept

alloc_desc-Describes_example :
    Describes layout 0x9000 8 pool.ublks (alloc_desc layout 0x9000 8 1 pool.ublks supply)
alloc_desc-Describes_example = alloc_desc-Describes layout 0x9000 8 1 pool.ublks supply

no_slots : drop_slots layout 0x1000 0 2 (insert 0x1018 tt pool.ublks.free_tree) ≡ []
unfolding drop_slots insert
no_slots = unfold remove in refl

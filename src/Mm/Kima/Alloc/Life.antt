-- ===== src/Mm/Kima/Alloc/Life.antt =====
-- The blocks of a pool across `kima_alloc`.
use pbos.Common.{
  ℕ, suc, ◌+◌, ◌%◌, ◌^◌, ◌<◌, ◌≡◌, ◌≢◌, refl, ap, inl, inr, Bool, Option, none, some, Option-cases,
  length, ℕ_discrete, arith,
}
use pbos.Kfxx.Ordered.{find, insert, IsSorted}
use pbos.Mm.Kima.Slots.{
  Supply, Layout, Slots, Outcome, got, null, panicked, fault, vpgalloc, alloc_ublk,
}
use pbos.Mm.Kima.Slots.Contents.{Describes, alloc_desc-Describes}
use pbos.Mm.Kima.Place.{align_up}
use pbos.Mm.Kima.Place.Align.{align_up_bounds, align_up_aligned}
use pbos.Mm.Kima.Place.Safe.{IsOverlap, Apart, Free}
use pbos.Mm.Kima.Alloc.{
  Pool, Seek, suits, nowhere, endless, first_entry, seek, alloc_there, alloc_at, alloc_new,
  kima_alloc,
}
use pbos.Mm.Kima.Place.Apartness.{inside_Free, insert-Apart}
use pbos.Mm.Kima.Alloc.Walk.{IsSeek, seek-IsSeek}

-- What a call that is to make a block does to the blocks: it adds a block of `size` bytes at `x`,
-- where none started, or leaves the blocks as they are.
abbrev Adds : ℕ → ℕ → Pool → Outcome Pool ℕ → Type 0
Adds x size p (got y q) =
    (y ≡ x)
    × (find x p.ublks.query_tree ≡ none)
    × ((desc : ℕ) × (q.ublks.query_tree ≡ insert x (desc, size) p.ublks.query_tree))
Adds x size p (null q) = q.ublks.query_tree ≡ p.ublks.query_tree
Adds x size p panicked = Unit
Adds x size p fault = Unit

-- What `kima_alloc` may end in, and that it ends: at success the blocks are those of before and
-- one more of `size` bytes, at an aligned address and apart from the others; at null they are
-- those of before.
abbrev pub Allocates : ℕ → ℕ → Pool → Option (Outcome Pool ℕ) → Type 0
Allocates size alignment p (some (got x q)) =
    (x % alignment ≡ 0)
    × Free x size p.ublks.query_tree
    × ((desc : ℕ) × (q.ublks.query_tree ≡ insert x (desc, size) p.ublks.query_tree))
    × Apart q.ublks.query_tree
Allocates size alignment p (some (null q)) = q.ublks.query_tree ≡ p.ublks.query_tree
Allocates size alignment p (some panicked) = Unit
Allocates size alignment p (some fault) = Unit
Allocates size alignment p none = ⊥

-- An area of new pages is inside memory and free of blocks.
abbrev pub IsFresh : ℕ → ℕ → Pool → Type 0
IsFresh size alignment p =
    (area : ℕ) (rest : Supply)
    → vpgalloc p.supply ≡ (some area, rest)
    → (area + (size + alignment) < 2 ^ 64) × Free area (size + alignment) p.ublks.query_tree

module _ (overlapped : ℕ → ℕ → ℕ → ℕ → Bool) (page_size : ℕ)
    (ublk_layout vpgdesc_layout : Layout) where
  alloc_ublk-Describes :
      (x size : ℕ) (s : Slots ℕ) (supply : Supply)
      → Describes ublk_layout x size s (alloc_ublk ublk_layout x size s supply)
  unfolding alloc_ublk
  alloc_ublk-Describes x size s supply = alloc_desc-Describes ublk_layout x size _ s supply

  alloc_there-Adds :
      (page x size : ℕ) (p : Pool)
      → Adds x size p (alloc_there overlapped page_size ublk_layout vpgdesc_layout page x size p)
  unfolding alloc_there
  alloc_there-Adds page x size p = grind (arith, alloc_ublk-Describes x size)

  alloc_at-Adds :
      (x size : ℕ) (p : Pool)
      → Adds x size p (alloc_at overlapped page_size ublk_layout vpgdesc_layout x size p)
  unfolding alloc_at
  alloc_at-Adds x size p = grind (arith, alloc_ublk-Describes x size)

  Adds-Allocates :
      (x size alignment : ℕ) (p : Pool) (r : Outcome Pool ℕ)
      → Apart p.ublks.query_tree
      → 0 < size
      → x % alignment ≡ 0
      → x + size < 2 ^ 64
      → Free x size p.ublks.query_tree
      → Adds x size p r
      → Allocates size alignment p (some r)
  Adds-Allocates x size alignment p (got y q) v pos aligned fits free a = rw a.0 (
    aligned,
    free,
    a.2,
    rw a.2.1 (insert-Apart x a.2.0 size p.ublks.query_tree v a.1 free pos fits),
  )
  Adds-Allocates x size alignment p (null q) v pos aligned fits free a = a
  Adds-Allocates x size alignment p panicked v pos aligned fits free a = tt
  Adds-Allocates x size alignment p fault v pos aligned fits free a = tt

  abbrev new : ℕ → ℕ → Pool → Outcome Pool ℕ
  new = alloc_new overlapped page_size ublk_layout vpgdesc_layout

  abbrev taken : Pool → Pool
  taken p = record p { supply = (vpgalloc p.supply).1 }

  new-null :
      (size alignment : ℕ) (p : Pool)
      → (vpgalloc p.supply).0 ≡ none
      → new size alignment p ≡ null (taken p)
  unfolding alloc_new
  new-null size alignment p e = ground (arith, e)

  new-zero :
      (size alignment area : ℕ) (p : Pool)
      → (vpgalloc p.supply).0 ≡ some area
      → align_up alignment area ≡ 0
      → new size alignment p ≡ null (taken p)
  unfolding alloc_new
  new-zero size alignment area p e z = ground (arith, e, z)

  new-at :
      (size alignment area : ℕ) (p : Pool)
      → (vpgalloc p.supply).0 ≡ some area
      → align_up alignment area ≢ 0
      → new size alignment p
        ≡ alloc_at overlapped page_size ublk_layout vpgdesc_layout
            (align_up alignment area)
            size
            (taken p)
  unfolding alloc_new
  new-at size alignment area p e n = ground (arith, e, n)

  alloc_new-Allocates :
      (size alignment : ℕ) (p : Pool)
      → Apart p.ublks.query_tree
      → 0 < size
      → 0 < alignment
      → IsFresh size alignment p
      → Allocates size alignment p
          (some (alloc_new overlapped page_size ublk_layout vpgdesc_layout size alignment p))
  alloc_new-Allocates size alignment p v pos apos fresh =
      elim (Option-cases (vpgalloc p.supply).0) [
        | inl e ↦ rw (new-null size alignment p e) refl
        | inr (area, e) ↦ elim (ℕ_discrete (align_up alignment area) 0) [
          | yes z ↦ rw (new-zero size alignment area p e z) refl
          | no n ↦
              let x = align_up alignment area in
              let f = fresh area (vpgalloc p.supply).1 (ap (λ o. (o, (vpgalloc p.supply).1)) e) in
              let up = align_up_bounds alignment apos area (omega (arith, f.0)) in
              rw (new-at size alignment area p e n) (
                Adds-Allocates x size alignment p
                  (alloc_at overlapped page_size ublk_layout vpgdesc_layout x size (taken p)) v pos
                  (align_up_aligned alignment apos area (omega (arith, f.0)))
                  (omega (arith, f.0, up))
                  (λ i u g. inside_Free x area size alignment i u up.0 up.1 (f.1 i u g))
                  (alloc_at-Adds x size (taken p)))
        ]
      ]

  abbrev walk_of : ℕ → ℕ → Pool → Seek
  walk_of size alignment p =
      seek page_size overlapped size alignment p.ublks.query_tree p.vpgdescs.query_tree
        (suc (length p.vpgdescs.query_tree + length p.vpgdescs.query_tree)) 0
        (first_entry p.vpgdescs.query_tree)

  kima_alloc-suits :
      (size alignment page x : ℕ) (p : Pool)
      → walk_of size alignment p ≡ suits page x
      → kima_alloc overlapped page_size ublk_layout vpgdesc_layout size alignment p
        ≡ some (alloc_there overlapped page_size ublk_layout vpgdesc_layout page x size p)
  unfolding kima_alloc
  kima_alloc-suits size alignment page x p e = rw (e, kima_alloc) refl

  kima_alloc-nowhere :
      (size alignment : ℕ) (p : Pool)
      → walk_of size alignment p ≡ nowhere
      → kima_alloc overlapped page_size ublk_layout vpgdesc_layout size alignment p
        ≡ some (new size alignment p)
  unfolding kima_alloc
  kima_alloc-nowhere size alignment p e = rw (e, kima_alloc) refl

  -- Where PBOS_ISOVERLAPPED tells whether two areas overlap, the blocks are apart, the pages in
  -- order and far enough below the end of memory, new pages come inside memory and where no block
  -- is, and no size is 0: `kima_alloc` ends; if it gives an address, that is aligned, no block
  -- reached into the bytes from there on, and the blocks are then those of before and the new one,
  -- still apart; if it gives null, the blocks are those of before.
  pub kima_alloc-Allocates :
      (size alignment : ℕ) (p : Pool)
      → IsOverlap overlapped
      → Apart p.ublks.query_tree
      → IsSorted p.vpgdescs.query_tree
      → 0 < page_size
      → 0 < size
      → 0 < alignment
      → ((k : ℕ) (u : ℕ × ℕ)
          → find k p.vpgdescs.query_tree ≡ some u
          → k + (size + page_size + page_size + alignment) < 2 ^ 64)
      → IsFresh size alignment p
      → Allocates size alignment p
          (kima_alloc overlapped page_size ublk_layout vpgdesc_layout size alignment p)
  kima_alloc-Allocates size alignment p lawful v sorted page_pos pos apos in_memory fresh =
      finish (walk_of size alignment p) refl (
        seek-IsSeek overlapped page_size size alignment p.ublks.query_tree p.vpgdescs.query_tree
          lawful v sorted page_pos pos apos in_memory)
    where
      finish :
          (r : Seek)
          → walk_of size alignment p ≡ r
          → IsSeek overlapped page_size size alignment p.ublks.query_tree p.vpgdescs.query_tree
              lawful v sorted page_pos pos apos in_memory r
          → Allocates size alignment p
              (kima_alloc overlapped page_size ublk_layout vpgdesc_layout size alignment p)
      finish (suits page x) e q = rw (kima_alloc-suits size alignment page x p e) (
          Adds-Allocates x size alignment p
            (alloc_there overlapped page_size ublk_layout vpgdesc_layout page x size p) v pos q.0
            q.2 q.3 (alloc_there-Adds page x size p))
      finish nowhere e q =
          rw (kima_alloc-nowhere size alignment p e)
            (alloc_new-Allocates size alignment p v pos apos fresh)
      finish endless e q = absurd q

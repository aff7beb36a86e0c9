-- ===== src/Mm/Kima/Alloc.antt =====
-- kernel/mm/kima/malloc.cc: `kima_alloc` and `kima_free`, on the descriptors of `Slots` and with the
-- search of `Place`. The pool's lock is held throughout. The check of the size that debug builds make
-- is left out.
pub mod Entries
pub mod Life
pub mod Keeping
pub mod Dropping
pub mod Release
pub mod Walk
use pbos.Common.{
  ℕ, zero, suc, ◌+◌, ◌-◌, ◌/◌, ◌%◌, ◌^◌, Bool, true, false, Option, none, some, [], ◌∷◌, length,
  ltb, ◌==◌,
}
use pbos.Kfxx.Ordered.{find, find_max_lteq, next_above}
use pbos.Mm.Kima.Slots.{
  Supply, Layout, Slots, Outcome, got, null, panicked, fault, vpgalloc, charge, floor_align_to,
  ceil_align_to, alloc_ublk, free_ublk,
}
use pbos.Mm.Kima.Pages.{rounds, first_hole, add_refs, give_up, describe, drop_refs}
use pbos.Mm.Kima.Place.{Blocks, Search, found, past, out_of_fuel, align_up, place}

-- `kima_pool_t`.
pub record Pool : Type 0 where
  pub ublks : Slots ℕ
  pub vpgdescs : Slots ℕ
  pub supply : Supply

-- How the walk over the pages ends: at a page and a place, without one, or out of fuel.
pub data Seek : Type 0 where
  suits : ℕ → ℕ → Seek
  nowhere : Seek
  endless : Seek

-- `begin()` of a tree.
unfoldable pub first_entry : Blocks → Option (ℕ × (ℕ × ℕ))
first_entry [] = none
first_entry (e ∷ m) = some e

module _ (page_size : ℕ) where
  module _ (overlapped : ℕ → ℕ → ℕ → ℕ → Bool) (size alignment : ℕ) (blocks pages : Blocks) where
    -- The search from the start of a page, on fuel that exceeds the number of blocks.
    unfoldable pub place_from : ℕ → Search
    unfolding place ceil_align_to
    place_from page =
        place overlapped (suc (length blocks)) blocks
          ((page + (ceil_align_to size page_size - size)) % 2 ^ 64) alignment size page

    -- The loop over the descriptors of the pages; `base` is `continuous_area_base`, and `it` the
    -- iterator.
    unfoldable pub seek : ℕ → ℕ → Option (ℕ × (ℕ × ℕ)) → Seek
    unfolding rounds first_hole place_from
    seek zero base it = endless
    seek (suc n) base none = nowhere
    seek (suc n) base (some e) = elim (ltb e.0 base) [
      | true ↦ seek n base (next_above e.0 pages)
      | false ↦
          elim (first_hole page_size (rounds page_size (ceil_align_to size page_size)) e.0 pages) [
            | some hole ↦ seek n hole (find_max_lteq hole pages)
            | none ↦ elim (place_from e.0) [
              | found x ↦ suits e.0 x
              | past ↦ seek n base (next_above e.0 pages)
              | out_of_fuel ↦ endless
            ]
          ]
    ]

module _ (overlapped : ℕ → ℕ → ℕ → ℕ → Bool) (page_size : ℕ)
    (ublk_layout vpgdesc_layout : Layout) where
  -- A block at a place between the blocks of pages that the pool has.
  unfoldable pub alloc_there : ℕ → ℕ → ℕ → Pool → Outcome Pool ℕ
  unfolding alloc_ublk add_refs rounds ceil_align_to
  alloc_there page x size p = elim (alloc_ublk ublk_layout x size p.ublks p.supply) [
    | null t ↦ null (record p { ublks = t.0; supply = t.1 })
    | panicked ↦ panicked
    | fault ↦ fault
    | got desc t ↦
        elim (add_refs page_size (rounds page_size (ceil_align_to size page_size)) page
          p.vpgdescs.query_tree) [
            | none ↦ panicked
            | some tree ↦
                let counted = record p.vpgdescs { query_tree = tree } in
                got x (record { ublks = t.0; vpgdescs = counted; supply = t.1 })
          ]
  ]

  -- A block at the start of new pages, from `x` on.
  unfoldable pub alloc_at : ℕ → ℕ → Pool → Outcome Pool ℕ
  unfolding rounds ceil_align_to describe charge alloc_ublk give_up
  alloc_at x size p =
      let n = rounds page_size size in
      elim (describe page_size vpgdesc_layout x 0 n p.vpgdescs p.supply) [
        | null t ↦ null (record p { vpgdescs = t.0; supply = t.1 })
        | panicked ↦ panicked
        | fault ↦ fault
        | got u t ↦
            elim (alloc_ublk ublk_layout x size p.ublks
              (charge (ceil_align_to size page_size / page_size) t.1)) [
                | got desc r ↦ got x (record { ublks = r.0; vpgdescs = t.0; supply = r.1 })
                | panicked ↦ panicked
                | fault ↦ fault
                | null r ↦ elim (give_up page_size vpgdesc_layout x n t.0 r.1) [
                  | null w ↦ null (record { ublks = r.0; vpgdescs = w.0; supply = w.1 })
                  | got u w ↦ panicked
                  | panicked ↦ panicked
                  | fault ↦ fault
                ]
              ]
      ]

  unfoldable pub alloc_new : ℕ → ℕ → Pool → Outcome Pool ℕ
  unfolding alloc_at align_up vpgalloc
  alloc_new size alignment p =
      let r = vpgalloc p.supply in
      let q = record p { supply = r.1 } in
      elim r.0 [
        | none ↦ null q
        | some area ↦
            let x = align_up alignment area in
            elim (x == 0) [ true ↦ null q | false ↦ alloc_at x size q ]
      ]

  -- `none` when the walk is out of fuel.
  unfoldable pub kima_alloc : ℕ → ℕ → Pool → Option (Outcome Pool ℕ)
  unfolding seek first_entry alloc_there alloc_new
  kima_alloc size alignment p =
      let pages = p.vpgdescs.query_tree in
      let fuel = suc (length pages + length pages) in
      elim (seek page_size overlapped size alignment p.ublks.query_tree pages fuel 0
        (first_entry pages)) [
          | endless ↦ none
          | nowhere ↦ some (alloc_new size alignment p)
          | suits page x ↦ some (alloc_there page x size p)
        ]

  unfoldable pub kima_free : ℕ → Pool → Outcome Pool (Unit {0})
  unfolding rounds floor_align_to ceil_align_to drop_refs free_ublk
  kima_free ptr p = elim (find ptr p.ublks.query_tree) [
    | none ↦ panicked
    | some (desc, size) ↦
        let from = floor_align_to ptr page_size in
        let end = ceil_align_to ((ptr + size) % 2 ^ 64) page_size in
        elim (drop_refs page_size vpgdesc_layout (rounds page_size (end - from)) from p.vpgdescs
          p.supply) [
            | null t ↦ panicked
            | panicked ↦ panicked
            | fault ↦ fault
            | got u t ↦ elim (free_ublk ublk_layout ptr p.ublks t.1) [
              | got v r ↦ got tt (record { ublks = r.0; vpgdescs = t.0; supply = r.1 })
              | null r ↦ panicked
              | panicked ↦ panicked
              | fault ↦ fault
            ]
          ]
  ]

-- ===== src/Mm/Kima/Pages.antt =====
-- kernel/mm/kima/malloc.cc: what `kima_alloc` and `kima_free` do to the descriptors of the pages, and
-- their references.
use pbos.Common.{ℕ, zero, suc, ◌+◌, ◌-◌, ◌*◌, ◌/◌, ◌%◌, ◌^◌, true, false, Option, none, some, ◌==◌}
use pbos.Kfxx.Ordered.{find, update}
use pbos.Mm.Kima.Slots.{
  Supply, Layout, Slots, Outcome, got, null, panicked, fault, refund, alloc_vpgdesc, free_vpgdesc,
}
use pbos.Mm.Kima.Place.{Blocks}

module _ (page_size : ℕ) where
  -- How often `for (j = 0; j < bound; j += page_size)` runs.
  unfoldable pub rounds : ℕ → ℕ
  rounds bound = (bound + (page_size - 1)) / page_size

  -- The first of `n` pages from `addr` on that has no descriptor.
  unfoldable pub first_hole : ℕ → ℕ → Blocks → Option ℕ
  first_hole zero addr m = none
  first_hole (suc n) addr m = elim (find addr m) [
    | none ↦ some addr
    | some e ↦ first_hole n ((addr + page_size) % 2 ^ 64) m
  ]

  -- One more reference for each of `n` pages from `addr` on; `none` for `km_panic`.
  unfoldable pub add_refs : ℕ → ℕ → Blocks → Option Blocks
  add_refs zero addr m = some m
  add_refs (suc n) addr m = elim (find addr m) [
    | none ↦ none
    | some (desc, ref_count) ↦
        add_refs n ((addr + page_size) % 2 ^ 64) (update addr (desc, (ref_count + 1) % 2 ^ 64) m)
  ]

-- `++vpgdesc->ref_count` of the descriptor of an address.
unfoldable pub add_ref : ℕ → Slots ℕ → Slots ℕ
add_ref addr s = elim (find addr s.query_tree) [
  | none ↦ s
  | some (desc, ref_count) ↦ record s {
    query_tree = update addr (desc, (ref_count + 1) % 2 ^ 64) s.query_tree;
  }
]

module _ (page_size : ℕ) (vpgdesc_layout : Layout) where
  -- The loop of `release_vpgdesc_sg`, over the `n` pages from `addr` on.
  unfoldable pub undo : ℕ → ℕ → Slots ℕ → Supply → Outcome (Slots ℕ × Supply) (Unit {0})
  unfolding free_vpgdesc
  undo zero addr s supply = got tt (s, supply)
  undo (suc n) addr s supply = elim (free_vpgdesc vpgdesc_layout addr s supply) [
    | got u t ↦ undo n ((addr + page_size) % 2 ^ 64) t.0 t.1
    | null t ↦ panicked
    | panicked ↦ panicked
    | fault ↦ fault
  ]

  -- `release_vpgdesc_sg` when `done` pages have a descriptor, at a return of null.
  unfoldable pub give_up : ℕ → ℕ → Slots ℕ → Supply → Outcome (Slots ℕ × Supply) (Unit {0})
  unfolding undo refund
  give_up start done s supply = elim (undo done start s supply) [
    | got u t ↦ null (t.0, refund ((done * page_size) % 2 ^ 64) t.1)
    | null t ↦ panicked
    | panicked ↦ panicked
    | fault ↦ fault
  ]

  -- `for (; i < size; i += page_size)`: descriptors for `n` more pages, after `done` of them.
  unfoldable pub describe : ℕ → ℕ → ℕ → Slots ℕ → Supply → Outcome (Slots ℕ × Supply) (Unit {0})
  unfolding alloc_vpgdesc add_ref give_up
  describe start done zero s supply = got tt (s, supply)
  describe start done (suc n) s supply =
      let addr = (start + done * page_size) % 2 ^ 64 in
      elim (alloc_vpgdesc vpgdesc_layout addr s supply) [
        | got desc t ↦ describe start (done + 1) n (add_ref addr t.0) t.1
        | null t ↦ give_up start done t.0 t.1
        | panicked ↦ panicked
        | fault ↦ fault
      ]

  -- The loop of `kima_free`, over `n` pages from `addr` on.
  unfoldable pub drop_refs : ℕ → ℕ → Slots ℕ → Supply → Outcome (Slots ℕ × Supply) (Unit {0})
  unfolding free_vpgdesc
  drop_refs zero addr s supply = got tt (s, supply)
  drop_refs (suc n) addr s supply = elim (find addr s.query_tree) [
    | none ↦ panicked
    | some (desc, ref_count) ↦
        let less = (ref_count + (2 ^ 64 - 1)) % 2 ^ 64 in
        let t = record s { query_tree = update addr (desc, less) s.query_tree } in
        let next = (addr + page_size) % 2 ^ 64 in
        elim (less == 0) [
          | false ↦ drop_refs n next t supply
          | true ↦ elim (free_vpgdesc vpgdesc_layout addr t supply) [
            | got u r ↦ drop_refs n next r.0 r.1
            | null r ↦ panicked
            | panicked ↦ panicked
            | fault ↦ fault
          ]
        ]
  ]

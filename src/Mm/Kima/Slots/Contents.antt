-- ===== src/Mm/Kima/Slots/Contents.antt =====
-- What allocating and freeing a descriptor does to the addresses that are described.
use pbos.Common.{ℕ, ◌≡◌, none, List, arith}
use pbos.Kfxx.Ordered.{find, insert, remove}
use pbos.Mm.Kima.Slots.{
  PoolPage, Supply, Layout, Slots, Outcome, got, null, panicked, fault, use_slot, use_page,
  alloc_desc, release_page, free_desc,
}

module _ {V : Type 0} (layout : Layout) where
  -- A call that gives a descriptor for `ptr` adds just that address, which was not described; one
  -- that gives null changes no descriptor.
  abbrev pub Describes : ℕ → V → Slots V → Outcome (Slots V × Supply) ℕ → Type 0
  Describes ptr v s (got desc t) =
      (find ptr s.query_tree ≡ none) × (t.0.query_tree ≡ insert ptr (desc, v) s.query_tree)
  Describes ptr v s (null t) = t.0 ≡ s
  Describes ptr v s panicked = Unit
  Describes ptr v s fault = Unit

  use_slot-Describes :
      (ptr : ℕ) (v : V) (desc : ℕ) (free : List (ℕ × Unit {0})) (s : Slots V) (supply : Supply)
      → Describes ptr v s (use_slot layout ptr v desc free s supply)
  unfolding use_slot
  use_slot-Describes ptr v desc free s supply = ground arith

  use_page-Describes :
      (ptr : ℕ) (v : V) (page : ℕ) (s : Slots V) (supply : Supply)
      → Describes ptr v s (use_page layout ptr v page s supply)
  unfolding use_page
  use_page-Describes ptr v page s supply = ground arith

  -- From any descriptors: `alloc_desc` either describes `ptr`, which was not, and no other address
  -- more; or leaves the descriptors as they are; or ends in a panic or a fault.
  pub alloc_desc-Describes :
      (ptr : ℕ) (v : V) (counted : ℕ) (s : Slots V) (supply : Supply)
      → Describes ptr v s (alloc_desc layout ptr v counted s supply)
  unfolding alloc_desc
  alloc_desc-Describes ptr v counted s supply =
      grind (arith, use_slot-Describes ptr v, use_page-Describes ptr v)

  abbrev Keeps : Slots V → Outcome (Slots V × Supply) (Unit {0}) → Type 0
  Keeps s (got u t) = t.0.query_tree ≡ s.query_tree
  Keeps s (null t) = ⊥
  Keeps s panicked = ⊥
  Keeps s fault = Unit

  abbrev pub Forgets : ℕ → Slots V → Outcome (Slots V × Supply) (Unit {0}) → Type 0
  Forgets ptr s (got u t) = t.0.query_tree ≡ remove ptr s.query_tree
  Forgets ptr s (null t) = ⊥
  Forgets ptr s panicked = ⊥
  Forgets ptr s fault = Unit

  release_page-Keeps :
      (page : ℕ) (h : PoolPage) (counted : ℕ) (s : Slots V) (supply : Supply)
      → Keeps s (release_page layout page h counted s supply)
  unfolding release_page
  release_page-Keeps page h counted s supply = ground arith

  pub free_desc-Forgets :
      (ptr counted : ℕ) (s : Slots V) (supply : Supply)
      → Forgets ptr s (free_desc layout ptr counted s supply)
  unfolding free_desc
  free_desc-Forgets ptr counted s supply = grind (arith, release_page-Keeps)

-- ===== src/Mm/Kima/Slots.antt =====
-- kernel/mm/kima/ublk.cc and vpgdesc.cc: the descriptors of a pool, which are the same for user
-- blocks (the payload is the size) and for virtual pages (the payload is the reference count).
-- Descriptors are slots of whole pages; a free slot is in the free tree under its own address, a
-- used one in the query tree under the address that it describes. Trees are their contents in order,
-- by `pbos.Kfxx.Ordered`. Of the pages, `kima_vpgalloc` and `kima_vpgfree`, only what they answer
-- and what they get is kept.
pub mod Contents
pub mod Dangling
use pbos.Common.{
  ℕ, zero, suc, ◌+◌, ◌-◌, ◌*◌, ◌/◌, ◌%◌, ◌^◌, Option, none, some, List, [], ◌∷◌, ◌==◌,
  if◌then◌else◌,
}
use pbos.Kfxx.Ordered.{find, insert, remove, update}

-- `kima_ublk_poolpg_header_t` and `kima_vpgdesc_poolpg_header_t`.
pub record PoolPage : Type 0 where
  pub prev : Option ℕ
  pub next : Option ℕ
  pub used_num : ℕ

-- What `kima_vpgalloc` will answer to the calls to come, null being `none`; the pages that
-- `kima_vpgfree` got back; and the count of `kima_pool_t`.
pub record Supply : Type 0 where
  pub coming : List (Option ℕ)
  pub given_back : List ℕ
  pub num_allocated_pages : ℕ

-- The sizes that `ki_init_kima_pool` computes: the offset of the first slot, how many slots a page
-- has and how large each is; and the size of a page.
pub record Layout : Type 0 where
  pub page_size : ℕ
  pub slots_off : ℕ
  pub slots_size : ℕ
  pub slot_bytes : ℕ

-- The part of `kima_pool_t` for one kind of descriptor.
pub record Slots (V : Type 0) : Type 0 where
  pub poolpg_list : Option ℕ
  pub pages : List (ℕ × PoolPage)
  pub query_tree : List (ℕ × (ℕ × V))
  pub free_tree : List (ℕ × Unit {0})

-- How a call ends: with a value or with null, each with what it leaves behind; in a panic or a
-- failed assertion; or with a use of the header of a page that is not one of the pool's.
pub data Outcome (S A : Type 0) : Type 0 where
  got : A → S → Outcome S A
  null : S → Outcome S A
  panicked : Outcome S A
  fault : Outcome S A

unfoldable pub vpgalloc : Supply → Option ℕ × Supply
vpgalloc s = elim s.coming [ [] ↦ (none, s) | page ∷ coming ↦ (page, record s { coming = coming }) ]

unfoldable pub vpgfree : ℕ → Supply → Supply
vpgfree page s = record s { given_back = page ∷ s.given_back }

-- `num_allocated_pages += n` and `num_allocated_pages -= n`.
unfoldable pub charge : ℕ → Supply → Supply
charge n s = record s { num_allocated_pages = (s.num_allocated_pages + n) % 2 ^ 64 }

unfoldable pub refund : ℕ → Supply → Supply
refund n s = record s { num_allocated_pages = (s.num_allocated_pages + (2 ^ 64 - n)) % 2 ^ 64 }

unfoldable pub floor_align_to : ℕ → ℕ → ℕ
floor_align_to x alignment = x - x % alignment

unfoldable pub ceil_align_to : ℕ → ℕ → ℕ
ceil_align_to x alignment = (x + (alignment - x % alignment) % alignment) % 2 ^ 64

-- A write to the header of a page, if the pointer is not null.
unfoldable pub set_header :
    Option ℕ → (PoolPage → PoolPage) → List (ℕ × PoolPage) → Option (List (ℕ × PoolPage))
set_header none f pages = some pages
set_header (some page) f pages = elim (find page pages) [
  | none ↦ none
  | some h ↦ some (update page (f h) pages)
]

module _ (layout : Layout) where
  abbrev pub slot : ℕ → ℕ → ℕ
  slot page i = page + layout.slots_off + i * layout.slot_bytes

  -- `for (i = from; …)` over `n` slots: into the free tree, and out of it.
  unfoldable pub add_slots : ℕ → ℕ → ℕ → List (ℕ × Unit {0}) → List (ℕ × Unit {0})
  add_slots page from zero m = m
  add_slots page from (suc n) m = add_slots page (from + 1) n (insert (slot page from) tt m)

  unfoldable pub drop_slots : ℕ → ℕ → ℕ → List (ℕ × Unit {0}) → List (ℕ × Unit {0})
  drop_slots page from zero m = m
  drop_slots page from (suc n) m = drop_slots page (from + 1) n (remove (slot page from) m)

abbrev pub count_up : PoolPage → PoolPage
count_up h = record h { used_num = (h.used_num + 1) % 2 ^ 64 }

abbrev pub count_down : PoolPage → PoolPage
count_down h = record h { used_num = (h.used_num + (2 ^ 64 - 1)) % 2 ^ 64 }

module _ {V : Type 0} (layout : Layout) where
  -- The first part of `kima_alloc_ublk` and `kima_alloc_vpgdesc`: a slot of the free tree.
  unfoldable pub use_slot :
      ℕ → V → ℕ → List (ℕ × Unit {0}) → Slots V → Supply → Outcome (Slots V × Supply) ℕ
  unfolding set_header floor_align_to
  use_slot ptr v desc free s supply =
      elim (set_header (some (floor_align_to desc layout.page_size)) count_up s.pages) [
        | none ↦ fault
        | some pages ↦ elim (find ptr s.query_tree) [
          | some e ↦ panicked
          | none ↦
              let t = record s {
                pages = pages;
                query_tree = insert ptr (desc, v) s.query_tree;
                free_tree = free;
              } in
              got desc (t, supply)
        ]
      ]

  -- The second part: a new page at the head of the list, whose first slot is used.
  unfoldable pub use_page : ℕ → V → ℕ → Slots V → Supply → Outcome (Slots V × Supply) ℕ
  unfolding set_header add_slots
  use_page ptr v page s supply =
      let back = λ (h : PoolPage). record h { prev = some page } in
      let header : PoolPage = record { prev = none; next = s.poolpg_list; used_num = 1 } in
      elim (set_header s.poolpg_list back s.pages) [
        | none ↦ fault
        | some pages ↦ elim (find ptr s.query_tree) [
          | some e ↦ panicked
          | none ↦
              let t : Slots V = record {
                poolpg_list = some page;
                pages = insert page header pages;
                query_tree = insert ptr (slot layout page 0, v) s.query_tree;
                free_tree = add_slots layout page 1 (layout.slots_size - 1) s.free_tree;
              } in
              got (slot layout page 0) (t, supply)
        ]
      ]

  -- `kima_alloc_ublk` and `kima_alloc_vpgdesc`, up to the payload and to the pages that are counted
  -- for a new page; `insert_unwrap` panics if the address is described already.
  unfoldable pub alloc_desc : ℕ → V → ℕ → Slots V → Supply → Outcome (Slots V × Supply) ℕ
  unfolding use_slot use_page vpgalloc charge
  alloc_desc ptr v counted s supply = elim s.free_tree [
    | (desc, u) ∷ free ↦ use_slot ptr v desc free s supply
    | [] ↦
        let r = vpgalloc supply in
        elim r.0 [ none ↦ null (s, r.1) | some page ↦ use_page ptr v page s (charge counted r.1) ]
  ]

  -- A page without used slots leaves the list of pages, though `poolpg_list` keeps pointing at it.
  unfoldable pub release_page :
      ℕ → PoolPage → ℕ → Slots V → Supply → Outcome (Slots V × Supply) (Unit {0})
  unfolding set_header drop_slots vpgfree refund
  release_page page h counted s supply =
      let skip = λ (p : PoolPage). record p { next = h.next } in
      let skip_back = λ (n : PoolPage). record n { prev = h.prev } in
      elim (set_header h.prev skip s.pages) [
        | none ↦ fault
        | some pages ↦ elim (set_header h.next skip_back pages) [
          | none ↦ fault
          | some linked ↦
              let t = record s {
                pages = remove page linked;
                free_tree = drop_slots layout page 0 layout.slots_size s.free_tree;
              } in
              got tt (t, refund counted (vpgfree page supply))
        ]
      ]

  -- `kima_free_ublk` and `kima_free_vpgdesc` of the descriptor at an address, up to the pages that
  -- are counted off; `fault` also for a null descriptor.
  unfoldable pub free_desc : ℕ → ℕ → Slots V → Supply → Outcome (Slots V × Supply) (Unit {0})
  unfolding release_page floor_align_to
  free_desc ptr counted s supply = elim (find ptr s.query_tree) [
    | none ↦ fault
    | some (desc, v) ↦
        let page = floor_align_to desc layout.page_size in
        elim (find page s.pages) [
          | none ↦ fault
          | some h ↦
              let less = record s {
                pages = update page (count_down h) s.pages;
                query_tree = remove ptr s.query_tree;
                free_tree = insert desc tt s.free_tree;
              } in
              if (count_down h).used_num == 0
              then release_page page (count_down h) counted less supply
              else got tt (less, supply)
        ]
  ]

module _ (layout : Layout) where
  unfoldable pub alloc_ublk : ℕ → ℕ → Slots ℕ → Supply → Outcome (Slots ℕ × Supply) ℕ
  unfolding alloc_desc ceil_align_to
  alloc_ublk ptr size =
      alloc_desc layout ptr size (ceil_align_to size layout.page_size / layout.page_size)

  unfoldable pub alloc_vpgdesc : ℕ → Slots ℕ → Supply → Outcome (Slots ℕ × Supply) ℕ
  unfolding alloc_desc
  alloc_vpgdesc ptr = alloc_desc layout ptr 0 0

  unfoldable pub free_ublk : ℕ → Slots ℕ → Supply → Outcome (Slots ℕ × Supply) (Unit {0})
  unfolding free_desc
  free_ublk ptr = free_desc layout ptr 1

  unfoldable pub free_vpgdesc : ℕ → Slots ℕ → Supply → Outcome (Slots ℕ × Supply) (Unit {0})
  unfolding free_desc
  free_vpgdesc ptr = free_desc layout ptr 0

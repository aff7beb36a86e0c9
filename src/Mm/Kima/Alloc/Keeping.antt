-- ===== src/Mm/Kima/Alloc/Keeping.antt =====
-- Releasing a descriptor of a pool whose page stays in use.
use pbos.Common.{
  ℕ, suc, ◌^◌, ◌<◌, ◌≡◌, refl, sym, ◌∙◌, ap, subst, false, some, List, ◌==◌, if◌then◌else◌,
  Bool-cases, inl, inr, arith,
}
use pbos.Kfxx.Ordered.{find, insert, remove, update, IsSorted}
use pbos.Kfxx.Ordered.Laws.{find-update, find-remove}
use pbos.Mm.Kima.Slots.{
  PoolPage, Supply, Layout, Slots, Outcome, got, floor_align_to, count_down, free_desc,
}

-- Each descriptor in use stands on a page of the pool, which counts more than `n` of them.
abbrev pub Kept : Layout → ℕ → Slots ℕ → Type 0
Kept layout n s =
    (k : ℕ) (e : ℕ × ℕ)
    → find k s.query_tree ≡ some e
    → (h : PoolPage) × (find (floor_align_to e.0 layout.page_size) s.pages ≡ some h)
      × (n < h.used_num)
      × (h.used_num < 2 ^ 64)

module _ (layout : Layout) where
  pub Kept-less : (n : ℕ) (s : Slots ℕ) → Kept layout (suc n) s → Kept layout n s
  Kept-less n s kept k e f =
      let (h, at_page, more, fits) = kept k e f in (h, at_page, omega (arith, more), fits)

  -- A write to the payload of a descriptor.
  pub update-Kept :
      (n addr desc old new : ℕ) (s : Slots ℕ)
      → find addr s.query_tree ≡ some (desc, old)
      → Kept layout n s
      → Kept layout n (record s { query_tree = update addr (desc, new) s.query_tree })
  update-Kept n addr desc old new s f kept k e g = elim (Bool-cases (addr == k)) [
    | inl y ↦
        let w : some (desc, new) ≡ some e =
          sym (
            find-update addr k (desc, new) (desc, old) s.query_tree f
            ∙ ap (λ b. if b then some (desc, new) else find k s.query_tree) y)
          ∙ g in
        let same : desc ≡ e.0 = grind (arith, w) in
        let (h, at_page, more, fits) = kept addr (desc, old) f in
        (
          h,
          subst (λ d. find (floor_align_to d layout.page_size) s.pages ≡ some h) same at_page,
          more,
          fits,
        )
    | inr y ↦ kept k e (
        sym (
          find-update addr k (desc, new) (desc, old) s.query_tree f
          ∙ ap (λ b. if b then some (desc, new) else find k s.query_tree) y)
        ∙ g)
  ]

  -- What a descriptor's release leaves where its page stays in use.
  abbrev less_one : ℕ → ℕ → PoolPage → Slots ℕ → List (ℕ × Unit {0}) → Slots ℕ
  less_one ptr page h s free = record s {
    pages = update page (count_down h) s.pages;
    query_tree = remove ptr s.query_tree;
    free_tree = free;
  }

  less_one-Kept :
      (n ptr desc count : ℕ) (h : PoolPage) (s : Slots ℕ) (free : List (ℕ × Unit {0}))
      → IsSorted s.query_tree
      → find ptr s.query_tree ≡ some (desc, count)
      → find (floor_align_to desc layout.page_size) s.pages ≡ some h
      → suc n < h.used_num
      → h.used_num < 2 ^ 64
      → Kept layout (suc n) s
      → Kept layout n (less_one ptr (floor_align_to desc layout.page_size) h s free)
  less_one-Kept n ptr desc count h s free sorted f at_page more fits kept k e g =
      let page = floor_align_to desc layout.page_size in
      let other = floor_align_to e.0 layout.page_size in
      let moved = find-remove ptr k s.query_tree sorted in
      let stays : find k s.query_tree ≡ some e = ground (arith, moved, g) in
      let (i, at_other, more_i, fits_i) = kept k e stays in
      let found = find-update page other (count_down h) h s.pages at_page in
      elim (Bool-cases (page == other)) [
        | inl y ↦ (
          count_down h,
          found ∙ ap (λ b. if b then some (count_down h) else find other s.pages) y,
          omega (arith, more, fits),
          omega (arith, more, fits),
        )
        | inr y ↦ (
          i,
          found ∙ (ap (λ b. if b then some (count_down h) else find other s.pages) y ∙ at_other),
          omega (arith, more_i),
          fits_i,
        )
      ]

  -- A descriptor is released, and its page stays in use.
  abbrev pub Released : ℕ → ℕ → Slots ℕ → Supply → Outcome (Slots ℕ × Supply) (Unit {0}) → Type 0
  Released n ptr s supply o =
      (t : Slots ℕ) × (o ≡ got tt (t, supply))
      × (t.query_tree ≡ remove ptr s.query_tree)
      × Kept layout n t

  pub free_desc-Released :
      (n ptr counted desc count : ℕ) (s : Slots ℕ) (supply : Supply)
      → IsSorted s.query_tree
      → find ptr s.query_tree ≡ some (desc, count)
      → Kept layout (suc n) s
      → Released n ptr s supply (free_desc layout ptr counted s supply)
  unfolding free_desc
  free_desc-Released n ptr counted desc count s supply sorted f kept =
      let (h, at_page, more, fits) = kept ptr (desc, count) f in
      let used : ((count_down h).used_num == 0) ≡ false = ground (arith, more, fits) in
      let free = insert desc tt s.free_tree in
      (
        less_one ptr (floor_align_to desc layout.page_size) h s free,
        ground (arith, f, at_page, used),
        refl,
        less_one-Kept n ptr desc count h s free sorted f at_page more fits kept,
      )

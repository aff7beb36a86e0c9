-- ===== src/Mm/Kima/Alloc/Dropping.antt =====
-- The loop of `kima_free` over the pages of a block, where the pages of descriptors stay in use.
use pbos.Common.{
  ℕ, zero, suc, ◌+◌, ◌-◌, ◌%◌, ◌^◌, ◌<◌, ◌≤◌, ◌≡◌, refl, ◌∙◌, ap, Bool, true, false, Option, none,
  some, ◌==◌, if◌then◌else◌, Bool-cases, inl, inr, arith,
}
use pbos.Kfxx.Ordered.{find, update, IsSorted}
use pbos.Kfxx.Ordered.Laws.{find-update, find-remove, update-IsSorted, remove-IsSorted}
use pbos.Mm.Kima.Slots.{Supply, Layout, Slots, Outcome, got, free_vpgdesc}
use pbos.Mm.Kima.Pages.{drop_refs}
use pbos.Mm.Kima.Place.{Blocks}
use pbos.Mm.Kima.Alloc.Keeping.{Kept, Kept-less, update-Kept, free_desc-Released}

-- Whether `k` is one of the `n` pages from `addr` on.
abbrev pub among_pages : ℕ → ℕ → ℕ → ℕ → Bool
among_pages page_size zero addr k = false
among_pages page_size (suc n) addr k =
    if addr == k then true else among_pages page_size n (addr + page_size) k

-- The descriptor of a page, of which one reference is dropped: it goes with the last one.
abbrev pub dropped : Bool → Option (ℕ × ℕ) → Option (ℕ × ℕ)
dropped false o = o
dropped true none = none
dropped true (some (desc, ref_count)) = if ref_count == 1 then none else some (desc, ref_count - 1)

-- Each of the `n` pages from `addr` on has a descriptor with a reference at least.
abbrev pub Held : ℕ → ℕ → ℕ → Blocks → Type 0
Held page_size zero addr m = Unit
Held page_size (suc n) addr m =
    ((desc : ℕ) × ((ref_count : ℕ) × (find addr m ≡ some (desc, ref_count))
        × (0 < ref_count)
        × (ref_count < 2 ^ 64)))
    × (addr + page_size < 2 ^ 64)
    × Held page_size n (addr + page_size) m

among_pages-below : (page_size n addr k : ℕ) → k < addr → among_pages page_size n addr k ≡ false
among_pages-below page_size zero addr k lt = refl
among_pages-below page_size (suc n) addr k lt =
    let rest = among_pages-below page_size n (addr + page_size) k (omega (arith, lt)) in
    ground (arith, lt, rest)

-- Other descriptors may change.
Held-above :
    (page_size n addr : ℕ) (m m' : Blocks)
    → ((k : ℕ) → addr ≤ k → find k m' ≡ find k m)
    → Held page_size n addr m
    → Held page_size n addr m'
Held-above page_size zero addr m m' same h = tt
Held-above page_size (suc n) addr m m' same ((desc, (count, f, pos, fits)), next, rest) = (
  (desc, (count, same addr (omega arith) ∙ f, pos, fits)),
  next,
  Held-above page_size n (addr + page_size) m m' (λ k le. same k (omega (arith, le))) rest,
)

module _ (page_size : ℕ) (layout : Layout) where
  -- One reference of each of the `n` pages from `addr` on is dropped, and nothing else changes.
  abbrev pub Drops : ℕ → ℕ → Slots ℕ → Supply → Outcome (Slots ℕ × Supply) (Unit {0}) → Type 0
  Drops n addr s supply o =
      (t : Slots ℕ) × (o ≡ got tt (t, supply))
      × ((k : ℕ)
          → find k t.query_tree ≡ dropped (among_pages page_size n addr k) (find k s.query_tree))

  -- What is left after the first page of those.
  abbrev OneDropped : ℕ → ℕ → Slots ℕ → Slots ℕ → Type 0
  OneDropped n addr s t =
      IsSorted t.query_tree
      × Kept layout n t
      × ((k : ℕ) → find k t.query_tree ≡ dropped (addr == k) (find k s.query_tree))

  abbrev Steps : ℕ → ℕ → Slots ℕ → Supply → Type 0
  Steps n addr s supply =
      (t : Slots ℕ) × (drop_refs page_size layout (suc n) addr s supply
        ≡ drop_refs page_size layout n (addr + page_size) t supply)
      × OneDropped n addr s t

  run_on :
      (n addr desc count less next : ℕ) (s : Slots ℕ) (supply : Supply)
      → find addr s.query_tree ≡ some (desc, count)
      → (count + (2 ^ 64 - 1)) % 2 ^ 64 ≡ less
      → (less == 0) ≡ false
      → (addr + page_size) % 2 ^ 64 ≡ next
      → drop_refs page_size layout (suc n) addr s supply
        ≡ drop_refs page_size layout n next
            (record s { query_tree = update addr (desc, less) s.query_tree })
            supply
  unfolding drop_refs
  run_on n addr desc count less next s supply f e z w = cc

  run_last :
      (n addr desc count less next : ℕ) (s t : Slots ℕ) (supply : Supply)
      → find addr s.query_tree ≡ some (desc, count)
      → (count + (2 ^ 64 - 1)) % 2 ^ 64 ≡ less
      → (less == 0) ≡ true
      → (addr + page_size) % 2 ^ 64 ≡ next
      → free_vpgdesc layout addr
          (record s { query_tree = update addr (desc, less) s.query_tree })
          supply
        ≡ got tt (t, supply)
      → drop_refs page_size layout (suc n) addr s supply
        ≡ drop_refs page_size layout n next t supply
  unfolding drop_refs
  run_last n addr desc count less next s t supply f e z w r = cc

  step_on :
      (n addr desc count : ℕ) (s : Slots ℕ) (supply : Supply)
      → IsSorted s.query_tree
      → find addr s.query_tree ≡ some (desc, suc (suc count))
      → suc (suc count) < 2 ^ 64
      → addr + page_size < 2 ^ 64
      → Kept layout (suc n) s
      → Steps n addr s supply
  step_on n addr desc count s supply sorted f fits next kept =
      let t : Slots ℕ = record s { query_tree = update addr (desc, suc count) s.query_tree } in
      let less : (suc (suc count) + (2 ^ 64 - 1)) % 2 ^ 64 ≡ suc count = omega (arith, fits) in
      let where_next : (addr + page_size) % 2 ^ 64 ≡ addr + page_size = omega (arith, next) in
      (
        t,
        run_on n addr desc _ (suc count) _ s supply f less (ground arith) where_next,
        (
          update-IsSorted addr (desc, suc count) s.query_tree sorted,
          Kept-less layout n t (update-Kept layout (suc n) addr desc _ (suc count) s f kept),
          λ k. elim (Bool-cases (addr == k)) [
            | inl y ↦ ground (
              arith,
              y,
              f,
              find-update addr k (desc, suc count) (desc, suc (suc count)) s.query_tree f,
            )
            | inr y ↦
                rw (find-update addr k (desc, suc count) (desc, suc (suc count)) s.query_tree f, y)
                  refl
          ],
        ),
      )

  step_last :
      (n addr desc : ℕ) (s : Slots ℕ) (supply : Supply)
      → IsSorted s.query_tree
      → find addr s.query_tree ≡ some (desc, 1)
      → addr + page_size < 2 ^ 64
      → Kept layout (suc n) s
      → Steps n addr s supply
  unfolding free_vpgdesc
  step_last n addr desc s supply sorted f next kept =
      let m = update addr (desc, 0) s.query_tree in
      let u : Slots ℕ = record s { query_tree = m } in
      let m_sorted = update-IsSorted addr (desc, 0) s.query_tree sorted in
      let at_addr : find addr m ≡ some (desc, 0) =
        find-update addr addr (desc, 0) (desc, 1) s.query_tree f ∙ ground arith in
      let (t, r, tree, t_kept) =
        free_desc-Released layout n addr 0 desc 0 u supply m_sorted at_addr
          (update-Kept layout (suc n) addr desc 1 0 s f kept) in
      let where_next : (addr + page_size) % 2 ^ 64 ≡ addr + page_size = omega (arith, next) in
      (
        t,
        run_last n addr desc 1 0 _ s t supply f refl refl where_next r,
        (
          rw tree (remove-IsSorted addr m m_sorted),
          t_kept,
          λ k. rw tree (
              ground (
                arith,
                f,
                find-remove addr k m m_sorted,
                find-update addr k (desc, 0) (desc, 1) s.query_tree f,
              )),
        ),
      )

  step :
      (n addr desc count : ℕ) (s : Slots ℕ) (supply : Supply)
      → IsSorted s.query_tree
      → find addr s.query_tree ≡ some (desc, count)
      → 0 < count
      → count < 2 ^ 64
      → addr + page_size < 2 ^ 64
      → Kept layout (suc n) s
      → Steps n addr s supply
  step n addr desc zero s supply sorted f pos fits next kept = absurd (omega (arith, pos))
  step n addr desc (suc zero) s supply sorted f pos fits next kept =
      step_last n addr desc s supply sorted f next kept
  step n addr desc (suc (suc count)) s supply sorted f pos fits next kept =
      step_on n addr desc count s supply sorted f fits next kept

  -- The pages of a block are some of those described, and the descriptors' own pages stay in use:
  -- the loop of `kima_free` ends, without a panic or a fault, with one reference less of each.
  pub drop_refs-Drops :
      (n addr : ℕ) (s : Slots ℕ) (supply : Supply)
      → 0 < page_size
      → IsSorted s.query_tree
      → Held page_size n addr s.query_tree
      → Kept layout n s
      → Drops n addr s supply (drop_refs page_size layout n addr s supply)
  drop_refs-Drops zero addr s supply pos sorted held kept = (s, unfold drop_refs in refl, λ k. refl)
  drop_refs-Drops (suc n) addr s supply pos sorted ((desc, (count, f, has, fits)), next, rest)
        kept =
      let (t, runs, (t_sorted, t_kept, one)) =
        step n addr desc count s supply sorted f has fits next kept in
      let same = λ (k : ℕ) (le : addr + page_size ≤ k).
        (let y : (addr == k) ≡ false = ground (arith, pos, le) in
          one k ∙ ap (λ b. dropped b (find k s.query_tree)) y) in
      let (u, ends, all) =
        drop_refs-Drops n (addr + page_size) t supply pos t_sorted
          (Held-above page_size n (addr + page_size) s.query_tree t.query_tree same rest) t_kept in
      let below = among_pages-below page_size n (addr + page_size) in
      (
        u,
        runs ∙ ends,
        λ k. elim (Bool-cases (addr == k)) [
          | inl y ↦
              let lt : k < addr + page_size = ground (arith, pos, y) in
              rw y (
                all k
                ∙ (ap (λ b. dropped b (find k t.query_tree)) (below k lt)
                    ∙ (one k ∙ ap (λ b. dropped b (find k s.query_tree)) y)))
          | inr y ↦ rw y (
              all k
              ∙ ap (dropped (among_pages page_size n (addr + page_size) k))
                  (one k ∙ ap (λ b. dropped b (find k s.query_tree)) y))
        ],
      )

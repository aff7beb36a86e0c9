-- ===== src/Mm/Vmr/Splitting.antt =====
-- `mm_split_mapped_area`, `mm_merge_mapped_area`, `mm_set_page_access` and `mm_unmmap` on VMRs that
-- do not overlap.
use pbos.Common.{
  ℕ, ◌+◌, ◌-◌, ◌^◌, ◌<◌, ◌≡◌, ◌≢◌, refl, ap, true, some, inl, inr, Option-cases, List, ◌==◌,
  if◌then◌else◌, arith,
}
use pbos.Kfxx.Ordered.{find, insert, remove, update}
use pbos.Kfxx.Ordered.Laws.{find-insert, find-update}
use pbos.Mm.Context.{
  km_result_ok, Vmr, Context, Paging, Outcome, returned, panicked, lock_vmr, unlock_vmr,
}
use pbos.Mm.Vmr.{
  Answer, given, out_of_memory, stopped, new_vmr, merge_mapped_area, split_mapped_area,
  set_page_access,
}
use pbos.Mm.Vmr.Areas.{
  IsDisjoint, found-Beyond, find-inside, split-Beyond, merge-Beyond, update-Beyond,
  merge-split_areas,
}

abbrev pub lower_of : Vmr → ℕ → ℕ → Vmr
lower_of v area_vaddr split_point = record v { size = split_point - area_vaddr }

abbrev pub upper_of : Vmr → ℕ → ℕ → Vmr
upper_of v area_vaddr split_point = new_vmr (area_vaddr + v.size - split_point) v.access

module _ {P : Type 0} where
  -- The call did not panic, its VMRs do not overlap, and the mutexes are held as before.
  abbrev pub Keeps : Context P → Outcome P → Type 0
  Keeps c panicked = ⊥
  Keeps c (returned code d) =
      IsDisjoint d.vmr_tree × (d.vmr_locks ≡ c.vmr_locks) × (d.kernel_locks ≡ c.kernel_locks)

  -- A second call when the first succeeds.
  abbrev pub and_then : Outcome P → (Context P → Outcome P) → Outcome P
  and_then panicked call = panicked
  and_then (returned code c) call = if code == 0 then call c else returned code c

  abbrev pub with_tree : Context P → List (ℕ × Vmr) → Context P
  with_tree c m = record c { vmr_tree = m }

  -- Taking the VMR mutex and letting it go.
  lock-unlock :
      (c : Context P) (m : List (ℕ × Vmr))
      → unlock_vmr (record (lock_vmr c) { vmr_tree = m }) ≡ with_tree c m
  lock-unlock c m = ap (λ n. record c { vmr_tree = m; vmr_locks = n }) (omega arith)

  -- A split inside an area, when there is memory.
  pub split-succeeds :
      (c : Context P) (a s : ℕ) (v : Vmr)
      → IsDisjoint c.vmr_tree
      → find a c.vmr_tree ≡ some v
      → a < s
      → s < a + v.size
      → split_mapped_area given c a s
        ≡ returned km_result_ok
            (with_tree c (update a (lower_of v a s) (insert s (upper_of v a s) c.vmr_tree)))
  unfolding split_mapped_area
  split-succeeds c a s v d f lt below =
      let bounds = found-Beyond a 0 v c.vmr_tree d f in
      let inside = find-inside a s 0 v c.vmr_tree d f lt below in ground (arith, bounds, inside)

  -- From VMRs that do not overlap, where `kima_alloc` returns, with memory or with null:
  -- `mm_split_mapped_area` does not panic, and returns with VMRs that do not overlap and both mutexes
  -- held as before.
  pub split-Keeps :
      (answer : Answer) (c : Context P) (a s : ℕ)
      → IsDisjoint c.vmr_tree
      → answer ≢ stopped
      → Keeps c (split_mapped_area answer c a s)
  unfolding split_mapped_area
  split-Keeps stopped c a s d r = absurd (r refl)
  split-Keeps out_of_memory c a s d r = elim (Option-cases (find a c.vmr_tree)) [
    | inl n ↦ ground (arith, n)
    | inr (v, f) ↦ ground (arith, f)
  ]
  split-Keeps given c a s d r = elim (Option-cases (find a c.vmr_tree)) [
    | inl n ↦ ground (arith, n)
    | inr (v, f) ↦ ground (
      arith,
      f,
      found-Beyond a 0 v c.vmr_tree d f,
      find-inside a s 0 v c.vmr_tree d f,
      split-Beyond a s 0 v (lower_of v a s) (upper_of v a s) c.vmr_tree d f,
    )
  ]

  -- From VMRs that do not overlap, where `destroy_at` and `kima_free` return:
  -- `mm_merge_mapped_area` does not panic, and returns with VMRs that do not overlap and both mutexes
  -- held as before.
  pub merge-Keeps :
      (c : Context P) (a b : ℕ) → IsDisjoint c.vmr_tree → Keeps c (merge_mapped_area true c a b)
  unfolding merge_mapped_area
  merge-Keeps c a b d = elim (Option-cases (find a c.vmr_tree)) [
    | inl n ↦ ground (arith, n)
    | inr (v, f) ↦ elim (Option-cases (find b c.vmr_tree)) [
      | inl n ↦ ground (arith, f, n)
      | inr (w, g) ↦ ground (
        arith,
        f,
        g,
        found-Beyond a 0 v c.vmr_tree d f,
        found-Beyond b 0 w c.vmr_tree d g,
        merge-Beyond a 0 v w (record v { size = v.size + w.size }) c.vmr_tree d f,
      )
    ]
  ]

  -- From VMRs that do not overlap, `mm_set_page_access` does not panic, and returns with VMRs that
  -- do not overlap and both mutexes held as before.
  pub set_page_access-Keeps :
      (paging : Paging P) (c : Context P) (vaddr size access : ℕ)
      → IsDisjoint c.vmr_tree
      → Keeps c (set_page_access paging c vaddr size access)
  unfolding set_page_access
  set_page_access-Keeps paging c vaddr size access d = elim (Option-cases (find vaddr c.vmr_tree)) [
    | inl n ↦ ground (arith, n)
    | inr (v, f) ↦
        ground (arith, f, update-Beyond vaddr 0 v (record v { access = access }) c.vmr_tree d f)
  ]

  merge-lower_upper :
      (c : Context P) (m : List (ℕ × Vmr)) (a s : ℕ) (v : Vmr)
      → find a m ≡ some (lower_of v a s)
      → find s m ≡ some (upper_of v a s)
      → a < s
      → s < a + v.size
      → a + v.size < 2 ^ 64
      → merge_mapped_area true (with_tree c m) a s
        ≡ returned km_result_ok (with_tree c (remove s (update a v m)))
  unfolding merge_mapped_area
  merge-lower_upper c m a s v fa fs lt below end = ground (arith, fa, fs)

  -- If the VMRs do not overlap, `kima_alloc` gives memory, and the VMR is destroyed and its memory
  -- freed without a panic: splitting an area at a point inside it and merging its two parts both
  -- succeed, and restore the context.
  pub merge-split :
      (c : Context P) (a s : ℕ) (v : Vmr)
      → IsDisjoint c.vmr_tree
      → find a c.vmr_tree ≡ some v
      → a < s
      → s < a + v.size
      → and_then (split_mapped_area given c a s) (λ d. merge_mapped_area true d a s)
        ≡ returned km_result_ok c
  merge-split c a s v d f lt below =
      let bounds = found-Beyond a 0 v c.vmr_tree d f in
      let absent = find-inside a s 0 v c.vmr_tree d f lt below in
      let low = lower_of v a s in
      let up = upper_of v a s in
      let m = insert s up c.vmr_tree in
      let at_a = find-insert s a up c.vmr_tree absent in
      let at_s = find-insert s s up c.vmr_tree absent in
      let found_a = find-update a a low v m in
      let found_s = find-update a s low v m in
      let back = merge-split_areas a s 0 v low up c.vmr_tree d f lt below in
      let done = split-succeeds c a s v d f lt below in
      let merged = merge-lower_upper c (update a low m) a s v in
      ground (arith, bounds, at_a, at_s, found_a, found_s, back, done, merged)

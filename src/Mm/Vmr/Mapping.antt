-- ===== src/Mm/Vmr/Mapping.antt =====
-- `mm_mmap`: what it leaves of the VMRs and the mutexes.
use pbos.Common.{
  ℕ, ◌-◌, ◌^◌, ltb, ◌==◌, not, ◌&&◌, ◌⊎◌, zero, suc, ap, List, Bool-cases, ◌≡◌, ◌≢◌, refl, Bool,
  true, false, none, inl, inr, if◌then◌else◌, arith,
}
use pbos.Kfxx.Ordered.{find, insert, remove, IsSorted}
use pbos.Kfxx.Ordered.Laws.{remove-IsSorted}
use pbos.Mm.Context.{
  km_result_invalid_args, Vmr, Context, Paging, Outcome, returned, panicked, pgfloor, is_user_space,
  ignores_vmr, pgceil, last_byte, wants_user,
}
use pbos.Mm.Vmr.{
  Answer, stopped, new_vmr, record_vmr, remove_vmr, map_pages, and_map, mmap, differs,
}
use pbos.Mm.Vmr.Recording.{IsLeft, IsClear, Recorded, Records, record_vmr-Records}

module _ {P : Type 0} where
  -- The tree that `mm_mmap` leaves: where it succeeds, with the new VMR if it records one, and as it
  -- was if not; where it fails, as it was, or without the VMR at the first page, with the new
  -- VMR or without.
  abbrev pub TreeOf : ℕ → Bool → Context P → ℕ → ℕ → ℕ → ℕ → ℕ → List (ℕ × Vmr) → Type 0
  TreeOf zero true c vaddr base limit size access tree =
      Recorded c vaddr base limit size access tree
  TreeOf zero false c vaddr base limit size access tree = tree ≡ c.vmr_tree
  TreeOf (suc code) recording c vaddr base limit size access tree =
      (tree ≡ c.vmr_tree)
      ⊎ ((tree ≡ remove base c.vmr_tree)
          ⊎ (tree ≡ remove base (insert vaddr (new_vmr size access) c.vmr_tree)))

  -- What a call of `mm_mmap` ends in, which records the area or not.
  abbrev pub Maps : Bool → Answer → Context P → ℕ → ℕ → ℕ → ℕ → ℕ → Outcome P → Type 0
  Maps recording answer c vaddr base limit size access panicked =
      (recording ≡ true)
      × IsClear c base limit
      × ((answer ≡ stopped) ⊎ (find vaddr c.vmr_tree ≢ none))
  Maps recording answer c vaddr base limit size access (returned code d) =
      IsLeft c d × TreeOf code recording c vaddr base limit size access d.vmr_tree

  -- A failed call left the tree in one of three ways.
  failed-TreeOf :
      (code : ℕ) (recording : Bool) (c : Context P) (vaddr base limit size access : ℕ)
      (tree : List (ℕ × Vmr))
      → (code == 0) ≡ false
      → TreeOf 1 recording c vaddr base limit size access tree
      → TreeOf code recording c vaddr base limit size access tree
  failed-TreeOf zero recording c vaddr base limit size access tree e t = absurd (grind (arith, e))
  failed-TreeOf (suc code) recording c vaddr base limit size access tree e t = t

  if-Maps :
      (b : Bool) (answer : Answer) (c : Context P) (vaddr base limit size access : ℕ)
      (x y : Outcome P)
      → Maps true answer c vaddr base limit size access x
      → Maps false answer c vaddr base limit size access y
      → Maps b answer c vaddr base limit size access (if b then x else y)
  if-Maps true answer c vaddr base limit size access x y p q = p
  if-Maps false answer c vaddr base limit size access x y p q = q

  refuse-Maps :
      (b recording : Bool) (answer : Answer) (c : Context P) (vaddr base limit size access : ℕ)
      (y : Outcome P)
      → IsSorted c.vmr_tree
      → Maps recording answer c vaddr base limit size access y
      → Maps recording answer c vaddr base limit size access
          (if b then returned km_result_invalid_args c else y)
  refuse-Maps true recording answer c vaddr base limit size access y s k =
      ((s, refl, refl), inl refl)
  refuse-Maps false recording answer c vaddr base limit size access y s k = k

  module _ (paging : Paging P) where
    -- The pages of an area that was recorded.
    mapped_pages-Maps :
        (answer : Answer) (c d : Context P) (vaddr base limit size access paddr bytes flags : ℕ)
        → IsLeft c d
        → Recorded c vaddr base limit size access d.vmr_tree
        → Maps true answer c vaddr base limit size access
            (map_pages paging true true d base paddr bytes access flags)
    unfolding map_pages remove_vmr
    mapped_pages-Maps answer c d vaddr base limit size access paddr bytes flags left done =
        let r = paging.mmap d.page_table base paddr bytes access flags in
        elim (Bool-cases (r.0 == 0)) [
          | inl ok ↦ rw ok (left, done)
          | inr failed ↦ rw failed (
            (remove-IsSorted base d.vmr_tree left.0, left.1, left.2),
            failed-TreeOf r.0 true c vaddr base limit size access (remove base d.vmr_tree) failed
                (inr (inr (ap (remove base) done.2))),
          )
        ]

    -- The pages of an area that is not recorded.
    kept-Maps :
        (user : Bool) (answer : Answer) (c : Context P)
        (vaddr base limit size access paddr bytes flags : ℕ)
        → IsSorted c.vmr_tree
        → Maps false answer c vaddr base limit size access
            (map_pages paging user false c base paddr bytes access flags)
    unfolding map_pages
    kept-Maps true answer c vaddr base limit size access paddr bytes flags s =
        let r = paging.mmap c.page_table base paddr bytes access flags in
        elim (Bool-cases (r.0 == 0)) [
          | inl ok ↦ rw ok ((s, refl, refl), refl)
          | inr failed ↦ rw failed (
            (s, refl, refl),
            failed-TreeOf r.0 false c vaddr base limit size access c.vmr_tree failed (inl refl),
          )
        ]
    kept-Maps false answer c vaddr base limit size access paddr bytes flags s =
        let r = paging.mmap c.page_table base paddr bytes access flags in
        elim (Bool-cases (r.0 == 0)) [
          | inl ok ↦ rw ok ((s, refl, omega arith), refl)
          | inr failed ↦ rw failed (
            (s, refl, omega arith),
            failed-TreeOf r.0 false c vaddr base limit size access c.vmr_tree failed (inl refl),
          )
        ]

    and_map-Maps :
        (answer : Answer) (c : Context P) (o : Outcome P)
        (vaddr base limit size access paddr bytes flags : ℕ)
        → Records answer c vaddr base limit size access o
        → Maps true answer c vaddr base limit size access
            (and_map paging o base paddr bytes access flags)
    unfolding and_map
    and_map-Maps answer c panicked vaddr base limit size access paddr bytes flags k =
        (refl, k.0, k.1)
    and_map-Maps answer c (returned code d) vaddr base limit size access paddr bytes flags k =
        elim (k.1) [
          | inl (ok, done) ↦
              let zero_code : (code == 0) ≡ true = ground (arith, ok) in
              rw zero_code (
                mapped_pages-Maps answer c d vaddr base limit size access paddr bytes flags k.0
                  done)
          | inr (failed, gone) ↦
              let nonzero : (code == 0) ≡ false = ground (arith, failed) in
              rw nonzero (
                k.0,
                failed-TreeOf code true c vaddr base limit size access d.vmr_tree nonzero
                    (inr (inl gone)),
              )
        ]

    pub mmap-Maps :
        (answer : Answer) (c : Context P) (vaddr paddr size access flags : ℕ)
        → IsSorted c.vmr_tree
        → Maps
            (is_user_space (pgfloor vaddr) && not (ignores_vmr flags))
            answer
            c
            vaddr
            (pgfloor vaddr)
            (last_byte (pgfloor vaddr) size)
            size
            access
            (mmap paging answer c vaddr paddr size access flags)
    unfolding mmap
    mmap-Maps answer c vaddr paddr size access flags s =
        let base = pgfloor vaddr in
        let frame = pgfloor paddr in
        let bytes = pgceil size in
        let limit = last_byte base size in
        let user = is_user_space base in
        let recording = user && not (ignores_vmr flags) in
        let block = record_vmr answer c vaddr base limit size access in
        let recorded = record_vmr-Records answer c vaddr base limit size access s in
        let refuse = λ (b : Bool) (y : Outcome P).
          refuse-Maps b recording answer c vaddr base limit size access y s in
        let inner =
          if-Maps recording answer c vaddr base limit size access
            (and_map paging block base frame bytes access flags)
            (map_pages paging user false c base frame bytes access flags)
            (and_map-Maps answer c block vaddr base limit size access frame bytes flags recorded)
            (kept-Maps user answer c vaddr base limit size access frame bytes flags s) in
        let granted = refuse (not user && wants_user access) _ inner in
        let one_space = refuse (differs user (is_user_space limit)) _ granted in
        let in_range = refuse (ltb (2 ^ 64 - 1 - base) bytes) _ one_space in
        refuse (size == 0) _ in_range

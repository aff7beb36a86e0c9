-- ===== src/Kfxx/Dynarray/Ranges.antt =====
-- Erasing, extracting, resizing and shrinking of the dynamic array.
use pbos.Common.{
  ℕ, ◌+◌, ◌-◌, ◌^◌, ◌≤◌, ◌<◌, ◌≡◌, refl, Bool, true, some, Option-cases, Bool-cases, inl, inr, ltb,
  if◌then◌else◌, arith,
}
use pbos.Kfxx.Dynarray.{
  DynArray, Ended, returned, stopped, sub_size, move_data, memmove, at, erase_move, erase_range,
  extract_range_and_shrink, shrink_capacity, realloc, resize_and_shrink, shrink_to_fit,
}
use pbos.Kfxx.Dynarray.Access.{IsValid}

module _ {V : Type 0} (element_size : ℕ) (mem : Bool) (fresh : ℕ → V) where
  -- What `erase_range` may end in: the array without the elements of the range.
  abbrev pub Erases : ℕ → ℕ → DynArray V → Ended V → Type 0
  Erases idx_start idx_end a (returned ok b) =
      (ok ≡ true)
      × IsValid b
      × (b.length + (idx_end - idx_start) ≡ a.length)
      × ((j : ℕ) → at j b ≡ (if ltb j idx_start then at j a else at (j + (idx_end - idx_start)) a))
  Erases idx_start idx_end a stopped = ⊥

  erased :
      (idx_start idx_end : ℕ) (a : DynArray V) (d : ℕ → V) (j : ℕ)
      → idx_start ≤ idx_end
      → idx_end ≤ a.length
      → a.buffer ≡ some d
      → at j (record {
        length = a.length - (idx_end - idx_start);
        capacity = a.capacity;
        buffer = some (memmove idx_start idx_end (a.length - idx_end) d);
      })
        ≡ (if ltb j idx_start then at j a else at (j + (idx_end - idx_start)) a)
  unfolding at memmove
  erased idx_start idx_end a d j order le e = elim (Bool-cases (ltb j idx_start)) [
    | inl before ↦ ground (arith, before, e)
    | inr after ↦ ground (arith, after, e)
  ]

  erase_range-runs :
      (idx_start idx_end : ℕ) (a : DynArray V) (d : ℕ → V)
      → idx_start ≤ idx_end
      → idx_start < a.length
      → idx_end ≤ a.length
      → a.length < 2 ^ 64
      → a.buffer ≡ some d
      → erase_range element_size mem fresh idx_start idx_end a
        ≡ returned true (record {
          length = a.length - (idx_end - idx_start);
          capacity = a.capacity;
          buffer = some (memmove idx_start idx_end (a.length - idx_end) d);
        })
  unfolding erase_range erase_move move_data sub_size
  erase_range-runs idx_start idx_end a d order lt le small e = ground (arith, e)

  -- From a valid array, on a range that starts inside it and ends inside it or at its end:
  -- `erase_range` ends in a valid array with the elements before the range and then those after it.
  pub erase_range-Erases :
      (idx_start idx_end : ℕ) (a : DynArray V)
      → IsValid a
      → idx_start ≤ idx_end
      → idx_start < a.length
      → idx_end ≤ a.length
      → Erases idx_start idx_end a (erase_range element_size mem fresh idx_start idx_end a)
  erase_range-Erases idx_start idx_end a v order lt le = elim (Option-cases a.buffer) [
    | inl e ↦ absurd (ground (arith, e))
    | inr (d, e) ↦
        rw (erase_range-runs idx_start idx_end a d order lt le (omega arith) e) (
          refl,
          (omega arith, v.1, tt),
          omega arith,
          λ j. erased idx_start idx_end a d j order le e,
        )
  ]

  -- `shrink_to_fit` of a valid array does nothing, however much larger than its length its capacity
  -- is.
  pub shrink_to_fit-keeps :
      (a : DynArray V) → IsValid a → shrink_to_fit element_size mem fresh a ≡ returned true a
  unfolding shrink_to_fit
  shrink_to_fit-keeps a v = ground arith

  -- `resize_and_shrink` to a greater length within the capacity always fails an assertion.
  pub resize_and_shrink-stopped :
      (length : ℕ) (a : DynArray V)
      → a.length < length
      → length ≤ a.capacity
      → resize_and_shrink element_size mem fresh length a ≡ stopped
  unfolding resize_and_shrink shrink_capacity
  resize_and_shrink-stopped length a lt le = ground arith

  -- If `extract_range_and_shrink` of a proper part of a valid array succeeds, the array holds its
  -- first elements, as many as the range has, wherever the range begins.
  pub extract_range_and_shrink-first :
      (idx_start idx_end : ℕ) (a b : DynArray V)
      → IsValid a
      → idx_start ≤ idx_end
      → idx_end ≤ a.length
      → idx_end - idx_start < a.length
      → extract_range_and_shrink element_size mem fresh idx_start idx_end a ≡ returned true b
      → (j : ℕ) → j < idx_end - idx_start
      → at j b ≡ at j a
  unfolding extract_range_and_shrink shrink_capacity at realloc sub_size
  extract_range_and_shrink-first idx_start idx_end a b v order le part r j lt =
      elim (Bool-cases mem) [
        | inl given ↦ elim (Option-cases a.buffer) [
          | inl e ↦ ground (arith, given, e, r)
          | inr (d, e) ↦ ground (arith, given, e, r)
        ]
        | inr refused ↦ ground (arith, refused, r)
      ]

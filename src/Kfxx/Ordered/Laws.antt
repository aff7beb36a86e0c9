-- ===== src/Kfxx/Ordered/Laws.antt =====
-- The laws of the ordered contents, stated by `find`.
use pbos.Common.{
  ℕ, ◌<◌, ◌≤◌, ◌≡◌, refl, inl, inr, Option, none, some, List, [], ◌∷◌, ltb, leb, ◌==◌,
  if◌then◌else◌, arith, Bool-cases, leb→le, ltb→lt,
}
use pbos.Kfxx.Ordered.{find, find_max_lteq, next_above, insert, remove, update, Above, IsSorted}

module _ {ℓ} {V : Type ℓ} where
  pub Above-mono : (i j : ℕ) (m : List (ℕ × V)) → i ≤ j → Above j m → Above i m
  Above-mono i j [] h a = tt
  Above-mono i j ((k, v) ∷ m) h a = (omega arith, a.1)

  pub Above-IsSorted : (i : ℕ) (m : List (ℕ × V)) → Above i m → IsSorted m
  Above-IsSorted i [] a = tt
  Above-IsSorted i ((k, v) ∷ m) a = a.1

  -- A key below all the others is absent.
  pub find-Above : (k i : ℕ) (m : List (ℕ × V)) → Above i m → k ≤ i → find k m ≡ none
  unfolding find
  find-Above k i [] a h = refl
  find-Above k i ((j, v) ∷ m) a h = ground (arith, find-Above k j m)

  pub find-insert :
      (k j : ℕ) (v : V) (m : List (ℕ × V))
      → find k m ≡ none
      → find j (insert k v m) ≡ (if k == j then some v else find j m)
  unfolding find insert
  find-insert k j v [] h = refl
  find-insert k j v ((i, w) ∷ m) h = ground (arith, find-insert k j v m)

  pub find-update :
      (k j : ℕ) (v w : V) (m : List (ℕ × V))
      → find k m ≡ some w
      → find j (update k v m) ≡ (if k == j then some v else find j m)
  unfolding find update
  find-update k j v w [] h = ground arith
  find-update k j v w ((i, u) ∷ m) h = ground (arith, find-update k j v w m)

  pub find-remove :
      (k j : ℕ) (m : List (ℕ × V))
      → IsSorted m
      → find j (remove k m) ≡ (if k == j then none else find j m)
  unfolding find remove
  find-remove k j [] s = ground arith
  find-remove k j ((i, u) ∷ m) s =
      ground (arith, find-remove k j m (Above-IsSorted i m s), find-Above j i m s)

  pub insert-Above :
      (k i : ℕ) (v : V) (m : List (ℕ × V))
      → Above i m
      → i < k
      → find k m ≡ none
      → Above i (insert k v m)
  unfolding insert find
  insert-Above k i v [] a h n = (h, tt)
  insert-Above k i v ((j, w) ∷ m) a h n = ground (arith, insert-Above k j v m a.1)

  pub insert-IsSorted :
      (k : ℕ) (v : V) (m : List (ℕ × V)) → IsSorted m → find k m ≡ none → IsSorted (insert k v m)
  unfolding insert find
  insert-IsSorted k v [] s n = tt
  insert-IsSorted k v ((j, w) ∷ m) s n = ground (arith, insert-Above k j v m s)

  pub update-Above : (k i : ℕ) (v : V) (m : List (ℕ × V)) → Above i m → Above i (update k v m)
  unfolding update
  update-Above k i v [] a = tt
  update-Above k i v ((j, w) ∷ m) a = ground (arith, update-Above k j v m a.1)

  pub update-IsSorted : (k : ℕ) (v : V) (m : List (ℕ × V)) → IsSorted m → IsSorted (update k v m)
  unfolding update
  update-IsSorted k v [] s = tt
  update-IsSorted k v ((j, w) ∷ m) s = ground (arith, update-Above k j v m s)

  pub remove-Above : (k i : ℕ) (m : List (ℕ × V)) → Above i m → Above i (remove k m)
  unfolding remove
  remove-Above k i [] a = tt
  remove-Above k i ((j, w) ∷ m) a = ground (arith, remove-Above k j m a.1, Above-mono i j m)

  pub remove-IsSorted : (k : ℕ) (m : List (ℕ × V)) → IsSorted m → IsSorted (remove k m)
  unfolding remove
  remove-IsSorted k [] s = tt
  remove-IsSorted k ((j, w) ∷ m) s = ground (arith, remove-Above k j m s, Above-IsSorted j m s)

module _ {V : Type 0} where
  -- The search for the greatest key that is at most `k` finds an entry, and no key lies between.
  abbrev pub IsMaxLteq : ℕ → List (ℕ × V) → Option (ℕ × V) → Type 0
  IsMaxLteq k m none = (i : ℕ) → i ≤ k → find i m ≡ none
  IsMaxLteq k m (some e) =
      (e.0 ≤ k) × (find e.0 m ≡ some e.1) × ((i : ℕ) → e.0 < i → i ≤ k → find i m ≡ none)

  IsMaxLteq-cons :
      (k j : ℕ) (v : V) (m : List (ℕ × V)) (r : Option (ℕ × V))
      → Above j m
      → j ≤ k
      → IsMaxLteq k m r
      → IsMaxLteq k ((j, v) ∷ m) (elim r [ none ↦ some (j, v) | some e ↦ some e ])
  unfolding find
  IsMaxLteq-cons k j v m none a h q = (h, ground arith, λ i lt le. ground (arith, q i le))
  IsMaxLteq-cons k j v m (some e) a h q = (
    q.0,
    ground (arith, find-Above j j m a, q.1),
    λ i lt le. ground (arith, q.2 i lt le, find-Above e.0 j m a, q.1),
  )

  pub find_max_lteq-IsMaxLteq :
      (k : ℕ) (m : List (ℕ × V)) → IsSorted m → IsMaxLteq k m (find_max_lteq k m)
  unfolding find find_max_lteq
  find_max_lteq-IsMaxLteq k [] s = λ i h. refl
  find_max_lteq-IsMaxLteq k ((j, v) ∷ m) s = elim (Bool-cases (leb j k)) [
    | inl le ↦ rw le (
        IsMaxLteq-cons k j v m (find_max_lteq k m) s (leb→le j k le)
          (find_max_lteq-IsMaxLteq k m (Above-IsSorted j m s)))
    | inr gt ↦ rw gt (λ i h. ground (arith, find-Above i j m s))
  ]

  -- The next entry has the least key above `k`.
  abbrev pub IsNext : ℕ → List (ℕ × V) → Option (ℕ × V) → Type 0
  IsNext k m none = (i : ℕ) → k < i → find i m ≡ none
  IsNext k m (some e) =
      (k < e.0) × (find e.0 m ≡ some e.1) × ((i : ℕ) → k < i → i < e.0 → find i m ≡ none)

  IsNext-cons :
      (k j : ℕ) (v : V) (m : List (ℕ × V)) (r : Option (ℕ × V))
      → Above j m
      → j ≤ k
      → IsNext k m r
      → IsNext k ((j, v) ∷ m) r
  unfolding find
  IsNext-cons k j v m none a h q = λ i lt. ground (arith, q i lt)
  IsNext-cons k j v m (some e) a h q =
      (q.0, ground (arith, q.1), λ i lt le. ground (arith, q.2 i lt le))

  pub next_above-IsNext : (k : ℕ) (m : List (ℕ × V)) → IsSorted m → IsNext k m (next_above k m)
  unfolding find next_above
  next_above-IsNext k [] s = λ i h. refl
  next_above-IsNext k ((j, v) ∷ m) s = elim (Bool-cases (ltb k j)) [
    | inl lt ↦ rw lt (ltb→lt k j lt, ground arith, λ i h g. ground (arith, find-Above i j m s))
    | inr ge ↦ rw ge (
        IsNext-cons k j v m (next_above k m) s (ground arith)
          (next_above-IsNext k m (Above-IsSorted j m s)))
  ]

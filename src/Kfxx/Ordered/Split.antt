-- ===== src/Kfxx/Ordered/Split.antt =====
-- Ordered contents in two parts: those of the left subtree, then the root and the right subtree.
use pbos.Common.{ℕ, ◌<◌, ◌≤◌, ◌≡◌, refl, ◌∙◌, Option, none, some, List, [], ◌∷◌, ◌++◌, All, arith}
use pbos.Kfxx.Ordered.{find, find_max_lteq, next_above, insert, remove, Above, IsSorted}
use pbos.Kfxx.Ordered.Laws.{find-Above}

module _ {V : Type 0} where
  -- Every key of the list is below `k`.
  abbrev pub Below : ℕ → List (ℕ × V) → Type 0
  Below k = All (λ e. e.0 < k)

  pub Below-mono : (i j : ℕ) (m : List (ℕ × V)) → i ≤ j → Below i m → Below j m
  Below-mono i j [] h b = tt
  Below-mono i j (e ∷ m) h b = (omega arith, Below-mono i j m h b.1)

  Above-split : (i k : ℕ) (v : V) (xs ys : List (ℕ × V)) → Above i (xs ++ ((k, v) ∷ ys)) → i < k
  Above-split i k v [] ys a = a.0
  Above-split i k v ((j, w) ∷ xs) ys a = omega (arith, Above-split j k v xs ys a.1)

  Above-split_left :
      (i k : ℕ) (v : V) (xs ys : List (ℕ × V)) → Above i (xs ++ ((k, v) ∷ ys)) → Above i xs
  Above-split_left i k v [] ys a = tt
  Above-split_left i k v ((j, w) ∷ xs) ys a = (a.0, Above-split_left j k v xs ys a.1)

  Above-split_Below :
      (i k : ℕ) (v : V) (xs ys : List (ℕ × V)) → Above i (xs ++ ((k, v) ∷ ys)) → Below k xs
  Above-split_Below i k v [] ys a = tt
  Above-split_Below i k v ((j, w) ∷ xs) ys a =
      (Above-split j k v xs ys a.1, Above-split_Below j k v xs ys a.1)

  Above-split_right :
      (i k : ℕ) (v : V) (xs ys : List (ℕ × V)) → Above i (xs ++ ((k, v) ∷ ys)) → Above k ys
  Above-split_right i k v [] ys a = a.1
  Above-split_right i k v ((j, w) ∷ xs) ys a = Above-split_right j k v xs ys a.1

  module _ (k : ℕ) (v : V) where
    pub split-IsSorted : (xs ys : List (ℕ × V)) → IsSorted (xs ++ ((k, v) ∷ ys)) → IsSorted xs
    split-IsSorted [] ys s = tt
    split-IsSorted ((j, w) ∷ xs) ys s = Above-split_left j k v xs ys s

    pub split-Below : (xs ys : List (ℕ × V)) → IsSorted (xs ++ ((k, v) ∷ ys)) → Below k xs
    split-Below [] ys s = tt
    split-Below ((j, w) ∷ xs) ys s = (Above-split j k v xs ys s, Above-split_Below j k v xs ys s)

    pub split-Above : (xs ys : List (ℕ × V)) → IsSorted (xs ++ ((k, v) ∷ ys)) → Above k ys
    split-Above [] ys s = s
    split-Above ((j, w) ∷ xs) ys s = Above-split_right j k v xs ys s

    join-Above :
        (i : ℕ) (xs ys : List (ℕ × V))
        → i < k
        → Above i xs
        → Below k xs
        → Above k ys
        → Above i (xs ++ ((k, v) ∷ ys))
    join-Above i [] ys h a b c = (h, c)
    join-Above i ((j, w) ∷ xs) ys h a b c = (a.0, join-Above j xs ys b.0 a.1 b.1 c)

    pub join-IsSorted :
        (xs ys : List (ℕ × V))
        → IsSorted xs
        → Below k xs
        → Above k ys
        → IsSorted (xs ++ ((k, v) ∷ ys))
    join-IsSorted [] ys a b c = c
    join-IsSorted ((j, w) ∷ xs) ys a b c = join-Above j xs ys b.0 a b.1 c

  -- What follows in an ordered list lies above any key below all of it.
  pub append-Above :
      (key : ℕ) (xs ys : List (ℕ × V))
      → IsSorted (xs ++ ys)
      → All (λ e. key < e.0) ys
      → Above key ys
  append-Above key xs [] s a = tt
  append-Above key xs ((k, v) ∷ ys) s a = (a.0, split-Above k v xs ys s)

  pub find-Below : (key k : ℕ) (xs : List (ℕ × V)) → Below k xs → k ≤ key → find key xs ≡ none
  unfolding find
  find-Below key k [] b h = refl
  find-Below key k ((j, w) ∷ xs) b h = ground (arith, find-Below key k xs)

  pub find-append_right :
      (key k : ℕ) (xs ys : List (ℕ × V)) → Below k xs → k ≤ key → find key (xs ++ ys) ≡ find key ys
  unfolding find
  find-append_right key k [] ys b h = refl
  find-append_right key k ((j, w) ∷ xs) ys b h = ground (arith, find-append_right key k xs ys)

  pub find-append_left :
      (key k : ℕ) (xs ys : List (ℕ × V)) → key ≤ k → Above k ys → find key (xs ++ ys) ≡ find key xs
  unfolding find
  find-append_left key k [] ys h a = find-Above key k ys a h
  find-append_left key k ((j, w) ∷ xs) ys h a = ground (arith, find-append_left key k xs ys)

  pub insert-split :
      (key : ℕ) (v : V) (xs ys : List (ℕ × V))
      → Below key xs
      → Above key ys
      → insert key v (xs ++ ys) ≡ xs ++ ((key, v) ∷ ys)
  unfolding insert
  insert-split key v [] [] b a = refl
  insert-split key v [] ((j, w) ∷ ys) b a = ground arith
  insert-split key v ((j, w) ∷ xs) ys b a = ground (arith, insert-split key v xs ys)

  pub remove-split :
      (key : ℕ) (v : V) (xs ys : List (ℕ × V))
      → Below key xs
      → remove key (xs ++ ((key, v) ∷ ys)) ≡ xs ++ ys
  unfolding remove
  remove-split key v [] ys b = ground arith
  remove-split key v ((j, w) ∷ xs) ys b = ground (arith, remove-split key v xs ys)

  pub find_max_lteq-Above :
      (key k : ℕ) (m : List (ℕ × V)) → key ≤ k → Above k m → find_max_lteq key m ≡ none
  unfolding find_max_lteq
  find_max_lteq-Above key k [] h a = refl
  find_max_lteq-Above key k ((j, w) ∷ m) h a = ground arith

  pub find_max_lteq-append_left :
      (key k : ℕ) (xs ys : List (ℕ × V))
      → key ≤ k
      → Above k ys
      → find_max_lteq key (xs ++ ys) ≡ find_max_lteq key xs
  unfolding find_max_lteq
  find_max_lteq-append_left key k [] ys h a = find_max_lteq-Above key k ys h a
  find_max_lteq-append_left key k ((j, w) ∷ xs) ys h a =
      ground (arith, find_max_lteq-append_left key k xs ys)

  -- A second part that holds an answer gives it, if the first part lies below.
  pub find_max_lteq-append_right :
      (key k : ℕ) (e : ℕ × V) (xs ys : List (ℕ × V))
      → Below k xs
      → k ≤ key
      → find_max_lteq key ys ≡ some e
      → find_max_lteq key (xs ++ ys) ≡ some e
  unfolding find_max_lteq
  find_max_lteq-append_right key k e [] ys b h q = q
  find_max_lteq-append_right key k e ((j, w) ∷ xs) ys b h q =
      ground (arith, find_max_lteq-append_right key k e xs ys)

  remove-absent : (key : ℕ) (ys : List (ℕ × V)) → find key ys ≡ none → remove key ys ≡ ys
  unfolding remove find
  remove-absent key [] h = refl
  remove-absent key ((j, w) ∷ ys) h = ground (arith, remove-absent key ys)

  pub remove-append_left :
      (key : ℕ) (xs ys : List (ℕ × V)) → Above key ys → remove key (xs ++ ys) ≡ remove key xs ++ ys
  unfolding remove
  remove-append_left key [] ys a = remove-absent key ys (find-Above key key ys a (omega arith))
  remove-append_left key ((j, w) ∷ xs) ys a = ground (arith, remove-append_left key xs ys)

  pub remove-append_right :
      (key k : ℕ) (xs ys : List (ℕ × V))
      → Below k xs
      → k ≤ key
      → remove key (xs ++ ys) ≡ xs ++ remove key ys
  unfolding remove
  remove-append_right key k [] ys b h = refl
  remove-append_right key k ((j, w) ∷ xs) ys b h = ground (arith, remove-append_right key k xs ys)

  -- The entry at a known place, and the one after it.
  pub find-split :
      (k : ℕ) (v : V) (xs ys : List (ℕ × V))
      → IsSorted (xs ++ ((k, v) ∷ ys))
      → find k (xs ++ ((k, v) ∷ ys)) ≡ some v
  unfolding find
  find-split k v xs ys s =
      ground (arith, find-append_right k k xs ((k, v) ∷ ys), split-Below k v xs ys s)

  abbrev pub head_of : List (ℕ × V) → Option (ℕ × V)
  head_of [] = none
  head_of (e ∷ m) = some e

  next_above-head : (k : ℕ) (m : List (ℕ × V)) → Above k m → next_above k m ≡ head_of m
  unfolding next_above
  next_above-head k [] a = refl
  next_above-head k ((j, w) ∷ m) a = ground arith

  next_above-Below :
      (k : ℕ) (xs ys : List (ℕ × V)) → Below k xs → next_above k (xs ++ ys) ≡ next_above k ys
  unfolding next_above
  next_above-Below k [] ys b = refl
  next_above-Below k ((j, w) ∷ xs) ys b = ground (arith, next_above-Below k xs ys)

  next_above-here :
      (k : ℕ) (v : V) (ys : List (ℕ × V)) → Above k ys → next_above k ((k, v) ∷ ys) ≡ head_of ys
  unfolding next_above
  next_above-here k v ys a = ground (arith, next_above-head k ys a)

  pub next_above-split :
      (k : ℕ) (v : V) (xs ys : List (ℕ × V))
      → IsSorted (xs ++ ((k, v) ∷ ys))
      → next_above k (xs ++ ((k, v) ∷ ys)) ≡ head_of ys
  next_above-split k v xs ys s =
      next_above-Below k xs ((k, v) ∷ ys) (split-Below k v xs ys s)
      ∙ next_above-here k v ys (split-Above k v xs ys s)

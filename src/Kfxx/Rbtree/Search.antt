-- ===== src/Kfxx/Rbtree/Search.antt =====
-- The searches of the tree, `_get` and `_find_max_lteq`, against its ordered contents.
use pbos.Common.{
  ℕ, ◌≡◌, refl, sym, ap, ◌∙◌, inl, inr, Option, none, some, List, ◌∷◌, ◌++◌, ltb, true, false,
  arith, Bool-cases, Option-cases, ltb→lt,
}
use pbos.Kfxx.Ordered.{find, IsSorted, Above}
use pbos.Kfxx.Ordered
use pbos.Kfxx.Ordered.Laws.{Above-IsSorted}
use pbos.Kfxx.Ordered.Split.{
  Below, split-IsSorted, split-Below, split-Above, find-append_left, find-append_right,
  find_max_lteq-append_left, find_max_lteq-append_right, find_max_lteq-Above,
}
use pbos.Kfxx.Rbtree.{Tree, leaf, node, to_list, get, find_max_lteq, find_max_lteq_from}

module _ {V : Type 0} where
  get_right :
      (key k : ℕ) (v : V) (xs ys : List (ℕ × V))
      → Below k xs
      → ltb k key ≡ true
      → find key (xs ++ ((k, v) ∷ ys)) ≡ find key ys
  unfolding find
  get_right key k v xs ys b h = ground (arith, find-append_right key k xs ((k, v) ∷ ys))

  get_left :
      (key k : ℕ) (v : V) (xs ys : List (ℕ × V))
      → Above k ys
      → ltb key k ≡ true
      → find key (xs ++ ((k, v) ∷ ys)) ≡ find key xs
  get_left key k v xs ys a h =
      find-append_left key key xs ((k, v) ∷ ys) (omega arith) (ltb→lt key k h, a)

  get_here :
      (key k : ℕ) (v : V) (xs ys : List (ℕ × V))
      → Below k xs
      → ltb k key ≡ false
      → ltb key k ≡ false
      → find key (xs ++ ((k, v) ∷ ys)) ≡ some v
  unfolding find
  get_here key k v xs ys b h g = ground (arith, find-append_right key k xs ((k, v) ∷ ys))

  -- A search of the tree finds what stands under the key in its ordered contents, and nothing
  -- else, if the contents are in order.
  pub get-find : (key : ℕ) (t : Tree V) → IsSorted (to_list t) → get key t ≡ find key (to_list t)
  unfolding get to_list
  get-find key leaf s = unfold find in refl
  get-find key (node c l k v r) s =
      let b = split-Below k v (to_list l) (to_list r) s in
      let a = split-Above k v (to_list l) (to_list r) s in
      elim (Bool-cases (ltb k key)) [
        | inl gt ↦ rw gt (
            get-find key r (Above-IsSorted k (to_list r) a)
            ∙ sym (get_right key k v (to_list l) (to_list r) b gt))
        | inr le ↦ rw le (elim (Bool-cases (ltb key k)) [
          | inl lt ↦ rw lt (
              get-find key l (split-IsSorted k v (to_list l) (to_list r) s)
              ∙ sym (get_left key k v (to_list l) (to_list r) a lt))
          | inr ge ↦ rw ge (sym (get_here key k v (to_list l) (to_list r) b le ge))
        ])
      ]

  -- The answer of a search that has `m` to fall back on.
  abbrev or_else : Option (ℕ × V) → Option (ℕ × V) → Option (ℕ × V)
  or_else none m = m
  or_else (some e) m = some e

  max_right :
      (key k : ℕ) (v : V) (xs ys : List (ℕ × V)) (m : Option (ℕ × V))
      → Below k xs
      → ltb k key ≡ true
      → or_else (Ordered.find_max_lteq key ys) (some (k, v))
        ≡ or_else (Ordered.find_max_lteq key (xs ++ ((k, v) ∷ ys))) m
  unfolding Ordered.find_max_lteq
  max_right key k v xs ys m b h = elim (Option-cases (Ordered.find_max_lteq key ys)) [
    | inl e ↦ ground (arith, find_max_lteq-append_right key k (k, v) xs ((k, v) ∷ ys))
    | inr (x, e) ↦ ground (arith, find_max_lteq-append_right key k x xs ((k, v) ∷ ys))
  ]

  max_here :
      (key k : ℕ) (v : V) (xs ys : List (ℕ × V))
      → Below k xs
      → Above k ys
      → ltb k key ≡ false
      → ltb key k ≡ false
      → Ordered.find_max_lteq key (xs ++ ((k, v) ∷ ys)) ≡ some (k, v)
  unfolding Ordered.find_max_lteq
  max_here key k v xs ys b a h g = ground (
    arith,
    find_max_lteq-append_right key k (k, v) xs ((k, v) ∷ ys),
    find_max_lteq-Above key k ys,
  )

  find_max_lteq_from-or_else :
      (key : ℕ) (m : Option (ℕ × V)) (t : Tree V)
      → IsSorted (to_list t)
      → find_max_lteq_from key m t ≡ or_else (Ordered.find_max_lteq key (to_list t)) m
  unfolding find_max_lteq_from to_list
  find_max_lteq_from-or_else key m leaf s = unfold Ordered.find_max_lteq in refl
  find_max_lteq_from-or_else key m (node c l k v r) s =
      let b = split-Below k v (to_list l) (to_list r) s in
      let a = split-Above k v (to_list l) (to_list r) s in
      elim (Bool-cases (ltb k key)) [
        | inl gt ↦ rw gt (
            find_max_lteq_from-or_else key (some (k, v)) r (Above-IsSorted k (to_list r) a)
            ∙ max_right key k v (to_list l) (to_list r) m b gt)
        | inr le ↦ rw le (elim (Bool-cases (ltb key k)) [
          | inl lt ↦ rw lt (
              find_max_lteq_from-or_else key m l (split-IsSorted k v (to_list l) (to_list r) s)
              ∙ ap (λ e. or_else e m)
                  (sym (
                    find_max_lteq-append_left key key (to_list l) ((k, v) ∷ to_list r) (omega arith)
                      (ltb→lt key k lt, a))))
          | inr ge ↦
              rw ge
                (ap (λ e. or_else e m) (sym (max_here key k v (to_list l) (to_list r) b a le ge)))
        ])
      ]

  or_else-none : (e : Option (ℕ × V)) → or_else e none ≡ e
  or_else-none none = refl
  or_else-none (some e) = refl

  -- The search for the greatest key that is at most `key`, on a tree whose contents are in order,
  -- gives the answer that the contents give.
  pub find_max_lteq-find_max_lteq :
      (key : ℕ) (t : Tree V)
      → IsSorted (to_list t)
      → find_max_lteq key t ≡ Ordered.find_max_lteq key (to_list t)
  unfolding find_max_lteq
  find_max_lteq-find_max_lteq key t s =
      find_max_lteq_from-or_else key none t s ∙ or_else-none (Ordered.find_max_lteq key (to_list t))

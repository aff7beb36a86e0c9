-- ===== src/Kfxx/Rbtree/Depth.antt =====
-- How deep a balanced tree is, and so one that insertions have built.
use native.Mathlib.Nat.{pow-suc}
use pbos.Common.{
  ℕ, zero, suc, ◌+◌, ◌^◌, ◌≤◌, ◌≡◌, refl, Option, none, some, List, [], ◌∷◌, length, length-append,
  ltb, if◌then◌else◌, arith,
}
use pbos.Kfxx.Ordered
use pbos.Kfxx.Rbtree.{
  black, red, Tree, leaf, node, is_red, to_list, Outcome, inserted, refused, panicked, insert,
}
use pbos.Kfxx.Rbtree.Balance.{Balanced, IsBalanced}
use pbos.Kfxx.Rbtree.Insertion.{IsValid, Inserts, insert-Inserts}

module _ {V : Type 0} where
  -- The rounds of the longest search.
  unfoldable pub depth : Tree V → ℕ
  depth leaf = 0
  depth (node c l k v r) = suc (if ltb (depth l) (depth r) then depth r else depth l)

  -- A red root adds one to twice the black height.
  abbrev slack : Tree V → ℕ
  slack t = if is_red t then 1 else 0

  depth-le : (n : ℕ) (t : Tree V) → Balanced n t → depth t ≤ n + n + slack t
  unfolding depth is_red
  depth-le n leaf b = omega arith
  depth-le n (node red l k v r) (a, b, bl, br) = ground (arith, depth-le n l bl, depth-le n r br)
  depth-le zero (node black l k v r) b = elim b [ ]
  depth-le (suc n) (node black l k v r) (bl, br) = ground (arith, depth-le n l bl, depth-le n r br)

  size-ge : (n : ℕ) (t : Tree V) → Balanced n t → 2 ^ n ≤ length (to_list t) + 1
  unfolding to_list
  size-ge n leaf b = rw b (omega arith)
  size-ge n (node red l k v r) (a, b, bl, br) =
      omega (arith, length-append (to_list l) ((k, v) ∷ to_list r), size-ge n l bl, size-ge n r br)
  size-ge zero (node black l k v r) b = elim b [ ]
  size-ge (suc n) (node black l k v r) (bl, br) = omega (
    arith,
    pow-suc 2 n,
    length-append (to_list l) ((k, v) ∷ to_list r),
    size-ge n l bl,
    size-ge n r br,
  )

  depth_bounds :
      (t : Tree V) → IsBalanced t → (n : ℕ) × (depth t ≤ n + n) × (2 ^ n ≤ length (to_list t) + 1)
  depth_bounds t b =
      let le = depth-le b.height t b.balanced in
      let root = b.root_black in (b.height, ground (arith, le, root), size-ge b.height t b.balanced)

  -- Insertions one after the other, whatever they return; `none` when one panics.
  unfoldable pub insert_all : List (ℕ × V) → Tree V → Option (Tree V)
  insert_all [] t = some t
  insert_all ((key, v) ∷ entries) t = elim (insert key v t) [
    | inserted u ↦ insert_all entries u
    | refused ↦ insert_all entries t
    | panicked ↦ none
  ]

  length-insert :
      (key : ℕ) (v : V) (m : List (ℕ × V)) → length (Ordered.insert key v m) ≡ length m + 1
  unfolding Ordered.insert
  length-insert key v [] = refl
  length-insert key v ((j, w) ∷ m) = ground (arith, length-insert key v m)

  -- The insertions panicked nowhere, and left a tree that is in order, in balance, of at most `n`
  -- entries, and at most twice as deep as the logarithm of `n + 1`.
  abbrev pub IsShallow : ℕ → Option (Tree V) → Type 0
  IsShallow n none = ⊥
  IsShallow n (some t) =
      IsValid t × (length (to_list t) ≤ n) × ((m : ℕ) × (depth t ≤ m + m) × (2 ^ m ≤ n + 1))

  valid-IsShallow : (n : ℕ) (t : Tree V) → IsValid t → length (to_list t) ≤ n → IsShallow n (some t)
  valid-IsShallow n t valid le =
      let (m, deep, wide) = depth_bounds t valid.balance in
      (valid, le, (m, deep, omega (arith, le, wide)))

  after_insert :
      (k n : ℕ) (key : ℕ) (v : V) (entries : List (ℕ × V)) (t : Tree V) (o : Outcome V)
      → Inserts key v t o
      → IsValid t
      → length (to_list t) + suc k ≤ n
      → ((u : Tree V) → IsValid u → length (to_list u) + k ≤ n → IsShallow n (insert_all entries u))
      → IsShallow n (elim o [
        | inserted u ↦ insert_all entries u
        | refused ↦ insert_all entries t
        | panicked ↦ none
      ])
  after_insert k n key v entries t (inserted u) (absent, contents, valid) old le rest =
      rest u valid (rw contents (omega (arith, length-insert key v (to_list t), le)))
  after_insert k n key v entries t refused held old le rest = rest t old (omega (arith, le))
  after_insert k n key v entries t panicked held old le rest = held

  insert_all-within :
      (n : ℕ) (entries : List (ℕ × V)) (t : Tree V)
      → IsValid t
      → length (to_list t) + length entries ≤ n
      → IsShallow n (insert_all entries t)
  unfolding insert_all
  insert_all-within n [] t valid le = valid-IsShallow n t valid (omega (arith, le))
  insert_all-within n ((key, v) ∷ entries) t valid le =
      after_insert (length entries) n key v entries t (insert key v t)
        (insert-Inserts key v t valid) valid le (insert_all-within n entries)

  -- From a tree that is in order and in balance, a sequence of insertions of any keys panics nowhere
  -- and ends in a tree in order and in balance, which has at most as many entries as there were and
  -- were inserted, `n` in all, and whose longest search takes at most `m + m` rounds for some `m`
  -- with `2 ^ m ≤ n + 1`.
  pub insert_all-IsShallow :
      (entries : List (ℕ × V)) (t : Tree V)
      → IsValid t
      → IsShallow (length (to_list t) + length entries) (insert_all entries t)
  insert_all-IsShallow entries t valid =
      insert_all-within (length (to_list t) + length entries) entries t valid (omega arith)

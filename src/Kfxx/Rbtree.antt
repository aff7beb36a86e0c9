-- ===== src/Kfxx/Rbtree.antt =====
-- include/pbos/kfxx/rbtree.hh and kernel/kfxx/rbtree.cc: the red-black tree of the kernel, with a
-- comparator that compares three ways (`kfxx::Cmp`) and does not fail.
-- A node with its `l` and `r` fields is a tree; the `p` fields are the path of frames that a walk
-- down from the root leaves behind, innermost first. A walk up pops a frame. Keys are numbers.
pub mod Search
pub mod Path
pub mod Insert
pub mod Balance
pub mod Insertion
pub mod Remove
pub mod Clear
pub mod Walk
pub mod Depth
use pbos.Common.{ℕ, Bool, true, false, Option, none, some, List, [], ◌∷◌, ◌++◌, ltb, if◌then◌else◌}

pub data Color : Type 0 where
  black red : Color

pub data Tree {ℓ} (V : Type ℓ) : Type ℓ where
  leaf : Tree V
  node : Color → Tree V → ℕ → V → Tree V → Tree V

-- A parent whose left child (`lf`), or whose right child (`rf`), is the subtree in hand; it holds
-- the parent's color, key and payload, and its other child.
pub data Frame {ℓ} (V : Type ℓ) : Type ℓ where
  lf : Color → ℕ → V → Tree V → Frame V
  rf : Color → Tree V → ℕ → V → Frame V

module _ {ℓ} {V : Type ℓ} where
  unfoldable pub is_red : Tree V → Bool
  is_red leaf = false
  is_red (node black l k v r) = false
  is_red (node red l k v r) = true

  unfoldable pub paint : Color → Tree V → Tree V
  paint c leaf = leaf
  paint c (node d l k v r) = node c l k v r

  -- The subtree put back below its parents.
  unfoldable pub plug : Tree V → List (Frame V) → Tree V
  plug t [] = t
  plug t (lf c k v r ∷ path) = plug (node c t k v r) path
  plug t (rf c l k v ∷ path) = plug (node c l k v t) path

  -- The contents in ascending order.
  unfoldable pub to_list : Tree V → List (ℕ × V)
  to_list leaf = []
  to_list (node c l k v r) = to_list l ++ ((k, v) ∷ to_list r)

  -- `_get`.
  unfoldable pub get : ℕ → Tree V → Option V
  get key leaf = none
  get key (node c l k v r) =
      let on_right = get key r in
      let on_left = get key l in
      if ltb k key then on_right else if ltb key k then on_left else some v

  find_max_lteq_from : ℕ → Option (ℕ × V) → Tree V → Option (ℕ × V)
  find_max_lteq_from key max_node leaf = max_node
  find_max_lteq_from key max_node (node c l k v r) =
      let on_right = find_max_lteq_from key (some (k, v)) r in
      let on_left = find_max_lteq_from key max_node l in
      if ltb k key then on_right else if ltb key k then on_left else some (k, v)

  -- `_find_max_lteq`: `max_node` is the last node that the walk left to the right.
  unfoldable pub find_max_lteq : ℕ → Tree V → Option (ℕ × V)
  unfolding find_max_lteq_from
  find_max_lteq key t = find_max_lteq_from key none t

  min_from : ℕ × V → Tree V → ℕ × V
  min_from e leaf = e
  min_from e (node c l k v r) = min_from (k, v) l

  -- `_get_min_node`.
  unfoldable pub get_min_node : Tree V → Option (ℕ × V)
  unfolding min_from
  get_min_node leaf = none
  get_min_node (node c l k v r) = some (min_from (k, v) l)

  max_from : ℕ × V → Tree V → ℕ × V
  max_from e leaf = e
  max_from e (node c l k v r) = max_from (k, v) r

  -- `_get_max_node`.
  unfoldable pub get_max_node : Tree V → Option (ℕ × V)
  unfolding max_from
  get_max_node leaf = none
  get_max_node (node c l k v r) = some (max_from (k, v) r)

  -- `_lrot` and `_rrot` at the root of a subtree; the assertion that the child exists is the
  -- first clause.
  unfoldable pub lrot : Tree V → Tree V
  lrot (node c a k v (node d b j w e)) = node d (node c a k v b) j w e
  lrot t = t

  unfoldable pub rrot : Tree V → Tree V
  rrot (node c (node d a j w b) k v e) = node d a j w (node c b k v e)
  rrot t = t

  -- `_get_slot`: the path to the empty place for the key; `none` if a node holds the key.
  unfoldable pub get_slot : ℕ → Tree V → List (Frame V) → Option (List (Frame V))
  get_slot key leaf path = some path
  get_slot key (node c l k v r) path =
      let on_right = get_slot key r (rf c l k v ∷ path) in
      let on_left = get_slot key l (lf c k v r ∷ path) in
      if ltb k key then on_right else if ltb key k then on_left else none

  -- `_insert` compares with the parent once more and writes the child pointer on that side, over
  -- what stood there. `none` is the assertion that the keys differ.
  unfoldable pub choose_side : ℕ → Frame V → Option (Frame V)
  choose_side key (lf c k v r) =
      if ltb key k then some (lf c k v r) else if ltb k key then some (rf c leaf k v) else none
  choose_side key (rf c l k v) =
      if ltb key k then some (lf c k v leaf) else if ltb k key then some (rf c l k v) else none

  -- `_insert_fixup`, from a node and the path above it to the root. The parent is the first frame,
  -- the grandparent the second, the uncle the other child of the grandparent. The rotation moves
  -- the nodes with the colors that the code writes after it. `none` is a null grandparent.
  unfoldable pub insert_fixup : Tree V → List (Frame V) → Option (Tree V)
  insert_fixup n [] = some (paint black n)
  insert_fixup n (lf black k v r ∷ path) = some (paint black (plug n (lf black k v r ∷ path)))
  insert_fixup n (rf black l k v ∷ path) = some (paint black (plug n (rf black l k v ∷ path)))
  insert_fixup n (lf red k v r ∷ []) = none
  insert_fixup n (rf red l k v ∷ []) = none
  insert_fixup n (lf red k v r ∷ lf gc gk gv u ∷ path) =
      let p = node black n k v r in
      let up = insert_fixup (node red p gk gv (paint black u)) path in
      if is_red u then up else some (paint black (plug (rrot (node red p gk gv u)) path))
  insert_fixup n (rf red l k v ∷ lf gc gk gv u ∷ path) =
      let up = insert_fixup (node red (node black l k v n) gk gv (paint black u)) path in
      if is_red u
      then up
      else some (
          paint black (plug (rrot (node red (paint black (lrot (node red l k v n))) gk gv u)) path))
  insert_fixup n (lf red k v r ∷ rf gc u gk gv ∷ path) =
      let up = insert_fixup (node red (paint black u) gk gv (node black n k v r)) path in
      if is_red u
      then up
      else some (
          paint black (plug (lrot (node red u gk gv (paint black (rrot (node red n k v r))))) path))
  insert_fixup n (rf red l k v ∷ rf gc u gk gv ∷ path) =
      let p = node black l k v n in
      let up = insert_fixup (node red (paint black u) gk gv p) path in
      if is_red u then up else some (paint black (plug (lrot (node red u gk gv p)) path))

-- What a call of `insert` ends in: the new tree, `false` with the tree as it was, or a panic.
pub data Outcome {ℓ} (V : Type ℓ) : Type ℓ where
  inserted : Tree V → Outcome V
  refused : Outcome V
  panicked : Outcome V

module _ {ℓ} {V : Type ℓ} where
  unfoldable pub to_outcome : Option (Tree V) → Outcome V
  to_outcome none = panicked
  to_outcome (some t) = inserted t

  -- `_insert`: below the parent at the head of the path, or as the root.
  unfoldable pub insert_below : ℕ → V → List (Frame V) → Outcome V
  unfolding to_outcome
  insert_below key v [] = inserted (node black leaf key v leaf)
  insert_below key v (f ∷ path) = elim (choose_side key f) [
    | none ↦ panicked
    | some g ↦ to_outcome (insert_fixup (node red leaf key v leaf) (g ∷ path))
  ]

  -- `insert`.
  unfoldable pub insert : ℕ → V → Tree V → Outcome V
  unfolding insert_below
  insert key v t = elim (get_slot key t []) [ none ↦ refused | some path ↦ insert_below key v path ]

-- ===== src/Kfxx/Rbtree/Remove.antt =====
-- kernel/kfxx/rbtree.cc: `_remove_fixup`, which unlinks a node from the tree, and `remove` of
-- include/pbos/kfxx/rbtree.hh. The node is given by its subtree and the path above it.
pub mod Contents
pub mod Balance
pub mod Rounds
pub mod Removal
use pbos.Common.{
  ℕ, zero, suc, ◌+◌, Bool, true, false, not, ◌&&◌, Option, none, some, List, [], ◌∷◌, ltb, length,
  if◌then◌else◌,
}
use pbos.Kfxx.Rbtree.{
  Color, black, red, Tree, leaf, node, Frame, lf, rf, is_red, paint, plug, lrot, rrot, min_from,
}

-- After the unlinking: the color that went missing (`y->color`), the child `x` that took the place
-- of a node, and the path above it.
pub record Unlinked {ℓ} (V : Type ℓ) : Type ℓ where
  pub missing : Color
  pub child : Tree V
  pub path : List (Frame V)

module _ {ℓ} {V : Type ℓ} where
  -- `y = _get_min_node(y->r)`, with the path to it; its right child takes its place.
  unfoldable pub unlink_min : Color → Tree V → ℕ → V → Tree V → List (Frame V) → Unlinked V
  unlink_min c leaf k v r path = record { missing = c; child = r; path = path }
  unlink_min c (node d a j w b) k v r path = unlink_min d a j w b (lf c k v r ∷ path)

  -- A node with one child at most is replaced by it. One with two children is replaced by its
  -- successor, which takes the color of the node over.
  unfoldable pub unlink : Color → Tree V → ℕ → V → Tree V → List (Frame V) → Unlinked V
  unfolding min_from
  unlink c leaf k v r path = record { missing = c; child = r; path = path }
  unlink c (node d a j w b) k v leaf path = record {
    missing = c;
    child = node d a j w b;
    path = path;
  }
  unlink c (node d a j w b) k v (node f x i u y) path =
      let e = min_from (i, u) x in unlink_min f x i u y (rf c (node d a j w b) e.0 e.1 ∷ path)

  unfoldable pub is_black : Tree V → Bool
  is_black t = not (is_red t)

-- One round of the loop of `_remove_fixup`: it goes on at the parent, or it breaks with the tree.
pub data Round {ℓ} (V : Type ℓ) : Type ℓ where
  go_on : Tree V → List (Frame V) → Round V
  break : Tree V → Round V
  fault : Round V

module _ {ℓ} {V : Type ℓ} where
  -- The sibling `w` has a red child on its far side: the last rotation, after which `x` is painted.
  unfoldable pub rotate_left : Tree V → Color → ℕ → V → Tree V → List (Frame V) → Round V
  rotate_left x c k v leaf path = fault
  rotate_left x c k v (node d a j w b) path =
      break (plug (lrot (node black (paint black x) k v (node c a j w (paint black b)))) path)

  unfoldable pub rotate_right : Tree V → Color → ℕ → V → Tree V → List (Frame V) → Round V
  rotate_right x c k v leaf path = fault
  rotate_right x c k v (node d a j w b) path =
      break (plug (rrot (node black (node c (paint black a) j w b) k v (paint black x))) path)

  -- The round at a left child `x` of a parent with color `c`, once the sibling is not red.
  unfoldable pub round_left : Tree V → Color → ℕ → V → Tree V → List (Frame V) → Round V
  unfolding rotate_left is_black
  round_left x c k v leaf path = fault
  round_left x c k v (node d a j w b) path =
      if is_black a && is_black b
      then go_on (node c x k v (node red a j w b)) path
      else if is_black b
      then rotate_left x c k v (rrot (node red (paint black a) j w b)) path
      else rotate_left x c k v (node d a j w b) path

  unfoldable pub round_right : Tree V → Color → ℕ → V → Tree V → List (Frame V) → Round V
  unfolding rotate_right is_black
  round_right x c k v leaf path = fault
  round_right x c k v (node d a j w b) path =
      if is_black b && is_black a
      then go_on (node c (node red a j w b) k v x) path
      else if is_black a
      then rotate_right x c k v (lrot (node red a j w (paint black b))) path
      else rotate_right x c k v (node d a j w b) path

  -- The whole round, with the rotation that makes a red sibling black first.
  unfoldable pub round : Tree V → Frame V → List (Frame V) → Round V
  unfolding round_left round_right
  round x (lf c k v (node red a j w b)) path = round_left x red k v a (lf black j w b ∷ path)
  round x (lf c k v w) path = round_left x c k v w path
  round x (rf c (node red a j w b) k v) path = round_right x red k v b (rf black a j w ∷ path)
  round x (rf c w k v) path = round_right x c k v w path

  -- The loop, on fuel; `none` is a null sibling, or the end of the fuel.
  unfoldable pub remove_fixup : ℕ → Tree V → List (Frame V) → Option (Tree V)
  unfolding round
  remove_fixup zero x path = none
  remove_fixup (suc n) x [] = some (paint black x)
  remove_fixup (suc n) x (f ∷ path) =
      if is_red x then some (plug (paint black x) (f ∷ path)) else elim (round x f path) [
        | go_on y up ↦ remove_fixup n y up
        | break t ↦ some t
        | fault ↦ none
      ]

  -- The loop runs only if a black node went missing.
  unfoldable pub repair : Unlinked V → Option (Tree V)
  unfolding remove_fixup
  repair u = elim u.missing [
    | black ↦ remove_fixup (suc (length u.path)) u.child u.path
    | red ↦ some (plug u.child u.path)
  ]

  -- `remove` of the node with the key; `none` also if the tree holds no such node.
  unfoldable pub remove_at : ℕ → Tree V → List (Frame V) → Option (Tree V)
  unfolding unlink repair
  remove_at key leaf path = none
  remove_at key (node c l k v r) path =
      let on_right = remove_at key r (rf c l k v ∷ path) in
      let on_left = remove_at key l (lf c k v r ∷ path) in
      let here = repair (unlink c l k v r path) in
      if ltb k key then on_right else if ltb key k then on_left else here

  unfoldable pub remove : ℕ → Tree V → Option (Tree V)
  unfolding remove_at
  remove key t = remove_at key t []

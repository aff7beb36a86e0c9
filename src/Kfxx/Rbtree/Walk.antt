-- ===== src/Kfxx/Rbtree/Walk.antt =====
-- kernel/kfxx/rbtree.cc: `_get_next` and `_get_prev`, and the loop of an iterator over the tree.
pub mod Order
use pbos.Common.{ℕ, zero, suc, Bool, false, Option, none, some, List, [], ◌∷◌, ◌==◌, if◌then◌else◌}
use pbos.Kfxx.Rbtree.{Color, Tree, leaf, node, Frame, lf, rf}

-- A pointer to a node: its fields, and the path above it.
pub record Spot {ℓ} (V : Type ℓ) : Type ℓ where
  pub color : Color
  pub l : Tree V
  pub key : ℕ
  pub value : V
  pub r : Tree V
  pub path : List (Frame V)

unfoldable pub is_at : Option ℕ → ℕ → Bool
is_at none k = false
is_at (some j) k = j == k

module _ {ℓ} {V : Type ℓ} where
  abbrev pub spot : Color → Tree V → ℕ → V → Tree V → List (Frame V) → Spot V
  spot c l k v r path = record { color = c; l = l; key = k; value = v; r = r; path = path }

  -- `_get_min_node` and `_get_max_node`, with the path to the node.
  unfoldable pub min_spot : Color → Tree V → ℕ → V → Tree V → List (Frame V) → Spot V
  min_spot c leaf k v r path = spot c leaf k v r path
  min_spot c (node d a j w b) k v r path = min_spot d a j w b (lf c k v r ∷ path)

  unfoldable pub max_spot : Color → Tree V → ℕ → V → Tree V → List (Frame V) → Spot V
  max_spot c l k v leaf path = spot c l k v leaf path
  max_spot c l k v (node d a j w b) path = max_spot d a j w b (rf c l k v ∷ path)

  -- Up from a right child, to the first parent whose left child the walk comes from.
  unfoldable pub climb : Tree V → List (Frame V) → Option (Spot V)
  climb t [] = none
  climb t (lf c k v r ∷ path) = some (spot c t k v r path)
  climb t (rf c l k v ∷ path) = climb (node c l k v t) path

  unfoldable pub climb_back : Tree V → List (Frame V) → Option (Spot V)
  climb_back t [] = none
  climb_back t (rf c l k v ∷ path) = some (spot c l k v t path)
  climb_back t (lf c k v r ∷ path) = climb_back (node c t k v r) path

  unfoldable pub next_from : Color → Tree V → ℕ → V → Tree V → List (Frame V) → Option (Spot V)
  unfolding min_spot climb
  next_from c l k v leaf path = climb (node c l k v leaf) path
  next_from c l k v (node d a j w b) path = some (min_spot d a j w b (rf c l k v ∷ path))

  unfoldable pub prev_from : Color → Tree V → ℕ → V → Tree V → List (Frame V) → Option (Spot V)
  unfolding max_spot climb_back
  prev_from c leaf k v r path = climb_back (node c leaf k v r) path
  prev_from c (node d a j w b) k v r path = some (max_spot d a j w b (lf c k v r ∷ path))

  -- `_get_next` and `_get_prev`; the last or first node is given by its key, `none` for null.
  unfoldable pub get_next : Option ℕ → Spot V → Option (Spot V)
  unfolding next_from is_at
  get_next last_node s =
      if is_at last_node s.key then none else next_from s.color s.l s.key s.value s.r s.path

  unfoldable pub get_prev : Option ℕ → Spot V → Option (Spot V)
  unfolding prev_from is_at
  get_prev first_node s =
      if is_at first_node s.key then none else prev_from s.color s.l s.key s.value s.r s.path

  -- `begin`, from the least node.
  unfoldable pub begin : Tree V → Option (Spot V)
  unfolding min_spot
  begin leaf = none
  begin (node c l k v r) = some (min_spot c l k v r [])

  -- The entries that `n` rounds of `for (i = begin(); i; i = get_next(i, nullptr))` visit.
  unfoldable pub walk : ℕ → Option (Spot V) → List (ℕ × V)
  unfolding get_next
  walk zero o = []
  walk (suc n) none = []
  walk (suc n) (some s) = (s.key, s.value) ∷ walk n (get_next none s)

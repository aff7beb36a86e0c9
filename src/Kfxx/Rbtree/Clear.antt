-- ===== src/Kfxx/Rbtree/Clear.antt =====
-- include/pbos/kfxx/rbtree.hh: `clear`, as the keys that it hands to the deleter, in order. The
-- subtree on the left of the node that it stands at is gone by then.
use pbos.Common.{
  ℕ, zero, suc, ◌+◌, ◌≤◌, ◌≡◌, refl, ap, sym, ◌∙◌, inl, inr, Option, none, some, Option-cases, List,
  [], ◌∷◌, ◌++◌, append_assoc, append-nil, arith,
}
use pbos.Kfxx.Rbtree.{Color, Tree, leaf, node, Frame, lf, rf}
use pbos.Kfxx.Rbtree.Walk.{Spot, spot, min_spot}

module _ {V : Type 0} where
  -- The walk up: the keys of the nodes that are deleted, and the node that it ends at.
  unfoldable pub ascend : ℕ → List (Frame V) → List ℕ × Option (Spot V)
  ascend k [] = (k ∷ [], none)
  ascend k (lf c j w r ∷ path) = (k ∷ [], some (spot c leaf j w r path))
  ascend k (rf c l j w ∷ path) = let up = ascend j path in (k ∷ up.0, up.1)

  -- `while (cur_node != parent)`, on fuel.
  unfoldable pub clear_from : ℕ → Spot V → Option (List ℕ)
  unfolding ascend min_spot
  clear_from zero s = none
  clear_from (suc n) s = elim s.r [
    | node c a j w b ↦ clear_from n (min_spot c a j w b (rf s.color s.l s.key s.value ∷ s.path))
    | leaf ↦
        let up = ascend s.key s.path in
        elim up.1 [
          | none ↦ some up.0
          | some next ↦ elim (clear_from n next) [ none ↦ none | some rest ↦ some (up.0 ++ rest) ]
        ]
  ]

  -- The number of nodes, for the fuel.
  unfoldable pub node_count : Tree V → ℕ
  node_count leaf = 0
  node_count (node c l k v r) = suc (node_count l + node_count r)

  unfoldable pub clear : Tree V → Option (List ℕ)
  unfolding clear_from min_spot node_count
  clear leaf = some []
  clear (node c l k v r) =
      clear_from (node_count (node c l k v r) + node_count (node c l k v r)) (min_spot c l k v r [])

  -- The keys of a tree with those of the children before each node's own.
  abbrev pub postorder : Tree V → List ℕ
  postorder leaf = []
  postorder (node c l k v r) = postorder l ++ (postorder r ++ (k ∷ []))

  -- What is left above a node, and from a node on.
  abbrev pending : List (Frame V) → List ℕ
  pending [] = []
  pending (lf c j w r ∷ path) = postorder r ++ (j ∷ pending path)
  pending (rf c l j w ∷ path) = j ∷ pending path

  abbrev remaining : Spot V → List ℕ
  remaining s = postorder s.r ++ (s.key ∷ pending s.path)

  -- Rounds that are left above a node, and from a node on.
  abbrev rounds_above : List (Frame V) → ℕ
  rounds_above [] = 0
  rounds_above (lf c j w r ∷ path) = node_count r + node_count r + 1 + rounds_above path
  rounds_above (rf c l j w ∷ path) = rounds_above path

  abbrev rounds_from : Spot V → ℕ
  rounds_from s = node_count s.r + node_count s.r + 1 + rounds_above s.path

  min_spot-remaining :
      (c : Color) (l : Tree V) (k : ℕ) (v : V) (r : Tree V) (path : List (Frame V))
      → remaining (min_spot c l k v r path) ≡ postorder (node c l k v r) ++ pending path
  unfolding min_spot
  min_spot-remaining c leaf k v r path = simp append_assoc
  min_spot-remaining c (node d a j w b) k v r path =
      min_spot-remaining d a j w b (lf c k v r ∷ path) ∙ simp append_assoc

  min_spot-rounds :
      (c : Color) (l : Tree V) (k : ℕ) (v : V) (r : Tree V) (path : List (Frame V))
      → rounds_from (min_spot c l k v r path) + 1
        ≤ node_count (node c l k v r) + node_count (node c l k v r) + rounds_above path
  unfolding min_spot node_count
  min_spot-rounds c leaf k v r path = omega arith
  min_spot-rounds c (node d a j w b) k v r path =
      omega (arith, min_spot-rounds d a j w b (lf c k v r ∷ path))

  -- What the walk up leaves.
  abbrev left_by : Option (Spot V) → List ℕ
  left_by none = []
  left_by (some s) = remaining s

  abbrev rounds_by : Option (Spot V) → ℕ
  rounds_by none = 0
  rounds_by (some s) = rounds_from s

  ascend-pending :
      (k : ℕ) (path : List (Frame V))
      → (ascend k path).0 ++ left_by (ascend k path).1 ≡ k ∷ pending path
  unfolding ascend
  ascend-pending k [] = refl
  ascend-pending k (lf c j w r ∷ path) = refl
  ascend-pending k (rf c l j w ∷ path) = ap (λ m. k ∷ m) (ascend-pending j path)

  ascend-rounds : (k : ℕ) (path : List (Frame V)) → rounds_by (ascend k path).1 ≤ rounds_above path
  unfolding ascend
  ascend-rounds k [] = omega arith
  ascend-rounds k (lf c j w r ∷ path) = omega arith
  ascend-rounds k (rf c l j w ∷ path) = ascend-rounds j path

  clear_from-down :
      (n : ℕ) (c d : Color) (l : Tree V) (k : ℕ) (v : V) (a : Tree V) (j : ℕ) (w : V) (b : Tree V)
      (path : List (Frame V))
      → clear_from (suc n) (spot c l k v (node d a j w b) path)
        ≡ clear_from n (min_spot d a j w b (rf c l k v ∷ path))
  unfolding clear_from
  clear_from-down n c d l k v a j w b path = refl

  clear_from-end :
      (n : ℕ) (c : Color) (l : Tree V) (k : ℕ) (v : V) (path : List (Frame V))
      → (ascend k path).1 ≡ none
      → clear_from (suc n) (spot c l k v leaf path) ≡ some (ascend k path).0
  unfolding clear_from
  clear_from-end n c l k v path e = ground (arith, e)

  clear_from-up :
      (n : ℕ) (c : Color) (l : Tree V) (k : ℕ) (v : V) (path : List (Frame V)) (next : Spot V)
      (rest : List ℕ)
      → (ascend k path).1 ≡ some next
      → clear_from n next ≡ some rest
      → clear_from (suc n) (spot c l k v leaf path) ≡ some ((ascend k path).0 ++ rest)
  unfolding clear_from
  clear_from-up n c l k v path next rest e h = ground (arith, e, h)

  clear_from-remaining :
      (n : ℕ) (c : Color) (l : Tree V) (k : ℕ) (v : V) (r : Tree V) (path : List (Frame V))
      → rounds_from (spot c l k v r path) ≤ n
      → clear_from n (spot c l k v r path) ≡ some (remaining (spot c l k v r path))
  clear_from-remaining zero c l k v r path h = absurd (omega arith)
  clear_from-remaining (suc n) c l k v (node d a j w b) path h =
      let s = min_spot d a j w b (rf c l k v ∷ path) in
      clear_from-down n c d l k v a j w b path
      ∙ clear_from-remaining n s.color s.l s.key s.value s.r s.path
          (omega (arith, min_spot-rounds d a j w b (rf c l k v ∷ path)))
      ∙ ap some (min_spot-remaining d a j w b (rf c l k v ∷ path))
  clear_from-remaining (suc n) c l k v leaf path h = elim (Option-cases (ascend k path).1) [
    | inl e ↦
        clear_from-end n c l k v path e
        ∙ ap some (
            sym (append-nil (ascend k path).0)
            ∙ ap (λ o. (ascend k path).0 ++ left_by o) (sym e)
            ∙ ascend-pending k path)
    | inr (s, e) ↦
        let fewer = ap rounds_by e in
        clear_from-up n c l k v path s (remaining s) e (
          clear_from-remaining n s.color s.l s.key s.value s.r s.path
            (omega (arith, h, ascend-rounds k path, fewer)))
        ∙ ap some (ap (λ o. (ascend k path).0 ++ left_by o) (sym e) ∙ ascend-pending k path)
  ]

  -- `clear` ends, and hands every key of the tree to the deleter as often as it stands there, those
  -- of a node's children before its own.
  pub clear-postorder : (t : Tree V) → clear t ≡ some (postorder t)
  unfolding clear
  clear-postorder leaf = refl
  clear-postorder (node c l k v r) =
      let s = min_spot c l k v r [] in
      clear_from-remaining (node_count (node c l k v r) + node_count (node c l k v r)) s.color s.l
        s.key s.value s.r s.path (omega (arith, min_spot-rounds c l k v r []))
      ∙ ap some (min_spot-remaining c l k v r [] ∙ append-nil (postorder (node c l k v r)))

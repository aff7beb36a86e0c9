-- ===== src/Kfxx/Rbtree/Walk/Order.antt =====
-- The walk over the tree, against its ordered contents.
use pbos.Common.{
  ℕ, zero, suc, ◌≤◌, ◌≡◌, refl, sym, ap, subst, ◌∙◌, Option, none, some, List, [], ◌∷◌, ◌++◌,
  append_assoc, append-nil, length, arith,
}
use pbos.Kfxx.Ordered.{IsSorted, next_above}
use pbos.Kfxx.Ordered.Split.{head_of, next_above-split}
use pbos.Kfxx.Rbtree.{Color, Tree, leaf, node, Frame, lf, rf, plug, to_list}
use pbos.Kfxx.Rbtree.Path.{before, after, to_list-plug}
use pbos.Kfxx.Rbtree.Walk.{
  Spot, min_spot, max_spot, climb, climb_back, next_from, prev_from, get_next, get_prev, begin,
  walk,
}

module _ {V : Type 0} where
  -- The tree that a node stands in, and the entries behind and before it.
  abbrev pub whole : Spot V → Tree V
  whole s = plug (node s.color s.l s.key s.value s.r) s.path

  abbrev pub rest : Spot V → List (ℕ × V)
  rest s = to_list s.r ++ after s.path

  abbrev pub earlier : Spot V → List (ℕ × V)
  earlier s = before s.path ++ to_list s.l

  abbrev pub onward : Option (Spot V) → List (ℕ × V)
  onward none = []
  onward (some s) = (s.key, s.value) ∷ rest s

  abbrev pub backward : Option (Spot V) → List (ℕ × V)
  backward none = []
  backward (some s) = earlier s ++ ((s.key, s.value) ∷ [])

  min_spot-onward :
      (c : Color) (l : Tree V) (k : ℕ) (v : V) (r : Tree V) (path : List (Frame V))
      → onward (some (min_spot c l k v r path)) ≡ to_list (node c l k v r) ++ after path
  unfolding min_spot to_list
  min_spot-onward c leaf k v r path = refl
  min_spot-onward c (node d a j w b) k v r path =
      min_spot-onward d a j w b (lf c k v r ∷ path) ∙ simp append_assoc

  max_spot-backward :
      (c : Color) (l : Tree V) (k : ℕ) (v : V) (r : Tree V) (path : List (Frame V))
      → backward (some (max_spot c l k v r path)) ≡ before path ++ to_list (node c l k v r)
  unfolding max_spot to_list
  max_spot-backward c l k v leaf path = simp append_assoc
  max_spot-backward c l k v (node d a j w b) path =
      max_spot-backward d a j w b (rf c l k v ∷ path) ∙ simp append_assoc

  climb-onward : (t : Tree V) (path : List (Frame V)) → onward (climb t path) ≡ after path
  unfolding climb
  climb-onward t [] = refl
  climb-onward t (lf c k v r ∷ path) = refl
  climb-onward t (rf c l k v ∷ path) = climb-onward (node c l k v t) path

  climb_back-backward :
      (t : Tree V) (path : List (Frame V)) → backward (climb_back t path) ≡ before path
  unfolding climb_back
  climb_back-backward t [] = refl
  climb_back-backward t (lf c k v r ∷ path) = climb_back-backward (node c t k v r) path
  climb_back-backward t (rf c l k v ∷ path) = simp append_assoc

  next_from-onward :
      (c : Color) (l : Tree V) (k : ℕ) (v : V) (r : Tree V) (path : List (Frame V))
      → onward (next_from c l k v r path) ≡ to_list r ++ after path
  unfolding next_from
  next_from-onward c l k v leaf path = unfold to_list in climb-onward (node c l k v leaf) path
  next_from-onward c l k v (node d a j w b) path = min_spot-onward d a j w b (rf c l k v ∷ path)

  prev_from-backward :
      (c : Color) (l : Tree V) (k : ℕ) (v : V) (r : Tree V) (path : List (Frame V))
      → backward (prev_from c l k v r path) ≡ before path ++ to_list l
  unfolding prev_from
  prev_from-backward c leaf k v r path =
      unfold to_list in
      climb_back-backward (node c leaf k v r) path ∙ sym (append-nil (before path))
  prev_from-backward c (node d a j w b) k v r path = max_spot-backward d a j w b (lf c k v r ∷ path)

  get_next-rest : (s : Spot V) → onward (get_next none s) ≡ rest s
  unfolding get_next
  get_next-rest s = next_from-onward s.color s.l s.key s.value s.r s.path

  -- `_get_prev` without a first node leads to the last of the entries before the node, with the
  -- others before it.
  pub get_prev-earlier : (s : Spot V) → backward (get_prev none s) ≡ earlier s
  unfolding get_prev
  get_prev-earlier s = prev_from-backward s.color s.l s.key s.value s.r s.path

  walk-onward : (n : ℕ) (o : Option (Spot V)) → length (onward o) ≤ n → walk n o ≡ onward o
  unfolding walk
  walk-onward zero none h = refl
  walk-onward (suc n) none h = refl
  walk-onward zero (some s) h = absurd (omega arith)
  walk-onward (suc n) (some s) h =
      let e = get_next-rest s in
      ap (λ m. (s.key, s.value) ∷ m)
        (walk-onward n (get_next none s) (omega (arith, ap length e)) ∙ e)

  begin-onward : (t : Tree V) → onward (begin t) ≡ to_list t
  unfolding begin
  begin-onward leaf = unfold to_list in refl
  begin-onward (node c l k v r) = min_spot-onward c l k v r [] ∙ append-nil _

  -- The walk from the least node by `_get_next` visits every entry of the tree once, in order, and
  -- ends: more rounds than entries visit no more.
  pub walk-begin : (n : ℕ) (t : Tree V) → length (to_list t) ≤ n → walk n (begin t) ≡ to_list t
  walk-begin n t h =
      let e = begin-onward t in walk-onward n (begin t) (omega (arith, ap length e)) ∙ e

  contents : (s : Spot V) → to_list (whole s) ≡ earlier s ++ ((s.key, s.value) ∷ rest s)
  unfolding to_list
  contents s = to_list-plug (node s.color s.l s.key s.value s.r) s.path ∙ simp append_assoc

  abbrev pub entry : Option (Spot V) → Option (ℕ × V)
  entry none = none
  entry (some s) = some (s.key, s.value)

  entry-onward : (o : Option (Spot V)) → entry o ≡ head_of (onward o)
  entry-onward none = refl
  entry-onward (some s) = refl

  -- In a tree whose contents are in order, `_get_next` without a last node answers what the contents
  -- have above the key.
  pub get_next-next_above :
      (s : Spot V)
      → IsSorted (to_list (whole s))
      → entry (get_next none s) ≡ next_above s.key (to_list (whole s))
  get_next-next_above s sorted =
      let e = contents s in
      entry-onward (get_next none s)
      ∙ ap head_of (get_next-rest s)
      ∙ sym (next_above-split s.key s.value (earlier s) (rest s) (subst IsSorted e sorted))
      ∙ ap (next_above s.key) (sym e)

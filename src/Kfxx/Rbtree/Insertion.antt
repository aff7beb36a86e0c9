-- ===== src/Kfxx/Rbtree/Insertion.antt =====
-- `RBTreeImpl::insert`: what a call of it does to a tree in order and in balance.
use pbos.Common.{
  ℕ, ◌≡◌, refl, some_inj, sym, ap, ◌∙◌, subst, Option, none, some, List, [], ◌∷◌, ◌++◌,
}
use pbos.Kfxx.Ordered.{find, IsSorted, Above}
use pbos.Kfxx.Ordered
use pbos.Kfxx.Ordered.Laws.{insert-IsSorted}
use pbos.Kfxx.Ordered.Split.{insert-split, append-Above}
use pbos.Kfxx.Rbtree.{
  Color, black, red, Tree, leaf, node, Frame, is_red, plug, to_list, get, get_slot, insert_fixup,
  insert, insert_below, Outcome, inserted, refused, panicked, to_outcome,
}
use pbos.Kfxx.Rbtree.Path.{before, after, to_list-plug, IsSlot, Slot, get_slot-Slot}
use pbos.Kfxx.Rbtree.Search.{get-find}
use pbos.Kfxx.Rbtree.Insert.{to_list-insert_fixup, choose_side-Turns}
use pbos.Kfxx.Rbtree.Balance.{
  IsBalanced, Repaired, insert_fixup-Repaired, get_slot-Fits, Allows-black,
}

module _ {V : Type 0} where
  -- A tree that the operations may be called on.
  pub record IsValid (t : Tree V) : Type 0 where
    pub sorted : IsSorted (to_list t)
    pub balance : IsBalanced t

  -- A new entry in place of the empty subtree that the walk reached.
  to_list-new :
      (key : ℕ) (v : V) (c : Color) (path : List (Frame V))
      → IsSorted (to_list (plug leaf path))
      → IsSlot key path
      → to_list (plug (node c leaf key v leaf) path)
        ≡ Ordered.insert key v (to_list (plug leaf path))
  unfolding to_list
  to_list-new key v c path s i =
      let e : to_list (plug leaf path) ≡ before path ++ after path = to_list-plug leaf path in
      to_list-plug (node c leaf key v leaf) path
      ∙ sym (
          ap (Ordered.insert key v) e
          ∙ insert-split key v (before path) (after path) i.left
              (append-Above key (before path) (after path) (subst IsSorted e s) i.right))

  -- What `insert` does: it links a new node and returns true if the key was absent, and returns
  -- false with the tree as it was otherwise.
  abbrev pub Inserts : ℕ → V → Tree V → Outcome V → Type 0
  Inserts key v t (inserted u) =
      (find key (to_list t) ≡ none) × (to_list u ≡ Ordered.insert key v (to_list t)) × IsValid u
  Inserts key v t refused = (w : V) × (find key (to_list t) ≡ some w)
  Inserts key v t panicked = ⊥

  module _ (key : ℕ) (v : V) (t : Tree V) (valid : IsValid t) where
    absent : get key t ≡ none → find key (to_list t) ≡ none
    absent g = sym (get-find key t valid.sorted) ∙ g

    -- The new node at the end of the path, and whatever the repair makes of it.
    linked :
        (c : Color) (path : List (Frame V)) (u : Tree V)
        → get key t ≡ none
        → plug leaf path ≡ t
        → IsSlot key path
        → to_list u ≡ to_list (plug (node c leaf key v leaf) path)
        → IsBalanced u
        → Inserts key v t (inserted u)
    linked c path u g p i e b =
        let s : IsSorted (to_list (plug leaf path)) =
          subst (λ z. IsSorted (to_list z)) (sym p) valid.sorted in
        let contents : to_list u ≡ Ordered.insert key v (to_list t) =
          e ∙ (to_list-new key v c path s i ∙ ap (λ z. Ordered.insert key v (to_list z)) p) in
        (
          absent g,
          contents,
          record {
            sorted =
                subst IsSorted (sym contents)
                  (insert-IsSorted key v (to_list t) valid.sorted (absent g));
            balance = b;
          },
        )

    repaired :
        (f : Frame V) (path : List (Frame V)) (o : Option (Tree V))
        → get key t ≡ none
        → plug leaf (f ∷ path) ≡ t
        → IsSlot key (f ∷ path)
        → insert_fixup (node red leaf key v leaf) (f ∷ path) ≡ o
        → Repaired o
        → Inserts key v t (to_outcome o)
    unfolding to_outcome
    repaired f path none g p i e (u, q, b) = cc
    repaired f path (some w) g p i e (u, q, b) =
        linked red (f ∷ path) w g p i
          (to_list-insert_fixup (node red leaf key v leaf) (f ∷ path) w e)
          (subst IsBalanced (sym (some_inj q)) b)

    reached :
        (o : Option (List (Frame V)))
        → get_slot key t [] ≡ o
        → Slot key (get key t) t o
        → Inserts key v t (elim o [ none ↦ refused | some path ↦ insert_below key v path ])
    unfolding insert_below is_red
    reached none e (w, g) = (w, sym (get-find key t valid.sorted) ∙ g)
    reached (some []) e (g, p, i) =
        linked black [] (node black leaf key v leaf) g p i (unfold plug in refl)
          (record { root_black = refl; height = 1; balanced = (refl, refl) })
    reached (some (f ∷ path)) e (g, p, i) =
        rw (choose_side-Turns key f path i.turns, insert_below)
          (repaired f path (insert_fixup (node red leaf key v leaf) (f ∷ path)) g p i refl (
            insert_fixup-Repaired 0 leaf key v leaf (f ∷ path) (refl, refl, refl, refl)
              (get_slot-Fits key valid.balance.height t [] (f ∷ path) valid.balance.balanced tt
                (Allows-black t [] valid.balance.root_black) e)))

    -- On a tree whose contents are in order and that is balanced, with a black root: an insertion
    -- of an absent key returns true, and the new tree holds the old contents with the key at its
    -- place, in order and in balance; an insertion of a key that the tree holds returns false;
    -- neither panics.
    pub insert-Inserts : Inserts key v t (insert key v t)
    unfolding insert
    insert-Inserts = reached (get_slot key t []) refl (
        unfold plug in
        get_slot-Slot key t [] valid.sorted (record { turns = tt; left = tt; right = tt }))

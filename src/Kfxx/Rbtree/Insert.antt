-- ===== src/Kfxx/Rbtree/Insert.antt =====
-- The insertion of a node into the tree, against the ordered contents.
use pbos.Common.{
  Bool, some_inj, if◌then◌else◌, ℕ, ◌<◌, ◌≡◌, refl, sym, ap, ◌∙◌, inl, inr, true, false, Option,
  none, some, List, [], ◌∷◌, ◌++◌, append_assoc, append-nil, All, ltb, arith, Bool-cases,
  Option-cases, ltb→lt,
}
use pbos.Kfxx.Rbtree.{
  Color, black, red, Tree, leaf, node, Frame, lf, rf, is_red, paint, plug, to_list, lrot, rrot,
  choose_side, insert_fixup,
}
use pbos.Kfxx.Rbtree.Path.{to_list-plug_congr, Turns}

module _ {V : Type 0} where
  pub to_list-paint : (c : Color) (t : Tree V) → to_list (paint c t) ≡ to_list t
  unfolding paint to_list
  to_list-paint c leaf = refl
  to_list-paint c (node d l k v r) = refl

  pub to_list-lrot : (t : Tree V) → to_list (lrot t) ≡ to_list t
  unfolding lrot to_list
  to_list-lrot leaf = refl
  to_list-lrot (node c a k v leaf) = refl
  to_list-lrot (node c a k v (node d b j w e)) = simp append_assoc

  pub to_list-rrot : (t : Tree V) → to_list (rrot t) ≡ to_list t
  unfolding rrot to_list
  to_list-rrot leaf = refl
  to_list-rrot (node c leaf k v e) = refl
  to_list-rrot (node c (node d a j w b) k v e) = simp append_assoc

  pub ruleset contents = (to_list-paint, to_list-lrot, to_list-rrot, append_assoc)

  -- One round of the repair, whichever way the color of the uncle sends it.
  round :
      (b : Bool) (up : Option (Tree V)) (s s' : Tree V) (path : List (Frame V)) (t : Tree V)
      → (up ≡ some t → to_list t ≡ to_list (plug s' path))
      → to_list s ≡ to_list s'
      → (if b then up else some (paint black (plug s path))) ≡ some t
      → to_list t ≡ to_list (plug s' path)
  round true up s s' path t ih e h = ih h
  round false up s s' path t ih e h =
      ap to_list (sym (some_inj h))
      ∙ (to_list-paint black (plug s path) ∙ to_list-plug_congr s s' path e)

  -- The repair after an insertion keeps the contents.
  pub to_list-insert_fixup :
      (n : Tree V) (path : List (Frame V)) (t : Tree V)
      → insert_fixup n path ≡ some t
      → to_list t ≡ to_list (plug n path)
  unfolding insert_fixup plug
  to_list-insert_fixup n [] t h = ap to_list (sym (some_inj h)) ∙ to_list-paint black n
  to_list-insert_fixup n (lf black k v r ∷ path) t h =
      ap to_list (sym (some_inj h)) ∙ to_list-paint black (plug (node black n k v r) path)
  to_list-insert_fixup n (rf black l k v ∷ path) t h =
      ap to_list (sym (some_inj h)) ∙ to_list-paint black (plug (node black l k v n) path)
  to_list-insert_fixup n (lf red k v r ∷ []) t h = cc
  to_list-insert_fixup n (rf red l k v ∷ []) t h = cc
  to_list-insert_fixup n (lf red k v r ∷ lf gc gk gv u ∷ path) t h =
      let s' = node gc (node red n k v r) gk gv u in
      let up = node red (node black n k v r) gk gv (paint black u) in
      round (is_red u) (insert_fixup up path) (rrot (node red (node black n k v r) gk gv u)) s' path
        t
        (λ e.
          to_list-insert_fixup up path t e
          ∙ to_list-plug_congr up s' path (unfold to_list in simp contents))
        (unfold to_list in simp contents) h
  to_list-insert_fixup n (rf red l k v ∷ lf gc gk gv u ∷ path) t h =
      let s' = node gc (node red l k v n) gk gv u in
      let up = node red (node black l k v n) gk gv (paint black u) in
      round (is_red u) (insert_fixup up path)
        (rrot (node red (paint black (lrot (node red l k v n))) gk gv u)) s' path t
        (λ e.
          to_list-insert_fixup up path t e
          ∙ to_list-plug_congr up s' path (unfold to_list in simp contents))
        (unfold to_list in simp contents) h
  to_list-insert_fixup n (lf red k v r ∷ rf gc u gk gv ∷ path) t h =
      let s' = node gc u gk gv (node red n k v r) in
      let up = node red (paint black u) gk gv (node black n k v r) in
      round (is_red u) (insert_fixup up path)
        (lrot (node red u gk gv (paint black (rrot (node red n k v r))))) s' path t
        (λ e.
          to_list-insert_fixup up path t e
          ∙ to_list-plug_congr up s' path (unfold to_list in simp contents))
        (unfold to_list in simp contents) h
  to_list-insert_fixup n (rf red l k v ∷ rf gc u gk gv ∷ path) t h =
      let s' = node gc u gk gv (node red l k v n) in
      let up = node red (paint black u) gk gv (node black l k v n) in
      round (is_red u) (insert_fixup up path) (lrot (node red u gk gv (node black l k v n))) s' path
        t
        (λ e.
          to_list-insert_fixup up path t e
          ∙ to_list-plug_congr up s' path (unfold to_list in simp contents))
        (unfold to_list in simp contents) h

  -- The comparison with the parent sends the node to the side that the walk came from.
  pub choose_side-Turns :
      (key : ℕ) (f : Frame V) (path : List (Frame V))
      → Turns key (f ∷ path)
      → choose_side key f ≡ some f
  unfolding choose_side
  choose_side-Turns key (lf c k v r) path h = ground arith
  choose_side-Turns key (rf c l k v) path h = ground arith

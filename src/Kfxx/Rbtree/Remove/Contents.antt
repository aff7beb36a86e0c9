-- ===== src/Kfxx/Rbtree/Remove/Contents.antt =====
-- The repair after a removal keeps the contents, and the unlinking takes one entry out.
use pbos.Common.{
  ℕ, zero, suc, ◌≡◌, refl, sym, ap, ◌∙◌, subst, Bool, true, false, ◌&&◌, none, some, some_inj, List,
  [], ◌∷◌, ◌++◌, append_assoc, length, if◌then◌else◌, Bool-cases, inl, inr,
}
use pbos.Kfxx.Rbtree.{
  Color, black, red, Tree, leaf, node, Frame, lf, rf, is_red, paint, plug, to_list, lrot, rrot,
  min_from,
}
use pbos.Kfxx.Rbtree.Path.{before, after, to_list-plug, to_list-plug_congr}
use pbos.Kfxx.Rbtree.Insert.{contents, to_list-paint}
use pbos.Kfxx.Rbtree.Remove.{
  Round, go_on, break, fault, rotate_left, rotate_right, round_left, round_right, round, is_black,
  remove_fixup, Unlinked, unlink_min, unlink, repair,
}

module _ {V : Type 0} where
  -- A round that does not fault keeps the contents `m`.
  abbrev Keeps : List (ℕ × V) → Round V → Type 0
  Keeps m (go_on y up) = to_list (plug y up) ≡ m
  Keeps m (break t) = to_list t ≡ m
  Keeps m fault = Unit

  Keeps-if :
      (m : List (ℕ × V)) (b : Bool) (r s : Round V)
      → Keeps m r
      → Keeps m s
      → Keeps m (if b then r else s)
  Keeps-if m true r s h k = h
  Keeps-if m false r s h k = k

  rotate_left-Keeps :
      (x : Tree V) (c : Color) (k : ℕ) (v : V) (w : Tree V) (path : List (Frame V))
      → Keeps (to_list (plug (node c x k v w) path)) (rotate_left x c k v w path)
  unfolding rotate_left
  rotate_left-Keeps x c k v leaf path = tt
  rotate_left-Keeps x c k v (node d a j u b) path =
      to_list-plug_congr _ (node c x k v (node d a j u b)) path
        (unfold to_list lrot in simp contents)

  rotate_right-Keeps :
      (x : Tree V) (c : Color) (k : ℕ) (v : V) (w : Tree V) (path : List (Frame V))
      → Keeps (to_list (plug (node c w k v x) path)) (rotate_right x c k v w path)
  unfolding rotate_right
  rotate_right-Keeps x c k v leaf path = tt
  rotate_right-Keeps x c k v (node d a j u b) path =
      to_list-plug_congr _ (node c (node d a j u b) k v x) path
        (unfold to_list rrot in simp contents)

  round_left-Keeps :
      (x : Tree V) (c : Color) (k : ℕ) (v : V) (w : Tree V) (path : List (Frame V))
      → Keeps (to_list (plug (node c x k v w) path)) (round_left x c k v w path)
  unfolding round_left
  round_left-Keeps x c k v leaf path = tt
  round_left-Keeps x c k v (node d a j u b) path =
      Keeps-if _ (is_black a && is_black b) _ _
        (to_list-plug_congr (node c x k v (node red a j u b)) (node c x k v (node d a j u b)) path
          (unfold to_list in refl))
        (Keeps-if _ (is_black b) _ _
          (subst (λ m. Keeps m (rotate_left x c k v (rrot (node red (paint black a) j u b)) path))
            (to_list-plug_congr (node c x k v (rrot (node red (paint black a) j u b)))
              (node c x k v (node d a j u b)) path (unfold to_list in simp contents))
            (rotate_left-Keeps x c k v (rrot (node red (paint black a) j u b)) path))
          (rotate_left-Keeps x c k v (node d a j u b) path))

  round_right-Keeps :
      (x : Tree V) (c : Color) (k : ℕ) (v : V) (w : Tree V) (path : List (Frame V))
      → Keeps (to_list (plug (node c w k v x) path)) (round_right x c k v w path)
  unfolding round_right
  round_right-Keeps x c k v leaf path = tt
  round_right-Keeps x c k v (node d a j u b) path =
      Keeps-if _ (is_black b && is_black a) _ _
        (to_list-plug_congr (node c (node red a j u b) k v x) (node c (node d a j u b) k v x) path
          (unfold to_list in refl))
        (Keeps-if _ (is_black a) _ _
          (subst (λ m. Keeps m (rotate_right x c k v (lrot (node red a j u (paint black b))) path))
            (to_list-plug_congr (node c (lrot (node red a j u (paint black b))) k v x)
              (node c (node d a j u b) k v x) path (unfold to_list in simp contents))
            (rotate_right-Keeps x c k v (lrot (node red a j u (paint black b))) path))
          (rotate_right-Keeps x c k v (node d a j u b) path))

  round-Keeps :
      (x : Tree V) (f : Frame V) (path : List (Frame V))
      → Keeps (to_list (plug x (f ∷ path))) (round x f path)
  unfolding round plug
  round-Keeps x (lf c k v (node red a j w b)) path =
      subst (λ m. Keeps m (round_left x red k v a (lf black j w b ∷ path)))
        (to_list-plug_congr (node black (node red x k v a) j w b) (node c x k v (node red a j w b))
          path (unfold to_list in simp append_assoc))
        (round_left-Keeps x red k v a (lf black j w b ∷ path))
  round-Keeps x (lf c k v leaf) path = round_left-Keeps x c k v leaf path
  round-Keeps x (lf c k v (node black a j w b)) path =
      round_left-Keeps x c k v (node black a j w b) path
  round-Keeps x (rf c (node red a j w b) k v) path =
      subst (λ m. Keeps m (round_right x red k v b (rf black a j w ∷ path)))
        (to_list-plug_congr (node black a j w (node red b k v x)) (node c (node red a j w b) k v x)
          path (unfold to_list in simp append_assoc))
        (round_right-Keeps x red k v b (rf black a j w ∷ path))
  round-Keeps x (rf c leaf k v) path = round_right-Keeps x c k v leaf path
  round-Keeps x (rf c (node black a j w b) k v) path =
      round_right-Keeps x c k v (node black a j w b) path

  step :
      (n : ℕ) (m : List (ℕ × V)) (r : Round V) (t : Tree V)
      → ((y : Tree V) (up : List (Frame V))
          → remove_fixup n y up ≡ some t
          → to_list t ≡ to_list (plug y up))
      → Keeps m r
      → elim r [ go_on y up ↦ remove_fixup n y up | break w ↦ some w | fault ↦ none ] ≡ some t
      → to_list t ≡ m
  step n m (go_on y up) t ih k h = ih y up h ∙ k
  step n m (break w) t ih k h = ap to_list (sym (some_inj h)) ∙ k
  step n m fault t ih k h = cc

  pub to_list-remove_fixup :
      (n : ℕ) (x : Tree V) (path : List (Frame V)) (t : Tree V)
      → remove_fixup n x path ≡ some t
      → to_list t ≡ to_list (plug x path)
  unfolding remove_fixup
  to_list-remove_fixup zero x path t h = cc
  to_list-remove_fixup (suc n) x [] t h =
      ap to_list (sym (some_inj h)) ∙ (to_list-paint black x ∙ unfold plug in refl)
  to_list-remove_fixup (suc n) x (f ∷ path) t h = elim (Bool-cases (is_red x)) [
    | inl r ↦
        ap to_list (sym (some_inj (rw r at h)))
        ∙ to_list-plug_congr (paint black x) x (f ∷ path) (to_list-paint black x)
    | inr b ↦
        step n (to_list (plug x (f ∷ path))) (round x f path) t
          (λ y up. to_list-remove_fixup n y up t) (round-Keeps x f path) (rw b at h)
  ]

  -- What is left of a subtree after its least entry.
  rest_of : Tree V → ℕ → V → Tree V → List (ℕ × V)
  rest_of leaf k v r = to_list r
  rest_of (node d a j w b) k v r = rest_of a j w b ++ ((k, v) ∷ to_list r)

  to_list-min :
      (c : Color) (l : Tree V) (k : ℕ) (v : V) (r : Tree V)
      → to_list (node c l k v r) ≡ min_from (k, v) l ∷ rest_of l k v r
  unfolding to_list min_from rest_of
  to_list-min c leaf k v r = refl
  to_list-min c (node d a j w b) k v r = ap (λ m. m ++ ((k, v) ∷ to_list r)) (to_list-min d a j w b)

  abbrev pub contents_of : Unlinked V → List (ℕ × V)
  contents_of u = to_list (plug u.child u.path)

  to_list-unlink_min :
      (c : Color) (l : Tree V) (k : ℕ) (v : V) (r : Tree V) (path : List (Frame V))
      → contents_of (unlink_min c l k v r path) ≡ before path ++ (rest_of l k v r ++ after path)
  unfolding unlink_min rest_of
  to_list-unlink_min c leaf k v r path = to_list-plug r path
  to_list-unlink_min c (node d a j w b) k v r path =
      to_list-unlink_min d a j w b (lf c k v r ∷ path) ∙ simp append_assoc

  -- The unlinking of a node takes its entry out of the contents.
  pub to_list-unlink :
      (c : Color) (l : Tree V) (k : ℕ) (v : V) (r : Tree V) (path : List (Frame V))
      → contents_of (unlink c l k v r path)
        ≡ before path ++ (to_list l ++ (to_list r ++ after path))
  unfolding unlink
  to_list-unlink c leaf k v r path = to_list-plug r path ∙ unfold to_list in refl
  to_list-unlink c (node d a j w b) k v leaf path =
      to_list-plug (node d a j w b) path ∙ unfold to_list in refl
  to_list-unlink c (node d a j w b) k v (node f x i u y) path =
      to_list-unlink_min f x i u y (rf c (node d a j w b) _ _ ∷ path)
      ∙ rw (to_list-min f x i u y) (simp append_assoc)

  pub to_list-repair : (u : Unlinked V) (t : Tree V) → repair u ≡ some t → to_list t ≡ contents_of u
  unfolding repair
  to_list-repair u t h = go u.missing h
    where
      go :
          (c : Color)
          → elim c [
            | black ↦ remove_fixup (suc (length u.path)) u.child u.path
            | red ↦ some (plug u.child u.path)
          ]
            ≡ some t
          → to_list t ≡ contents_of u
      go black e = to_list-remove_fixup (suc (length u.path)) u.child u.path t e
      go red e = ap to_list (sym (some_inj e))

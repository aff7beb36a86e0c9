-- ===== src/Kfxx/Rbtree/Remove/Removal.antt =====
-- `RBTreeImpl::remove`: what a call of it does to a tree in order and in balance.
use pbos.Common.{
  ℕ, zero, suc, ◌≡◌, refl, sym, ◌∙◌, subst, true, false, some, List, [], ◌∷◌, ◌++◌, append-nil,
  append_assoc, arith, length, ltb, ltb→lt, Bool-cases, inl, inr,
}
use pbos.Kfxx.Ordered.{find, IsSorted, Above}
use pbos.Kfxx.Ordered
use pbos.Kfxx.Ordered.Laws.{Above-IsSorted, remove-IsSorted}
use pbos.Kfxx.Ordered.Split.{
  Below, split-IsSorted, split-Below, split-Above, remove-split, remove-append_left,
  remove-append_right,
}
use pbos.Kfxx.Rbtree.{Color, black, red, Tree, leaf, node, Frame, lf, rf, is_red, to_list, get}
use pbos.Kfxx.Rbtree.Path.{before, after}
use pbos.Kfxx.Rbtree.Search.{get-find}
use pbos.Kfxx.Rbtree.Insertion.{IsValid}
use pbos.Kfxx.Rbtree.Balance.{
  Balanced, Fits, Allows, Allows-black, Allows-below_left, Allows-below_right, Repaired,
}
use pbos.Kfxx.Rbtree.Remove.{unlink_min, unlink, repair, remove_at, remove}
use pbos.Kfxx.Rbtree.Remove.Contents.{to_list-repair, to_list-unlink}
use pbos.Kfxx.Rbtree.Remove.Balance.{plug-IsBalanced, Balanced-Lacks}
use pbos.Kfxx.Rbtree.Remove.Rounds.{remove_fixup-Repaired}

module _ {V : Type 0} where
  gone_black :
      (n : ℕ) (x : Tree V) (path : List (Frame V))
      → Balanced n x
      → Fits (suc n) path
      → Repaired (repair (record { missing = black; child = x; path = path }))
  unfolding repair
  gone_black n x path b f =
      remove_fixup-Repaired (suc (length path)) n x path (Balanced-Lacks n x b) f (omega arith)
        (λ _. omega arith)

  gone_red :
      (n : ℕ) (x : Tree V) (path : List (Frame V))
      → is_red x ≡ false
      → Balanced n x
      → Fits n path
      → Repaired (repair (record { missing = red; child = x; path = path }))
  unfolding repair
  gone_red n x path e b f = (_, refl, plug-IsBalanced n x path f (Allows-black x path e) b)

  unlink_min-Repaired :
      (n : ℕ) (c : Color) (l : Tree V) (k : ℕ) (v : V) (r : Tree V) (path : List (Frame V))
      → Balanced n (node c l k v r)
      → Fits n path
      → Allows (node c l k v r) path
      → Repaired (repair (unlink_min c l k v r path))
  unfolding unlink_min
  unlink_min-Repaired n red leaf k v r path b f a = gone_red n r path b.1 b.3 f
  unlink_min-Repaired zero black leaf k v r path b f a = absurd b
  unlink_min-Repaired (suc n) black leaf k v r path b f a = gone_black n r path b.1 f
  unlink_min-Repaired n red (node d x i u y) k v r path b f a =
      unlink_min-Repaired n d x i u y (lf red k v r ∷ path) b.2 (b.1, b.3, a, f)
        (Allows-black (node d x i u y) _ b.0)
  unlink_min-Repaired zero black (node d x i u y) k v r path b f a = absurd b
  unlink_min-Repaired (suc n) black (node d x i u y) k v r path b f a =
      unlink_min-Repaired n d x i u y (lf black k v r ∷ path) b.0 (b.1, f)
        (Allows-below_left (node d x i u y) k v r path)

  unlink-Repaired :
      (n : ℕ) (c : Color) (l : Tree V) (k : ℕ) (v : V) (r : Tree V) (path : List (Frame V))
      → Balanced n (node c l k v r)
      → Fits n path
      → Allows (node c l k v r) path
      → Repaired (repair (unlink c l k v r path))
  unfolding unlink
  unlink-Repaired n red leaf k v r path b f a = gone_red n r path b.1 b.3 f
  unlink-Repaired zero black leaf k v r path b f a = absurd b
  unlink-Repaired (suc n) black leaf k v r path b f a = gone_black n r path b.1 f
  unlink-Repaired n red (node d x i u y) k v leaf path b f a =
      gone_red n (node d x i u y) path b.0 b.2 f
  unlink-Repaired zero black (node d x i u y) k v leaf path b f a = absurd b
  unlink-Repaired (suc n) black (node d x i u y) k v leaf path b f a =
      gone_black n (node d x i u y) path b.0 f
  unlink-Repaired n red (node d x i u y) k v (node g p j w q) path b f a =
      unlink_min-Repaired n g p j w q (rf red (node d x i u y) _ _ ∷ path) b.3 (b.0, b.2, a, f)
        (Allows-black (node g p j w q) _ b.1)
  unlink-Repaired zero black (node d x i u y) k v (node g p j w q) path b f a = absurd b
  unlink-Repaired (suc n) black (node d x i u y) k v (node g p j w q) path b f a =
      unlink_min-Repaired n g p j w q (rf black (node d x i u y) _ _ ∷ path) b.1 (b.0, f)
        (Allows-below_right (node g p j w q) (node d x i u y) _ _ path)

  -- The walk to the node and its removal.
  remove_at-Repaired :
      (key n : ℕ) (w : V) (t : Tree V) (path : List (Frame V))
      → get key t ≡ some w
      → Balanced n t
      → Fits n path
      → Allows t path
      → Repaired (remove_at key t path)
  unfolding get remove_at
  remove_at-Repaired key n w leaf path g b f a = cc
  remove_at-Repaired key zero w (node black l k v r) path g b f a = absurd b
  remove_at-Repaired key (suc n) w (node black l k v r) path g b f a =
      elim (Bool-cases (ltb k key)) [
        | inl gt ↦ rw gt (
            remove_at-Repaired key n w r (rf black l k v ∷ path) (rw gt at g) b.1 (b.0, f)
              (Allows-below_right r l k v path))
        | inr le ↦ rw le (elim (Bool-cases (ltb key k)) [
          | inl lt ↦ rw lt (
              remove_at-Repaired key n w l (lf black k v r ∷ path) (rw lt at (rw le at g)) b.0
                (b.1, f) (Allows-below_left l k v r path))
          | inr ge ↦ rw ge (unlink-Repaired (suc n) black l k v r path b f a)
        ])
      ]
  remove_at-Repaired key n w (node red l k v r) path g b f a = elim (Bool-cases (ltb k key)) [
    | inl gt ↦ rw gt (
        remove_at-Repaired key n w r (rf red l k v ∷ path) (rw gt at g) b.3 (b.0, b.2, a, f)
          (Allows-black r _ b.1))
    | inr le ↦ rw le (elim (Bool-cases (ltb key k)) [
      | inl lt ↦ rw lt (
          remove_at-Repaired key n w l (lf red k v r ∷ path) (rw lt at (rw le at g)) b.2
            (b.1, b.3, a, f) (Allows-black l _ b.0))
      | inr ge ↦ rw ge (unlink-Repaired n red l k v r path b f a)
    ])
  ]

  remove_next :
      (key k : ℕ) (v : V) (ys : List (ℕ × V))
      → ltb k key ≡ true
      → Ordered.remove key ((k, v) ∷ ys) ≡ (k, v) ∷ Ordered.remove key ys
  unfolding Ordered.remove
  remove_next key k v ys h = ground arith

  module _ (key k : ℕ) (v : V) (xs ys before_all after_all : List (ℕ × V)) where
    right_of :
        ltb k key ≡ true
        → Below k xs
        → (before_all ++ (xs ++ ((k, v) ∷ []))) ++ (Ordered.remove key ys ++ after_all)
          ≡ before_all ++ (Ordered.remove key (xs ++ ((k, v) ∷ ys)) ++ after_all)
    right_of h b =
        let lt = ltb→lt k key h in
        rw (remove-append_right key k xs ((k, v) ∷ ys) b (omega arith), remove_next key k v ys h)
          (simp append_assoc)

    left_of :
        ltb key k ≡ true
        → Above k ys
        → before_all ++ (Ordered.remove key xs ++ ((k, v) ∷ (ys ++ after_all)))
          ≡ before_all ++ (Ordered.remove key (xs ++ ((k, v) ∷ ys)) ++ after_all)
    left_of h a =
        rw (remove-append_left key xs ((k, v) ∷ ys) (ltb→lt key k h, a)) (simp append_assoc)

    right_at :
        ltb k key ≡ false
        → ltb key k ≡ false
        → Below k xs
        → before_all ++ (xs ++ (ys ++ after_all))
          ≡ before_all ++ (Ordered.remove key (xs ++ ((k, v) ∷ ys)) ++ after_all)
    right_at h g b =
        let e : k ≡ key = ground arith in
        rw
          (subst (λ j. Ordered.remove j (xs ++ ((k, v) ∷ ys)) ≡ xs ++ ys) e
            (remove-split k v xs ys b))
          (simp append_assoc)

  to_list-remove_at :
      (key : ℕ) (t : Tree V) (path : List (Frame V)) (u : Tree V)
      → IsSorted (to_list t)
      → remove_at key t path ≡ some u
      → to_list u ≡ before path ++ (Ordered.remove key (to_list t) ++ after path)
  unfolding remove_at to_list
  to_list-remove_at key leaf path u s h = cc
  to_list-remove_at key (node c l k v r) path u s h =
      let b = split-Below k v (to_list l) (to_list r) s in
      let a = split-Above k v (to_list l) (to_list r) s in
      elim (Bool-cases (ltb k key)) [
        | inl gt ↦
            to_list-remove_at key r (rf c l k v ∷ path) u (Above-IsSorted k (to_list r) a)
              (rw gt at h)
            ∙ right_of key k v (to_list l) (to_list r) (before path) (after path) gt b
        | inr le ↦ elim (Bool-cases (ltb key k)) [
          | inl lt ↦
              to_list-remove_at key l (lf c k v r ∷ path) u
                (split-IsSorted k v (to_list l) (to_list r) s) (rw lt at (rw le at h))
              ∙ left_of key k v (to_list l) (to_list r) (before path) (after path) lt a
          | inr ge ↦
              to_list-repair _ u (rw ge at (rw le at h))
              ∙ (to_list-unlink c l k v r path
                  ∙ right_at key k v (to_list l) (to_list r) (before path) (after path) le ge b)
        ]
      ]

  -- On a tree whose contents are in order and that is balanced, with a black root: the removal of a
  -- node that is in the tree does not fault, and the new tree holds the other entries, in order and
  -- in balance.
  pub remove-IsValid :
      (key : ℕ) (v : V) (t : Tree V)
      → IsValid t
      → find key (to_list t) ≡ some v
      → (u : Tree V) × (remove key t ≡ some u)
        × (to_list u ≡ Ordered.remove key (to_list t))
        × IsValid u
  unfolding remove
  remove-IsValid key v t valid h =
      let (u, e, b) =
        remove_at-Repaired key valid.balance.height v t [] (get-find key t valid.sorted ∙ h)
          valid.balance.balanced tt (Allows-black t [] valid.balance.root_black) in
      let contents : to_list u ≡ Ordered.remove key (to_list t) =
        to_list-remove_at key t [] u valid.sorted e ∙ append-nil (Ordered.remove key (to_list t)) in
      (
        u,
        e,
        contents,
        record {
          sorted = subst IsSorted (sym contents) (remove-IsSorted key (to_list t) valid.sorted);
          balance = b;
        },
      )

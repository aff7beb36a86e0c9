-- ===== src/Kfxx/Rbtree/Remove/Balance.antt =====
-- The repair after a removal: a subtree that lacks one black node, below frames that fit.
use pbos.Common.{ℕ, suc, ◌≡◌, refl, true, false, List, [], ◌∷◌, length}
use pbos.Kfxx.Rbtree.{
  Color, black, red, Tree, leaf, node, Frame, lf, rf, is_red, paint, plug, lrot, rrot,
}
use pbos.Kfxx.Rbtree.Balance.{Balanced, IsBalanced, Fits, BlackHead, Allows, paint-black}
use pbos.Kfxx.Rbtree.Remove.{Round, go_on, break, fault, rotate_left, rotate_right}

module _ {V : Type 0} where
  pub plug-IsBalanced :
      (n : ℕ) (t : Tree V) (path : List (Frame V))
      → Fits n path
      → Allows t path
      → Balanced n t
      → IsBalanced (plug t path)
  unfolding plug is_red
  plug-IsBalanced n leaf [] f a b = record { root_black = refl; height = n; balanced = b }
  plug-IsBalanced n (node black l k v r) [] f a b = record {
    root_black = refl;
    height = n;
    balanced = b;
  }
  plug-IsBalanced n (node red l k v r) [] f a b = absurd a
  plug-IsBalanced n t (lf black k v r ∷ path) f a b =
      plug-IsBalanced (suc n) (node black t k v r) path f.1 tt (b, f.0)
  plug-IsBalanced n t (rf black l k v ∷ path) f a b =
      plug-IsBalanced (suc n) (node black l k v t) path f.1 tt (f.0, b)
  plug-IsBalanced n leaf (lf red k v r ∷ path) f a b =
      plug-IsBalanced n (node red leaf k v r) path f.3 f.2 (refl, f.0, b, f.1)
  plug-IsBalanced n (node black x i u y) (lf red k v r ∷ path) f a b =
      plug-IsBalanced n (node red (node black x i u y) k v r) path f.3 f.2 (refl, f.0, b, f.1)
  plug-IsBalanced n (node red x i u y) (lf red k v r ∷ path) f a b = absurd a
  plug-IsBalanced n leaf (rf red l k v ∷ path) f a b =
      plug-IsBalanced n (node red l k v leaf) path f.3 f.2 (f.0, refl, f.1, b)
  plug-IsBalanced n (node black x i u y) (rf red l k v ∷ path) f a b =
      plug-IsBalanced n (node red l k v (node black x i u y)) path f.3 f.2 (f.0, refl, f.1, b)
  plug-IsBalanced n (node red x i u y) (rf red l k v ∷ path) f a b = absurd a

  -- A subtree that has `n + 1` black nodes on every way down once its root is painted black, or
  -- `n` of them with a black root.
  abbrev pub Lacks : ℕ → Tree V → Type 0
  Lacks n leaf = n ≡ 0
  Lacks n (node black l k v r) = Balanced n (node black l k v r)
  Lacks n (node red l k v r) = Balanced n l × Balanced n r

  pub Lacks-black : (n : ℕ) (x : Tree V) → is_red x ≡ false → Lacks n x → Balanced n x
  unfolding is_red
  Lacks-black n leaf e h = h
  Lacks-black n (node black l k v r) e h = h
  Lacks-black n (node red l k v r) e h = cc

  pub Lacks-red :
      (n : ℕ) (x : Tree V) → is_red x ≡ true → Lacks n x → Balanced (suc n) (paint black x)
  unfolding is_red paint
  Lacks-red n leaf e h = cc
  Lacks-red n (node black l k v r) e h = cc
  Lacks-red n (node red l k v r) e h = h

  pub Balanced-Lacks : (n : ℕ) (x : Tree V) → Balanced n x → Lacks n x
  Balanced-Lacks n leaf b = b
  Balanced-Lacks n (node black l k v r) b = b
  Balanced-Lacks n (node red l k v r) b = (b.2, b.3)

  pub paint-Balanced_black :
      (n : ℕ) (x : Tree V) → is_red x ≡ false → Balanced n x → Balanced n (paint black x)
  unfolding is_red paint
  paint-Balanced_black n leaf e b = b
  paint-Balanced_black n (node black l k v r) e b = b
  paint-Balanced_black n (node red l k v r) e b = cc

  -- What a round may come to, with `k` frames above the subtree: a balanced tree, or a subtree that
  -- lacks a black node, either red or with a frame less above it.
  pub record Goes (k n : ℕ) (y : Tree V) (up : List (Frame V)) : Type 0 where
    pub lacks : Lacks n y
    pub fits : Fits (suc n) up
    pub shorter : (is_red y ≡ false) → length up ≡ k

  abbrev pub Rounds : ℕ → Round V → Type 0
  Rounds k (go_on y up) = (n : ℕ) × Goes k n y up
  Rounds k (break t) = IsBalanced t
  Rounds k fault = ⊥

  -- The parent with color `c` at the bottom of the path, over two black subtrees of height `n`.
  abbrev pub Over : ℕ → Color → List (Frame V) → Type 0
  Over n black path = Fits (suc n) path
  Over n red path = BlackHead path × Fits n path

  pub rotate_left-Rounds :
      (k n : ℕ) (x : Tree V) (c : Color) (i : ℕ) (v : V) (d : Color) (a : Tree V) (j : ℕ) (w : V)
      (b : Tree V) (path : List (Frame V))
      → is_red x ≡ false
      → Balanced n x
      → Balanced n a
      → Balanced (suc n) (paint black b)
      → Over (suc n) c path
      → Rounds k (rotate_left x c i v (node d a j w b) path)
  unfolding rotate_left lrot
  rotate_left-Rounds k n x black i v d a j w b path r bx ba bb o =
      plug-IsBalanced (suc (suc n))
        (node black (node black (paint black x) i v a) j w (paint black b)) path o tt
        ((paint-Balanced_black n x r bx, ba), bb)
  rotate_left-Rounds k n x red i v d a j w b path r bx ba bb o =
      plug-IsBalanced (suc n) (node red (node black (paint black x) i v a) j w (paint black b)) path
        o.1 o.0 (unfold is_red in (refl, paint-black b, (paint-Balanced_black n x r bx, ba), bb))

  pub rotate_right-Rounds :
      (k n : ℕ) (x : Tree V) (c : Color) (i : ℕ) (v : V) (d : Color) (a : Tree V) (j : ℕ) (w : V)
      (b : Tree V) (path : List (Frame V))
      → is_red x ≡ false
      → Balanced n x
      → Balanced (suc n) (paint black a)
      → Balanced n b
      → Over (suc n) c path
      → Rounds k (rotate_right x c i v (node d a j w b) path)
  unfolding rotate_right rrot
  rotate_right-Rounds k n x black i v d a j w b path r bx ba bb o =
      plug-IsBalanced (suc (suc n))
        (node black (paint black a) j w (node black b i v (paint black x))) path o tt
        (ba, (bb, paint-Balanced_black n x r bx))
  rotate_right-Rounds k n x red i v d a j w b path r bx ba bb o =
      plug-IsBalanced (suc n) (node red (paint black a) j w (node black b i v (paint black x))) path
        o.1 o.0 (unfold is_red in (paint-black a, refl, ba, (bb, paint-Balanced_black n x r bx)))

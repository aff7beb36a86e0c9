-- ===== src/Kfxx/Rbtree/Remove/Rounds.antt =====
-- The rounds of the repair after a removal, and its loop.
use pbos.Common.{
  ℕ, zero, suc, ◌<◌, ◌≡◌, refl, Bool, true, false, ◌&&◌, none, some, List, [], ◌∷◌, arith, length,
  Bool-cases, inl, inr,
}
use pbos.Kfxx.Rbtree.{Color, black, red, Tree, leaf, node, Frame, lf, rf, is_red, paint, lrot, rrot}
use pbos.Kfxx.Rbtree.Balance.{
  Balanced, IsBalanced, Fits, Allows, Allows-black, paint-black, paint-Balanced, Repaired,
}
use pbos.Kfxx.Rbtree.Remove.{
  Round, go_on, break, fault, rotate_left, rotate_right, round_left, round_right, round, is_black,
  remove_fixup,
}
use pbos.Kfxx.Rbtree.Remove.Balance.{
  Lacks, Lacks-black, Lacks-red, plug-IsBalanced, Goes, Rounds, Over, paint-Balanced_black,
  rotate_left-Rounds, rotate_right-Rounds,
}

and_split : (a b : Bool) → (a && b) ≡ true → (a ≡ true) × (b ≡ true)
and_split a b h = ground arith

and_rest : (a b : Bool) → (a && b) ≡ false → b ≡ true → a ≡ false
and_rest a b h e = ground arith

module _ {V : Type 0} where
  -- A black parent leaves `k` frames above it.
  abbrev Leaves : ℕ → Color → List (Frame V) → Type 0
  Leaves k black path = length path ≡ k
  Leaves k red path = Unit

  is_black-eq : (t : Tree V) → is_black t ≡ true → is_red t ≡ false
  unfolding is_black is_red
  is_black-eq leaf e = refl
  is_black-eq (node black l k v r) e = refl
  is_black-eq (node red l k v r) e = cc

  not-black-eq : (t : Tree V) → is_black t ≡ false → is_red t ≡ true
  unfolding is_black is_red
  not-black-eq leaf e = cc
  not-black-eq (node black l k v r) e = cc
  not-black-eq (node red l k v r) e = refl

  go_on-Rounds :
      (k n : ℕ) (y z : Tree V) (c : Color) (i : ℕ) (v : V) (path : List (Frame V))
      → Balanced n y
      → Balanced n z
      → Over (suc n) c path
      → Leaves k c path
      → Rounds k (go_on (node c y i v z) path)
  unfolding is_red
  go_on-Rounds k n y z black i v path by bz o l =
      (suc n, record { lacks = (by, bz); fits = o; shorter = λ _. l })
  go_on-Rounds k n y z red i v path by bz o l =
      (n, record { lacks = (by, bz); fits = o.1; shorter = λ e. (cc) })

  near_left :
      (k n : ℕ) (x : Tree V) (c : Color) (i : ℕ) (v : V) (a : Tree V) (j : ℕ) (w : V) (b : Tree V)
      (path : List (Frame V))
      → is_red x ≡ false
      → Balanced n x
      → is_red a ≡ true
      → Balanced n a
      → is_red b ≡ false
      → Balanced n b
      → Over (suc n) c path
      → Rounds k (rotate_left x c i v (rrot (node red (paint black a) j w b)) path)
  unfolding rrot paint is_red
  near_left k n x c i v leaf j w b path r bx ra ba rb bb o = cc
  near_left k n x c i v (node black p s q t) j w b path r bx ra ba rb bb o = cc
  near_left k n x c i v (node red p s q t) j w b path r bx ra ba rb bb o =
      rotate_left-Rounds k n x c i v black p s q (node red t j w b) path r bx ba.2 (ba.3, bb) o

  near_right :
      (k n : ℕ) (x : Tree V) (c : Color) (i : ℕ) (v : V) (a : Tree V) (j : ℕ) (w : V) (b : Tree V)
      (path : List (Frame V))
      → is_red x ≡ false
      → Balanced n x
      → is_red a ≡ false
      → Balanced n a
      → is_red b ≡ true
      → Balanced n b
      → Over (suc n) c path
      → Rounds k (rotate_right x c i v (lrot (node red a j w (paint black b))) path)
  unfolding lrot paint is_red
  near_right k n x c i v a j w leaf path r bx ra ba rb bb o = cc
  near_right k n x c i v a j w (node black p s q t) path r bx ra ba rb bb o = cc
  near_right k n x c i v a j w (node red p s q t) path r bx ra ba rb bb o =
      rotate_right-Rounds k n x c i v black (node red a j w p) s q t path r bx (ba, bb.2) bb.3 o

  round_left-Rounds :
      (k n : ℕ) (x : Tree V) (c : Color) (i : ℕ) (v : V) (w : Tree V) (path : List (Frame V))
      → is_red x ≡ false
      → Balanced n x
      → is_red w ≡ false
      → Balanced (suc n) w
      → Over (suc n) c path
      → Leaves k c path
      → Rounds k (round_left x c i v w path)
  unfolding round_left is_red
  round_left-Rounds k n x c i v leaf path r bx rw bw o l = absurd (omega arith)
  round_left-Rounds k n x c i v (node red a j u b) path r bx rw bw o l = cc
  round_left-Rounds k n x c i v (node black a j u b) path r bx rw' bw o l =
      elim (Bool-cases (is_black a && is_black b)) [
        | inl both ↦ rw both (
            let (ea, eb) = and_split (is_black a) (is_black b) both in
            go_on-Rounds k n x (node red a j u b) c i v path bx
              (is_black-eq a ea, is_black-eq b eb, bw.0, bw.1) o l)
        | inr one ↦ rw one (elim (Bool-cases (is_black b)) [
          | inl eb ↦ rw eb (
              near_left k n x c i v a j u b path r bx
                (not-black-eq a (and_rest (is_black a) (is_black b) one eb)) bw.0 (is_black-eq b eb)
                bw.1 o)
          | inr eb ↦ rw eb (
              rotate_left-Rounds k n x c i v black a j u b path r bx bw.0
                (paint-Balanced n b (not-black-eq b eb) bw.1) o)
        ])
      ]

  round_right-Rounds :
      (k n : ℕ) (x : Tree V) (c : Color) (i : ℕ) (v : V) (w : Tree V) (path : List (Frame V))
      → is_red x ≡ false
      → Balanced n x
      → is_red w ≡ false
      → Balanced (suc n) w
      → Over (suc n) c path
      → Leaves k c path
      → Rounds k (round_right x c i v w path)
  unfolding round_right is_red
  round_right-Rounds k n x c i v leaf path r bx rw bw o l = absurd (omega arith)
  round_right-Rounds k n x c i v (node red a j u b) path r bx rw bw o l = cc
  round_right-Rounds k n x c i v (node black a j u b) path r bx rw' bw o l =
      elim (Bool-cases (is_black b && is_black a)) [
        | inl both ↦ rw both (
            let (eb, ea) = and_split (is_black b) (is_black a) both in
            go_on-Rounds k n (node red a j u b) x c i v path
              (is_black-eq a ea, is_black-eq b eb, bw.0, bw.1) bx o l)
        | inr one ↦ rw one (elim (Bool-cases (is_black a)) [
          | inl ea ↦ rw ea (
              near_right k n x c i v a j u b path r bx (is_black-eq a ea) bw.0
                (not-black-eq b (and_rest (is_black b) (is_black a) one ea)) bw.1 o)
          | inr ea ↦ rw ea (
              rotate_right-Rounds k n x c i v black a j u b path r bx
                (paint-Balanced n a (not-black-eq a ea) bw.0) bw.1 o)
        ])
      ]

  round-Rounds :
      (n : ℕ) (x : Tree V) (f : Frame V) (path : List (Frame V))
      → is_red x ≡ false
      → Balanced n x
      → Fits (suc n) (f ∷ path)
      → Rounds (length path) (round x f path)
  unfolding round is_red
  round-Rounds n x (lf black k v leaf) path r b f =
      round_left-Rounds (length path) n x black k v leaf path r b refl f.0 f.1 refl
  round-Rounds n x (lf black k v (node black a j w s)) path r b f =
      round_left-Rounds (length path) n x black k v (node black a j w s) path r b refl f.0 f.1 refl
  round-Rounds n x (lf black k v (node red a j w s)) path r b f =
      round_left-Rounds (length path) n x red k v a (lf black j w s ∷ path) r b f.0.0 f.0.2
        (tt, (f.0.3, f.1)) tt
  round-Rounds n x (lf red k v leaf) path r b f =
      round_left-Rounds (length path) n x red k v leaf path r b refl f.1 (f.2, f.3) tt
  round-Rounds n x (lf red k v (node black a j w s)) path r b f =
      round_left-Rounds (length path) n x red k v (node black a j w s) path r b refl f.1 (f.2, f.3)
        tt
  round-Rounds n x (lf red k v (node red a j w s)) path r b f = cc
  round-Rounds n x (rf black leaf k v) path r b f =
      round_right-Rounds (length path) n x black k v leaf path r b refl f.0 f.1 refl
  round-Rounds n x (rf black (node black a j w s) k v) path r b f =
      round_right-Rounds (length path) n x black k v (node black a j w s) path r b refl f.0 f.1 refl
  round-Rounds n x (rf black (node red a j w s) k v) path r b f =
      round_right-Rounds (length path) n x red k v s (rf black a j w ∷ path) r b f.0.1 f.0.3
        (tt, (f.0.2, f.1)) tt
  round-Rounds n x (rf red leaf k v) path r b f =
      round_right-Rounds (length path) n x red k v leaf path r b refl f.1 (f.2, f.3) tt
  round-Rounds n x (rf red (node black a j w s) k v) path r b f =
      round_right-Rounds (length path) n x red k v (node black a j w s) path r b refl f.1 (f.2, f.3)
        tt
  round-Rounds n x (rf red (node red a j w s) k v) path r b f = cc

  paint-Allows : (x : Tree V) (path : List (Frame V)) → Allows (paint black x) path
  paint-Allows x path = Allows-black (paint black x) path (paint-black x)

  after_round :
      (m k : ℕ) (r : Round V)
      → ((n : ℕ) (y : Tree V) (up : List (Frame V))
          → Goes k n y up
          → Repaired (remove_fixup m y up))
      → Rounds k r
      → Repaired (elim r [ go_on y up ↦ remove_fixup m y up | break w ↦ some w | fault ↦ none ])
  after_round m k (go_on y up) ih (n, g) = ih n y up g
  after_round m k (break w) ih b = (w, refl, b)
  after_round m k fault ih b = absurd b

  -- With more fuel than frames the loop ends with a balanced tree, and meets no null sibling.
  pub remove_fixup-Repaired :
      (m n : ℕ) (x : Tree V) (path : List (Frame V))
      → Lacks n x
      → Fits (suc n) path
      → 0 < m
      → (is_red x ≡ false → length path < m)
      → Repaired (remove_fixup m x path)
  unfolding remove_fixup
  remove_fixup-Repaired zero n x path l f z h = absurd (omega arith)
  remove_fixup-Repaired (suc m) n x [] l f z h = (_, refl, root x l)
    where
      root : (x : Tree V) → Lacks n x → IsBalanced (paint black x)
      root x l = elim (Bool-cases (is_red x)) [
        | inl e ↦ record {
          root_black = paint-black x;
          height = suc n;
          balanced = Lacks-red n x e l;
        }
        | inr e ↦ record {
          root_black = paint-black x;
          height = n;
          balanced = paint-Balanced_black n x e (Lacks-black n x e l);
        }
      ]
  remove_fixup-Repaired (suc m) n x (g ∷ path) l f z h = elim (Bool-cases (is_red x)) [
    | inl e ↦ rw e (
      _,
      refl,
      plug-IsBalanced (suc n) (paint black x) (g ∷ path) f (paint-Allows x (g ∷ path))
          (Lacks-red n x e l),
    )
    | inr e ↦ rw e (
        after_round m (length path) (round x g path)
          (λ i y up go.
            remove_fixup-Repaired m i y up go.lacks go.fits (let t = h e in omega arith)
              (λ b. let t = h e in let s = go.shorter b in omega arith))
          (round-Rounds n x g path e (Lacks-black n x e l) f))
  ]

-- ===== src/Kfxx/Rbtree/Balance.antt =====
-- The balance of the tree: no red node has a red child, and every way down meets as many black
-- nodes. `insert_fixup` restores it above a new red node.
use pbos.Common.{
  ℕ, zero, suc, ◌≡◌, refl, some_inj, subst, Bool, true, false, Option, some, List, [], ◌∷◌,
  if◌then◌else◌, ltb, inl, inr, Bool-cases,
}
use pbos.Kfxx.Rbtree.{
  black, red, Tree, leaf, node, Frame, lf, rf, is_red, paint, plug, lrot, rrot, get_slot,
  insert_fixup,
}

module _ {V : Type 0} where
  -- A balanced subtree with `n` black nodes on every way down.
  abbrev pub Balanced : ℕ → Tree V → Type 0
  Balanced n leaf = n ≡ 0
  Balanced n (node red l k v r) =
      (is_red l ≡ false) × (is_red r ≡ false) × Balanced n l × Balanced n r
  Balanced zero (node black l k v r) = ⊥
  Balanced (suc n) (node black l k v r) = Balanced n l × Balanced n r

  -- A whole tree: balanced, with a black root.
  pub record IsBalanced (t : Tree V) : Type 0 where
    pub root_black : is_red t ≡ false
    pub height : ℕ
    pub balanced : Balanced height t

  abbrev pub BlackHead : List (Frame V) → Type 0
  BlackHead [] = ⊥
  BlackHead (lf black k v r ∷ path) = Unit
  BlackHead (lf red k v r ∷ path) = ⊥
  BlackHead (rf black l k v ∷ path) = Unit
  BlackHead (rf red l k v ∷ path) = ⊥

  -- The frames fit round a black subtree of height `n`.
  abbrev pub Fits : ℕ → List (Frame V) → Type 0
  Fits n [] = Unit
  Fits n (lf black k v r ∷ path) = Balanced n r × Fits (suc n) path
  Fits n (lf red k v r ∷ path) = (is_red r ≡ false) × Balanced n r × BlackHead path × Fits n path
  Fits n (rf black l k v ∷ path) = Balanced n l × Fits (suc n) path
  Fits n (rf red l k v ∷ path) = (is_red l ≡ false) × Balanced n l × BlackHead path × Fits n path

  -- A red subtree may stand below a black parent only.
  abbrev pub Allows : Tree V → List (Frame V) → Type 0
  Allows leaf path = Unit
  Allows (node black l k v r) path = Unit
  Allows (node red l k v r) path = BlackHead path

  abbrev pub SomeHeight : Tree V → Type 0
  SomeHeight t = (n : ℕ) × Balanced n t

  plug-Balanced :
      (n : ℕ) (t : Tree V) (path : List (Frame V))
      → Fits n path
      → Allows t path
      → Balanced n t
      → SomeHeight (plug t path)
  unfolding plug is_red
  plug-Balanced n t [] f a b = (n, b)
  plug-Balanced n t (lf black k v r ∷ path) f a b =
      plug-Balanced (suc n) (node black t k v r) path f.1 tt (b, f.0)
  plug-Balanced n t (rf black l k v ∷ path) f a b =
      plug-Balanced (suc n) (node black l k v t) path f.1 tt (f.0, b)
  plug-Balanced n leaf (lf red k v r ∷ path) f a b =
      plug-Balanced n (node red leaf k v r) path f.3 f.2 (refl, f.0, b, f.1)
  plug-Balanced n (node black x i u y) (lf red k v r ∷ path) f a b =
      plug-Balanced n (node red (node black x i u y) k v r) path f.3 f.2 (refl, f.0, b, f.1)
  plug-Balanced n (node red x i u y) (lf red k v r ∷ path) f a b = absurd a
  plug-Balanced n leaf (rf red l k v ∷ path) f a b =
      plug-Balanced n (node red l k v leaf) path f.3 f.2 (f.0, refl, f.1, b)
  plug-Balanced n (node black x i u y) (rf red l k v ∷ path) f a b =
      plug-Balanced n (node red l k v (node black x i u y)) path f.3 f.2 (f.0, refl, f.1, b)
  plug-Balanced n (node red x i u y) (rf red l k v ∷ path) f a b = absurd a

  paint-IsBalanced : (t : Tree V) → SomeHeight t → IsBalanced (paint black t)
  unfolding paint is_red
  paint-IsBalanced leaf (n, b) = record { root_black = refl; height = n; balanced = b }
  paint-IsBalanced (node red l k v r) (n, b) = record {
    root_black = refl;
    height = suc n;
    balanced = (b.2, b.3);
  }
  paint-IsBalanced (node black l k v r) (n, b) = record {
    root_black = refl;
    height = n;
    balanced = b;
  }

  pub paint-Balanced :
      (n : ℕ) (t : Tree V) → is_red t ≡ true → Balanced n t → Balanced (suc n) (paint black t)
  unfolding paint is_red
  paint-Balanced n leaf e b = cc
  paint-Balanced n (node red l k v r) e b = (b.2, b.3)
  paint-Balanced n (node black l k v r) e b = cc

  pub paint-black : (t : Tree V) → is_red (paint black t) ≡ false
  unfolding paint is_red
  paint-black leaf = refl
  paint-black (node c l k v r) = refl

  pub Allows-black : (t : Tree V) (path : List (Frame V)) → is_red t ≡ false → Allows t path
  unfolding is_red
  Allows-black leaf path e = tt
  Allows-black (node black l k v r) path e = tt
  Allows-black (node red l k v r) path e = cc

  pub Allows-below_left :
      (t : Tree V) (k : ℕ) (v : V) (r : Tree V) (path : List (Frame V))
      → Allows t (lf black k v r ∷ path)
  Allows-below_left leaf k v r path = tt
  Allows-below_left (node black l j w s) k v r path = tt
  Allows-below_left (node red l j w s) k v r path = tt

  pub Allows-below_right :
      (t : Tree V) (l : Tree V) (k : ℕ) (v : V) (path : List (Frame V))
      → Allows t (rf black l k v ∷ path)
  Allows-below_right leaf l k v path = tt
  Allows-below_right (node black x j w s) l k v path = tt
  Allows-below_right (node red x j w s) l k v path = tt

  -- What the repair promises of its result.
  abbrev pub Repaired : Option (Tree V) → Type 0
  Repaired o = (t : Tree V) × (o ≡ some t) × IsBalanced t

  -- One round: the grandparent turned red goes up, or the rotated subtree `s` goes in its place.
  round-Repaired :
      (n : ℕ) (b : Bool) (up : Option (Tree V)) (s : Tree V) (path : List (Frame V))
      → (b ≡ true → Repaired up)
      → (b ≡ false → (is_red s ≡ false) × Balanced n s)
      → Fits n path
      → Repaired (if b then up else some (paint black (plug s path)))
  unfolding is_red
  round-Repaired n true up s path h g f = h refl
  round-Repaired n false up leaf path h g f =
      (_, refl, paint-IsBalanced (plug leaf path) (plug-Balanced n leaf path f tt (g refl).1))
  round-Repaired n false up (node black x i u y) path h g f = (
    _,
    refl,
    paint-IsBalanced (plug (node black x i u y) path)
        (plug-Balanced n (node black x i u y) path f tt (g refl).1),
  )
  round-Repaired n false up (node red x i u y) path h g f = (let e = (g refl).0 in cc)

  -- The repair above a red node whose children are black meets no null grandparent, and leaves a
  -- balanced tree.
  pub insert_fixup-Repaired :
      (n : ℕ) (x : Tree V) (i : ℕ) (v : V) (y : Tree V) (path : List (Frame V))
      → Balanced n (node red x i v y)
      → Fits n path
      → Repaired (insert_fixup (node red x i v y) path)
  unfolding insert_fixup is_red rrot lrot paint
  insert_fixup-Repaired n x i v y [] b f = (_, refl, paint-IsBalanced (node red x i v y) (n, b))
  insert_fixup-Repaired n x i v y (lf black k w r ∷ path) b f = (
    _,
    refl,
    paint-IsBalanced (plug (node red x i v y) (lf black k w r ∷ path))
        (plug-Balanced n (node red x i v y) (lf black k w r ∷ path) f tt b),
  )
  insert_fixup-Repaired n x i v y (rf black l k w ∷ path) b f = (
    _,
    refl,
    paint-IsBalanced (plug (node red x i v y) (rf black l k w ∷ path))
        (plug-Balanced n (node red x i v y) (rf black l k w ∷ path) f tt b),
  )
  insert_fixup-Repaired n x i v y (lf red k w r ∷ []) b f = absurd f.2
  insert_fixup-Repaired n x i v y (rf red l k w ∷ []) b f = absurd f.2
  insert_fixup-Repaired n x i v y (lf red k w r ∷ lf red gk gv u ∷ path) b f = absurd f.2
  insert_fixup-Repaired n x i v y (rf red l k w ∷ lf red gk gv u ∷ path) b f = absurd f.2
  insert_fixup-Repaired n x i v y (lf red k w r ∷ rf red u gk gv ∷ path) b f = absurd f.2
  insert_fixup-Repaired n x i v y (rf red l k w ∷ rf red u gk gv ∷ path) b f = absurd f.2
  insert_fixup-Repaired n x i v y (lf red k w r ∷ lf black gk gv u ∷ path) b f =
      let p = node black (node red x i v y) k w r in
      round-Repaired (suc n) (is_red u) (insert_fixup (node red p gk gv (paint black u)) path)
        (rrot (node red p gk gv u)) path
        (λ e.
          insert_fixup-Repaired (suc n) p gk gv (paint black u) path
            (refl, paint-black u, (b, f.1), paint-Balanced n u e f.3.0) f.3.1)
        (λ e. (refl, (b, (f.0, e, f.1, f.3.0)))) f.3.1
  insert_fixup-Repaired n x i v y (rf red l k w ∷ lf black gk gv u ∷ path) b f =
      let p = node black l k w (node red x i v y) in
      round-Repaired (suc n) (is_red u) (insert_fixup (node red p gk gv (paint black u)) path)
        (rrot (node red (paint black (lrot (node red l k w (node red x i v y)))) gk gv u)) path
        (λ e.
          insert_fixup-Repaired (suc n) p gk gv (paint black u) path
            (refl, paint-black u, (f.1, b), paint-Balanced n u e f.3.0) f.3.1)
        (λ e. (refl, ((f.0, b.0, f.1, b.2), (b.1, e, b.3, f.3.0)))) f.3.1
  insert_fixup-Repaired n x i v y (lf red k w r ∷ rf black u gk gv ∷ path) b f =
      let p = node black (node red x i v y) k w r in
      round-Repaired (suc n) (is_red u) (insert_fixup (node red (paint black u) gk gv p) path)
        (lrot (node red u gk gv (paint black (rrot (node red (node red x i v y) k w r))))) path
        (λ e.
          insert_fixup-Repaired (suc n) (paint black u) gk gv p path
            (paint-black u, refl, paint-Balanced n u e f.3.0, (b, f.1)) f.3.1)
        (λ e. (refl, ((e, b.0, f.3.0, b.2), (b.1, f.0, b.3, f.1)))) f.3.1
  insert_fixup-Repaired n x i v y (rf red l k w ∷ rf black u gk gv ∷ path) b f =
      let p = node black l k w (node red x i v y) in
      round-Repaired (suc n) (is_red u) (insert_fixup (node red (paint black u) gk gv p) path)
        (lrot (node red u gk gv p)) path
        (λ e.
          insert_fixup-Repaired (suc n) (paint black u) gk gv p path
            (paint-black u, refl, paint-Balanced n u e f.3.0, (f.1, b)) f.3.1)
        (λ e. (refl, ((e, f.0, f.3.0, f.1), b))) f.3.1

  -- The walk down a balanced tree ends at a place where a new leaf fits.
  pub get_slot-Fits :
      (key n : ℕ) (t : Tree V) (path : List (Frame V)) (q : List (Frame V))
      → Balanced n t
      → Fits n path
      → Allows t path
      → get_slot key t path ≡ some q
      → Fits 0 q
  unfolding get_slot
  get_slot-Fits key n leaf path q b f a h =
      subst (λ z. Fits 0 z) (some_inj h) (subst (λ z. Fits z path) b f)
  get_slot-Fits key n (node red l k v r) path q b f a h = elim (Bool-cases (ltb k key)) [
    | inl gt ↦
        get_slot-Fits key n r (rf red l k v ∷ path) q b.3 (b.0, b.2, a, f) (Allows-black r _ b.1)
          (rw gt at h)
    | inr le ↦ elim (Bool-cases (ltb key k)) [
      | inl lt ↦
          get_slot-Fits key n l (lf red k v r ∷ path) q b.2 (b.1, b.3, a, f) (Allows-black l _ b.0)
            (rw lt at (rw le at h))
      | inr ge ↦ (let e = rw ge at (rw le at h) in cc)
    ]
  ]
  get_slot-Fits key zero (node black l k v r) path q b f a h = absurd b
  get_slot-Fits key (suc n) (node black l k v r) path q b f a h = elim (Bool-cases (ltb k key)) [
    | inl gt ↦
        get_slot-Fits key n r (rf black l k v ∷ path) q b.1 (b.0, f)
          (Allows-below_right r l k v path) (rw gt at h)
    | inr le ↦ elim (Bool-cases (ltb key k)) [
      | inl lt ↦
          get_slot-Fits key n l (lf black k v r ∷ path) q b.0 (b.1, f)
            (Allows-below_left l k v r path) (rw lt at (rw le at h))
      | inr ge ↦ (let e = rw ge at (rw le at h) in cc)
    ]
  ]

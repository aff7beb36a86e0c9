-- ===== src/Kfxx/Rbtree/Path.antt =====
-- A subtree and the frames above it: what the rest of the tree holds before and after it, and what
-- the walk `_get_slot` leaves behind.
use pbos.Common.{
  ℕ, ◌<◌, ◌≡◌, refl, sym, ap, ◌∙◌, inl, inr, true, Option, none, some, List, [], ◌∷◌, ◌++◌,
  append_assoc, append-nil, All, All-append, ltb, arith, Bool-cases, ltb→lt,
}
use pbos.Kfxx.Ordered.{IsSorted, Above}
use pbos.Kfxx.Ordered.Laws.{Above-IsSorted}
use pbos.Kfxx.Ordered.Split.{Below, Below-mono, split-IsSorted, split-Below, split-Above}
use pbos.Kfxx.Rbtree.{Color, Tree, leaf, node, Frame, lf, rf, plug, to_list, get, get_slot}

module _ {V : Type 0} where
  abbrev pub before : List (Frame V) → List (ℕ × V)
  before [] = []
  before (lf c k v r ∷ path) = before path
  before (rf c l k v ∷ path) = before path ++ (to_list l ++ ((k, v) ∷ []))

  abbrev pub after : List (Frame V) → List (ℕ × V)
  after [] = []
  after (lf c k v r ∷ path) = (k, v) ∷ (to_list r ++ after path)
  after (rf c l k v ∷ path) = after path

  pub to_list-plug :
      (t : Tree V) (path : List (Frame V))
      → to_list (plug t path) ≡ before path ++ (to_list t ++ after path)
  unfolding plug to_list
  to_list-plug t [] = simp append-nil
  to_list-plug t (lf c k v r ∷ path) = to_list-plug (node c t k v r) path ∙ simp append_assoc
  to_list-plug t (rf c l k v ∷ path) = to_list-plug (node c l k v t) path ∙ simp append_assoc

  -- Subtrees with the same contents may be exchanged.
  pub to_list-plug_congr :
      (s t : Tree V) (path : List (Frame V))
      → to_list s ≡ to_list t
      → to_list (plug s path) ≡ to_list (plug t path)
  to_list-plug_congr s t path e =
      to_list-plug s path ∙ ap (λ m. before path ++ (m ++ after path)) e ∙ sym (to_list-plug t path)

  -- The walk turned towards the key at each frame.
  abbrev pub Turns : ℕ → List (Frame V) → Type 0
  Turns key [] = Unit
  Turns key (lf c k v r ∷ path) = (ltb key k ≡ true) × Turns key path
  Turns key (rf c l k v ∷ path) = (ltb k key ≡ true) × Turns key path

  -- A place for the key among the contents: what comes before is below it, what follows above.
  pub record IsSlot (key : ℕ) (path : List (Frame V)) : Type 0 where
    pub turns : Turns key path
    pub left : Below key (before path)
    pub right : All (λ e. key < e.0) (after path)

  Above-All : (key k : ℕ) (m : List (ℕ × V)) → key < k → Above k m → All (λ e. key < e.0) m
  Above-All key k [] h a = tt
  Above-All key k ((j, w) ∷ m) h a = (omega arith, Above-All key j m (omega arith) a.1)

  IsSlot-right :
      (key k : ℕ) (v : V) (c : Color) (l : Tree V) (path : List (Frame V))
      → ltb k key ≡ true
      → Below k (to_list l)
      → IsSlot key path
      → IsSlot key (rf c l k v ∷ path)
  IsSlot-right key k v c l path h b i =
      let lt = ltb→lt k key h in
      record {
        turns = (h, i.turns);
        left = All-append _ (before path) (to_list l ++ ((k, v) ∷ [])) i.left (
            All-append _ (to_list l) ((k, v) ∷ []) (Below-mono k key (to_list l) (omega arith) b)
              (lt, tt));
        right = i.right;
      }

  IsSlot-left :
      (key k : ℕ) (v : V) (c : Color) (r : Tree V) (path : List (Frame V))
      → ltb key k ≡ true
      → Above k (to_list r)
      → IsSlot key path
      → IsSlot key (lf c k v r ∷ path)
  IsSlot-left key k v c r path h a i =
      let lt = ltb→lt key k h in
      record {
        turns = (h, i.turns);
        left = i.left;
        right =
            (lt, All-append _ (to_list r) (after path) (Above-All key k (to_list r) lt a) i.right);
      }

  -- What the walk may return, given the answer `found` of a search for the key: the path to an empty
  -- place of the tree `root` if there is none, and nothing if there is one.
  abbrev pub Slot : ℕ → Option V → Tree V → Option (List (Frame V)) → Type 0
  Slot key found root none = (v : V) × (found ≡ some v)
  Slot key found root (some q) = (found ≡ none) × (plug leaf q ≡ root) × IsSlot key q

  pub get_slot-Slot :
      (key : ℕ) (t : Tree V) (path : List (Frame V))
      → IsSorted (to_list t)
      → IsSlot key path
      → Slot key (get key t) (plug t path) (get_slot key t path)
  unfolding get_slot get to_list plug
  get_slot-Slot key leaf path s i = (refl, refl, i)
  get_slot-Slot key (node c l k v r) path s i =
      let b = split-Below k v (to_list l) (to_list r) s in
      let a = split-Above k v (to_list l) (to_list r) s in
      elim (Bool-cases (ltb k key)) [
        | inl gt ↦ rw gt (
            get_slot-Slot key r (rf c l k v ∷ path) (Above-IsSorted k (to_list r) a)
              (IsSlot-right key k v c l path gt b i))
        | inr le ↦ rw le (elim (Bool-cases (ltb key k)) [
          | inl lt ↦ rw lt (
              get_slot-Slot key l (lf c k v r ∷ path) (split-IsSorted k v (to_list l) (to_list r) s)
                (IsSlot-left key k v c r path lt a i))
          | inr ge ↦ rw ge (v, refl)
        ])
      ]

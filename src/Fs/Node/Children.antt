-- ===== src/Fs/Node/Children.antt =====
-- The child that a name leads to, and that `fs_child_of` gives it out.
use pbos.Common.{
  ℕ, ◌+◌, ◌≡◌, ◌≢◌, refl, sym, ◌∙◌, ap, subst, ◌⊎◌, inl, inr, Option, none, some, List, arith,
}
use pbos.Fs.Node.{
  FNode, Nodes, Store, Reply, done, failed, stopped, FileSystemOps, FileType,
  km_result_unsupported_operation, dir, find, ref_fnode, give_out, child_of,
}
use pbos.Fs.Node.Counts.{one, Counts, IsShared, ref_fnode-Counts, give_out-Counts, one_small}

-- A reply: with an error code, and counts as they were, or with a node, which has one reference
-- more.
abbrev pub Gives : Nodes → (ℕ → ℕ) → ℕ ⊎ ℕ → Reply → Type 0
Gives ns g (inl code) r = (t : Store) × ((r ≡ failed code t) × Counts ns g t)
Gives ns g (inr b) r =
    (t : Store) × ((r ≡ done (some b) t) × Counts ns (λ i. g i + one (some b) i) t)

-- A reply that says what was looked up, with a reference to it.
abbrev pub counted : ℕ ⊎ ℕ → Store → Reply
counted (inl code) s = failed code s
counted (inr b) s = done (some b) (ref_fnode b s)

-- The operations of each file system look the children up that the directory does not hold.
abbrev pub LooksUp : (ℕ → FileSystemOps) → (ℕ → Nodes → ℕ → List ℕ → ℕ ⊎ ℕ) → Type 0
LooksUp ops lookup =
    (f a : ℕ) (name : List ℕ) (s : Store)
    → (ops f).subnode a name s ≡ counted (lookup f s.nodes a name) s

module _ (lookup : ℕ → Nodes → ℕ → List ℕ → ℕ ⊎ ℕ) where
  -- What a node of this type leads to.
  abbrev pub child_in : Nodes → ℕ → FileType → ℕ → List (List ℕ × ℕ) → List ℕ → ℕ ⊎ ℕ
  child_in ns a dir fs subnodes name = elim (find name subnodes) [
    | some b ↦ inr b
    | none ↦ lookup fs ns a name
  ]
  child_in ns a _ fs subnodes name = inl km_result_unsupported_operation

  abbrev pub child_under : Nodes → ℕ → Option FNode → List ℕ → ℕ ⊎ ℕ
  child_under ns a none name = inl 0
  child_under ns a (some n) name = child_in ns a n.file_type n.fs n.subnodes name

  abbrev pub child : Nodes → ℕ → List ℕ → ℕ ⊎ ℕ
  child ns a name = child_under ns a (ns a) name

  -- What a node leads to is a node.
  abbrev pub IsClosed : Nodes → Type 0
  IsClosed ns = (a : ℕ) (name : List ℕ) (b : ℕ) → child ns a name ≡ inr b → ns b ≢ none

module _ (ops : ℕ → FileSystemOps) (lookup : ℕ → Nodes → ℕ → List ℕ → ℕ ⊎ ℕ)
    (looks : LooksUp ops lookup) (ns : Nodes) (base : ℕ → ℕ) (shared : IsShared ns base)
    (closed : IsClosed lookup ns) where
  counted-Gives :
      (o : Option ℕ) (r : ℕ ⊎ ℕ) (s : Store)
      → ((b : ℕ) → r ≡ inr b → ns b ≢ none)
      → Counts ns (λ i. base i + one o i) s
      → Gives ns (λ i. base i + one o i) r (counted r s)
  counted-Gives o (inl code) s n c = (s, (refl, c))
  counted-Gives o (inr b) s n c = (
    ref_fnode b s,
    (
      refl,
      ref_fnode-Counts ns (λ i. base i + one o i) b s
          (omega (arith, (shared b (n b refl)).1, one_small o b)) c,
    ),
  )

  in_dir :
      (a : ℕ) (o : Option ℕ) (fs : ℕ) (found : Option ℕ) (name : List ℕ) (s : Store) (r : Reply)
      → ((b : ℕ) → elim found [ some b ↦ inr b | none ↦ lookup fs ns a name ] ≡ inr b → ns b ≢ none)
      → Counts ns (λ i. base i + one o i) s
      → r ≡ elim found [ some b ↦ give_out b s | none ↦ (ops fs).subnode a name s ]
      → Gives ns
          (λ i. base i + one o i)
          (elim found [ some b ↦ inr b | none ↦ lookup fs ns a name ])
          r
  in_dir a o fs none name s r n c e =
      let f = e ∙ looks fs a name s ∙ ap (λ v. counted (lookup fs v a name) s) c.0 in
      subst (λ v. Gives ns (λ i. base i + one o i) (lookup fs ns a name) v) (sym f)
        (counted-Gives o (lookup fs ns a name) s n c)
  in_dir a o fs (some b) name s r n c e =
      let g = give_out-Counts ns base shared b o s (n b refl) c in (g.0, (e ∙ g.1.0, g.1.1))

  child_in-Gives :
      (a : ℕ) (o : Option ℕ) (t : FileType) (fs : ℕ) (sub : List (List ℕ × ℕ)) (name : List ℕ)
      (s : Store) (r : Reply)
      → ((b : ℕ) → child_in lookup ns a t fs sub name ≡ inr b → ns b ≢ none)
      → Counts ns (λ i. base i + one o i) s
      → r ≡ elim t [
        | dir ↦ elim (find name sub) [ some b ↦ give_out b s | none ↦ (ops fs).subnode a name s ]
        | _ ↦ failed km_result_unsupported_operation s
      ]
      → Gives ns (λ i. base i + one o i) (child_in lookup ns a t fs sub name) r
  child_in-Gives a o dir fs sub name s r n c e = in_dir a o fs (find name sub) name s r n c e
  child_in-Gives a o _ fs sub name s r n c e = (s, (e, c))

  -- The reply about a node, where one is found.
  abbrev reply_under : ℕ → List ℕ → Store → Option FNode → Reply
  reply_under a name s none = stopped
  reply_under a name s (some n) = elim n.file_type [
    | dir ↦ elim (find name n.subnodes) [
      | some b ↦ give_out b s
      | none ↦ (ops n.fs).subnode a name s
    ]
    | _ ↦ failed km_result_unsupported_operation s
  ]

  child_of_eq :
      (a : ℕ) (name : List ℕ) (s : Store)
      → child_of ops (some a) name s ≡ reply_under a name s (s.nodes a)
  unfolding child_of
  child_of_eq a name s = ground arith

  at_node :
      (a : ℕ) (o : Option ℕ) (m : Option FNode) (name : List ℕ) (s : Store) (r : Reply)
      → m ≢ none
      → ((b : ℕ) → child_under lookup ns a m name ≡ inr b → ns b ≢ none)
      → Counts ns (λ i. base i + one o i) s
      → r ≡ reply_under a name s m
      → Gives ns (λ i. base i + one o i) (child_under lookup ns a m name) r
  at_node a o none name s r d n c e = absurd (d refl)
  at_node a o (some m) name s r d n c e =
      child_in-Gives a o m.file_type m.fs m.subnodes name s r n c e

  pub child_of-Gives :
      (a : ℕ) (o : Option ℕ) (name : List ℕ) (s : Store)
      → ns a ≢ none
      → Counts ns (λ i. base i + one o i) s
      → Gives ns (λ i. base i + one o i) (child lookup ns a name) (child_of ops (some a) name s)
  child_of-Gives a o name s n c =
      at_node a o (ns a) name s (child_of ops (some a) name s) n (closed a name) c
        (child_of_eq a name s ∙ ap (λ v. reply_under a name s (v a)) c.0)

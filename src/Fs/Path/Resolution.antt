-- ===== src/Fs/Path/Resolution.antt =====
-- `fs_resolve_path` leads where the components of the path lead.
use pbos.Common.{
  ℕ, suc, ◌+◌, ◌≡◌, ◌≢◌, refl, sym, ◌∙◌, ap, subst, ◌⊎◌, inl, inr, true, false, Option, none, some,
  List, [], ◌∷◌, length, ◌==◌, Bool-cases, arith,
}
use pbos.Fs.Node.{Nodes, Store, FileSystemOps, reset, hold, assign_pointer}
use pbos.Fs.Node.Counts.{
  one, Counts, Counts-ext, IsNode, IsShared, hold-Counts, ref_fnode-Counts, one_small,
}
use pbos.Fs.Node.Children.{LooksUp, IsClosed}
use pbos.Fs.Path.{slash, entered, component, at_divider, scan, finish, resolve_path}
use pbos.Fs.Path.Components.{
  components, components_end, components_on, inr_inj, follow, resolved, Ends,
}
use pbos.Fs.Path.Entering.{end-Ends}
use pbos.Fs.Path.Scanning.{passed-Ends, scan_cut, scan_end, scan_on, scan-Ends, passed}

module _ (ops : ℕ → FileSystemOps) (lookup : ℕ → Nodes → ℕ → List ℕ → ℕ ⊎ ℕ)
    (looks : LooksUp ops lookup) (ns : Nodes) (base : ℕ → ℕ) (shared : IsShared ns base)
    (closed : IsClosed lookup ns) where
  at_divider_root :
      (r : ℕ) (path : List ℕ) (o : Option ℕ) (s : Store)
      → at_divider ops (some r) path 0 0 o none s ≡ entered (some r) (hold (some r) s)
  unfolding at_divider assign_pointer reset
  at_divider_root r path o s = refl

  rooted :
      (r : ℕ) (o : Option ℕ) (s : Store)
      → ns r ≢ none
      → Counts ns (λ i. base i + one o i) s
      → Counts ns (λ i. base i + one o i + one (some r) i) (hold (some r) s)
  unfolding hold
  rooted r o s n c =
      ref_fnode-Counts ns (λ i. base i + one o i) r s (omega (arith, (shared r n).1, one_small o r))
        c

  resolved_root :
      (r b : ℕ) (rest : List ℕ) (o : Option ℕ)
      → (b == slash) ≡ true
      → resolved lookup ns r o (b ∷ rest) ≡ follow lookup ns (some r) (some r) (components [] rest)
  unfolding components
  resolved_root r b rest o e = ground (arith, e)

  resolved_here :
      (r b : ℕ) (rest : List ℕ) (o : Option ℕ)
      → (b == slash) ≡ false
      → resolved lookup ns r o (b ∷ rest) ≡ follow lookup ns o none (components [] (b ∷ rest))
  resolved_here r b rest o e = ground (arith, e)

  from_root :
      (r b : ℕ) (rest : List ℕ) (o : Option ℕ) (s : Store)
      → ns r ≢ none
      → IsNode ns o
      → (b == slash) ≡ true
      → Counts ns (λ i. base i + one o i) s
      → Ends ns base
          (follow lookup ns (some r) (some r) (components [] rest))
          (finish ops (b ∷ rest) (scan ops (some r) (b ∷ rest) (suc (length rest)) 0 0 o none s))
  from_root r b rest o s n m e c =
      subst (Ends ns base (follow lookup ns (some r) (some r) (components [] rest)))
        (sym (
          scan_cut ops lookup looks ns base shared closed (some r) (b ∷ rest) (length rest) 0 0 b o
            none s refl e
          ∙ ap (passed ops lookup looks ns base shared closed (some r) (b ∷ rest) (length rest) 1 o)
              (at_divider_root r (b ∷ rest) o s)))
        (passed-Ends ops lookup looks ns base shared closed (some r) (b ∷ rest) (length rest) 1 o
          (components [] rest) (inr r) (entered (some r) (hold (some r) s)) m
          (λ d f. subst (λ x. ns x ≢ none) (inr_inj f) n)
          (λ d u h k.
            scan-Ends ops lookup looks ns base shared closed (some r) rest (b ∷ rest) (b ∷ []) [] 1
              1 (some d) (some d) u refl refl refl (inl (omega arith, (d, (h, refl, refl)))) h h k)
          (hold (some r) s, (refl, rooted r o s n c)))

  from_here :
      (r b : ℕ) (rest : List ℕ) (o : Option ℕ) (s : Store)
      → IsNode ns o
      → (b == slash) ≡ false
      → Counts ns (λ i. base i + one o i + 0) s
      → Ends ns base
          (follow lookup ns o none (components [] (b ∷ rest)))
          (finish ops (b ∷ rest) (scan ops (some r) (b ∷ rest) (suc (length rest)) 0 0 o none s))
  from_here r b rest o s m e c = elim (Bool-cases (b == 0)) [
    | inl z ↦
        subst
          (λ x.
            Ends ns base (follow lookup ns o none x) (
              finish ops (b ∷ rest)
                (scan ops (some r) (b ∷ rest) (suc (length rest)) 0 0 o none s)))
          (sym (components_end [] b rest e z))
          (subst (λ x. Ends ns base (inr none) (finish ops (b ∷ rest) x))
            (sym (
              scan_end ops lookup looks ns base shared closed (some r) (b ∷ rest) (length rest) 0 0
                b o none s refl e z))
            (end-Ends ops lookup looks ns base shared closed (b ∷ rest) [] 0 0 o none s
              (unfold component in refl) (omega arith) m tt c))
    | inr z ↦
        subst
          (λ x.
            Ends ns base (follow lookup ns o none x) (
              finish ops (b ∷ rest)
                (scan ops (some r) (b ∷ rest) (suc (length rest)) 0 0 o none s)))
          (sym (components_on [] b rest e z))
          (subst
            (λ x.
              Ends ns base (follow lookup ns o none (components (b ∷ []) rest))
                (finish ops (b ∷ rest) x))
            (sym (
              scan_on ops lookup looks ns base shared closed (some r) (b ∷ rest) (length rest) 0 0 b
                o none s refl e z))
            (scan-Ends ops lookup looks ns base shared closed (some r) rest (b ∷ rest) [] (b ∷ []) 1
              0 o none s refl refl refl (inr (refl, omega arith)) m tt c))
  ]

  resolve-Ends :
      (r : ℕ) (path : List ℕ) (o : Option ℕ) (s : Store)
      → ns r ≢ none
      → IsNode ns o
      → Counts ns (λ i. base i + one o i) s
      → Ends ns base
          (resolved lookup ns r o path)
          (finish ops path (scan ops (some r) path (length path) 0 0 o none s))
  unfolding scan components
  resolve-Ends r [] o s n m c =
      end-Ends ops lookup looks ns base shared closed [] [] 0 0 o none s (unfold component in refl)
        (omega arith) m tt
        (Counts-ext ns (λ i. base i + one o i) (λ i. base i + one o i + 0) s (λ i. omega arith) c)
  resolve-Ends r (b ∷ rest) o s n m c = elim (Bool-cases (b == slash)) [
    | inl e ↦
        subst
          (λ x.
            Ends ns base x (
              finish ops (b ∷ rest)
                (scan ops (some r) (b ∷ rest) (suc (length rest)) 0 0 o none s)))
          (sym (resolved_root r b rest o e)) (from_root r b rest o s n m e c)
    | inr e ↦
        subst
          (λ x.
            Ends ns base x (
              finish ops (b ∷ rest)
                (scan ops (some r) (b ∷ rest) (suc (length rest)) 0 0 o none s)))
          (sym (resolved_here r b rest o e))
          (from_here r b rest o s m e (
            Counts-ext ns (λ i. base i + one o i) (λ i. base i + one o i + 0) s (λ i. omega arith)
              c))
  ]

  -- Where the file systems look children up and take one reference to what they find, every node has
  -- another holder and room for three references more, and what a node leads to is a node:
  -- `fs_resolve_path` ends with what the components of the path lead to, one after
  -- the other, from the root if the path begins with a slash and from the current directory if not,
  -- with one reference more to the node that it gives out, and all other counts as they were; or with
  -- the code of the component that is refused, and all counts as they were.
  pub resolve_path-Ends :
      (r : ℕ) (cur_dir : Option ℕ) (path : List ℕ) (s : Store)
      → ns r ≢ none
      → IsNode ns cur_dir
      → Counts ns base s
      → Ends ns base (resolved lookup ns r cur_dir path) (resolve_path ops (some r) cur_dir path s)
  unfolding resolve_path
  resolve_path-Ends r cur_dir path s n m c =
      resolve-Ends r path cur_dir (hold cur_dir s) n m (hold-Counts ns base shared cur_dir s m c)

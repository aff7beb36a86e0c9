-- ===== src/Fs/Path/Scanning.antt =====
-- The loop of `fs_resolve_path` follows the components.
use pbos.Common.{
  ℕ, suc, ◌+◌, ◌<◌, ◌≡◌, ◌≢◌, refl, sym, ◌∙◌, ap, subst, ◌⊎◌, inl, inr, true, false, Option, none,
  some, List, [], ◌∷◌, ◌++◌, append_assoc, length, length-append, get_elem?, ◌==◌, Bool-cases,
  arith,
}
use pbos.Fs.Node.{Nodes, Store, Reply, failed, stopped, FileSystemOps, assign}
use pbos.Fs.Node.Counts.{one, Counts, IsNode, IsShared, assign-Counts}
use pbos.Fs.Node.Children.{LooksUp, IsClosed}
use pbos.Fs.Path.{
  slash, ended, crashed, Entered, entered, refused, broken, component, enter, at_divider, scan,
  finish,
}
use pbos.Fs.Path.Components.{
  with_part, components, components_cut, components_end, components_on, inr_inj, step, follow, Ends,
  component-append, byte_at,
}
use pbos.Fs.Path.Entering.{Enters, enter-Enters, end-Ends}

module _ (ops : ℕ → FileSystemOps) (lookup : ℕ → Nodes → ℕ → List ℕ → ℕ ⊎ ℕ)
    (looks : LooksUp ops lookup) (ns : Nodes) (base : ℕ → ℕ) (shared : IsShared ns base)
    (closed : IsClosed lookup ns) where
  -- Where the loop stands: behind a slash, where `file` and `new_file` are the same node, or in a
  -- part of the path.
  abbrev Stands : ℕ → List ℕ → Option ℕ → Option ℕ → Type 0
  Stands last part o n =
      ((0 < last) × ((a : ℕ) × ((ns a ≢ none) × (o ≡ some a) × (n ≡ some a))))
      ⊎ ((last ≡ 0) × (0 < length part))

  -- What the loop does once `new_file` is found.
  abbrev pub passed : Option ℕ → List ℕ → ℕ → ℕ → Option ℕ → Entered → Reply
  passed root path k j o (entered found t) =
      finish ops path (elim (assign o found t) [
        | none ↦ crashed
        | some u ↦ scan ops root path k j j found found u
      ])
  passed root path k j o (refused code t) = failed code t
  passed root path k j o broken = stopped

  pub scan_cut :
      (root : Option ℕ) (path : List ℕ) (k i last b : ℕ) (o n : Option ℕ) (s : Store)
      → get_elem? path i ≡ some b
      → (b == slash) ≡ true
      → finish ops path (scan ops root path (suc k) i last o n s)
        ≡ passed root path k (i + 1) o (at_divider ops root path i last o n s)
  unfolding scan finish
  scan_cut root path k i last b o n s g e = ground (arith, g, e)

  pub scan_end :
      (root : Option ℕ) (path : List ℕ) (k i last b : ℕ) (o n : Option ℕ) (s : Store)
      → get_elem? path i ≡ some b
      → (b == slash) ≡ false
      → (b == 0) ≡ true
      → scan ops root path (suc k) i last o n s ≡ ended i last o n s
  unfolding scan
  scan_end root path k i last b o n s g e f = ground (arith, g, e, f)

  pub scan_on :
      (root : Option ℕ) (path : List ℕ) (k i last b : ℕ) (o n : Option ℕ) (s : Store)
      → get_elem? path i ≡ some b
      → (b == slash) ≡ false
      → (b == 0) ≡ false
      → scan ops root path (suc k) i last o n s ≡ scan ops root path k (i + 1) last o n s
  unfolding scan
  scan_on root path k i last b o n s g e f = ground (arith, g, e, f)

  at_divider_empty :
      (root : Option ℕ) (path : List ℕ) (i last : ℕ) (o n : Option ℕ) (s : Store)
      → 0 < last
      → i ≡ last
      → at_divider ops root path i last o n s ≡ entered n s
  unfolding at_divider
  at_divider_empty root path i last o n s l e = ground (arith, l, e)

  at_divider_part :
      (root : Option ℕ) (path part : List ℕ) (i last : ℕ) (o n : Option ℕ) (s : Store)
      → component path last i ≡ part
      → last < i
      → at_divider ops root path i last o n s ≡ enter ops part o n s
  unfolding at_divider
  at_divider_part root path part i last o n s p l = ground (arith, p, l)

  -- Behind a slash, where the rest of the path is known to be followed from any node.
  pub passed-Ends :
      (root : Option ℕ) (path : List ℕ) (k j : ℕ) (o : Option ℕ) (names : List (List ℕ)) (v : ℕ ⊎ ℕ)
      (e : Entered)
      → IsNode ns o
      → ((d : ℕ) → v ≡ inr d → ns d ≢ none)
      → ((d : ℕ) (u : Store)
          → ns d ≢ none
          → Counts ns (λ i. base i + one (some d) i + one (some d) i) u
          → Ends ns base
              (follow lookup ns (some d) (some d) names)
              (finish ops path (scan ops root path k j j (some d) (some d) u)))
      → Enters ops lookup looks ns base shared closed o v e
      → Ends ns base
          (elim v [ inl code ↦ inl code | inr d ↦ follow lookup ns (some d) (some d) names ])
          (passed root path k j o e)
  passed-Ends root path k j o names (inl code) e m n ih g =
      (g.0, (ap (passed root path k j o) g.1.0, g.1.1))
  passed-Ends root path k j o names (inr d) e m n ih g =
      let r = assign-Counts ns base shared o d g.0 m (n d refl) g.1.1 in
      let after = λ (x : Option Store).
        finish ops path
          (elim x [ none ↦ crashed | some u ↦ scan ops root path k j j (some d) (some d) u ]) in
      subst (Ends ns base (follow lookup ns (some d) (some d) names))
        (sym (ap (passed root path k j o) g.1.0 ∙ ap after r.1.0)) (ih d r.0 (n d refl) r.1.1)

  step-IsNode : (o : Option ℕ) (name : List ℕ) (d : ℕ) → step lookup ns o name ≡ inr d → ns d ≢ none
  step-IsNode none name d e = absurd (grind (arith, e))
  step-IsNode (some a) name d e = closed a name d e

  -- A slash behind another one.
  slash_again :
      (root : Option ℕ) (path : List ℕ) (k i last b a : ℕ) (s : Store) (names : List (List ℕ))
      → get_elem? path i ≡ some b
      → (b == slash) ≡ true
      → i ≡ last
      → 0 < last
      → ns a ≢ none
      → ((d : ℕ) (u : Store)
          → ns d ≢ none
          → Counts ns (λ i. base i + one (some d) i + one (some d) i) u
          → Ends ns base
              (follow lookup ns (some d) (some d) names)
              (finish ops path (scan ops root path k (i + 1) (i + 1) (some d) (some d) u)))
      → Counts ns (λ i. base i + one (some a) i + one (some a) i) s
      → Ends ns base
          (follow lookup ns (some a) (some a) names)
          (finish ops path (scan ops root path (suc k) i last (some a) (some a) s))
  slash_again root path k i last b a s names g e l z n ih c =
      subst (Ends ns base (follow lookup ns (some a) (some a) names))
        (sym (
          scan_cut root path k i last b (some a) (some a) s g e
          ∙ ap (passed root path k (i + 1) (some a))
              (at_divider_empty root path i last (some a) (some a) s z l)))
        (passed-Ends root path k (i + 1) (some a) names (inr a) (entered (some a) s) n
          (λ d f. subst (λ x. ns x ≢ none) (inr_inj f) n) ih (s, (refl, c)))

  slash-Ends :
      (root : Option ℕ) (path part : List ℕ) (k i last b : ℕ) (o n : Option ℕ) (s : Store)
      (names : List (List ℕ))
      → get_elem? path i ≡ some b
      → (b == slash) ≡ true
      → component path last i ≡ part
      → i ≡ last + length part
      → Stands last part o n
      → IsNode ns o
      → IsNode ns n
      → Counts ns (λ i. base i + one o i + one n i) s
      → ((d : ℕ) (u : Store)
          → ns d ≢ none
          → Counts ns (λ i. base i + one (some d) i + one (some d) i) u
          → Ends ns base
              (follow lookup ns (some d) (some d) names)
              (finish ops path (scan ops root path k (i + 1) (i + 1) (some d) (some d) u)))
      → Ends ns base
          (follow lookup ns o n (with_part part names))
          (finish ops path (scan ops root path (suc k) i last o n s))
  slash-Ends root path [] k i last b o n s names g e p l (inl w) m q c ih =
      subst
        (λ x.
          Counts ns (λ i. base i + one x i + one n i) s
          → Ends ns base (follow lookup ns x n names)
              (finish ops path (scan ops root path (suc k) i last x n s)))
        (sym w.1.1.1)
        (subst
          (λ y.
            Counts ns (λ i. base i + one (some w.1.0) i + one y i) s
            → Ends ns base (follow lookup ns (some w.1.0) y names)
                (finish ops path (scan ops root path (suc k) i last (some w.1.0) y s)))
          (sym w.1.1.2)
          (slash_again root path k i last b w.1.0 s names g e (omega (arith, l)) w.0 w.1.1.0 ih))
        c
  slash-Ends root path [] k i last b o n s names g e p l (inr w) m q c ih =
      absurd (omega (arith, w.1))
  slash-Ends root path (x ∷ part) k i last b o n s names g e p l w m q c ih =
      subst (Ends ns base (follow lookup ns o n ((x ∷ part) ∷ names)))
        (sym (
          scan_cut root path k i last b o n s g e
          ∙ ap (passed root path k (i + 1) o)
              (at_divider_part root path (x ∷ part) i last o n s p (omega (arith, l)))))
        (passed-Ends root path k (i + 1) o names (step lookup ns o (x ∷ part))
          (enter ops (x ∷ part) o n s) m (step-IsNode o (x ∷ part)) ih
          (enter-Enters ops lookup looks ns base shared closed (x ∷ part) o n s m q c))

  split_at :
      (pre part : List ℕ) (b : ℕ) (rest : List ℕ)
      → pre ++ (part ++ (b ∷ rest)) ≡ (pre ++ (part ++ (b ∷ []))) ++ rest
  split_at pre part b rest =
      ap (pre ++◌) (sym (append_assoc part (b ∷ []) rest))
      ∙ sym (append_assoc pre (part ++ (b ∷ [])) rest)

  append-Stands :
      (last : ℕ) (part : List ℕ) (b : ℕ) (o n : Option ℕ)
      → Stands last part o n
      → Stands last (part ++ (b ∷ [])) o n
  append-Stands last part b o n (inl w) = inl w
  append-Stands last part b o n (inr w) = inr (w.0, omega (arith, length-append part (b ∷ [])))

  pub scan-Ends :
      (root : Option ℕ) (rest path pre part : List ℕ) (i last : ℕ) (o n : Option ℕ) (s : Store)
      → path ≡ pre ++ (part ++ rest)
      → last ≡ length pre
      → i ≡ length pre + length part
      → Stands last part o n
      → IsNode ns o
      → IsNode ns n
      → Counts ns (λ i. base i + one o i + one n i) s
      → Ends ns base
          (follow lookup ns o n (components part rest))
          (finish ops path (scan ops root path (length rest) i last o n s))
  unfolding scan components
  scan-Ends root [] path pre part i last o n s p l e w m q c =
      end-Ends ops lookup looks ns base shared closed path part last i o n s
        (component-append path pre part [] last i p l e) (omega (arith, l, e)) m q c
  scan-Ends root (b ∷ rest) path pre part i last o n s p l e w m q c =
      let g = byte_at path pre part b rest i p e in
      let here = component-append path pre part (b ∷ rest) last i p l e in
      let place : (i ≡ last + length part) = omega (arith, l, e) in
      elim (Bool-cases (b == slash)) [
        | inl f ↦
            subst
              (λ x.
                Ends ns base (follow lookup ns o n x)
                  (finish ops path (scan ops root path (suc (length rest)) i last o n s)))
              (sym (components_cut part b rest f))
              (slash-Ends root path part (length rest) i last b o n s (components [] rest) g f here
                place w m q c
                (λ d u h k.
                  scan-Ends root rest path (pre ++ (part ++ (b ∷ []))) [] (i + 1) (i + 1) (some d)
                    (some d) u (p ∙ split_at pre part b rest)
                    (omega
                      (arith, e, length-append pre (part ++ (b ∷ [])), length-append part (b ∷ [])))
                    (omega
                      (arith, e, length-append pre (part ++ (b ∷ [])), length-append part (b ∷ [])))
                    (inl (omega arith, (d, (h, refl, refl)))) h h k))
        | inr f ↦ elim (Bool-cases (b == 0)) [
          | inl z ↦
              subst
                (λ x.
                  Ends ns base (follow lookup ns o n x)
                    (finish ops path (scan ops root path (suc (length rest)) i last o n s)))
                (sym (components_end part b rest f z))
                (subst
                  (λ x. Ends ns base (follow lookup ns o n (with_part part [])) (finish ops path x))
                  (sym (scan_end root path (length rest) i last b o n s g f z))
                  (end-Ends ops lookup looks ns base shared closed path part last i o n s here place
                    m q c))
          | inr z ↦
              subst
                (λ x.
                  Ends ns base (follow lookup ns o n x)
                    (finish ops path (scan ops root path (suc (length rest)) i last o n s)))
                (sym (components_on part b rest f z))
                (subst
                  (λ x.
                    Ends ns base (follow lookup ns o n (components (part ++ (b ∷ [])) rest))
                      (finish ops path x))
                  (sym (scan_on root path (length rest) i last b o n s g f z))
                  (scan-Ends root rest path pre (part ++ (b ∷ [])) (i + 1) last o n s
                    (p ∙ ap (pre ++◌) (sym (append_assoc part (b ∷ []) rest))) l
                    (omega (arith, e, length-append part (b ∷ [])))
                    (append-Stands last part b o n w) m q c))
        ]
      ]

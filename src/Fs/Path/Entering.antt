-- ===== src/Fs/Path/Entering.antt =====
-- One component: `fs_child_of` beside the pointers that `fs_resolve_path` holds.
use pbos.Common.{
  ℕ, ◌+◌, ◌≡◌, ◌≢◌, sym, ◌∙◌, ap, subst, ◌⊎◌, inl, inr, Option, none, some, List, [], ◌∷◌, length,
  arith,
}
use pbos.Fs.Node.{
  Nodes, Store, Reply, done, failed, stopped, FileSystemOps, km_result_not_found, reset, child_of,
}
use pbos.Fs.Node.Counts.{one, Counts, Counts-ext, IsNode, IsShared, reset-Counts}
use pbos.Fs.Node.Children.{Gives, LooksUp, IsClosed, child, child_of-Gives}
use pbos.Fs.Path.{ended, Entered, entered, refused, broken, component, leave, enter, give, finish}
use pbos.Fs.Path.Components.{with_part, step, follow, Ends}

module _ (ops : ℕ → FileSystemOps) (lookup : ℕ → Nodes → ℕ → List ℕ → ℕ ⊎ ℕ)
    (looks : LooksUp ops lookup) (ns : Nodes) (base : ℕ → ℕ) (shared : IsShared ns base)
    (closed : IsClosed lookup ns) where
  abbrev pub Enters : Option ℕ → ℕ ⊎ ℕ → Entered → Type 0
  Enters o (inl code) e = (t : Store) × ((e ≡ refused code t) × Counts ns base t)
  Enters o (inr b) e =
      (t : Store) × ((e ≡ entered (some b) t)
        × Counts ns (λ i. base i + one o i + one (some b) i) t)

  leave-Counts :
      (code : ℕ) (o n : Option ℕ) (s : Store)
      → IsNode ns o
      → IsNode ns n
      → Counts ns (λ i. base i + one o i + one n i) s
      → (t : Store) × ((leave code o n s ≡ refused code t) × Counts ns base t)
  unfolding leave
  leave-Counts code o n s m l c =
      let r = reset-Counts ns base shared n o s l c in
      let q = reset-Counts ns base shared o none r.0 m (
        Counts-ext ns (λ i. base i + one o i) (λ i. base i + 0 + one o i) r.0 (λ i. omega arith)
          r.1.1) in
      (
        q.0,
        (
          ground (arith, r.1.0, q.1.0),
          Counts-ext ns (λ i. base i + 0) base q.0 (λ i. omega arith) q.1.1,
        ),
      )

  abbrev after_child : ℕ → Reply → Entered
  after_child a (done b t) = entered b t
  after_child a (failed code t) = leave code (some a) none t
  after_child a stopped = broken

  after_child-Enters :
      (a : ℕ) (v : ℕ ⊎ ℕ) (r : Reply)
      → ns a ≢ none
      → Gives ns (λ i. base i + one (some a) i) v r
      → Enters (some a) v (after_child a r)
  after_child-Enters a (inl code) r n g =
      let q = leave-Counts code (some a) none g.0 n tt (
        Counts-ext ns (λ i. base i + one (some a) i) (λ i. base i + one (some a) i + 0) g.0
          (λ i. omega arith) g.1.1) in
      (q.0, (ap (after_child a) g.1.0 ∙ q.1.0, q.1.1))
  after_child-Enters a (inr b) r n g = (g.0, (ap (after_child a) g.1.0, g.1.1))

  enter_eq :
      (name : List ℕ) (a : ℕ) (n : Option ℕ) (s t : Store)
      → reset n s ≡ some t
      → enter ops name (some a) n s ≡ after_child a (child_of ops (some a) name t)
  unfolding enter
  enter_eq name a n s t e = ground (arith, e)

  pub enter-Enters :
      (name : List ℕ) (o n : Option ℕ) (s : Store)
      → IsNode ns o
      → IsNode ns n
      → Counts ns (λ i. base i + one o i + one n i) s
      → Enters o (step lookup ns o name) (enter ops name o n s)
  enter-Enters name none n s m l c = unfold enter in leave-Counts km_result_not_found none n s m l c
  enter-Enters name (some a) n s m l c =
      let r = reset-Counts ns base shared n (some a) s l c in
      subst (Enters (some a) (child lookup ns a name)) (sym (enter_eq name a n s r.0 r.1.0)) (
        after_child-Enters a (child lookup ns a name) (child_of ops (some a) name r.0) m
          (child_of-Gives ops lookup looks ns base shared closed a (some a) name r.0 m r.1.1))

  give-Ends :
      (o n : Option ℕ) (s : Store)
      → IsNode ns o
      → Counts ns (λ i. base i + one o i + one n i) s
      → Ends ns base (inr n) (give o n s)
  unfolding give
  give-Ends o n s m c =
      let r = reset-Counts ns base shared o n s m (
        Counts-ext ns (λ i. base i + one o i + one n i) (λ i. base i + one n i + one o i) s
          (λ i. omega arith) c) in
      (r.0, (ground (arith, r.1.0), r.1.1))

  -- What is left to do behind `end`.
  abbrev last_step : Option ℕ → Entered → Reply
  last_step o (entered found t) = give o found t
  last_step o (refused code t) = failed code t
  last_step o broken = stopped

  last_step-Ends :
      (o : Option ℕ) (v : ℕ ⊎ ℕ) (e : Entered)
      → IsNode ns o
      → Enters o v e
      → Ends ns base (elim v [ inl code ↦ inl code | inr b ↦ inr (some b) ]) (last_step o e)
  last_step-Ends o (inl code) e m g = (g.0, (ap (last_step o) g.1.0, g.1.1))
  last_step-Ends o (inr b) e m g =
      let r = give-Ends o (some b) g.0 m g.1.1 in (r.0, (ap (last_step o) g.1.0 ∙ r.1.0, r.1.1))

  pub end-Ends :
      (path part : List ℕ) (last i : ℕ) (o n : Option ℕ) (s : Store)
      → component path last i ≡ part
      → i ≡ last + length part
      → IsNode ns o
      → IsNode ns n
      → Counts ns (λ i. base i + one o i + one n i) s
      → Ends ns base
          (follow lookup ns o n (with_part part []))
          (finish ops path (ended i last o n s))
  unfolding finish
  end-Ends path [] last i o n s p e m l c =
      subst (Ends ns base (inr n)) (ground (arith, e)) (give-Ends o n s m c)
  end-Ends path (b ∷ part) last i o n s p e m l c =
      subst (Ends ns base (follow lookup ns o n ((b ∷ part) ∷ []))) (ground (arith, e, p)) (
        last_step-Ends o (step lookup ns o (b ∷ part)) (enter ops (b ∷ part) o n s) m
          (enter-Enters (b ∷ part) o n s m l c))

-- ===== src/Fs/Node/Counts.antt =====
-- Reference counts: what the pointers that hold a node add to them.
use pbos.Common.{
  ℕ, ◌+◌, ◌-◌, ◌%◌, ◌^◌, ◌<◌, ◌≡◌, ◌≢◌, refl, ◌∙◌, Option, none, some, ◌==◌, if◌then◌else◌, arith,
}
use pbos.Fs.Node.{Nodes, Store, done, ref_fnode, unref_fnode, reset, hold, assign, give_out}

-- What a pointer adds to the count at `i`.
abbrev pub one : Option ℕ → ℕ → ℕ
one none i = 0
one (some a) i = if a == i then 1 else 0

-- The nodes of a store, and its counts.
abbrev pub Counts : Nodes → (ℕ → ℕ) → Store → Type 0
Counts ns g s = (s.nodes ≡ ns) × ((i : ℕ) → s.counts i ≡ g i)

-- The pointer is null, or to a node.
abbrev pub IsNode : Nodes → Option ℕ → Type 0
IsNode ns none = Unit
IsNode ns (some a) = ns a ≢ none

-- Every node is held from elsewhere, and its count has room for three more pointers.
abbrev pub IsShared : Nodes → (ℕ → ℕ) → Type 0
IsShared ns g = (a : ℕ) → ns a ≢ none → (0 < g a) × (g a + 3 < 2 ^ 64)

pub Counts-ext :
    (ns : Nodes) (g h : ℕ → ℕ) (s : Store) → ((i : ℕ) → g i ≡ h i) → Counts ns g s → Counts ns h s
Counts-ext ns g h s e c = (c.0, λ i. c.1 i ∙ e i)

-- One more reference.
pub ref_fnode-Counts :
    (ns : Nodes) (g : ℕ → ℕ) (a : ℕ) (s : Store)
    → g a + 1 < 2 ^ 64
    → Counts ns g s
    → Counts ns (λ i. g i + one (some a) i) (ref_fnode a s)
unfolding ref_fnode
ref_fnode-Counts ns g a s fits c = (c.0, λ i. ground (arith, c.1 i, fits))

-- One less, of a node that keeps others.
pub unref_fnode-Counts :
    (ns : Nodes) (g : ℕ → ℕ) (a : ℕ) (s : Store)
    → 0 < g a
    → g a + 1 < 2 ^ 64
    → Counts ns (λ i. g i + one (some a) i) s
    → (t : Store) × ((unref_fnode a s ≡ some t) × Counts ns g t)
unfolding unref_fnode
unref_fnode-Counts ns g a s held fits c =
    let left = (s.counts a + (2 ^ 64 - 1)) % 2 ^ 64 in
    (
      record s { counts = λ i. if a == i then left else s.counts i },
      (ground (arith, c.1 a, held, fits), (c.0, λ i. ground (arith, c.1 i, c.1 a, held, fits))),
    )

pub one_small : (o : Option ℕ) (i : ℕ) → one o i < 2
one_small none i = omega arith
one_small (some a) i = ground arith

module _ (ns : Nodes) (base : ℕ → ℕ) (shared : IsShared ns base) where
  -- A pointer is dropped, beside at most two others.
  pub reset-Counts :
      (o p : Option ℕ) (s : Store)
      → IsNode ns o
      → Counts ns (λ i. base i + one p i + one o i) s
      → (t : Store) × ((reset o s ≡ some t) × Counts ns (λ i. base i + one p i) t)
  unfolding reset
  reset-Counts none p s n c = (s, (refl, (c.0, λ i. omega (arith, c.1 i))))
  reset-Counts (some a) none s n c =
      unref_fnode-Counts ns (λ i. base i + 0) a s (omega (arith, (shared a n).0))
        (omega (arith, (shared a n).1)) c
  reset-Counts (some a) (some b) s n c =
      unref_fnode-Counts ns (λ i. base i + one (some b) i) a s (ground (arith, shared a n))
        (ground (arith, shared a n)) c

  pub hold-Counts :
      (o : Option ℕ) (s : Store)
      → IsNode ns o
      → Counts ns base s
      → Counts ns (λ i. base i + one o i) (hold o s)
  unfolding hold
  hold-Counts none s n c = (c.0, λ i. omega (arith, c.1 i))
  hold-Counts (some a) s n c = ref_fnode-Counts ns base a s (omega (arith, (shared a n).1)) c

  -- `file = new_file`.
  pub assign-Counts :
      (o : Option ℕ) (a : ℕ) (s : Store)
      → IsNode ns o
      → ns a ≢ none
      → Counts ns (λ i. base i + one o i + one (some a) i) s
      → (t : Store) × ((assign o (some a) s ≡ some t)
          × Counts ns (λ i. base i + one (some a) i + one (some a) i) t)
  unfolding assign
  assign-Counts o a s n m c =
      let r = reset-Counts o (some a) s n (
        Counts-ext ns (λ i. base i + one o i + one (some a) i)
          (λ i. base i + one (some a) i + one o i) s (λ i. omega arith) c) in
      (
        ref_fnode a r.0,
        (
          ground (arith, r.1.0),
          ref_fnode-Counts ns (λ i. base i + one (some a) i) a r.0 (ground (arith, shared a m))
              r.1.1,
        ),
      )

  -- A child is given out with one more reference.
  pub give_out-Counts :
      (a : ℕ) (o : Option ℕ) (s : Store)
      → ns a ≢ none
      → Counts ns (λ i. base i + one o i) s
      → (t : Store) × ((give_out a s ≡ done (some a) t)
          × Counts ns (λ i. base i + one o i + one (some a) i) t)
  unfolding give_out
  give_out-Counts a o s n c =
      let fits = one_small o a in
      let f = λ (i : ℕ). base i + one o i in
      let g = λ (i : ℕ). f i + one (some a) i in
      let first = ref_fnode-Counts ns f a s (omega (arith, (shared a n).1, fits)) c in
      let second =
        ref_fnode-Counts ns g a (ref_fnode a s) (ground (arith, (shared a n).1, fits)) first in
      let r =
        unref_fnode-Counts ns g a (ref_fnode a (ref_fnode a s)) (ground (arith, (shared a n).0))
          (ground (arith, (shared a n).1, fits)) second in
      (r.0, (ground (arith, r.1.0), r.1.1))

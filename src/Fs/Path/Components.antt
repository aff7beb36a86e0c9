-- ===== src/Fs/Path/Components.antt =====
-- Paths by their components.
use pbos.Common.{
  ℕ, ◌+◌, ◌-◌, ◌≡◌, sym, ◌⊎◌, inl, inr, Bool, true, false, Option, none, some, List, [], ◌∷◌, ◌++◌,
  append_assoc, length, length-append, get_elem?, get_elem?-append, take-append, drop-append, ◌==◌,
  if◌then◌else◌, arith,
}
use pbos.Fs.Node.{Nodes, Store, Reply, done, failed, km_result_not_found}
use pbos.Fs.Node.Counts.{one, Counts}
use pbos.Fs.Node.Children.{child}
use pbos.Fs.Path.{slash, component}

abbrev pub with_part : List ℕ → List (List ℕ) → List (List ℕ)
with_part [] names = names
with_part (b ∷ part) names = (b ∷ part) ∷ names

-- The parts between the slashes but the empty ones, up to a zero byte; `part` is read already.
unfoldable pub components : List ℕ → List ℕ → List (List ℕ)
components part [] = with_part part []
components part (b ∷ rest) = elim (b == slash) [
  | true ↦ with_part part (components [] rest)
  | false ↦ elim (b == 0) [ true ↦ with_part part [] | false ↦ components (part ++ (b ∷ [])) rest ]
]

pub components_cut :
    (part : List ℕ) (b : ℕ) (rest : List ℕ)
    → (b == slash) ≡ true
    → components part (b ∷ rest) ≡ with_part part (components [] rest)
unfolding components
components_cut part b rest e = ground (arith, e)

pub components_end :
    (part : List ℕ) (b : ℕ) (rest : List ℕ)
    → (b == slash) ≡ false
    → (b == 0) ≡ true
    → components part (b ∷ rest) ≡ with_part part []
unfolding components
components_end part b rest e f = ground (arith, e, f)

pub components_on :
    (part : List ℕ) (b : ℕ) (rest : List ℕ)
    → (b == slash) ≡ false
    → (b == 0) ≡ false
    → components part (b ∷ rest) ≡ components (part ++ (b ∷ [])) rest
unfolding components
components_on part b rest e f = ground (arith, e, f)

abbrev pub is_absolute : List ℕ → Bool
is_absolute [] = false
is_absolute (b ∷ path) = b == slash

module _ (lookup : ℕ → Nodes → ℕ → List ℕ → ℕ ⊎ ℕ) (ns : Nodes) where
  abbrev pub step : Option ℕ → List ℕ → ℕ ⊎ ℕ
  step none name = inl km_result_not_found
  step (some a) name = child lookup ns a name

  -- The names are followed from `from`, one after the other; `last` is what has been reached so far.
  abbrev pub follow : Option ℕ → Option ℕ → List (List ℕ) → ℕ ⊎ Option ℕ
  follow from last [] = inr last
  follow from last (name ∷ names) = elim (step from name) [
    | inl code ↦ inl code
    | inr b ↦ follow (some b) (some b) names
  ]

  -- What a path leads to: the components from the root or from the current directory; the null pointer
  -- if a relative path has none.
  abbrev pub resolved : ℕ → Option ℕ → List ℕ → ℕ ⊎ Option ℕ
  resolved root cur_dir path =
      if is_absolute path
      then follow (some root) (some root) (components [] path)
      else follow cur_dir none (components [] path)

pub inr_inj : {a b : ℕ} → ◌≡◌ {A = ℕ ⊎ ℕ} (inr a) (inr b) → a ≡ b
inr_inj h = cc

-- How a resolution ends: with an error code and the counts as they were, or with a node, or the null
-- pointer, and one more reference to it.
abbrev pub Ends : Nodes → (ℕ → ℕ) → ℕ ⊎ Option ℕ → Reply → Type 0
Ends ns base (inl code) r = (t : Store) × ((r ≡ failed code t) × Counts ns base t)
Ends ns base (inr o) r = (t : Store) × ((r ≡ done o t) × Counts ns (λ i. base i + one o i) t)

pub component-append :
    (path pre part rest : List ℕ) (last i : ℕ)
    → path ≡ pre ++ (part ++ rest)
    → last ≡ length pre
    → i ≡ length pre + length part
    → component path last i ≡ part
unfolding component
component-append path pre part rest last i p l e =
    let f : (i - last ≡ length part) = omega (arith, l, e) in
    rw (f, l, p, drop-append pre (part ++ rest), take-append part rest)

pub byte_at :
    (path pre part : List ℕ) (b : ℕ) (rest : List ℕ) (i : ℕ)
    → path ≡ pre ++ (part ++ (b ∷ rest))
    → i ≡ length pre + length part
    → get_elem? path i ≡ some b
byte_at path pre part b rest i p e =
    let f : (i ≡ length (pre ++ part)) = omega (arith, e, length-append pre part) in
    rw (p, f, sym (append_assoc pre part (b ∷ rest)), get_elem?-append (pre ++ part) b rest)

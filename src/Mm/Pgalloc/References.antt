-- ===== src/Mm/Pgalloc/References.antt =====
-- The references of a page that is in use.
use pbos.Common.{
  ℕ, ◌+◌, ◌^◌, ◌<◌, ◌≡◌, refl, some, none, Option, Option-cases, inl, inr, [], List, ◌∷◌, arith,
}
use pbos.Kfxx.Ordered.{find, find_max_lteq, update, IsSorted, Above}
use pbos.Kfxx.Ordered.Laws.{Above-IsSorted, find-update}
use pbos.Mm.Pgalloc.{
  Mad, Pmad, Memory, get_pmad, inside, mark_free, mark_used, modify, put_back, set_page_free,
  set_page_used,
}
use pbos.Mm.Pgalloc.Freeing.{get_pmad-found}

module _ {V : Type 0} where
  update-update : (k : ℕ) (v w : V) (m : List (ℕ × V)) → update k w (update k v m) ≡ update k w m
  unfolding update
  update-update k v w [] = refl
  update-update k v w ((j, u) ∷ m) = ground (arith, update-update k v w m)

  update-same : (k : ℕ) (v : V) (m : List (ℕ × V)) → find k m ≡ some v → update k v m ≡ m
  unfolding update find
  update-same k v [] f = refl
  update-same k v ((j, u) ∷ m) f = ground (arith, update-same k v m)

  find_max_lteq-Above_lem :
      (k j i : ℕ) (v : V) (m : List (ℕ × V)) → Above j m → find_max_lteq k m ≡ some (i, v) → j < i
  unfolding find_max_lteq
  find_max_lteq-Above_lem k j i v [] a f = ground arith
  find_max_lteq-Above_lem k j i v ((l, u) ∷ m) a f = elim (Option-cases (find_max_lteq k m)) [
    | inl n ↦ ground (arith, n, f)
    | inr ((h, w), g) ↦ ground (arith, g, f, find_max_lteq-Above_lem k l h w m a.1 g)
  ]

  find_max_lteq-update :
      (k b : ℕ) (v w : V) (m : List (ℕ × V))
      → IsSorted m
      → find_max_lteq k m ≡ some (b, v)
      → find_max_lteq k (update b w m) ≡ some (b, w)
  unfolding find_max_lteq update
  find_max_lteq-update k b v w [] s f = ground arith
  find_max_lteq-update k b v w ((j, u) ∷ m) s f = elim (Option-cases (find_max_lteq k m)) [
    | inl n ↦ ground (arith, n, f)
    | inr ((h, x), g) ↦ ground (
      arith,
      g,
      f,
      find_max_lteq-Above_lem k j h x m s g,
      find_max_lteq-update k b v w m (Above-IsSorted j m s),
    )
  ]

-- The descriptor with one reference more, and its area.
abbrev pub more : Mad → Mad
more mad = record mad { ref_count = mad.ref_count + 1 }

abbrev pub counted : ℕ → Mad → Pmad → Pmad
counted addr mad area = record area { query_tree = update addr (more mad) area.query_tree }

module _ (addr : ℕ) (mad : Mad) (area : Pmad) (there : find addr area.query_tree ≡ some mad)
    (used : 0 < mad.ref_count) (fits : mad.ref_count + 1 < 2 ^ 64) where
  mark_used-counted : mark_used addr mad area ≡ counted addr mad area
  unfolding mark_used modify
  mark_used-counted = ground (arith, there)

  found-counted : find addr (counted addr mad area).query_tree ≡ some (more mad)
  found-counted = ground (arith, there, find-update addr addr (more mad) mad area.query_tree there)

  mark_free-counted : mark_free addr (more mad) (counted addr mad area) ≡ some area
  unfolding mark_free modify
  mark_free-counted = ground (
    arith,
    found-counted,
    update-update addr (more mad) mad area.query_tree,
    update-same addr mad area.query_tree there,
  )

get_pmad-update :
    (addr base : ℕ) (area changed : Pmad) (mem : Memory)
    → IsSorted mem
    → get_pmad addr mem ≡ some (base, area)
    → changed.len ≡ area.len
    → get_pmad addr (update base changed mem) ≡ some (base, changed)
unfolding get_pmad inside
get_pmad-update addr base area changed mem s f e = elim (Option-cases (find_max_lteq addr mem)) [
  | inl n ↦ ground (arith, n, f)
  | inr ((b, a), g) ↦ ground (arith, g, f, e, find_max_lteq-update addr b a changed mem s g)
]

set_page_used-counted :
    (addr base : ℕ) (area : Pmad) (mad : Mad) (mem : Memory)
    → get_pmad addr mem ≡ some (base, area)
    → find addr area.query_tree ≡ some mad
    → 0 < mad.ref_count
    → mad.ref_count + 1 < 2 ^ 64
    → set_page_used addr mem ≡ some (update base (counted addr mad area) mem)
unfolding set_page_used
set_page_used-counted addr base area mad mem f g used fits =
    ground (arith, f, g, mark_used-counted addr mad area g used fits)

set_page_free-counted :
    (addr base : ℕ) (area : Pmad) (mad : Mad) (mem : Memory)
    → IsSorted mem
    → get_pmad addr mem ≡ some (base, area)
    → find addr area.query_tree ≡ some mad
    → 0 < mad.ref_count
    → mad.ref_count + 1 < 2 ^ 64
    → set_page_free addr (update base (counted addr mad area) mem) ≡ some mem
unfolding set_page_free put_back
set_page_free-counted addr base area mad mem s f g used fits = ground (
  arith,
  get_pmad-update addr base area (counted addr mad area) mem s f refl,
  found-counted addr mad area g used fits,
  mark_free-counted addr mad area g used fits,
  update-update base (counted addr mad area) area mem,
  update-same base area mem (get_pmad-found addr mem base area s f),
)

-- A call of `ki_set_page_free` after another.
abbrev pub then_free : ℕ → Option Memory → Option Memory
then_free addr none = none
then_free addr (some mem) = set_page_free addr mem

-- From areas in order: to count one more reference to a page that has some already, short of the
-- overflow of the counter, and then to release one, ends without a panic and leaves the memory as
-- it was.
pub set_page_free-set_page_used :
    (addr base : ℕ) (area : Pmad) (mad : Mad) (mem : Memory)
    → IsSorted mem
    → get_pmad addr mem ≡ some (base, area)
    → find addr area.query_tree ≡ some mad
    → 0 < mad.ref_count
    → mad.ref_count + 1 < 2 ^ 64
    → then_free addr (set_page_used addr mem) ≡ some mem
set_page_free-set_page_used addr base area mad mem s f g used fits =
    rw (set_page_used-counted addr base area mad mem f g used fits)
      (set_page_free-counted addr base area mad mem s f g used fits)

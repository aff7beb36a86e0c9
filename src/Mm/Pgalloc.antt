-- ===== src/Mm/Pgalloc.antt =====
-- kernel/mm/pgalloc.cc: physical pages. `ki_pmad_tree` and the query tree of each area are their
-- contents in order; a pointer to a MAD is the address of its page, and the free list of an area
-- links MADs of that area. The spin lock of a MAD is taken and released within each call. `none` is
-- a panic or an assertion that fails.
pub mod Freeing
pub mod References
use pbos.Common.{
  ℕ, Bool, false, ◌+◌, ◌-◌, ◌%◌, ◌^◌, Option, none, some, List, [], ◌∷◌, ltb, ◌==◌, if◌then◌else◌,
}
use pbos.Kfxx.Ordered.{find, find_max_lteq, update}

-- `hn_mad_t`.
pub record Mad : Type 0 where
  pub next_free : Option ℕ
  pub prev_free : Option ℕ
  pub ref_count : ℕ

abbrev pub Mads : Type 0
Mads = List (ℕ × Mad)

-- `ki_pmad_t`, without the fields of its direct mapping.
pub record Pmad : Type 0 where
  pub len : ℕ
  pub type_of : ℕ
  pub free_list : Option ℕ
  pub query_tree : Mads

abbrev pub Memory : Type 0
Memory = List (ℕ × Pmad)

unfoldable pub inside : ℕ → Option (ℕ × Pmad) → Option (ℕ × Pmad)
inside addr none = none
inside addr (some (base, area)) =
    if ltb addr ((base + area.len) % 2 ^ 64) then some (base, area) else none

-- `ki_get_pmad`.
unfoldable pub get_pmad : ℕ → Memory → Option (ℕ × Pmad)
unfolding inside
get_pmad addr mem = inside addr (find_max_lteq addr mem)

-- A write through a pointer, unless it is null.
unfoldable pub modify : Option ℕ → (Mad → Mad) → Mads → Mads
modify none f t = t
modify (some a) f t = elim (find a t) [ none ↦ t | some m ↦ update a (f m) t ]

unfoldable pub is_page : Option ℕ → ℕ → Bool
is_page none addr = false
is_page (some a) addr = a == addr

-- The body of `ki_set_page_used` once the MAD is found: it counts, and takes a page that was free
-- out of the free list.
unfoldable pub mark_used : ℕ → Mad → Pmad → Pmad
unfolding modify is_page
mark_used addr mad area =
    let count = λ (m : Mad). record m { ref_count = (m.ref_count + 1) % 2 ^ 64 } in
    let counted = modify (some addr) count area.query_tree in
    let skip = λ (m : Mad). record m { next_free = mad.next_free } in
    let skip_back = λ (m : Mad). record m { prev_free = mad.prev_free } in
    let clear = λ (m : Mad). record m { next_free = none; prev_free = none } in
    let unlinked = modify mad.next_free skip_back (modify mad.prev_free skip counted) in
    if mad.ref_count == 0
    then record area {
      free_list = if is_page area.free_list addr then mad.next_free else area.free_list;
      query_tree = modify (some addr) clear unlinked;
    }
    else record area { query_tree = counted }

-- The body of `ki_set_page_free` once the MAD is found.
unfoldable pub mark_free : ℕ → Mad → Pmad → Option Pmad
unfolding modify
mark_free addr mad area =
    let uncount = λ (m : Mad). record m { ref_count = m.ref_count - 1 } in
    let counted = modify (some addr) uncount area.query_tree in
    let back = λ (m : Mad). record m { prev_free = some addr } in
    let forth = λ (m : Mad). record m { next_free = area.free_list } in
    let linked = modify (some addr) forth (modify area.free_list back counted) in
    if mad.ref_count == 0
    then some area
    else if mad.ref_count == 1
    then elim mad.prev_free [ none ↦ some (record area { query_tree = linked }) | some p ↦ none ]
    else some (record area { query_tree = counted })

-- `ki_set_page_used`, with the search of `kh_get_mad`.
unfoldable pub set_page_used : ℕ → Memory → Option Memory
unfolding get_pmad mark_used
set_page_used addr mem = elim (get_pmad addr mem) [
  | none ↦ none
  | some e ↦ elim (find addr (e.1).query_tree) [
    | none ↦ none
    | some mad ↦ some (update e.0 (mark_used addr mad e.1) mem)
  ]
]

unfoldable pub put_back : ℕ → Memory → Option Pmad → Option Memory
put_back base mem none = none
put_back base mem (some area) = some (update base area mem)

-- `ki_set_page_free`, which is `mm_pgfree`.
unfoldable pub set_page_free : ℕ → Memory → Option Memory
unfolding get_pmad mark_free put_back
set_page_free addr mem = elim (get_pmad addr mem) [
  | none ↦ none
  | some e ↦ elim (find addr (e.1).query_tree) [
    | none ↦ none
    | some mad ↦ put_back e.0 mem (mark_free addr mad e.1)
  ]
]

-- `ki_alloc_free_page`: the head of the first free list of the type.
unfoldable pub alloc_free_page : ℕ → Memory → Option ℕ
alloc_free_page type [] = none
alloc_free_page type ((base, area) ∷ mem) =
    let later = alloc_free_page type mem in
    if area.type_of == type then elim area.free_list [ none ↦ later | some a ↦ some a ] else later

-- `mm_pgalloc`: the page, or none, and the memory. The page at address 0 is taken for a null pointer.
unfoldable pub pgalloc : ℕ → Memory → Option (Option ℕ × Memory)
unfolding set_page_used alloc_free_page
pgalloc type mem = elim (alloc_free_page type mem) [
  | none ↦ some (none, mem)
  | some a ↦
      if a == 0
      then some (none, mem)
      else elim (set_page_used a mem) [ none ↦ none | some after ↦ some (some a, after) ]
]

-- ===== src/Kfxx/List.antt =====
-- include/pbos/kfxx/list.hh: the doubly linked list. Nodes stand in a memory under their addresses;
-- `none` is a null pointer, and the result `none` a failed assertion or a null or freed node that is
-- used. A call that allocates gets the address from the allocator, or `none`.
pub mod Links
pub mod Pushing
pub mod Removal
pub mod Tests
use pbos.Common.{
  ℕ, zero, suc, ◌+◌, ◌-◌, ◌%◌, ◌^◌, Bool, true, false, Option, none, some, List, [], ◌∷◌, ◌==◌,
  if◌then◌else◌,
}

-- `List::Node`.
pub record Node (V : Type 0) : Type 0 where
  pub prev : Option ℕ
  pub next : Option ℕ
  pub value : V

abbrev pub Memory : Type 0 → Type 0
Memory V = ℕ → Option (Node V)

-- `List`, with the memory that its nodes stand in.
pub record Chain (V : Type 0) : Type 0 where
  pub first : Option ℕ
  pub last : Option ℕ
  pub length : ℕ
  pub nodes : Memory V

unfoldable pub same : Option ℕ → Option ℕ → Bool
same none none = true
same none (some b) = false
same (some a) none = false
same (some a) (some b) = a == b

-- `if (!p) p = a`.
unfoldable pub or_else : Option ℕ → ℕ → Option ℕ
or_else none a = some a
or_else (some p) a = some p

module _ {V : Type 0} where
  -- Writes to one node, through a pointer that may be null.
  unfoldable pub put : ℕ → Option (Node V) → Memory V → Memory V
  put a n h i = if i == a then n else h i

  unfoldable pub set_next : Option ℕ → Option ℕ → Memory V → Memory V
  unfolding put
  set_next none p h = h
  set_next (some a) p h = elim (h a) [ none ↦ h | some n ↦ put a (some (record n { next = p })) h ]

  unfoldable pub set_prev : Option ℕ → Option ℕ → Memory V → Memory V
  unfolding put
  set_prev none p h = h
  set_prev (some a) p h = elim (h a) [ none ↦ h | some n ↦ put a (some (record n { prev = p })) h ]

  -- `_alloc_node` at an address.
  unfoldable pub alloc_node : ℕ → V → Chain V → Chain V
  unfolding put
  alloc_node a x c = record c {
    nodes = put a (some (record { prev = none; next = none; value = x })) c.nodes;
  }

  -- `_delete_node`.
  unfoldable pub delete_node : ℕ → Chain V → Chain V
  unfolding put
  delete_node a c = record c { nodes = put a none c.nodes }

  -- The ends and the length after `_prepend` and `_append`.
  unfoldable pub grown : Option ℕ → Option ℕ → ℕ → Memory V → Chain V → Chain V
  unfolding or_else
  grown first last a h c = record {
    first = or_else first a;
    last = or_else last a;
    length = (c.length + 1) % 2 ^ 64;
    nodes = h;
  }

  -- `_prepend`.
  unfoldable pub prepend : Option ℕ → ℕ → Chain V → Option (Chain V)
  unfolding grown same set_next set_prev
  prepend none a c = some (grown c.first c.last a (set_next (some a) none c.nodes) c)
  prepend (some dest) a c = elim (c.nodes dest) [
    | none ↦ none
    | some d ↦
        let before = set_next d.prev (some a) c.nodes in
        let linked = set_prev (some dest) (some a) before in
        let first = if same (some dest) c.first then some a else c.first in
        some (grown first c.last a (set_next (some a) (some dest) linked) c)
  ]

  -- `_append`.
  unfoldable pub append : Option ℕ → ℕ → Chain V → Option (Chain V)
  unfolding grown same set_next set_prev
  append none a c = some (grown c.first c.last a (set_prev (some a) none c.nodes) c)
  append (some dest) a c = elim (c.nodes dest) [
    | none ↦ none
    | some d ↦
        let after = set_prev d.next (some a) c.nodes in
        let linked = set_next (some dest) (some a) after in
        let last = if same (some dest) c.last then some a else c.last in
        some (grown c.first last a (set_prev (some a) (some dest) linked) c)
  ]

  -- `insert_front` and `insert_back` of a node; they return the node.
  unfoldable pub insert_front : ℕ → ℕ → Chain V → Option (ℕ × Chain V)
  unfolding prepend
  insert_front dest a c = elim (prepend (some dest) a c) [ none ↦ none | some d ↦ some (a, d) ]

  unfoldable pub insert_back : ℕ → ℕ → Chain V → Option (ℕ × Chain V)
  unfolding append
  insert_back dest a c = elim (append (some dest) a c) [ none ↦ none | some d ↦ some (a, d) ]

  -- `_remove`, which is `detach`.
  unfoldable pub detach : Option ℕ → Chain V → Option (Chain V)
  unfolding same set_next set_prev
  detach none c = none
  detach (some dest) c = elim (c.nodes dest) [
    | none ↦ none
    | some d ↦ some (record {
      first = if same (some dest) c.first then d.next else c.first;
      last = if same (some dest) c.last then d.prev else c.last;
      length = (c.length + (2 ^ 64 - 1)) % 2 ^ 64;
      nodes = set_prev d.next d.prev (set_next d.prev d.next c.nodes);
    })
  ]

  unfoldable pub remove : ℕ → Chain V → Option (Chain V)
  unfolding detach delete_node
  remove a c = elim (detach (some a) c) [ none ↦ none | some d ↦ some (delete_node a d) ]

  -- `push_front` and `push_back` of data; the flag is whether a node was made.
  unfoldable pub push_front : Option ℕ → V → Chain V → Option (Bool × Chain V)
  unfolding alloc_node prepend
  push_front none x c = some (false, c)
  push_front (some a) x c = elim (prepend c.first a (alloc_node a x c)) [
    | none ↦ none
    | some d ↦ some (true, d)
  ]

  unfoldable pub push_back : Option ℕ → V → Chain V → Option (Bool × Chain V)
  unfolding alloc_node append
  push_back none x c = some (false, c)
  push_back (some a) x c = elim (append c.last a (alloc_node a x c)) [
    | none ↦ none
    | some d ↦ some (true, d)
  ]

  unfoldable pub pop_front : Chain V → Option (Chain V)
  unfolding remove
  pop_front c = elim c.first [ none ↦ none | some a ↦ remove a c ]

  unfoldable pub pop_back : Chain V → Option (Chain V)
  unfolding remove
  pop_back c = elim c.last [ none ↦ none | some a ↦ remove a c ]

  -- `next(cur_node, index)` and `prev(cur_node, index)`.
  unfoldable pub next : Memory V → Option ℕ → ℕ → Option (Option ℕ)
  next h cur zero = some cur
  next h none (suc index) = none
  next h (some a) (suc index) = elim (h a) [ none ↦ none | some n ↦ next h n.next index ]

  unfoldable pub prev : Memory V → Option ℕ → ℕ → Option (Option ℕ)
  prev h cur zero = some cur
  prev h none (suc index) = none
  prev h (some a) (suc index) = elim (h a) [ none ↦ none | some n ↦ prev h n.prev index ]

  -- The walk of `clear` and of the destructor over at most `n` nodes; the rest of the memory.
  unfoldable pub delete_from : ℕ → Option ℕ → Memory V → Option (Memory V)
  unfolding put
  delete_from n none h = some h
  delete_from zero (some a) h = none
  delete_from (suc n) (some a) h = elim (h a) [
    | none ↦ none
    | some d ↦ delete_from n d.next (put a none h)
  ]

  unfoldable pub clear : Chain V → Option (Chain V)
  unfolding delete_from
  clear c = elim (delete_from c.length c.first c.nodes) [
    | none ↦ none
    | some h ↦ some (record { first = none; last = none; length = 0; nodes = h })
  ]

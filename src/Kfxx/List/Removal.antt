-- ===== src/Kfxx/List/Removal.antt =====
-- Removing a node, wherever it stands, and clearing the list.
use pbos.Common.{
  ℕ, ◌+◌, ◌-◌, ◌%◌, ◌^◌, ◌≡◌, ◌≢◌, refl, sym, ◌∙◌, some_inj, false, Option, none, some, List, [],
  ◌∷◌, ◌++◌, length, length-append, if◌then◌else◌, arith,
}
use pbos.Kfxx.List.{
  Node, Memory, Chain, same, put, set_next, set_prev, detach, delete_node, remove, delete_from,
  clear, next, insert_back, append, grown, or_else,
}
use pbos.Kfxx.List.Links.{
  head_or, last_or, Avoids, IsLinked, IsListOf, put-IsLinked, last_or-append, Apart,
  IsLinked-append, IsLinked-Apart, append-IsLinked, append-Avoids, set_prev-IsLinked,
  set_next-IsLinked, set_prev-frame, set_next-frame, Avoids-last, Misses, put_at, set_prev_at,
  set_next_at, set_prev_other, set_next_other,
}

same_first : (a : ℕ) (p : Option ℕ) → p ≢ some a → same (some a) p ≡ false
unfolding same
same_first a none d = refl
same_first a (some b) d = ground (arith, d)

module _ {V : Type 0} where
  Apart-Avoids : (a : ℕ) (x : V) (xs ys : List (ℕ × V)) → Apart xs ((a, x) ∷ ys) → Avoids a xs
  Apart-Avoids a x [] ys d = tt
  Apart-Avoids a x ((b, y) ∷ xs) ys d = (λ e. d.0.0 (sym e), Apart-Avoids a x xs ys d.1)

  Apart-rest : (a : ℕ) (x : V) (xs ys : List (ℕ × V)) → Apart xs ((a, x) ∷ ys) → Apart xs ys
  Apart-rest a x [] ys d = tt
  Apart-rest a x ((b, y) ∷ xs) ys d = (d.0.1, Apart-rest a x xs ys d.1)

  -- The last node of one part does not stand in the other, nor the first.
  last-Misses :
      (p : Option ℕ) (xs ys : List (ℕ × V)) → Misses p ys → Apart xs ys → Misses (last_or p xs) ys
  last-Misses p [] ys m d = m
  last-Misses p ((a, x) ∷ xs) ys m d = last-Misses (some a) xs ys d.0 d.1

  head-Misses : (xs ys : List (ℕ × V)) → Apart xs ys → Misses (head_or none ys) xs
  head-Misses xs [] d = tt
  head-Misses xs ((b, y) ∷ ys) d = Apart-Avoids b y xs ys d

  first_after :
      (a : ℕ) (x : V) (first : Option ℕ) (xs ys : List (ℕ × V))
      → Avoids a xs
      → first ≡ head_or none (xs ++ ((a, x) ∷ ys))
      → (if same (some a) first then head_or none ys else first) ≡ head_or none (xs ++ ys)
  unfolding same
  first_after a x first [] ys v e = ground (arith, e)
  first_after a x first ((b, y) ∷ xs) ys v e = ground (arith, e, v.0)

  last_after :
      (a : ℕ) (x : V) (last : Option ℕ) (xs ys : List (ℕ × V))
      → Avoids a ys
      → last ≡ last_or none (xs ++ ((a, x) ∷ ys))
      → (if same (some a) last then last_or none xs else last) ≡ last_or none (xs ++ ys)
  unfolding same
  last_after a x last xs [] v e =
      ground (arith, e ∙ last_or-append none xs ((a, x) ∷ []), last_or-append none xs [])
  last_after a x last xs ((b, y) ∷ ys) v e =
      let f = e ∙ last_or-append none xs ((a, x) ∷ (b, y) ∷ ys) in
      let g = last_or-append none xs ((b, y) ∷ ys) in
      let n = same_first a last (λ s. Avoids-last a b ys v.0 v.1 (sym f ∙ s)) in
      ground (arith, n, f, g)

  abbrev left : ℕ → Memory V → List (ℕ × V) → List (ℕ × V) → Memory V
  left a h xs ys = put a none (
      set_prev (head_or none ys) (last_or none xs) (set_next (last_or none xs) (head_or none ys) h))

  left-IsLinked :
      (a : ℕ) (x : V) (h : Memory V) (xs ys : List (ℕ × V))
      → IsLinked h none (xs ++ ((a, x) ∷ ys)) none
      → IsLinked (left a h xs ys) none (xs ++ ys) none
  left-IsLinked a x h xs ys l =
      let q = IsLinked-append h none xs ((a, x) ∷ ys) none l in
      let d = IsLinked-Apart h none xs ((a, x) ∷ ys) none l in
      let e = Apart-rest a x xs ys d in
      let p = last_or none xs in
      let n = head_or none ys in
      let h' = set_next p n h in
      put-IsLinked (set_prev n p h') a none none (xs ++ ys) none
        (append-Avoids a xs ys (Apart-Avoids a x xs ys d) q.1.1)
        (append-IsLinked (set_prev n p h') none xs ys none e
          (set_prev-frame n p h' none xs n (head-Misses xs ys e)
            (set_next-IsLinked h none xs (some a) n q.0))
          (set_prev-IsLinked h' (some a) p ys none
            (set_next-frame p n h (some a) ys none (last-Misses none xs ys tt e) q.1.2)))

  -- The list that `remove` leaves.
  abbrev without : ℕ → Chain V → List (ℕ × V) → List (ℕ × V) → Chain V
  without a c xs ys = record {
    first = if same (some a) c.first then head_or none ys else c.first;
    last = if same (some a) c.last then last_or none xs else c.last;
    length = (c.length + (2 ^ 64 - 1)) % 2 ^ 64;
    nodes = left a c.nodes xs ys;
  }

  remove_eq :
      (a : ℕ) (x : V) (c : Chain V) (xs ys : List (ℕ × V))
      → c.nodes a ≡ some (record { prev = last_or none xs; next = head_or none ys; value = x })
      → remove a c ≡ some (without a c xs ys)
  unfolding remove detach delete_node
  remove_eq a x c xs ys e = ground (arith, e)

  -- Of a list, wherever the node at `a` stands in it: `remove` ends, with the list of the other nodes
  -- in their order and the node given back.
  pub remove-IsListOf :
      (a : ℕ) (x : V) (c : Chain V) (xs ys : List (ℕ × V))
      → IsListOf c (xs ++ ((a, x) ∷ ys))
      → (d : Chain V) × ((remove a c ≡ some d) × IsListOf d (xs ++ ys) × (d.nodes a ≡ none))
  remove-IsListOf a x c xs ys l =
      let q = IsLinked-append c.nodes none xs ((a, x) ∷ ys) none l.4 in
      let d = IsLinked-Apart c.nodes none xs ((a, x) ∷ ys) none l.4 in
      let m = length-append xs ((a, x) ∷ ys) in
      let n = length-append xs ys in
      (
        without a c xs ys,
        (
          remove_eq a x c xs ys q.1.0,
          (
            first_after a x c.first xs ys (Apart-Avoids a x xs ys d) l.0,
            last_after a x c.last xs ys q.1.1 l.1,
            omega (arith, l.2, l.3, m, n),
            omega (arith, l.3, m, n),
            left-IsLinked a x c.nodes xs ys l.4,
          ),
          put_at a none (
              set_prev (head_or none ys) (last_or none xs)
                (set_next (last_or none xs) (head_or none ys) c.nodes)),
        ),
      )

  -- No node of the list is left in the memory.
  abbrev pub IsGivenBack : Memory V → List (ℕ × V) → Type 0
  IsGivenBack h [] = Unit
  IsGivenBack h ((a, x) ∷ xs) = (h a ≡ none) × IsGivenBack h xs

  abbrev emptied : Memory V → List (ℕ × V) → Memory V
  emptied h [] = h
  emptied h ((a, x) ∷ xs) = emptied (put a none h) xs

  emptied_unused : (h : Memory V) (xs : List (ℕ × V)) (a : ℕ) → h a ≡ none → emptied h xs a ≡ none
  unfolding put
  emptied_unused h [] a u = u
  emptied_unused h ((b, x) ∷ xs) a u = emptied_unused (put b none h) xs a (ground (arith, u))

  emptied-IsGivenBack : (h : Memory V) (xs : List (ℕ × V)) → IsGivenBack (emptied h xs) xs
  emptied-IsGivenBack h [] = tt
  emptied-IsGivenBack h ((a, x) ∷ xs) =
      (emptied_unused (put a none h) xs a (put_at a none h), emptied-IsGivenBack (put a none h) xs)

  delete_from-emptied :
      (h : Memory V) (p : Option ℕ) (xs : List (ℕ × V))
      → IsLinked h p xs none
      → delete_from (length xs) (head_or none xs) h ≡ some (emptied h xs)
  unfolding delete_from
  delete_from-emptied h p [] l = refl
  delete_from-emptied h p ((a, x) ∷ xs) l =
      let i =
        delete_from-emptied (put a none h) (some a) xs
          (put-IsLinked h a none (some a) xs none l.1 l.2) in
      ground (arith, l.0, i)

  -- Of a list: `clear` ends, within as many steps as the list has nodes, with the empty list and
  -- every node given back.
  pub clear-IsGivenBack :
      (c : Chain V) (xs : List (ℕ × V))
      → IsListOf c xs
      → (d : Chain V) × ((clear c ≡ some d) × IsListOf d [] × IsGivenBack d.nodes xs)
  unfolding clear
  clear-IsGivenBack c xs l = (
    record { first = none; last = none; length = 0; nodes = emptied c.nodes xs },
    (
      ground (arith, l.0, l.2, delete_from-emptied c.nodes none xs l.4),
      (refl, refl, refl, omega arith, tt),
      emptied-IsGivenBack c.nodes xs,
    ),
  )

  -- Of two nodes that follow each other and a third one that is linked to none, `insert_back` after
  -- the first of the two ends; two steps from it then lead to the null pointer, where one led to the
  -- second before.
  pub insert_back_cut :
      (a b z : ℕ) (c : Chain V) (n m : Node V)
      → a ≢ b
      → a ≢ z
      → b ≢ z
      → c.nodes b ≡ some n
      → n.next ≡ some z
      → c.nodes a ≡ some m
      → m.next ≡ none
      → (d : Chain V) × ((insert_back b a c ≡ some (a, d))
          × (next c.nodes (some b) 1 ≡ some (some z))
          × (next d.nodes (some b) 2 ≡ some none))
  unfolding insert_back append grown or_else next
  insert_back_cut a b z c n m d e f nb nn na mm =
      let h1 = set_prev (some z) (some a) c.nodes in
      let h2 = set_next (some b) (some a) h1 in
      let h3 = set_prev (some a) (some b) h2 in
      let b1 = set_prev_other (some z) (some a) c.nodes b (λ s. f (sym (some_inj s))) ∙ nb in
      let b2 = set_next_at b (some a) h1 n b1 in
      let b3 = set_prev_other (some a) (some b) h2 b (λ s. d (some_inj s)) ∙ b2 in
      let a1 = set_prev_other (some z) (some a) c.nodes a (λ s. e (sym (some_inj s))) ∙ na in
      let a2 = set_next_other (some b) (some a) h1 a (λ s. d (sym (some_inj s))) ∙ a1 in
      let a3 = set_prev_at a (some b) h2 m a2 in
      (
        record {
          first = or_else c.first a;
          last = or_else (if same (some b) c.last then some a else c.last) a;
          length = (c.length + 1) % 2 ^ 64;
          nodes = h3;
        },
        (ground (arith, nb, nn), ground (arith, nb, nn), ground (arith, b3, a3, mm)),
      )

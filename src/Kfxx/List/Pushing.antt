-- ===== src/Kfxx/List/Pushing.antt =====
-- Pushing at either end.
use pbos.Common.{
  ℕ, ◌+◌, ◌%◌, ◌<◌, ◌^◌, ◌≡◌, refl, sym, ◌∙◌, Bool, true, false, Option, none, some, List, [], ◌∷◌,
  ◌++◌, length, length-append, arith,
}
use pbos.Kfxx.List.{
  Node, Memory, Chain, same, or_else, put, set_next, set_prev, alloc_node, grown, prepend, append,
  push_front, push_back,
}
use pbos.Kfxx.List.Links.{
  head_or, last_or, Avoids, IsLinked, IsListOf, put-IsLinked, unused-Avoids, last_or-append,
  last_or_defined, last_node, Apart, append-IsLinked, set_prev-IsLinked, set_next-IsLinked,
  set_prev-frame, set_next-frame, set_prev_other, set_next_other, Avoids-last_or, Avoids-head,
  put_at, set_prev_at, set_next_at,
}

module _ {V : Type 0} where
  -- A push ends with a list of one node more, or, if the allocator gives none, with the list as it
  -- was.
  abbrev pub Pushes : Option ℕ → Chain V → List (ℕ × V) → Option (Bool × Chain V) → Type 0
  Pushes none c ys r = r ≡ some (false, c)
  Pushes (some a) c ys r = (d : Chain V) × (r ≡ some (true, d)) × IsListOf d ys

  -- The address that the allocator gives, if any, holds no node yet.
  abbrev pub IsFree : Option ℕ → Chain V → Type 0
  IsFree none c = Unit
  IsFree (some a) c = c.nodes a ≡ none

  abbrev pub with_front : Option ℕ → V → List (ℕ × V) → List (ℕ × V)
  with_front none x xs = xs
  with_front (some a) x xs = (a, x) ∷ xs

  abbrev pub with_back : Option ℕ → V → List (ℕ × V) → List (ℕ × V)
  with_back none x xs = xs
  with_back (some a) x xs = xs ++ ((a, x) ∷ [])

  abbrev made : V → Node V
  made x = record { prev = none; next = none; value = x }

  or_else-last :
      (a : ℕ) (last : Option ℕ) (xs : List (ℕ × V))
      → last ≡ last_or none xs
      → or_else last a ≡ last_or (some a) xs
  unfolding or_else
  or_else-last a last [] e = ground (arith, e)
  or_else-last a last ((b, y) ∷ xs) e = let z = last_or_defined b xs in ground (arith, e, z.1)

  or_else-head :
      (a : ℕ) (first : Option ℕ) (xs : List (ℕ × V)) (x : V)
      → first ≡ head_or none xs
      → or_else first a ≡ head_or none (xs ++ ((a, x) ∷ []))
  unfolding or_else
  or_else-head a first [] x e = ground (arith, e)
  or_else-head a first ((b, y) ∷ xs) x e = ground (arith, e)

  abbrev front_nodes : ℕ → V → Memory V → List (ℕ × V) → Memory V
  front_nodes a x h xs =
      set_next (some a) (head_or none xs)
        (set_prev (head_or none xs) (some a) (put a (some (made x)) h))

  abbrev fronted : ℕ → V → Chain V → List (ℕ × V) → Chain V
  fronted a x c xs = record {
    first = some a;
    last = or_else c.last a;
    length = (c.length + 1) % 2 ^ 64;
    nodes = front_nodes a x c.nodes xs;
  }

  push_front_eq :
      (a : ℕ) (x : V) (c : Chain V) (xs : List (ℕ × V))
      → IsListOf c xs
      → Avoids a xs
      → push_front (some a) x c ≡ some (true, fronted a x c xs)
  unfolding push_front alloc_node prepend grown or_else same put set_prev
  push_front_eq a x c [] l v = ground (arith, l.0)
  push_front_eq a x c ((b, y) ∷ xs) l v = ground (arith, l.0, l.4.0, v.0)

  fronted-IsLinked :
      (a : ℕ) (x : V) (h : Memory V) (xs : List (ℕ × V))
      → IsLinked h none xs none
      → Avoids a xs
      → IsLinked (front_nodes a x h xs) none ((a, x) ∷ xs) none
  fronted-IsLinked a x h xs l v =
      let h' = put a (some (made x)) h in
      let o = head_or none xs in
      (
        set_next_at a o (set_prev o (some a) h') (made x)
            (set_prev_other o (some a) h' a (Avoids-head a xs v) ∙ put_at a (some (made x)) h),
        v,
        set_next-frame (some a) o (set_prev o (some a) h') (some a) xs none v (
            set_prev-IsLinked h' none (some a) xs none
              (put-IsLinked h a (some (made x)) none xs none v l)),
      )

  -- Of a list, and where the allocator's address holds no node yet and the length does not pass the
  -- largest word: `push_front` ends with a list that has the value in front, or, if the allocator
  -- gives none, with the list as it was.
  pub push_front-Pushes :
      (o : Option ℕ) (x : V) (c : Chain V) (xs : List (ℕ × V))
      → IsListOf c xs
      → length xs + 1 < 2 ^ 64
      → IsFree o c
      → Pushes o c (with_front o x xs) (push_front o x c)
  push_front-Pushes none x c xs l fits u = unfold push_front in refl
  push_front-Pushes (some a) x c xs l fits u =
      let v = unused-Avoids c.nodes a none xs none u l.4 in
      (
        fronted a x c xs,
        push_front_eq a x c xs l v,
        (
          refl,
          or_else-last a c.last xs l.1,
          omega (arith, l.2),
          omega arith,
          fronted-IsLinked a x c.nodes xs l.4 v,
        ),
      )

  abbrev back_nodes : ℕ → V → Memory V → List (ℕ × V) → Memory V
  back_nodes a x h xs =
      set_prev (some a) (last_or none xs)
        (set_next (last_or none xs) (some a) (put a (some (made x)) h))

  abbrev backed : ℕ → V → Chain V → List (ℕ × V) → Chain V
  backed a x c xs = record {
    first = or_else c.first a;
    last = some a;
    length = (c.length + 1) % 2 ^ 64;
    nodes = back_nodes a x c.nodes xs;
  }

  append-last :
      (a z : ℕ) (n : Node V) (c : Chain V)
      → c.last ≡ some z
      → c.nodes z ≡ some n
      → n.next ≡ none
      → append c.last a c
        ≡ some (record {
          first = or_else c.first a;
          last = some a;
          length = (c.length + 1) % 2 ^ 64;
          nodes = set_prev (some a) c.last (set_next c.last (some a) c.nodes);
        })
  unfolding append grown same set_prev or_else
  append-last a z n c e h m = ground (arith, e, h, m)

  push_back_eq :
      (a : ℕ) (x : V) (c : Chain V) (xs : List (ℕ × V))
      → IsListOf c xs
      → Avoids a xs
      → push_back (some a) x c ≡ some (true, backed a x c xs)
  unfolding push_back alloc_node append grown or_else set_next set_prev
  push_back_eq a x c [] l v = ground (arith, l.1)
  push_back_eq a x c ((b, y) ∷ xs) l v =
      let h = put a (some (made x)) c.nodes in
      let z =
        last_node h none b y xs none
          (put-IsLinked c.nodes a (some (made x)) none ((b, y) ∷ xs) none v l.4) in
      let e = append-last a z.0 z.1.0 (record c { nodes = h }) (l.1 ∙ z.1.1) z.1.2 z.1.3 in
      ground (arith, e, l.1)

  Apart-one : (a : ℕ) (x : V) (xs : List (ℕ × V)) → Avoids a xs → Apart xs ((a, x) ∷ [])
  Apart-one a x [] v = tt
  Apart-one a x ((b, y) ∷ xs) v = ((λ e. v.0 (sym e), tt), Apart-one a x xs v.1)

  backed-IsLinked :
      (a : ℕ) (x : V) (h : Memory V) (xs : List (ℕ × V))
      → IsLinked h none xs none
      → Avoids a xs
      → IsLinked (back_nodes a x h xs) none (xs ++ ((a, x) ∷ [])) none
  backed-IsLinked a x h xs l v =
      let h' = put a (some (made x)) h in
      let o = last_or none xs in
      append-IsLinked (back_nodes a x h xs) none xs ((a, x) ∷ []) none (Apart-one a x xs v)
        (set_prev-frame (some a) o (set_next o (some a) h') none xs (some a) v (
          set_next-IsLinked h' none xs none (some a)
            (put-IsLinked h a (some (made x)) none xs none v l)))
        (
          set_prev_at a o (set_next o (some a) h') (made x)
              (set_next_other o (some a) h' a (Avoids-last_or a xs v) ∙ put_at a (some (made x)) h),
          tt,
          tt,
        )

  -- Likewise `push_back`, with the value at the end.
  pub push_back-Pushes :
      (o : Option ℕ) (x : V) (c : Chain V) (xs : List (ℕ × V))
      → IsListOf c xs
      → length xs + 1 < 2 ^ 64
      → IsFree o c
      → Pushes o c (with_back o x xs) (push_back o x c)
  push_back-Pushes none x c xs l fits u = unfold push_back in refl
  push_back-Pushes (some a) x c xs l fits u =
      let v = unused-Avoids c.nodes a none xs none u l.4 in
      (
        backed a x c xs,
        push_back_eq a x c xs l v,
        (
          or_else-head a c.first xs x l.0,
          sym (last_or-append none xs ((a, x) ∷ [])),
          omega (arith, l.2, length-append xs ((a, x) ∷ [])),
          omega (arith, length-append xs ((a, x) ∷ [])),
          backed-IsLinked a x c.nodes xs l.4 v,
        ),
      )

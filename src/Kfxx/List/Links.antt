-- ===== src/Kfxx/List/Links.antt =====
-- What a linked list stands for: the addresses and the values of its nodes, in order.
use pbos.Common.{
  ℕ, ◌<◌, ◌^◌, ◌≡◌, ◌≢◌, refl, sym, ◌∙◌, some_inj, Option, none, some, List, [], ◌∷◌, ◌++◌, length,
  arith,
}
use pbos.Kfxx.List.{Node, Memory, Chain, put, set_next, set_prev}

module _ {V : Type 0} where
  -- The addresses of the first and of the last node, or what stands in their place.
  abbrev pub head_or : Option ℕ → List (ℕ × V) → Option ℕ
  head_or p [] = p
  head_or p ((a, x) ∷ xs) = some a

  abbrev pub last_or : Option ℕ → List (ℕ × V) → Option ℕ
  last_or p [] = p
  last_or p ((a, x) ∷ xs) = last_or (some a) xs

  -- No node of the list is at `a`.
  abbrev pub Avoids : ℕ → List (ℕ × V) → Type 0
  Avoids a [] = Unit
  Avoids a ((b, x) ∷ xs) = (a ≢ b) × Avoids a xs

  -- The nodes are linked to each other, the first back to `p` and the last on to `e`.
  abbrev pub IsLinked : Memory V → Option ℕ → List (ℕ × V) → Option ℕ → Type 0
  IsLinked h p [] e = Unit
  IsLinked h p ((a, x) ∷ xs) e =
      (h a ≡ some (record { prev = p; next = head_or e xs; value = x }))
      × Avoids a xs
      × IsLinked h (some a) xs e

  -- The list stands for the nodes.
  abbrev pub IsListOf : Chain V → List (ℕ × V) → Type 0
  IsListOf c xs =
      (c.first ≡ head_or none xs)
      × (c.last ≡ last_or none xs)
      × (c.length ≡ length xs)
      × (length xs < 2 ^ 64)
      × IsLinked c.nodes none xs none

  -- A change at an address that no node has.
  pub put-IsLinked :
      (h : Memory V) (a : ℕ) (n : Option (Node V)) (p : Option ℕ) (xs : List (ℕ × V)) (e : Option ℕ)
      → Avoids a xs
      → IsLinked h p xs e
      → IsLinked (put a n h) p xs e
  unfolding put
  put-IsLinked h a n p [] e v l = tt
  put-IsLinked h a n p ((b, x) ∷ xs) e v l =
      (ground (arith, l.0, v.0), l.1, put-IsLinked h a n (some b) xs e v.1 l.2)

  pub unused-Avoids :
      (h : Memory V) (a : ℕ) (p : Option ℕ) (xs : List (ℕ × V)) (e : Option ℕ)
      → h a ≡ none
      → IsLinked h p xs e
      → Avoids a xs
  unused-Avoids h a p [] e u l = tt
  unused-Avoids h a p ((b, x) ∷ xs) e u l =
      (λ same. absurd (grind (arith, same, u, l.0)), unused-Avoids h a (some b) xs e u l.2)

  pub Avoids-append :
      (a : ℕ) (xs ys : List (ℕ × V)) → Avoids a (xs ++ ys) → Avoids a xs × Avoids a ys
  Avoids-append a [] ys v = (tt, v)
  Avoids-append a ((b, x) ∷ xs) ys v = let w = Avoids-append a xs ys v.1 in ((v.0, w.0), w.1)

  pub append-Avoids :
      (a : ℕ) (xs ys : List (ℕ × V)) → Avoids a xs → Avoids a ys → Avoids a (xs ++ ys)
  append-Avoids a [] ys v w = w
  append-Avoids a ((b, x) ∷ xs) ys v w = (v.0, append-Avoids a xs ys v.1 w)

  pub head_or-append :
      (e : Option ℕ) (xs ys : List (ℕ × V)) → head_or e (xs ++ ys) ≡ head_or (head_or e ys) xs
  head_or-append e [] ys = refl
  head_or-append e (x ∷ xs) ys = refl

  pub last_or-append :
      (p : Option ℕ) (xs ys : List (ℕ × V)) → last_or p (xs ++ ys) ≡ last_or (last_or p xs) ys
  last_or-append p [] ys = refl
  last_or-append p ((a, x) ∷ xs) ys = last_or-append (some a) xs ys

  -- A list of two parts.
  pub IsLinked-append :
      (h : Memory V) (p : Option ℕ) (xs ys : List (ℕ × V)) (e : Option ℕ)
      → IsLinked h p (xs ++ ys) e
      → IsLinked h p xs (head_or e ys) × IsLinked h (last_or p xs) ys e
  IsLinked-append h p [] ys e l = (tt, l)
  IsLinked-append h p ((a, x) ∷ xs) ys e l =
      let q = IsLinked-append h (some a) xs ys e l.2 in
      ((ground (arith, l.0, head_or-append e xs ys), (Avoids-append a xs ys l.1).0, q.0), q.1)

  -- No address stands in both parts.
  abbrev pub Apart : List (ℕ × V) → List (ℕ × V) → Type 0
  Apart [] ys = Unit
  Apart ((a, x) ∷ xs) ys = Avoids a ys × Apart xs ys

  pub IsLinked-Apart :
      (h : Memory V) (p : Option ℕ) (xs ys : List (ℕ × V)) (e : Option ℕ)
      → IsLinked h p (xs ++ ys) e
      → Apart xs ys
  IsLinked-Apart h p [] ys e l = tt
  IsLinked-Apart h p ((a, x) ∷ xs) ys e l =
      ((Avoids-append a xs ys l.1).1, IsLinked-Apart h (some a) xs ys e l.2)

  pub append-IsLinked :
      (h : Memory V) (p : Option ℕ) (xs ys : List (ℕ × V)) (e : Option ℕ)
      → Apart xs ys
      → IsLinked h p xs (head_or e ys)
      → IsLinked h (last_or p xs) ys e
      → IsLinked h p (xs ++ ys) e
  append-IsLinked h p [] ys e d l m = m
  append-IsLinked h p ((a, x) ∷ xs) ys e d l m = (
    ground (arith, l.0, head_or-append e xs ys),
    append-Avoids a xs ys l.1 d.0,
    append-IsLinked h (some a) xs ys e d.1 l.2 m,
  )

  pub set_prev_other :
      (o : Option ℕ) (q : Option ℕ) (h : Memory V) (a : ℕ) → o ≢ some a → set_prev o q h a ≡ h a
  unfolding set_prev put
  set_prev_other none q h a d = refl
  set_prev_other (some b) q h a d = ground (arith, d)

  pub set_next_other :
      (o : Option ℕ) (q : Option ℕ) (h : Memory V) (a : ℕ) → o ≢ some a → set_next o q h a ≡ h a
  unfolding set_next put
  set_next_other none q h a d = refl
  set_next_other (some b) q h a d = ground (arith, d)

  pub set_prev_at :
      (a : ℕ) (q : Option ℕ) (h : Memory V) (n : Node V)
      → h a ≡ some n
      → set_prev (some a) q h a ≡ some (record n { prev = q })
  unfolding set_prev put
  set_prev_at a q h n e = ground (arith, e)

  pub set_next_at :
      (a : ℕ) (q : Option ℕ) (h : Memory V) (n : Node V)
      → h a ≡ some n
      → set_next (some a) q h a ≡ some (record n { next = q })
  unfolding set_next put
  set_next_at a q h n e = ground (arith, e)

  pub put_at : (a : ℕ) (n : Option (Node V)) (h : Memory V) → put a n h a ≡ n
  unfolding put
  put_at a n h = ground arith

  pub Avoids-last :
      (a b : ℕ) (xs : List (ℕ × V)) → a ≢ b → Avoids a xs → last_or (some b) xs ≢ some a
  Avoids-last a b [] d v e = d (sym (some_inj e))
  Avoids-last a b ((c, x) ∷ xs) d v e = Avoids-last a c xs v.0 v.1 e

  pub last_or_defined : (b : ℕ) (xs : List (ℕ × V)) → (z : ℕ) × (last_or (some b) xs ≡ some z)
  last_or_defined b [] = (b, refl)
  last_or_defined b ((c, x) ∷ xs) = last_or_defined c xs

  -- The last node is in the memory, and leads on to what follows.
  pub last_node :
      (h : Memory V) (p : Option ℕ) (b : ℕ) (y : V) (xs : List (ℕ × V)) (e : Option ℕ)
      → IsLinked h p ((b, y) ∷ xs) e
      → (z : ℕ) × ((n : Node V) × (last_or (some b) xs ≡ some z) × (h z ≡ some n) × (n.next ≡ e))
  last_node h p b y [] e l = (b, (record { prev = p; next = e; value = y }, refl, l.0, refl))
  last_node h p b y ((c, x) ∷ xs) e l = last_node h (some b) c x xs e l.2

  -- The first node does not stand among others that avoid it.
  pub Avoids-head : (a : ℕ) (xs : List (ℕ × V)) → Avoids a xs → head_or none xs ≢ some a
  Avoids-head a [] v e = absurd (grind (arith, e))
  Avoids-head a ((b, x) ∷ xs) v e = v.0 (sym (some_inj e))

  pub Avoids-last_or : (a : ℕ) (xs : List (ℕ × V)) → Avoids a xs → last_or none xs ≢ some a
  Avoids-last_or a [] v e = absurd (grind (arith, e))
  Avoids-last_or a ((b, x) ∷ xs) v e = Avoids-last a b xs v.0 v.1 e

  -- A pointer that leads to no node of the list.
  abbrev pub Misses : Option ℕ → List (ℕ × V) → Type 0
  Misses none xs = Unit
  Misses (some a) xs = Avoids a xs

  missing_first :
      (o : Option ℕ) (b : ℕ) (x : V) (xs : List (ℕ × V)) → Misses o ((b, x) ∷ xs) → o ≢ some b
  missing_first none b x xs m e = absurd (grind (arith, e))
  missing_first (some a) b x xs m e = m.0 (some_inj e)

  missing_rest :
      (o : Option ℕ) (b : ℕ) (x : V) (xs : List (ℕ × V)) → Misses o ((b, x) ∷ xs) → Misses o xs
  missing_rest none b x xs m = tt
  missing_rest (some a) b x xs m = m.1

  pub set_prev-frame :
      (o q : Option ℕ) (h : Memory V) (p : Option ℕ) (xs : List (ℕ × V)) (e : Option ℕ)
      → Misses o xs
      → IsLinked h p xs e
      → IsLinked (set_prev o q h) p xs e
  set_prev-frame o q h p [] e m l = tt
  set_prev-frame o q h p ((b, x) ∷ xs) e m l = (
    set_prev_other o q h b (missing_first o b x xs m) ∙ l.0,
    l.1,
    set_prev-frame o q h (some b) xs e (missing_rest o b x xs m) l.2,
  )

  pub set_next-frame :
      (o q : Option ℕ) (h : Memory V) (p : Option ℕ) (xs : List (ℕ × V)) (e : Option ℕ)
      → Misses o xs
      → IsLinked h p xs e
      → IsLinked (set_next o q h) p xs e
  set_next-frame o q h p [] e m l = tt
  set_next-frame o q h p ((b, x) ∷ xs) e m l = (
    set_next_other o q h b (missing_first o b x xs m) ∙ l.0,
    l.1,
    set_next-frame o q h (some b) xs e (missing_rest o b x xs m) l.2,
  )

  -- The links at the ends are set through the first and the last node.
  pub set_prev-IsLinked :
      (h : Memory V) (p q : Option ℕ) (xs : List (ℕ × V)) (e : Option ℕ)
      → IsLinked h p xs e
      → IsLinked (set_prev (head_or none xs) q h) q xs e
  unfolding set_prev put
  set_prev-IsLinked h p q [] e l = tt
  set_prev-IsLinked h p q ((a, x) ∷ xs) e l =
      (ground (arith, l.0), l.1, set_prev-frame (some a) q h (some a) xs e l.1 l.2)

  pub set_next-IsLinked :
      (h : Memory V) (p : Option ℕ) (xs : List (ℕ × V)) (e f : Option ℕ)
      → IsLinked h p xs e
      → IsLinked (set_next (last_or none xs) f h) p xs f
  unfolding set_next put
  set_next-IsLinked h p [] e f l = tt
  set_next-IsLinked h p ((a, x) ∷ []) e f l = (ground (arith, l.0), tt, tt)
  set_next-IsLinked h p ((a, x) ∷ (b, y) ∷ xs) e f l = (
    set_next_other (last_or (some b) xs) f h a (Avoids-last a b xs l.1.0 l.1.1) ∙ l.0,
    l.1,
    set_next-IsLinked h (some a) ((b, y) ∷ xs) e f l.2,
  )

-- ===== src/Kfxx/Hashset/Insertion.antt =====
-- Inserting an element, and looking elements up afterwards.
use pbos.Common.{
  ℕ, ◌+◌, ◌%◌, ◌^◌, ◌<◌, ◌≡◌, ◌≢◌, refl, sym, ◌∙◌, ap, subst, Bool, true, false, ◌||◌, none, some,
  List, [], ◌∷◌, length, All, ◌==◌, Bool-cases, Option-cases, inl, inr, arith,
}
use native.Mathlib.Nat.{mod-lt}
use pbos.Kfxx.Hashset.{
  Element, HashSet, Grants, Result, succeeded, bucket_at, set_bucket, push_at, new_table, contains,
  overwrite, inserted, insert_into, insert, get,
}
use pbos.Kfxx.Hashset.Buckets.{
  has, holds, Belongs, IsPlaced, IsTable, length-set_bucket, contains-holds, zero_add,
}
use pbos.Kfxx.Hashset.Resizing.{
  IsSound, holds-set_bucket, set_bucket-IsPlaced, bucket_at-Belongs, inserted-Same,
}

module _ {T : Type 0} (eq : T → T → Bool) (hash : T → ℕ) where
  -- What an insertion that succeeds leaves, of buckets that held `olds`: the same elements and `x`.
  abbrev Adds : T → List (List (Element T)) → Result × HashSet T → Type 0
  Adds x olds r =
      IsTable eq hash (length r.1.buckets) r.1.buckets
      × ((z : T) → holds eq hash z r.1.buckets ≡ (eq x z || holds eq hash z olds))

  pub into_overwritten :
      (force : Bool) (g : Grants) (x : T) (s : HashSet T) (c : List (Element T))
      → overwrite eq hash x (bucket_at (hash x % length s.buckets) s.buckets) ≡ some c
      → insert_into eq hash force g x s
        ≡ inserted eq hash force g
            (hash x % length s.buckets)
            (record s { buckets = set_bucket (hash x % length s.buckets) c s.buckets })
  unfolding insert_into
  into_overwritten force g x s c f = ground (arith, f)

  pub into_pushed :
      (force : Bool) (g : Grants) (x : T) (s : HashSet T)
      → overwrite eq hash x (bucket_at (hash x % length s.buckets) s.buckets) ≡ none
      → g.list_node ≡ true
      → insert_into eq hash force g x s
        ≡ inserted eq hash force g (hash x % length s.buckets) (record s {
          buckets =
              set_bucket
                (hash x % length s.buckets)
                (record { data_of = x; hash_code = hash x }
                  ∷ bucket_at (hash x % length s.buckets) s.buckets)
                s.buckets;
        })
  unfolding insert_into push_at
  into_pushed force g x s f k = ground (arith, f, k)

  refused_node :
      (force : Bool) (g : Grants) (x : T) (s : HashSet T)
      → overwrite eq hash x (bucket_at (hash x % length s.buckets) s.buckets) ≡ none
      → g.list_node ≡ false
      → (insert_into eq hash force g x s).0 ≢ succeeded
  unfolding insert_into
  refused_node force g x s f k = ground (arith, f, k)

  pub insert_nonempty :
      (force : Bool) (g : Grants) (x : T) (s : HashSet T)
      → (length s.buckets == 0) ≡ false
      → insert eq hash force g x s ≡ insert_into eq hash force g x s
  unfolding insert
  insert_nonempty force g x s e = ground (arith, e)

  insert_first :
      (force : Bool) (g : Grants) (x : T) (s : HashSet T)
      → (length s.buckets == 0) ≡ true
      → (insert eq hash force g x s).0 ≡ succeeded
      → insert eq hash force g x s ≡ insert_into eq hash force g x (record s { buckets = [] ∷ [] })
  unfolding insert new_table
  insert_first force g x s e f = ground (arith, e, f)

  contains_nothing :
      (z : T) (s : HashSet T) → (length s.buckets == 0) ≡ true → contains eq hash s z ≡ false
  unfolding contains get
  contains_nothing z s e = ground (arith, e)

  pub positive : (n : ℕ) → (n == 0) ≡ false → 0 < n
  positive n e = ground (arith, e)

  module _ (congruent : (a b : T) → eq a b ≡ true → hash a ≡ hash b)
      (alike : (a b : T) → eq a b ≡ true → (z : T) → eq a z ≡ eq b z) where
    overwrite-has :
        (x z : T) (b c : List (Element T))
        → overwrite eq hash x b ≡ some c
        → has eq hash z c ≡ (eq x z || has eq hash z b)
    unfolding overwrite
    overwrite-has x z [] c h = absurd (grind (arith, h))
    overwrite-has x z (e ∷ es) c h = elim (Bool-cases (eq e.data_of x)) [
      | inl f ↦ ground (arith, h, f, alike e.data_of x f z)
      | inr f ↦ elim (Option-cases (overwrite eq hash x es)) [
        | inl k ↦ absurd (grind (arith, h, f, k))
        | inr (fs, k) ↦ ground (arith, h, f, k, overwrite-has x z es fs k)
      ]
    ]

    overwrite-Belongs :
        (n j : ℕ) (x : T) (b c : List (Element T))
        → All (Belongs eq hash n j) b
        → overwrite eq hash x b ≡ some c
        → All (Belongs eq hash n j) c
    unfolding overwrite
    overwrite-Belongs n j x [] c w h = absurd (grind (arith, h))
    overwrite-Belongs n j x (e ∷ es) c w h = elim (Bool-cases (eq e.data_of x)) [
      | inl f ↦
          let q : (record e { data_of = x } ∷ es ≡ c) = ground (arith, h, f) in
          subst (All (Belongs eq hash n j)) q ((w.0.0 ∙ congruent e.data_of x f, w.0.1), w.1)
      | inr f ↦ elim (Option-cases (overwrite eq hash x es)) [
        | inl k ↦ absurd (grind (arith, h, f, k))
        | inr (fs, k) ↦
            let q : (e ∷ fs ≡ c) = ground (arith, h, f, k) in
            subst (All (Belongs eq hash n j)) q (w.0, overwrite-Belongs n j x es fs w.1 k)
      ]
    ]

    -- The bucket of `x` is changed so that it has `x` too.
    then_inserted :
        (force : Bool) (g : Grants) (x : T) (s : HashSet T) (c : List (Element T))
        → IsTable eq hash (length s.buckets) s.buckets
        → length s.buckets < 2 ^ 63
        → All (Belongs eq hash (length s.buckets) (0 + hash x % length s.buckets)) c
        → ((z : T)
            → has eq hash z c
              ≡ (eq x z || has eq hash z (bucket_at (hash x % length s.buckets) s.buckets)))
        → (inserted eq hash force g
            (hash x % length s.buckets)
            (record s { buckets = set_bucket (hash x % length s.buckets) c s.buckets })).0
          ≡ succeeded
        → Adds x s.buckets (
            inserted eq hash force g
              (hash x % length s.buckets)
              (record s { buckets = set_bucket (hash x % length s.buckets) c s.buckets }))
    then_inserted force g x s c t m w h e =
        let i = hash x % length s.buckets in
        let s1 = record s { buckets = set_bucket i c s.buckets } in
        let q = length-set_bucket eq hash i c s.buckets in
        let a =
          inserted-Same eq hash force g i s1 (omega (arith, q, t.0)) (omega (arith, q, m))
            (subst (λ k. IsPlaced eq hash k 0 (set_bucket i c s.buckets)) (sym q)
              (set_bucket-IsPlaced eq hash (length s.buckets) 0 i c s.buckets w t.2))
            e in
        (
          a.0,
          λ z.
              a.1 z ∙ holds-set_bucket eq hash z (eq x z) i c s.buckets (mod-lt (hash x) t.0) (h z),
        )

    insert_into-Adds :
        (force : Bool) (g : Grants) (x : T) (s : HashSet T)
        → IsTable eq hash (length s.buckets) s.buckets
        → length s.buckets < 2 ^ 63
        → (insert_into eq hash force g x s).0 ≡ succeeded
        → Adds x s.buckets (insert_into eq hash force g x s)
    insert_into-Adds force g x s t m e =
        let i = hash x % length s.buckets in
        let b = bucket_at i s.buckets in
        let w = bucket_at-Belongs eq hash (length s.buckets) 0 i s.buckets t.2 in
        elim (Option-cases (overwrite eq hash x b)) [
          | inl f ↦ elim (Bool-cases g.list_node) [
            | inl k ↦
                let q = into_pushed force g x s f k in
                subst (Adds x s.buckets) (sym q) (
                  then_inserted force g x s (record { data_of = x; hash_code = hash x } ∷ b) t m
                    ((refl, zero_add i), w) (λ z. refl)
                    (sym (ap (λ (r : Result × HashSet T). r.0) q) ∙ e))
            | inr k ↦ absurd (refused_node force g x s f k e)
          ]
          | inr (c, f) ↦
              let q = into_overwritten force g x s c f in
              subst (Adds x s.buckets) (sym q) (
                then_inserted force g x s c t m
                  (overwrite-Belongs (length s.buckets) (0 + i) x b c w f)
                  (λ z. overwrite-has x z b c f) (sym (ap (λ (r : Result × HashSet T). r.0) q) ∙ e))
        ]

    from_Adds :
        (x z : T) (olds : List (List (Element T))) (v : Bool) (r : Result × HashSet T)
        → Adds x olds r
        → holds eq hash z olds ≡ v
        → IsSound eq hash r.1 × (contains eq hash r.1 z ≡ (eq x z || v))
    from_Adds x z olds v r a h =
        (a.0.2, contains-holds eq hash congruent z r.1 a.0 ∙ (a.1 z ∙ ap (eq x z ||◌) h))

    -- Where equal elements have equal hash codes and compare alike, of a set whose elements stand in
    -- their buckets, at most 2^63 - 1 of them: where `insert` or `insert_without_resize_buckets` succeeds, the elements of the set that it leaves stand in their
    -- buckets too, through a resize as well, and `contains` finds in it what is equal to the new
    -- element and what it found before, and nothing else.
    pub insert-contains :
        (force : Bool) (g : Grants) (x z : T) (s : HashSet T)
        → IsSound eq hash s
        → length s.buckets < 2 ^ 63
        → (insert eq hash force g x s).0 ≡ succeeded
        → IsSound eq hash (insert eq hash force g x s).1
          × (contains eq hash (insert eq hash force g x s).1 z ≡ (eq x z || contains eq hash s z))
    insert-contains force g x z s p m e = elim (Bool-cases (length s.buckets == 0)) [
      | inl f ↦
          let q = insert_first force g x s f e in
          subst
            (λ r. IsSound eq hash r.1 × (contains eq hash r.1 z ≡ (eq x z || contains eq hash s z)))
            (sym q)
            (from_Adds x z ([] ∷ []) (contains eq hash s z)
              (insert_into eq hash force g x (record s { buckets = [] ∷ [] }))
              (insert_into-Adds force g x (record s { buckets = [] ∷ [] })
                (omega arith, refl, (tt, tt)) (omega arith)
                (sym (ap (λ (r : Result × HashSet T). r.0) q) ∙ e))
              (sym (contains_nothing z s f)))
      | inr f ↦
          let q = insert_nonempty force g x s f in
          let t : IsTable eq hash (length s.buckets) s.buckets =
            (positive (length s.buckets) f, refl, p) in
          subst
            (λ r. IsSound eq hash r.1 × (contains eq hash r.1 z ≡ (eq x z || contains eq hash s z)))
            (sym q)
            (from_Adds x z s.buckets (contains eq hash s z) (insert_into eq hash force g x s)
              (insert_into-Adds force g x s t m (sym (ap (λ (r : Result × HashSet T). r.0) q) ∙ e))
              (sym (contains-holds eq hash congruent z s t)))
    ]

-- ===== src/Kfxx/Hashset/Buckets.antt =====
-- Which elements stand in the buckets, and where.
use pbos.Common.{
  ℕ, zero, suc, ◌+◌, ◌%◌, ◌<◌, ◌≡◌, ◌≢◌, refl, sym, ◌∙◌, ap, subst, Bool, true, false, ◌||◌, none,
  some, List, [], ◌∷◌, length, All, Bool-cases, inl, inr, arith,
}
use native.Mathlib.Nat.{mod-lt}
use pbos.Kfxx.Hashset.{
  Element, HashSet, bucket_at, set_bucket, push_at, new_table, move_bucket, move_buckets,
  get_bucket_slot, get, contains,
}

pub zero_add : (k : ℕ) → k ≡ 0 + k
zero_add k = omega arith

module _ {T : Type 0} (eq : T → T → Bool) (hash : T → ℕ) where
  -- Some element of the bucket, or of the buckets, is equal to `x`.
  abbrev pub has : T → List (Element T) → Bool
  has x [] = false
  has x (e ∷ es) = eq e.data_of x || has x es

  abbrev pub holds : T → List (List (Element T)) → Bool
  holds x [] = false
  holds x (b ∷ bs) = has x b || holds x bs

  -- The element knows its hash code, and belongs to the bucket of index `j` of `n`.
  abbrev pub Belongs : ℕ → ℕ → Element T → Type 0
  Belongs n j e = (e.hash_code ≡ hash e.data_of) × (e.hash_code % n ≡ j)

  -- Every element stands in its bucket; the buckets from index `j` on.
  abbrev pub IsPlaced : ℕ → ℕ → List (List (Element T)) → Type 0
  IsPlaced n j [] = Unit
  IsPlaced n j (b ∷ bs) = All (Belongs n j) b × IsPlaced n (suc j) bs

  abbrev pub IsHashed : List (Element T) → Type 0
  IsHashed b = All (λ (e : Element T). e.hash_code ≡ hash e.data_of) b

  or_false : (a : Bool) → (a || false) ≡ a
  or_false a = ground arith

  or_swap : (a b c : Bool) → (a || (b || c)) ≡ (b || (a || c))
  or_swap a b c = ground arith

  pub length-set_bucket :
      (i : ℕ) (c : List (Element T)) (bs : List (List (Element T)))
      → length (set_bucket i c bs) ≡ length bs
  unfolding set_bucket
  length-set_bucket i c [] = refl
  length-set_bucket zero c (b ∷ bs) = refl
  length-set_bucket (suc i) c (b ∷ bs) = ap (λ (k : ℕ). suc k) (length-set_bucket i c bs)

  pub holds-push_at :
      (x : T) (i : ℕ) (e : Element T) (bs : List (List (Element T)))
      → i < length bs
      → holds x (push_at i e bs) ≡ (eq e.data_of x || holds x bs)
  unfolding push_at bucket_at set_bucket
  holds-push_at x i e [] l = absurd (omega (arith, l))
  holds-push_at x zero e (b ∷ bs) l = ground arith
  holds-push_at x (suc i) e (b ∷ bs) l =
      let h = holds-push_at x i e bs (omega (arith, l)) in
      ap (has x b ||◌) h ∙ or_swap (has x b) (eq e.data_of x) (holds x bs)

  pub push_at-IsPlaced :
      (n j i : ℕ) (e : Element T) (bs : List (List (Element T)))
      → Belongs n (j + i) e
      → IsPlaced n j bs
      → IsPlaced n j (push_at i e bs)
  unfolding push_at bucket_at set_bucket
  push_at-IsPlaced n j i e [] h p = p
  push_at-IsPlaced n j zero e (b ∷ bs) h p = (((h.0, omega (arith, h.1)), p.0), p.1)
  push_at-IsPlaced n j (suc i) e (b ∷ bs) h p =
      (p.0, push_at-IsPlaced n (suc j) i e bs (h.0, omega (arith, h.1)) p.1)

  pub holds-new_table : (x : T) (n : ℕ) → holds x (new_table n) ≡ false
  unfolding new_table
  holds-new_table x zero = refl
  holds-new_table x (suc n) = holds-new_table x n

  pub new_table-IsPlaced : (n j k : ℕ) → IsPlaced n j (new_table k)
  unfolding new_table
  new_table-IsPlaced n j zero = tt
  new_table-IsPlaced n j (suc k) = (tt, new_table-IsPlaced n (suc j) k)

  pub length-new_table : (n : ℕ) → length (new_table {T = T} n) ≡ n
  unfolding new_table
  length-new_table zero = refl
  length-new_table (suc n) = ap (λ (k : ℕ). suc k) (length-new_table n)

  length-push_at :
      (i : ℕ) (e : Element T) (bs : List (List (Element T))) → length (push_at i e bs) ≡ length bs
  unfolding push_at
  length-push_at i e bs = length-set_bucket i (e ∷ bucket_at i bs) bs

  or_assoc : (a b c : Bool) → (a || (b || c)) ≡ ((a || b) || c)
  or_assoc a b c = ground arith

  -- A table of `n` buckets, with every element in its bucket.
  abbrev pub IsTable : ℕ → List (List (Element T)) → Type 0
  IsTable n bs = (0 < n) × (length bs ≡ n) × IsPlaced n 0 bs

  pub push_at-IsTable :
      (n : ℕ) (e : Element T) (bs : List (List (Element T)))
      → e.hash_code ≡ hash e.data_of
      → IsTable n bs
      → IsTable n (push_at (e.hash_code % n) e bs)
  push_at-IsTable n e bs h t = (
    t.0,
    length-push_at (e.hash_code % n) e bs ∙ t.1,
    push_at-IsPlaced n 0 (e.hash_code % n) e bs (h, zero_add (e.hash_code % n)) t.2,
  )

  in_table :
      (n : ℕ) (e : Element T) (bs : List (List (Element T)))
      → IsTable n bs
      → e.hash_code % n < length bs
  in_table n e bs t = subst (λ k. e.hash_code % n < k) (sym t.1) (mod-lt e.hash_code t.0)

  pub move_bucket-IsTable :
      (n : ℕ) (es : List (Element T)) (bs : List (List (Element T)))
      → IsHashed es
      → IsTable n bs
      → IsTable n (move_bucket n es bs)
  unfolding move_bucket
  move_bucket-IsTable n [] bs h t = t
  move_bucket-IsTable n (e ∷ es) bs h t =
      move_bucket-IsTable n es (push_at (e.hash_code % n) e bs) h.1 (push_at-IsTable n e bs h.0 t)

  pub holds-move_bucket :
      (x : T) (n : ℕ) (es : List (Element T)) (bs : List (List (Element T)))
      → IsHashed es
      → IsTable n bs
      → holds x (move_bucket n es bs) ≡ (has x es || holds x bs)
  unfolding move_bucket
  holds-move_bucket x n [] bs h t = refl
  holds-move_bucket x n (e ∷ es) bs h t =
      holds-move_bucket x n es (push_at (e.hash_code % n) e bs) h.1 (push_at-IsTable n e bs h.0 t)
      ∙ (ap (has x es ||◌) (holds-push_at x (e.hash_code % n) e bs (in_table n e bs t))
          ∙ (or_swap (has x es) (eq e.data_of x) (holds x bs)
              ∙ or_assoc (eq e.data_of x) (has x es) (holds x bs)))

  Belongs-IsHashed : (n j : ℕ) (b : List (Element T)) → All (Belongs n j) b → IsHashed b
  Belongs-IsHashed n j [] h = tt
  Belongs-IsHashed n j (e ∷ es) h = (h.0.0, Belongs-IsHashed n j es h.1)

  pub move_buckets-IsTable :
      (n m j : ℕ) (olds bs : List (List (Element T)))
      → IsPlaced m j olds
      → IsTable n bs
      → IsTable n (move_buckets n olds bs)
  unfolding move_buckets
  move_buckets-IsTable n m j [] bs p t = t
  move_buckets-IsTable n m j (old ∷ olds) bs p t =
      move_buckets-IsTable n m (suc j) olds (move_bucket n old bs) p.1
        (move_bucket-IsTable n old bs (Belongs-IsHashed m j old p.0) t)

  pub holds-move_buckets :
      (x : T) (n m j : ℕ) (olds bs : List (List (Element T)))
      → IsPlaced m j olds
      → IsTable n bs
      → holds x (move_buckets n olds bs) ≡ (holds x olds || holds x bs)
  unfolding move_buckets
  holds-move_buckets x n m j [] bs p t = refl
  holds-move_buckets x n m j (old ∷ olds) bs p t =
      let h = Belongs-IsHashed m j old p.0 in
      holds-move_buckets x n m (suc j) olds (move_bucket n old bs) p.1
        (move_bucket-IsTable n old bs h t)
      ∙ (ap (holds x olds ||◌) (holds-move_bucket x n old bs h t)
          ∙ (or_swap (holds x olds) (has x old) (holds x bs)
              ∙ or_assoc (has x old) (holds x olds) (holds x bs)))

  module _ (congruent : (a b : T) → eq a b ≡ true → hash a ≡ hash b) where
    absent :
        (x : T) (n j : ℕ) (b : List (Element T))
        → hash x % n ≢ j
        → All (Belongs n j) b
        → has x b ≡ false
    absent x n j [] d h = refl
    absent x n j (e ∷ es) d h = elim (Bool-cases (eq e.data_of x)) [
      | inl f ↦ absurd (d (ap (λ k. k % n) (sym (h.0.0 ∙ congruent e.data_of x f)) ∙ h.0.1))
      | inr f ↦ ap (λ v. v || has x es) f ∙ absent x n j es d h.1
    ]

    absent_from :
        (x : T) (n j : ℕ) (bs : List (List (Element T)))
        → hash x % n < j
        → IsPlaced n j bs
        → holds x bs ≡ false
    absent_from x n j [] l p = refl
    absent_from x n j (b ∷ bs) l p =
        ap (λ v. v || holds x bs) (absent x n j b (λ z. omega (arith, z, l)) p.0)
        ∙ absent_from x n (suc j) bs (omega (arith, l)) p.1

    -- One bucket tells whether the table holds `x`.
    pub has-bucket_at :
        (x : T) (n j i : ℕ) (bs : List (List (Element T)))
        → hash x % n ≡ j + i
        → IsPlaced n j bs
        → has x (bucket_at i bs) ≡ holds x bs
    unfolding bucket_at
    has-bucket_at x n j i [] e p = refl
    has-bucket_at x n j zero (b ∷ bs) e p =
        sym (
          ap (has x b ||◌) (absent_from x n (suc j) bs (omega (arith, e)) p.1) ∙ or_false (has x b))
    has-bucket_at x n j (suc i) (b ∷ bs) e p =
        has-bucket_at x n (suc j) i bs (omega (arith, e)) p.1
        ∙ sym (ap (λ v. v || holds x bs) (absent x n j b (λ z. omega (arith, z, e)) p.0))

    slot-has :
        (x : T) (b : List (Element T))
        → elim (get_bucket_slot eq hash b x) [ none ↦ false | some e ↦ true ] ≡ has x b
    unfolding get_bucket_slot
    slot-has x [] = refl
    slot-has x (e ∷ es) = elim (Bool-cases (eq e.data_of x)) [
      | inl f ↦ ground (arith, f)
      | inr f ↦ ground (arith, f, slot-has x es)
    ]

    -- `contains` answers whether the table holds `x`.
    pub contains-holds :
        (x : T) (s : HashSet T)
        → IsTable (length s.buckets) s.buckets
        → contains eq hash s x ≡ holds x s.buckets
    unfolding contains get
    contains-holds x s t =
        let n = length s.buckets in
        let h =
          slot-has x (bucket_at (hash x % n) s.buckets)
          ∙ has-bucket_at x n 0 (hash x % n) s.buckets (zero_add (hash x % n)) t.2 in
        ground (arith, t.0, h)

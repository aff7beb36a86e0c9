-- ===== src/Kfxx/Hashset/Granting.antt =====
-- Whether an insertion succeeds, and what it leaves where a resize fails.
use pbos.Common.{
  ℕ, zero, suc, sym, subst, ◌*◌, ◌/◌, ◌^◌, if◌then◌else◌, ◌%◌, ◌<◌, ◌≡◌, refl, ◌∙◌, ap, Bool, true,
  false, some, List, [], ◌∷◌, length, ◌==◌, Bool-cases, Option-cases, inl, inr, arith,
}
use native.Mathlib.Nat.{mod-lt}
use pbos.Kfxx.Hashset.{
  Element, HashSet, Grants, Result, succeeded, failed, resized, refused, Capacity, grow, keep,
  shrink, check_capacity, bucket_at, set_bucket, new_table, resize_buckets, check_and_resize,
  overwrite, inserted, insert_into, insert,
}
use pbos.Kfxx.Hashset.Resizing.{resize-positive, shrink_above}
use pbos.Kfxx.Hashset.Buckets.{length-set_bucket}
use pbos.Kfxx.Hashset.Insertion.{into_overwritten, into_pushed, insert_nonempty, positive}

module _ {T : Type 0} (eq : T → T → Bool) (hash : T → ℕ) where
  abbrev granted_all : Grants
  granted_all = record { first_bucket = true; list_node = true; new_buckets = true }

  by_capacity_granted :
      (q : Capacity) (s : HashSet T)
      → length s.buckets < 2 ^ 63
      → (q ≡ shrink → 1 < length s.buckets)
      → (bs : List (List (Element T))) × (elim q [
        | grow ↦
            resize_buckets true
              (if length s.buckets == 0 then 1 else length s.buckets * 2 % 2 ^ 64)
              s.buckets
        | keep ↦ resized s.buckets
        | shrink ↦ resize_buckets true (length s.buckets / 2) s.buckets
      ]
          ≡ resized bs)
  by_capacity_granted grow s m k = (_, resize-positive eq hash true _ s.buckets (ground (arith, m)))
  by_capacity_granted keep s m k = (s.buckets, refl)
  by_capacity_granted shrink s m k =
      (_, resize-positive eq hash true _ s.buckets (omega (arith, k refl)))

  -- A resize that gets its memory does not divide by zero, below 2^63 buckets.
  resize_granted :
      (s : HashSet T)
      → length s.buckets < 2 ^ 63
      → (bs : List (List (Element T))) × (check_and_resize true s ≡ resized bs)
  unfolding check_and_resize
  resize_granted s m =
      by_capacity_granted (check_capacity (length s.buckets) s.size) s m
        (shrink_above (length s.buckets) s.size m)

  inserted_granted :
      (force : Bool) (i : ℕ) (s : HashSet T)
      → length s.buckets < 2 ^ 63
      → (inserted eq hash force granted_all i s).0 ≡ succeeded
  unfolding inserted
  inserted_granted force i s m = let (bs, f) = resize_granted s m in ground (arith, f)

  insert_into_granted :
      (force : Bool) (x : T) (s : HashSet T)
      → length s.buckets < 2 ^ 63
      → (insert_into eq hash force granted_all x s).0 ≡ succeeded
  insert_into_granted force x s m =
      let i = hash x % length s.buckets in
      elim (Option-cases (overwrite eq hash x (bucket_at i s.buckets))) [
        | inl f ↦
            ap (λ (r : Result × HashSet T). r.0) (into_pushed eq hash force granted_all x s f refl)
            ∙ inserted_granted force i
                (record s {
                  buckets =
                      set_bucket i
                        (record { data_of = x; hash_code = hash x } ∷ bucket_at i s.buckets)
                        s.buckets;
                })
                (subst (λ n. n < 2 ^ 63) (sym (length-set_bucket eq hash i _ s.buckets)) m)
        | inr (c, f) ↦
            ap (λ (r : Result × HashSet T). r.0)
              (into_overwritten eq hash force granted_all x s c f)
            ∙ inserted_granted force i (record s { buckets = set_bucket i c s.buckets })
                (subst (λ n. n < 2 ^ 63) (sym (length-set_bucket eq hash i c s.buckets)) m)
      ]

  -- Where the allocator grants all that is asked for, and there are less than 2^56 buckets, so that
  -- the bytes of a table of more of them are a 64-bit number: `insert` and
  -- `insert_without_resize_buckets` succeed, without a division by zero.
  pub insert_granted :
      (force : Bool) (x : T) (s : HashSet T)
      → length s.buckets < 2 ^ 56
      → (insert eq hash force
          (record { first_bucket = true; list_node = true; new_buckets = true })
          x
          s).0
        ≡ succeeded
  unfolding insert new_table
  insert_granted force x s m = elim (Bool-cases (length s.buckets == 0)) [
    | inl f ↦
        ground
          (arith, f, insert_into_granted force x (record s { buckets = [] ∷ [] }) (omega arith))
    | inr f ↦ ground (arith, f, insert_into_granted force x s (omega (arith, m)))
  ]

  bucket_at-set_bucket :
      (i : ℕ) (c : List (Element T)) (bs : List (List (Element T)))
      → i < length bs
      → bucket_at i (set_bucket i c bs) ≡ c
  unfolding bucket_at set_bucket
  bucket_at-set_bucket i c [] l = absurd (omega (arith, l))
  bucket_at-set_bucket zero c (b ∷ bs) l = refl
  bucket_at-set_bucket (suc i) c (b ∷ bs) l = bucket_at-set_bucket i c bs (omega (arith, l))

  set_bucket_twice :
      (i : ℕ) (c d : List (Element T)) (bs : List (List (Element T)))
      → set_bucket i d (set_bucket i c bs) ≡ set_bucket i d bs
  unfolding set_bucket
  set_bucket_twice i c d [] = refl
  set_bucket_twice zero c d (b ∷ bs) = refl
  set_bucket_twice (suc i) c d (b ∷ bs) = ap (b ∷◌) (set_bucket_twice i c d bs)

  overwrite_behind :
      (x : T) (e : Element T) (es fs : List (Element T))
      → eq e.data_of x ≡ false
      → overwrite eq hash x es ≡ some fs
      → overwrite eq hash x (e ∷ es) ≡ some (e ∷ fs)
  unfolding overwrite
  overwrite_behind x e es fs d o = ground (arith, d, o)

  ungrown :
      (g : Grants) (s : HashSet T) (n : ℕ)
      → g.new_buckets ≡ false
      → length s.buckets ≡ n
      → 0 < n
      → n < 2 ^ 63
      → check_capacity n s.size ≡ grow
      → check_and_resize g.new_buckets s ≡ refused
  unfolding check_and_resize resize_buckets
  ungrown g s n gr l pos m k = ground (arith, gr, l, pos, m, k)

  inserted_evicts :
      (g : Grants) (i : ℕ) (s : HashSet T) (e : Element T) (es : List (Element T))
      → check_and_resize g.new_buckets s ≡ refused
      → bucket_at i s.buckets ≡ e ∷ es
      → inserted eq hash true g i s ≡ (failed, record s { buckets = set_bucket i es s.buckets })
  unfolding inserted
  inserted_evicts g i s e es c b = ground (arith, c, b)

  -- Where a bucket has an element in front that is not equal to the new one and an equal one behind
  -- it, and the set, of less than 2^63 buckets, is to grow and gets no memory for it: `insert` fails,
  -- and the element in front is gone.
  pub insert_evicts :
      (g : Grants) (x : T) (s : HashSet T) (e : Element T) (es fs : List (Element T))
      → g.new_buckets ≡ false
      → (length s.buckets == 0) ≡ false
      → length s.buckets < 2 ^ 63
      → bucket_at (hash x % length s.buckets) s.buckets ≡ e ∷ es
      → eq e.data_of x ≡ false
      → overwrite eq hash x es ≡ some fs
      → check_capacity (length s.buckets) s.size ≡ grow
      → insert eq hash true g x s
        ≡ (failed, record s { buckets = set_bucket (hash x % length s.buckets) fs s.buckets })
  insert_evicts g x s e es fs gr n m b d o k =
      let i = hash x % length s.buckets in
      let t = record s { buckets = set_bucket i (e ∷ fs) s.buckets } in
      let w = mod-lt (hash x) (positive eq hash (length s.buckets) n) in
      insert_nonempty eq hash true g x s n
      ∙ (into_overwritten eq hash true g x s (e ∷ fs)
            (ap (overwrite eq hash x) b ∙ overwrite_behind x e es fs d o)
          ∙ (inserted_evicts g i t e fs
                (ungrown g t (length s.buckets) gr (length-set_bucket eq hash i (e ∷ fs) s.buckets)
                  (positive eq hash (length s.buckets) n) m k)
                (bucket_at-set_bucket i (e ∷ fs) s.buckets w)
              ∙ ap (λ c. (failed, record s { buckets = c }))
                  (set_bucket_twice i (e ∷ fs) fs s.buckets)))

-- ===== src/Kfxx/Hashset/Resizing.antt =====
-- A resize leaves the same elements, each in its bucket.
use pbos.Common.{
  ℕ, zero, suc, ◌+◌, ◌*◌, ◌/◌, ◌%◌, ◌^◌, ◌<◌, ◌≡◌, ◌≢◌, refl, sym, ◌∙◌, ap, subst, Bool, true,
  false, ◌||◌, List, [], ◌∷◌, length, All, ◌==◌, if◌then◌else◌, arith,
}
use pbos.Kfxx.Hashset.{
  Resized, resized, refused, divided, succeeded, Element, HashSet, Grants, Capacity, grow, keep,
  shrink, check_capacity, bucket_at, set_bucket, new_table, move_buckets, resize_buckets,
  check_and_resize, inserted,
}
use pbos.Kfxx.Hashset.Buckets.{
  has, holds, Belongs, IsPlaced, IsTable, holds-new_table, new_table-IsPlaced, length-new_table,
  move_buckets-IsTable, holds-move_buckets,
}

add_zero : (j : ℕ) → j + zero ≡ j
add_zero j = omega arith

add_suc : (j i : ℕ) → j + suc i ≡ suc j + i
add_suc j i = omega arith

right_false : (a : Bool) → (a || false) ≡ a
right_false a = ground arith

or_left : (a b c : Bool) → (a || (b || c)) ≡ (b || (a || c))
or_left a b c = ground arith

pub shrink_above : (n size : ℕ) → n < 2 ^ 63 → check_capacity n size ≡ shrink → 1 < n
unfolding check_capacity
shrink_above n size m e = ground (arith, m, e)

module _ {T : Type 0} (eq : T → T → Bool) (hash : T → ℕ) where
  -- Every element stands in its bucket.
  abbrev pub IsSound : HashSet T → Type 0
  IsSound s = IsPlaced eq hash (length s.buckets) 0 s.buckets

  pub holds-set_bucket :
      (z : T) (v : Bool) (i : ℕ) (c : List (Element T)) (bs : List (List (Element T)))
      → i < length bs
      → has eq hash z c ≡ (v || has eq hash z (bucket_at i bs))
      → holds eq hash z (set_bucket i c bs) ≡ (v || holds eq hash z bs)
  unfolding bucket_at set_bucket
  holds-set_bucket z v i c [] l h = absurd (omega (arith, l))
  holds-set_bucket z v zero c (b ∷ bs) l h = ground (arith, h)
  holds-set_bucket z v (suc i) c (b ∷ bs) l h =
      ap (has eq hash z b ||◌) (holds-set_bucket z v i c bs (omega (arith, l)) h)
      ∙ or_left (has eq hash z b) v (holds eq hash z bs)

  pub set_bucket-IsPlaced :
      (n j i : ℕ) (c : List (Element T)) (bs : List (List (Element T)))
      → All (Belongs eq hash n (j + i)) c
      → IsPlaced eq hash n j bs
      → IsPlaced eq hash n j (set_bucket i c bs)
  unfolding set_bucket
  set_bucket-IsPlaced n j i c [] h p = tt
  set_bucket-IsPlaced n j zero c (b ∷ bs) h p =
      (subst (λ k. All (Belongs eq hash n k) c) (add_zero j) h, p.1)
  set_bucket-IsPlaced n j (suc i) c (b ∷ bs) h p = (
    p.0,
    set_bucket-IsPlaced n (suc j) i c bs (subst (λ k. All (Belongs eq hash n k) c) (add_suc j i) h)
        p.1,
  )

  pub bucket_at-Belongs :
      (n j i : ℕ) (bs : List (List (Element T)))
      → IsPlaced eq hash n j bs
      → All (Belongs eq hash n (j + i)) (bucket_at i bs)
  unfolding bucket_at
  bucket_at-Belongs n j i [] p = tt
  bucket_at-Belongs n j zero (b ∷ bs) p =
      subst (λ k. All (Belongs eq hash n k) b) (sym (add_zero j)) p.0
  bucket_at-Belongs n j (suc i) (b ∷ bs) p =
      subst (λ k. All (Belongs eq hash n k) (bucket_at i bs)) (sym (add_suc j i))
        (bucket_at-Belongs n (suc j) i bs p.1)

  -- The buckets after a resize, or without one: the same elements in another table.
  abbrev pub Same : List (List (Element T)) → List (List (Element T)) → Type 0
  Same olds bs =
      IsTable eq hash (length bs) bs × ((z : T) → holds eq hash z bs ≡ holds eq hash z olds)

  resized-Same :
      (n : ℕ) (olds : List (List (Element T)))
      → 0 < n
      → IsPlaced eq hash (length olds) 0 olds
      → Same olds (move_buckets n olds (new_table n))
  resized-Same n olds l p =
      let t : IsTable eq hash n (new_table n) =
        (l, length-new_table eq hash n, new_table-IsPlaced eq hash n 0 n) in
      let r = move_buckets-IsTable eq hash n (length olds) 0 olds (new_table n) p t in
      (
        subst (λ k. IsTable eq hash k (move_buckets n olds (new_table n))) (sym r.1) r,
        λ z.
            holds-move_buckets eq hash z n (length olds) 0 olds (new_table n) p t
            ∙ (ap (holds eq hash z olds ||◌) (holds-new_table eq hash z n)
                ∙ right_false (holds eq hash z olds)),
      )

  resized_inj : (a b : List (List (Element T))) → resized a ≡ resized b → a ≡ b
  resized_inj a b e = grind (arith, e)

  -- A resize to a table of some buckets.
  pub resize-positive :
      (granted : Bool) (n : ℕ) (olds : List (List (Element T)))
      → 0 < n
      → resize_buckets granted n olds
        ≡ (if granted then resized (move_buckets n olds (new_table n)) else refused)
  unfolding resize_buckets
  resize-positive granted n olds l = ground (arith, l)

  resize-Same :
      (granted : Bool) (n : ℕ) (olds bs : List (List (Element T)))
      → 0 < n
      → IsPlaced eq hash (length olds) 0 olds
      → resize_buckets granted n olds ≡ resized bs
      → Same olds bs
  resize-Same false n olds bs l p e =
      let gone : refused ≡ resized bs = sym (resize-positive false n olds l) ∙ e in
      absurd (grind (arith, gone))
  resize-Same true n olds bs l p e =
      subst (Same olds) (resized_inj _ _ (sym (resize-positive true n olds l) ∙ e))
        (resized-Same n olds l p)

  by_capacity :
      (q : Capacity) (granted : Bool) (s : HashSet T) (bs : List (List (Element T)))
      → 0 < length s.buckets
      → length s.buckets < 2 ^ 63
      → IsSound s
      → (q ≡ shrink → 1 < length s.buckets)
      → elim q [
        | grow ↦
            resize_buckets granted
              (if length s.buckets == 0 then 1 else length s.buckets * 2 % 2 ^ 64)
              s.buckets
        | keep ↦ resized s.buckets
        | shrink ↦ resize_buckets granted (length s.buckets / 2) s.buckets
      ]
        ≡ resized bs
      → Same s.buckets bs
  by_capacity grow granted s bs l m p k e =
      resize-Same granted (if length s.buckets == 0 then 1 else length s.buckets * 2 % 2 ^ 64)
        s.buckets bs (ground (arith, l, m)) p e
  by_capacity keep granted s bs l m p k e =
      subst (Same s.buckets) (resized_inj _ _ e) ((l, refl, p), λ z. refl)
  by_capacity shrink granted s bs l m p k e =
      resize-Same granted (length s.buckets / 2) s.buckets bs (omega (arith, k refl)) p e

  check_and_resize-Same :
      (granted : Bool) (s : HashSet T) (bs : List (List (Element T)))
      → 0 < length s.buckets
      → length s.buckets < 2 ^ 63
      → IsSound s
      → check_and_resize granted s ≡ resized bs
      → Same s.buckets bs
  unfolding check_and_resize
  check_and_resize-Same granted s bs l m p e =
      by_capacity (check_capacity (length s.buckets) s.size) granted s bs l m p
        (shrink_above (length s.buckets) s.size m) e

  inserted_resized :
      (force : Bool) (g : Grants) (i : ℕ) (s : HashSet T) (bs : List (List (Element T)))
      → check_and_resize g.new_buckets s ≡ resized bs
      → (inserted eq hash force g i s).1.buckets ≡ bs
  unfolding inserted
  inserted_resized force g i s bs e = ground (arith, e)

  inserted_kept :
      (force : Bool) (g : Grants) (i : ℕ) (s : HashSet T)
      → check_and_resize g.new_buckets s ≡ refused
      → (inserted eq hash force g i s).0 ≡ succeeded
      → (inserted eq hash force g i s).1.buckets ≡ s.buckets
  unfolding inserted
  inserted_kept force g i s e f = ground (arith, e, f)

  inserted_divided :
      (force : Bool) (g : Grants) (i : ℕ) (s : HashSet T)
      → check_and_resize g.new_buckets s ≡ divided
      → (inserted eq hash force g i s).0 ≢ succeeded
  unfolding inserted
  inserted_divided force g i s e = ground (arith, e)

  by_resize :
      (force : Bool) (g : Grants) (i : ℕ) (s : HashSet T)
      → 0 < length s.buckets
      → length s.buckets < 2 ^ 63
      → IsSound s
      → (inserted eq hash force g i s).0 ≡ succeeded
      → (r : Resized T) → check_and_resize g.new_buckets s ≡ r
      → Same s.buckets (inserted eq hash force g i s).1.buckets
  by_resize force g i s l m p e refused f =
      subst (Same s.buckets) (sym (inserted_kept force g i s f e)) ((l, refl, p), λ z. refl)
  by_resize force g i s l m p e (resized bs) f =
      subst (Same s.buckets) (sym (inserted_resized force g i s bs f))
        (check_and_resize-Same g.new_buckets s bs l m p f)
  by_resize force g i s l m p e divided f = absurd (inserted_divided force g i s f e)

  pub inserted-Same :
      (force : Bool) (g : Grants) (i : ℕ) (s : HashSet T)
      → 0 < length s.buckets
      → length s.buckets < 2 ^ 63
      → IsSound s
      → (inserted eq hash force g i s).0 ≡ succeeded
      → Same s.buckets (inserted eq hash force g i s).1.buckets
  inserted-Same force g i s l m p e =
      by_resize force g i s l m p e (check_and_resize g.new_buckets s) refl

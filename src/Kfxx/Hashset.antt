-- ===== src/Kfxx/Hashset.antt =====
-- include/pbos/kfxx/hashset.hh, where the hash and the comparison do not fail, and hashmap.hh, whose
-- elements are pairs. A bucket is the list of its elements, and whether memory is given out an
-- argument.
pub mod Buckets
pub mod Resizing
pub mod Insertion
pub mod Granting
pub mod Tests
use pbos.Common.{
  ℕ, zero, suc, ◌+◌, ◌-◌, ◌*◌, ◌/◌, ◌%◌, ◌^◌, Bool, true, false, Option, none, some, List, [], ◌∷◌,
  length, ltb, leb, ◌==◌, if◌then◌else◌,
}

-- `element_t`.
pub record Element (T : Type 0) : Type 0 where
  pub data_of : T
  pub hash_code : ℕ

pub record HashSet (T : Type 0) : Type 0 where
  pub buckets : List (List (Element T))
  pub size : ℕ

-- What `_check_capacity` answers: 1, 0 and -1.
pub data Capacity : Type 0 where
  grow keep shrink : Capacity

-- How an insertion ends: it returns true, it returns false, or it divides by zero.
pub data Result : Type 0 where
  succeeded failed faulted : Result

-- How a resize ends: with the new buckets, without memory for them, or in a division by zero.
pub data Resized (T : Type 0) : Type 0 where
  resized : List (List (Element T)) → Resized T
  refused divided : Resized T

-- What the allocator grants: the first bucket, a list node, and the new table of a resize.
pub record Grants : Type 0 where
  pub first_bucket : Bool
  pub list_node : Bool
  pub new_buckets : Bool

unfoldable pub check_capacity : ℕ → ℕ → Capacity
check_capacity n_buckets size =
    let capacity = n_buckets * 2 % 2 ^ 64 in
    if ltb capacity size
    then grow
    else if ltb size (capacity / 2)
    then if leb (capacity / 2) 1 then keep else shrink
    else keep

module _ {T : Type 0} where
  -- `_buckets.at`, read and written; an index stands for the rest of the array.
  unfoldable pub bucket_at : ℕ → List (List (Element T)) → List (Element T)
  bucket_at i [] = []
  bucket_at zero (b ∷ bs) = b
  bucket_at (suc i) (b ∷ bs) = bucket_at i bs

  unfoldable pub set_bucket :
      ℕ → List (Element T) → List (List (Element T)) → List (List (Element T))
  set_bucket i c [] = []
  set_bucket zero c (b ∷ bs) = c ∷ bs
  set_bucket (suc i) c (b ∷ bs) = b ∷ set_bucket i c bs

  -- `push_front` on the bucket of an index.
  unfoldable pub push_at : ℕ → Element T → List (List (Element T)) → List (List (Element T))
  unfolding bucket_at set_bucket
  push_at i e bs = set_bucket i (e ∷ bucket_at i bs) bs

  unfoldable pub new_table : ℕ → List (List (Element T))
  new_table zero = []
  new_table (suc n) = [] ∷ new_table n

  -- The inner and the outer loop of `_resize_buckets`.
  unfoldable pub move_bucket :
      ℕ → List (Element T) → List (List (Element T)) → List (List (Element T))
  unfolding push_at
  move_bucket n [] bs = bs
  move_bucket n (e ∷ es) bs = move_bucket n es (push_at (e.hash_code % n) e bs)

  unfoldable pub move_buckets :
      ℕ → List (List (Element T)) → List (List (Element T)) → List (List (Element T))
  unfolding move_bucket
  move_buckets n [] bs = bs
  move_buckets n (old ∷ olds) bs = move_buckets n olds (move_bucket n old bs)

  -- No bucket has an element.
  unfoldable pub is_bare : List (List (Element T)) → Bool
  is_bare [] = true
  is_bare ([] ∷ bs) = is_bare bs
  is_bare ((e ∷ es) ∷ bs) = false

  -- `_resize_buckets`. A table of no buckets takes no memory, and the first element that is to move
  -- there divides by its size.
  unfoldable pub resize_buckets : Bool → ℕ → List (List (Element T)) → Resized T
  unfolding move_buckets new_table is_bare
  resize_buckets granted n old =
      if n == 0
      then if is_bare old then resized [] else divided
      else if granted
      then resized (move_buckets n old (new_table n))
      else refused

  -- `_check_and_resize_buckets`: how it ends, with the buckets afterwards.
  unfoldable pub check_and_resize : Bool → HashSet T → Resized T
  unfolding check_capacity resize_buckets
  check_and_resize granted s =
      let n = length s.buckets in
      elim (check_capacity n s.size) [
        | grow ↦ resize_buckets granted (if n == 0 then 1 else n * 2 % 2 ^ 64) s.buckets
        | keep ↦ resized s.buckets
        | shrink ↦ resize_buckets granted (n / 2) s.buckets
      ]

  module _ (eq : T → T → Bool) (hash : T → ℕ) where
    -- `_get_bucket_slot`.
    unfoldable pub get_bucket_slot : List (Element T) → T → Option (Element T)
    get_bucket_slot [] x = none
    get_bucket_slot (e ∷ es) x = if eq e.data_of x then some e else get_bucket_slot es x

    -- `_get`.
    unfoldable pub get : HashSet T → T → Option (Element T)
    unfolding get_bucket_slot bucket_at
    get s x =
        if length s.buckets == 0
        then none
        else get_bucket_slot (bucket_at (hash x % length s.buckets) s.buckets) x

    -- `contains`.
    unfoldable pub contains : HashSet T → T → Bool
    unfolding get
    contains s x = elim (get s x) [ none ↦ false | some e ↦ true ]

    -- The loop of `_insert` over a bucket: the data of the first element that is equal is replaced.
    unfoldable pub overwrite : T → List (Element T) → Option (List (Element T))
    overwrite x [] = none
    overwrite x (e ∷ es) =
        if eq e.data_of x
        then some (record e { data_of = x } ∷ es)
        else elim (overwrite x es) [ none ↦ none | some fs ↦ some (e ∷ fs) ]

    -- `_insert` behind the label `inserted`, where the bucket of index `i` has the element.
    unfoldable pub inserted : Bool → Grants → ℕ → HashSet T → Result × HashSet T
    unfolding check_and_resize bucket_at set_bucket
    inserted force g i s = elim (check_and_resize g.new_buckets s) [
      | resized bs ↦ (succeeded, record { buckets = bs; size = (s.size + 1) % 2 ^ 64 })
      | refused ↦ elim force [
        | true ↦ elim (bucket_at i s.buckets) [
          | [] ↦ (failed, s)
          | e ∷ es ↦ (failed, record s { buckets = set_bucket i es s.buckets })
        ]
        | false ↦ (succeeded, record s { size = (s.size + 1) % 2 ^ 64 })
      ]
      | divided ↦ (faulted, s)
    ]

    -- `_insert` where there are buckets.
    unfoldable pub insert_into : Bool → Grants → T → HashSet T → Result × HashSet T
    unfolding overwrite inserted push_at
    insert_into force g x s =
        let code = hash x in
        let i = code % length s.buckets in
        elim (overwrite x (bucket_at i s.buckets)) [
          | some es ↦ inserted force g i (record s { buckets = set_bucket i es s.buckets })
          | none ↦ elim g.list_node [
            | false ↦ (failed, s)
            | true ↦ inserted force g i (record s {
              buckets = push_at i (record { data_of = x; hash_code = code }) s.buckets;
            })
          ]
        ]

    -- `_insert`; `insert` forces the resize, `insert_without_resize_buckets` does not.
    unfoldable pub insert : Bool → Grants → T → HashSet T → Result × HashSet T
    unfolding insert_into new_table
    insert force g x s =
        if length s.buckets == 0
        then if g.first_bucket
          then insert_into force g x (record s { buckets = new_table 1 })
          else (failed, s)
        else insert_into force g x s

    -- The first element that is equal is taken out.
    unfoldable pub take_out : T → List (Element T) → Option (List (Element T))
    take_out x [] = none
    take_out x (e ∷ es) =
        if eq e.data_of x
        then some es
        else elim (take_out x es) [ none ↦ none | some fs ↦ some (e ∷ fs) ]

    -- `_remove`.
    unfoldable pub remove : T → HashSet T → HashSet T
    unfolding take_out bucket_at set_bucket
    remove x s =
        if length s.buckets == 0
        then s
        else let i = hash x % length s.buckets in
          elim (take_out x (bucket_at i s.buckets)) [
            | none ↦ s
            | some es ↦ record {
              buckets = set_bucket i es s.buckets;
              size = (s.size + (2 ^ 64 - 1)) % 2 ^ 64;
            }
          ]

  -- `clear`, which leaves the size as it was.
  unfoldable pub clear : HashSet T → HashSet T
  clear s = record s { buckets = [] }

-- ===== src/Kfxx/Dynarray/Access.antt =====
-- What the operations of the dynamic array do to its elements, index by index.
use pbos.Common.{
  ℕ, ◌+◌, ◌-◌, ◌^◌, ◌*◌, leb, subst, ◌≤◌, ◌<◌, ◌≡◌, refl, Bool, true, false, Option, none, some,
  ltb, ◌==◌, Option-cases, Bool-cases, inl, inr, if◌then◌else◌, arith,
}
use pbos.Kfxx.Dynarray.{
  DynArray, Ended, returned, stopped, get_grown_capacity, add_size, move_data, construct_at,
  realloc, at, grow_capacity, auto_grow_capacity, put, open_gap, insert,
}

module _ {V : Type 0} where
  -- There is memory for the capacity.
  abbrev pub Backed : ℕ → Option (ℕ → V) → Type 0
  Backed capacity none = capacity ≡ 0
  Backed capacity (some d) = Unit

  -- The length is within the capacity, the capacity is a word, and there is memory for it.
  abbrev pub IsValid : DynArray V → Type 0
  IsValid a = (a.length ≤ a.capacity) × (a.capacity < 2 ^ 64) × Backed a.capacity a.buffer

-- For a length above the old capacity and below `2 ^ 64`: the grown capacity is at least the length,
-- and below `2 ^ 64`.
pub get_grown_capacity_bounds :
    (length old_capacity : ℕ)
    → old_capacity < length
    → length < 2 ^ 64
    → (length ≤ get_grown_capacity length old_capacity)
      × (get_grown_capacity length old_capacity < 2 ^ 64)
unfolding get_grown_capacity
get_grown_capacity_bounds length old_capacity lt fits = ground arith

module _ {V : Type 0} where
  -- The memory `d` of capacity `capacity` holds the elements of the array.
  pub record Holds (a : DynArray V) (capacity : ℕ) (d : ℕ → V) : Type 0 where
    pub fits : capacity < 2 ^ 64
    pub elements : (j : ℕ) → j < a.length → at j a ≡ some (d j)

  at-beyond : (j : ℕ) (a : DynArray V) → a.length ≤ j → at j a ≡ none
  unfolding at
  at-beyond j a le = ground arith

  -- What making room for `n` elements may end in.
  -- What has no memory for its bytes stops; nothing else does.
  abbrev pub Room : ℕ → Bool → ℕ → DynArray V → Ended V → Type 0
  Room element_size mem n a (returned true b) =
      (n ≤ b.capacity) × ((d : ℕ → V) × (b.buffer ≡ some d) × Holds a b.capacity d)
  Room element_size mem n a (returned false b) = (mem ≡ false) × (b ≡ a)
  Room element_size mem n a stopped =
      (a.capacity < n) × (2 ^ 64 ≤ get_grown_capacity n a.capacity * element_size)

  kept : (a : DynArray V) (d : ℕ → V) → IsValid a → a.buffer ≡ some d → Holds a a.capacity d
  unfolding at
  kept a d v e = record { fits = v.1; elements = λ j h. ground (arith, e) }

  renewed :
      (fresh : ℕ → V) (a : DynArray V) (capacity : ℕ)
      → IsValid a
      → capacity < 2 ^ 64
      → Holds a capacity (realloc a.capacity a.buffer fresh)
  unfolding at realloc
  renewed fresh a capacity v fits = record {
    fits = fits;
    elements = λ j h. elim (Option-cases a.buffer) [
      | inl e ↦ ground (arith, e)
      | inr (d, e) ↦ ground (arith, e)
    ];
  }

  module _ (element_size : ℕ) (mem : Bool) (fresh : ℕ → V) where
    grow_capacity-Room :
        (n capacity : ℕ) (a : DynArray V)
        → a.capacity < n
        → capacity ≡ get_grown_capacity n a.capacity
        → IsValid a
        → a.length < n
        → n ≤ capacity
        → capacity < 2 ^ 64
        → Room element_size mem n a (grow_capacity element_size mem fresh n capacity a)
    unfolding grow_capacity
    grow_capacity-Room n capacity a more grown v lt le fits =
        let roomy : ltb a.length capacity ≡ true = ground arith in
        let longer : ltb a.length n ≡ true = ground arith in
        elim (Bool-cases mem) [
          | inl given ↦ elim (Bool-cases (leb (2 ^ 64) (capacity * element_size))) [
            | inl wraps ↦
                let too_many : 2 ^ 64 ≤ capacity * element_size = ground (arith, wraps) in
                rw (roomy, longer, given, wraps)
                  (more, subst (λ c. 2 ^ 64 ≤ c * element_size) grown too_many)
            | inr few ↦
                rw (roomy, longer, given, few)
                  (le, (realloc a.capacity a.buffer fresh, refl, renewed fresh a capacity v fits))
          ]
          | inr refused ↦ rw (roomy, longer, refused) (refl, refl)
        ]

    -- With more elements to come, `_auto_grow_capacity` makes room.
    auto_grow_capacity-Room :
        (n : ℕ) (a : DynArray V)
        → IsValid a
        → a.length < n
        → n < 2 ^ 64
        → Room element_size mem n a (auto_grow_capacity element_size mem fresh n a)
    unfolding auto_grow_capacity
    auto_grow_capacity-Room n a v lt fits = elim (Bool-cases (ltb a.capacity n)) [
      | inl more ↦
          let (le, small) = get_grown_capacity_bounds n a.capacity (ground (arith, more)) fits in
          rw more (
            grow_capacity-Room n (get_grown_capacity n a.capacity) a (ground (arith, more)) refl v
              lt le small)
      | inr enough ↦ elim (Option-cases a.buffer) [
        | inl e ↦ ground (arith, e)
        | inr (d, e) ↦ rw enough (ground (arith, enough), (d, e, kept a d v e))
      ]
    ]

    -- The gap, and the element in it.
    placed :
        (index : ℕ) (x : V) (a : DynArray V) (capacity : ℕ) (d : ℕ → V) (j : ℕ)
        → Holds a capacity d
        → index ≤ a.length
        → at j (record {
          length = a.length + 1;
          capacity = capacity;
          buffer = construct_at index x (
              if ltb index a.length
              then move_data (index + 1) index (a.length - index) (some d)
              else some d);
        })
          ≡ (if ltb j index then at j a else if j == index then some x else at (j - 1) a)
    unfolding at construct_at move_data
    placed index x a capacity d j h le = elim (Bool-cases (ltb index a.length)) [
      | inl inner ↦
          ground
            (arith, inner, h.elements j, h.elements (j - 1), at-beyond j a, at-beyond (j - 1) a)
      | inr last ↦
          ground (arith, last, h.elements j, h.elements (j - 1), at-beyond j a, at-beyond (j - 1) a)
    ]

    -- What `insert` may end in: the array with the element at the index and the later ones moved
    -- up; or, when there is no memory, the array as it was; or a stop, when the array is full and the
    -- bytes of the grown capacity are no 64-bit number.
    abbrev pub InsertsAt : ℕ → V → DynArray V → Ended V → Type 0
    InsertsAt index x a (returned true b) =
        IsValid b
        × (b.length ≡ a.length + 1)
        × ((j : ℕ)
            → at j b
              ≡ (if ltb j index then at j a else if j == index then some x else at (j - 1) a))
    InsertsAt index x a (returned false b) = (mem ≡ false) × (b ≡ a)
    InsertsAt index x a stopped =
        (a.capacity < a.length + 1)
        × (2 ^ 64 ≤ get_grown_capacity (a.length + 1) a.capacity * element_size)

    backed :
        (index : ℕ) (x : V) (a : DynArray V) (d : ℕ → V) (capacity : ℕ)
        → Backed capacity (
            construct_at index x (
              if ltb index a.length
              then move_data (index + 1) index (a.length - index) (some d)
              else some d))
    unfolding construct_at move_data
    backed index x a d capacity = elim (Bool-cases (ltb index a.length)) [
      | inl inner ↦ rw inner tt
      | inr last ↦ rw last tt
    ]

    put-InsertsAt :
        (index : ℕ) (x : V) (a : DynArray V) (o : Ended V)
        → index ≤ a.length
        → a.length + 1 < 2 ^ 64
        → Room element_size mem (a.length + 1) a o
        → InsertsAt index x a (put index x (open_gap index 1 a o))
    unfolding put open_gap
    put-InsertsAt index x a stopped le fits r = r
    put-InsertsAt index x a (returned false b) le fits r = r
    put-InsertsAt index x a (returned true b) le fits (room, (d, e, h)) =
        let size : add_size a.length 1 ≡ a.length + 1 = unfold add_size in ground arith in
        rw (size, e)
          (
            (omega arith, h.fits, backed index x a d b.capacity),
            refl,
            λ j. placed index x a b.capacity d j h le,
          )

    -- From a valid array, at an index up to its length and below the largest length: `insert` ends
    -- in a valid array that is one longer and holds the element at the index, the earlier ones
    -- before it and the later ones after it; or, only if there is no memory, it returns false and
    -- the array is as it was; or, only if the array is full and the bytes of the grown capacity are 2^64
    -- or more, it stops. No assertion fails.
    pub insert-InsertsAt :
        (index : ℕ) (x : V) (a : DynArray V)
        → IsValid a
        → index ≤ a.length
        → a.length + 1 < 2 ^ 64
        → InsertsAt index x a (insert element_size mem fresh index x a)
    unfolding insert
    insert-InsertsAt index x a v le fits =
        let e : add_size a.length 1 ≡ a.length + 1 = ground arith in
        rw e (
          put-InsertsAt index x a (auto_grow_capacity element_size mem fresh (a.length + 1) a) le
            fits (auto_grow_capacity-Room (a.length + 1) a v (omega arith) fits))

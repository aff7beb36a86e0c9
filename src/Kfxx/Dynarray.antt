-- ===== src/Kfxx/Dynarray.antt =====
-- include/pbos/kfxx/dynarray.hh at an element type that is trivial (numbers, pointers), so that
-- elements are moved by `memmove` and neither constructed nor destroyed. Sizes are 64-bit words.
-- `element_size` is the size of an element in bytes, `mem` says whether the allocator gives memory, and `fresh` what new memory holds.
pub mod Access
pub mod Ranges
mod Tests
use pbos.Common.{
  ℕ, ◌+◌, ◌-◌, ◌*◌, ◌/◌, ◌%◌, ◌^◌, Bool, true, false, not, ◌&&◌, Option, none, some, ltb, leb, ◌==◌,
  if◌then◌else◌,
}

-- `DynArray`: `_length`, `_capacity`, and the memory at `_data` unless that is null.
pub record DynArray {ℓ} (V : Type ℓ) : Type ℓ where
  pub length : ℕ
  pub capacity : ℕ
  pub buffer : Option (ℕ → V)

-- How a call ends: it returns, or it stops: an assertion of it fails, or the bytes of the capacity it
-- asks memory for are no 64-bit number, and the array is left with less memory than its capacity.
pub data Ended {ℓ} (V : Type ℓ) : Type ℓ where
  returned : Bool → DynArray V → Ended V
  stopped : Ended V

-- `_get_grown_capacity` and `_get_shrinked_capacity`.
unfoldable pub get_grown_capacity : ℕ → ℕ → ℕ
get_grown_capacity length old_capacity =
    let new_capacity = (old_capacity + old_capacity / 2) % 2 ^ 64 in
    if old_capacity == 0 then length else if ltb new_capacity length then length else new_capacity

unfoldable pub get_shrinked_capacity : ℕ → ℕ → ℕ
get_shrinked_capacity length old_capacity =
    let new_capacity = old_capacity / 2 in
    if old_capacity == 0 then length else if ltb length new_capacity then length else new_capacity

-- `size_t` addition and subtraction.
unfoldable pub add_size : ℕ → ℕ → ℕ
add_size a b = (a + b) % 2 ^ 64

unfoldable pub sub_size : ℕ → ℕ → ℕ
sub_size a b = (a + 2 ^ 64 - b) % 2 ^ 64

module _ {ℓ} {V : Type ℓ} where
  -- `memmove` of `n` elements within a buffer.
  unfoldable pub memmove : ℕ → ℕ → ℕ → (ℕ → V) → ℕ → V
  memmove dst src n d i = if leb dst i && ltb i (dst + n) then d (i - dst + src) else d i

  -- `_move_data` within the array's memory.
  unfoldable pub move_data : ℕ → ℕ → ℕ → Option (ℕ → V) → Option (ℕ → V)
  unfolding memmove
  move_data dst src n none = none
  move_data dst src n (some d) = some (memmove dst src n d)

  -- A write to one element.
  unfoldable pub construct_at : ℕ → V → Option (ℕ → V) → Option (ℕ → V)
  construct_at index x none = none
  construct_at index x (some d) = some (λ i. if i == index then x else d i)

  -- What `realloc`, or `alloc` when there was no memory, gives: the old elements and then `fresh`.
  unfoldable pub realloc : ℕ → Option (ℕ → V) → (ℕ → V) → ℕ → V
  realloc capacity none fresh i = fresh i
  realloc capacity (some d) fresh i = if ltb i capacity then d i else fresh i

  -- The element at an index; `none` is the assertion on the index, or a null `_data`.
  unfoldable pub at : ℕ → DynArray V → Option V
  at index a =
      if ltb index a.length then elim a.buffer [ none ↦ none | some d ↦ some (d index) ] else none

  -- `_clear`, and `clear_and_shrink`.
  unfoldable pub clear_and_shrink : DynArray V → DynArray V
  clear_and_shrink a = record { length = 0; capacity = 0; buffer = none }

  -- `_shrink` in place and `_expand_to` in place: nothing but their assertions.
  unfoldable pub set_length : Bool → ℕ → DynArray V → Ended V
  set_length holds length a =
      if holds then returned true (record a { length = length }) else stopped

  -- The rest of `_insert_range` once there is room: the later elements move up.
  unfoldable pub open_gap : ℕ → ℕ → DynArray V → Ended V → Ended V
  unfolding move_data add_size
  open_gap index length a stopped = stopped
  open_gap index length a (returned false b) = returned false b
  open_gap index length a (returned true b) = returned true (record b {
    length = add_size a.length length;
    buffer =
        if ltb index a.length
        then move_data (index + length) index (a.length - index) b.buffer
        else b.buffer;
  })

  -- The rest of `insert` once there is a gap.
  unfoldable pub put : ℕ → V → Ended V → Ended V
  unfolding construct_at
  put index x stopped = stopped
  put index x (returned false b) = returned false b
  put index x (returned true b) =
      returned true (record b { buffer = construct_at index x b.buffer })

  module _ (element_size : ℕ) (mem : Bool) (fresh : ℕ → V) where
    -- `_grow_capacity`.
    unfoldable pub grow_capacity : ℕ → ℕ → DynArray V → Ended V
    unfolding realloc
    grow_capacity length new_capacity a =
        if not (ltb a.length new_capacity && ltb a.length length)
        then stopped
        else if not mem
        then returned false a
        else if leb (2 ^ 64) (new_capacity * element_size)
        then stopped
        else returned true (record {
          length = length;
          capacity = new_capacity;
          buffer = some (realloc a.capacity a.buffer fresh);
        })

    -- `_shrink_capacity`. Of the old elements the new memory holds the first `new_capacity`.
    unfoldable pub shrink_capacity : ℕ → ℕ → DynArray V → Ended V
    unfolding realloc
    shrink_capacity length new_capacity a =
        if not (leb length a.length && leb new_capacity a.capacity)
        then stopped
        else if not mem
        then returned false a
        else if leb (2 ^ 64) (new_capacity * element_size)
        then stopped
        else returned true (record {
          length = length;
          capacity = new_capacity;
          buffer = some (realloc new_capacity a.buffer fresh);
        })

    -- `_auto_grow_capacity` and `_auto_shrink_capacity`.
    unfoldable pub auto_grow_capacity : ℕ → DynArray V → Ended V
    unfolding grow_capacity get_grown_capacity
    auto_grow_capacity length a =
        if ltb a.capacity length
        then grow_capacity length (get_grown_capacity length a.capacity) a
        else returned true a

    unfoldable pub auto_shrink_capacity : ℕ → DynArray V → Ended V
    unfolding shrink_capacity get_shrinked_capacity clear_and_shrink
    auto_shrink_capacity length a =
        if length == 0
        then returned true (clear_and_shrink a)
        else if ltb length (a.capacity / 2)
        then shrink_capacity length (get_shrinked_capacity length a.capacity) a
        else returned true a

    -- The assertions and the move that `erase_range_and_shrink` and `erase_range` begin with.
    unfoldable pub erase_move : ℕ → ℕ → DynArray V → Option (DynArray V)
    unfolding move_data sub_size
    erase_move idx_start idx_end a =
        if ltb idx_start a.length && leb idx_end a.length
        then some (record a { buffer = move_data idx_start idx_end (a.length - idx_end) a.buffer })
        else none

    unfoldable pub erase_range_and_shrink : ℕ → ℕ → DynArray V → Ended V
    unfolding erase_move shrink_capacity sub_size
    erase_range_and_shrink idx_start idx_end a =
        let new_length = sub_size a.length (sub_size idx_end idx_start) in
        elim (erase_move idx_start idx_end a) [
          | none ↦ stopped
          | some moved ↦ shrink_capacity new_length new_length moved
        ]

    unfoldable pub erase_range : ℕ → ℕ → DynArray V → Ended V
    unfolding erase_move sub_size
    erase_range idx_start idx_end a =
        let new_length = sub_size a.length (sub_size idx_end idx_start) in
        elim (erase_move idx_start idx_end a) [
          | none ↦ stopped
          | some moved ↦ returned true (record moved { length = new_length })
        ]

    unfoldable pub extract_range_and_shrink : ℕ → ℕ → DynArray V → Ended V
    unfolding shrink_capacity sub_size
    extract_range_and_shrink idx_start idx_end a =
        let new_length = sub_size idx_end idx_start in
        if new_length == a.length then returned true a else shrink_capacity new_length new_length a

    -- `resize`, and `resize_uninit`, which is the same at a trivial type.
    unfoldable pub resize : ℕ → DynArray V → Ended V
    unfolding auto_grow_capacity set_length
    resize length a =
        if ltb a.length length
        then (if ltb a.capacity length
            then auto_grow_capacity length a
            else set_length true length a)
        else if ltb length a.length
        then set_length true length a
        else returned true a

    unfoldable pub extract_range : ℕ → ℕ → DynArray V → Ended V
    unfolding resize move_data sub_size
    extract_range idx_start idx_end a =
        let new_length = sub_size idx_end idx_start in
        if new_length == a.length
        then returned true a
        else if new_length == 0
        then resize 0 a
        else if idx_start == 0
        then resize new_length a
        else resize new_length (record a { buffer = move_data 0 idx_start new_length a.buffer })

    -- `resize_and_shrink`, and `resize_and_shrink_uninit`: after `_shrink_capacity` the array has the
    -- length already, so `_expand_to` fails its assertion.
    unfoldable pub resize_and_shrink : ℕ → DynArray V → Ended V
    unfolding grow_capacity shrink_capacity
    resize_and_shrink length a =
        if ltb a.length length
        then (if ltb a.capacity length
            then grow_capacity length length a
            else elim (shrink_capacity length length a) [
              | stopped ↦ stopped
              | returned ok b ↦
                  if not ok
                  then returned false b
                  else if ltb b.length length
                  then returned true b
                  else stopped
            ])
        else if ltb length a.length
        then shrink_capacity length length a
        else returned true a

    unfoldable pub shrink_to_fit : DynArray V → Ended V
    unfolding shrink_capacity
    shrink_to_fit a =
        if ltb a.capacity a.length then shrink_capacity a.length a.length a else returned true a

    -- `_insert_range`, which returns whether there is a gap.
    unfoldable pub insert_range : ℕ → ℕ → DynArray V → Ended V
    unfolding auto_grow_capacity open_gap add_size
    insert_range index length a =
        open_gap index length a (auto_grow_capacity (add_size a.length length) a)

    unfoldable pub insert : ℕ → V → DynArray V → Ended V
    unfolding insert_range put
    insert index x a = put index x (insert_range index 1 a)

    unfoldable pub push_front : V → DynArray V → Ended V
    unfolding insert
    push_front x a = insert 0 x a

    unfoldable pub push_back : V → DynArray V → Ended V
    unfolding insert
    push_back x a = insert a.length x a

    -- `pop_back`, and `pop_back_and_shrink`, which returns what `resize_uninit` does.
    unfoldable pub pop_back : DynArray V → Ended V
    unfolding resize sub_size
    pop_back a = resize (sub_size a.length 1) a

    unfoldable pub pop_front : DynArray V → Ended V
    unfolding resize move_data sub_size
    pop_front a =
        let len = sub_size a.length 1 in
        resize len (record a { buffer = move_data 0 1 len a.buffer })

    -- `pop_front_and_shrink`: when the memory cannot be shrunk, the elements are moved back.
    unfoldable pub pop_front_and_shrink : DynArray V → Ended V
    unfolding shrink_capacity move_data construct_at at sub_size
    pop_front_and_shrink a =
        let len = sub_size a.length 1 in
        elim (at 0 a) [
          | none ↦ stopped
          | some front ↦
              elim (shrink_capacity len len (record a { buffer = move_data 0 1 len a.buffer })) [
                | stopped ↦ stopped
                | returned ok b ↦
                    if ok
                    then returned true b
                    else returned false
                        (record b { buffer = construct_at 0 front (move_data 1 0 len b.buffer) })
              ]
        ]

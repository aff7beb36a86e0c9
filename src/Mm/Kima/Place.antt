-- ===== src/Mm/Kima/Place.antt =====
-- The inner loop of `kima_alloc` in kernel/mm/kima/malloc.cc: the search for a place between the
-- blocks. PBOS_ISOVERLAPPED, which no file of the repository defines, is the parameter `overlapped`.
-- Addresses and sizes are 64-bit words.
pub mod Align
pub mod Apartness
pub mod First
pub mod Safe
use pbos.Common.{
  ℕ, zero, suc, ◌+◌, ◌-◌, ◌%◌, ◌^◌, Bool, Option, none, some, List, ltb, ◌==◌, if◌then◌else◌,
}
use pbos.Kfxx.Ordered.{find_max_lteq}

-- A block of the query tree: its slot and its size.
abbrev pub Blocks : Type 0
Blocks = List (ℕ × (ℕ × ℕ))

-- How the search ends: at an address, past the limit, or out of fuel.
pub data Search : Type 0 where
  found : ℕ → Search
  past : Search
  out_of_fuel : Search

-- `cur_base` moved up to the alignment.
unfoldable pub align_up : ℕ → ℕ → ℕ
align_up alignment x =
    let aligned_diff = x % alignment in
    if aligned_diff == 0 then x else (x + (alignment - aligned_diff)) % 2 ^ 64

-- The address of the last of `size` bytes: `((char *)cur_base) + size - 1`.
unfoldable pub last_of : ℕ → ℕ → ℕ
last_of x size = (x + size + (2 ^ 64 - 1)) % 2 ^ 64

-- The end of a block.
unfoldable pub end_of : ℕ × (ℕ × ℕ) → ℕ
end_of e = (e.0 + e.1.1) % 2 ^ 64

module _ (overlapped : ℕ → ℕ → ℕ → ℕ → Bool) where
  -- The end of the block that is in the way, of the nearest block at or below an address.
  unfoldable pub in_way : ℕ → ℕ → Option (ℕ × (ℕ × ℕ)) → Option ℕ
  unfolding end_of
  in_way x size none = none
  in_way x size (some e) = if overlapped x size e.0 e.1.1 then some (end_of e) else none

  -- Both tests of a round, at the first and at the last byte.
  unfoldable pub blocked : Blocks → ℕ → ℕ → Option ℕ
  unfolding in_way last_of
  blocked m size x = elim (in_way x size (find_max_lteq x m)) [
    | some next ↦ some next
    | none ↦ in_way x size (find_max_lteq (last_of x size) m)
  ]

  -- `for (cur_base = …; cur_base <= limit;)`, on fuel.
  unfoldable pub place : ℕ → Blocks → ℕ → ℕ → ℕ → ℕ → Search
  unfolding align_up blocked
  place zero m limit alignment size cur_base = out_of_fuel
  place (suc n) m limit alignment size cur_base =
      let x = align_up alignment cur_base in
      if ltb limit cur_base then past else elim (blocked m size x) [
        | none ↦ found x
        | some next ↦ place n m limit alignment size next
      ]

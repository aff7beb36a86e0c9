-- ===== src/Mm/Kima/Place/Safe.antt =====
-- The test of a place for blocks in the way.
use pbos.Common.{
  ℕ, ◌+◌, ◌^◌, ◌≤◌, ◌<◌, ◌≡◌, ◌⊎◌, inl, inr, Bool, true, false, Option, none, some, Option-cases,
  Bool-cases, dec_lt, arith,
}
use pbos.Kfxx.Ordered.{find, find_max_lteq, IsSorted}
use pbos.Kfxx.Ordered.Laws.{IsMaxLteq, find_max_lteq-IsMaxLteq}
use pbos.Mm.Kima.Place.{Blocks, last_of, end_of, in_way, blocked}

-- What PBOS_ISOVERLAPPED is meant to tell of two areas, each given by its base and its size.
pub record IsOverlap (overlapped : ℕ → ℕ → ℕ → ℕ → Bool) : Type 0 where
  pub hits : (x m y n : ℕ) → overlapped x m y n ≡ true → (x < y + n) × (y < x + m)
  pub misses : (x m y n : ℕ) → overlapped x m y n ≡ false → (x + m ≤ y) ⊎ (y + n ≤ x)

-- The blocks are in order, none is empty or passes the end of memory, and none reaches another.
pub record Apart (m : Blocks) : Type 0 where
  pub sorted : IsSorted m
  pub proper : (i : ℕ) (u : ℕ × ℕ) → find i m ≡ some u → (0 < u.1) × (i + u.1 < 2 ^ 64)
  pub apart : (i j : ℕ) (u w : ℕ × ℕ) → find i m ≡ some u → find j m ≡ some w → i < j → i + u.1 ≤ j

-- No block reaches into `size` bytes at `x`.
abbrev pub Free : ℕ → ℕ → Blocks → Type 0
Free x size m = (i : ℕ) (u : ℕ × ℕ) → find i m ≡ some u → (x + size ≤ i) ⊎ (i + u.1 ≤ x)

-- A block that `size` bytes at `x` run into, which ends at `next`.
abbrev pub Hits : Blocks → ℕ → ℕ → ℕ → Type 0
Hits m size x next =
    (k : ℕ) × ((u : ℕ × ℕ) × (find k m ≡ some u) × (next ≡ k + u.1) × (x < next) × (k < x + size))

module _ (overlapped : ℕ → ℕ → ℕ → ℕ → Bool) (lawful : IsOverlap overlapped) (m : Blocks)
    (v : Apart m) (size : ℕ) (size_pos : 0 < size) where
  last_of_lem : (x : ℕ) → x + size < 2 ^ 64 → last_of x size + 1 ≡ x + size
  unfolding last_of
  last_of_lem x fits = omega arith

  -- A block at or below one that ends at or below `x` ends there too.
  behind :
      (i : ℕ) (u : ℕ × ℕ) (n : ℕ × (ℕ × ℕ)) (x : ℕ)
      → ¬ (n.0 < i)
      → find i m ≡ some u
      → find n.0 m ≡ some n.1
      → n.0 + n.1.1 ≤ x
      → i + u.1 ≤ x
  behind i u n x le f g h = elim (dec_lt i n.0) [
    | yes lt ↦ omega (arith, v.apart i n.0 u n.1 f g lt)
    | no ge ↦ grind arith
  ]

  -- The nearest block at or below the last byte settles the question for every block.
  nearest-Free :
      (x : ℕ) (o : Option (ℕ × (ℕ × ℕ)))
      → x + size < 2 ^ 64
      → IsMaxLteq (last_of x size) m o
      → in_way overlapped x size o ≡ none
      → Free x size m
  unfolding in_way
  nearest-Free x none fits q e i u f = elim (dec_lt i (x + size)) [
    | yes lt ↦ absurd (ground (arith, q i (omega (arith, last_of_lem x fits)), f))
    | no ge ↦ inl (omega arith)
  ]
  nearest-Free x (some n) fits q e i u f = elim (dec_lt i (x + size)) [
    | no ge ↦ inl (omega arith)
    | yes lt ↦ elim (Bool-cases (overlapped x size n.0 n.1.1)) [
      | inl hit ↦ absurd (ground (arith, hit, e))
      | inr miss ↦ inr (
          behind i u n x
            (λ lt'. absurd (ground (arith, q.2 i lt' (omega (arith, last_of_lem x fits)), f))) f q.1
            (ground (arith, lawful.misses x size n.0 n.1.1 miss, q.0, last_of_lem x fits)))
    ]
  ]

  -- No block in the way of the last byte means no block in the way at all.
  pub clear-Free : (x : ℕ) → x + size < 2 ^ 64 → blocked overlapped m size x ≡ none → Free x size m
  unfolding blocked
  clear-Free x fits e =
      nearest-Free x (find_max_lteq (last_of x size) m) fits
        (find_max_lteq-IsMaxLteq (last_of x size) m v.sorted)
        (elim (Option-cases (in_way overlapped x size (find_max_lteq x m))) [
          | inl clear ↦ ground (arith, clear, e)
          | inr (next, hit) ↦ absurd (ground (arith, hit, e))
        ])

  in_way-Hits :
      (x y next : ℕ) (o : Option (ℕ × (ℕ × ℕ)))
      → IsMaxLteq y m o
      → in_way overlapped x size o ≡ some next
      → Hits m size x next
  unfolding in_way end_of
  in_way-Hits x y next none q e = absurd (ground (arith, e))
  in_way-Hits x y next (some n) q e = elim (Bool-cases (overlapped x size n.0 n.1.1)) [
    | inl hit ↦ (
      n.0,
      (
        n.1,
        q.1,
        ground (arith, v.proper n.0 n.1 q.1, hit, e),
        ground (arith, lawful.hits x size n.0 n.1.1 hit, v.proper n.0 n.1 q.1, hit, e),
        (lawful.hits x size n.0 n.1.1 hit).1,
      ),
    )
    | inr miss ↦ absurd (ground (arith, miss, e))
  ]

  -- A block in the way ends behind the place.
  pub blocked-Hits : (x next : ℕ) → blocked overlapped m size x ≡ some next → Hits m size x next
  unfolding blocked
  blocked-Hits x next e = elim (Option-cases (in_way overlapped x size (find_max_lteq x m))) [
    | inl clear ↦
        in_way-Hits x (last_of x size) next (find_max_lteq (last_of x size) m)
          (find_max_lteq-IsMaxLteq (last_of x size) m v.sorted) (ground (arith, clear, e))
    | inr (other, hit) ↦
        in_way-Hits x x next (find_max_lteq x m) (find_max_lteq-IsMaxLteq x m v.sorted)
          (ground (arith, hit, e))
  ]

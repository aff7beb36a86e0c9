-- ===== src/Mm/Kima/Place/Align.antt =====
-- The alignment of an address: `align_up` is the least multiple of the alignment that is not below.
use native.Mathlib.Nat.{
  mod-lt, div-add-mod', add-mul, one-mul, mul-mod_left, lt_of_mul-lt-mul_right, mul-le-mul_right,
}
use pbos.Common.{
  ℕ, ◌+◌, ◌-◌, ◌*◌, ◌/◌, ◌%◌, ◌^◌, ◌≤◌, ◌<◌, ◌≡◌, ◌≢◌, ◌∙◌, ap, inl, inr, Bool-cases, ◌==◌, arith,
}
use pbos.Mm.Kima.Place.{align_up}

module _ (alignment : ℕ) (pos : 0 < alignment) where
  next_multiple : (x : ℕ) → x + (alignment - x % alignment) ≡ (x / alignment + 1) * alignment
  next_multiple x = omega (
    arith,
    div-add-mod' x alignment,
    mod-lt x pos,
    add-mul (x / alignment) 1 alignment,
    one-mul alignment,
  )

  pub align_up_bounds :
      (x : ℕ)
      → x + alignment < 2 ^ 64
      → (x ≤ align_up alignment x) × (align_up alignment x < x + alignment)
  unfolding align_up
  align_up_bounds x fits = ground (arith, mod-lt x pos)

  align_up-skip :
      (x : ℕ)
      → x + alignment < 2 ^ 64
      → x % alignment ≢ 0
      → align_up alignment x ≡ (x / alignment + 1) * alignment
  unfolding align_up
  align_up-skip x fits n = ground (arith, n, next_multiple x, mod-lt x pos)

  pub align_up_aligned : (x : ℕ) → x + alignment < 2 ^ 64 → align_up alignment x % alignment ≡ 0
  unfolding align_up
  align_up_aligned x fits = elim (Bool-cases (x % alignment == 0)) [
    | inl e ↦ ground (arith, e)
    | inr e ↦
        ap (λ z. z % alignment) (align_up-skip x fits (ground (arith, e)))
        ∙ mul-mod_left (x / alignment + 1) alignment
  ]

  multiple_above :
      (x y : ℕ)
      → x % alignment ≢ 0
      → x ≤ y
      → y % alignment ≡ 0
      → x + (alignment - x % alignment) ≤ y
  multiple_above x y n le e =
      let behind = mul-le-mul_right {m = x / alignment + 1} {n = y / alignment} alignment (
        omega (
          arith,
          lt_of_mul-lt-mul_right alignment {m = x / alignment} {n = y / alignment}
              (omega (arith, n, le, e, div-add-mod' x alignment, div-add-mod' y alignment)),
        )) in
      omega (arith, next_multiple x, div-add-mod' y alignment, behind, e)

  pub align_up_least :
      (x y : ℕ) → x + alignment < 2 ^ 64 → x ≤ y → y % alignment ≡ 0 → align_up alignment x ≤ y
  unfolding align_up
  align_up_least x y fits le e = ground (arith, multiple_above x y, mod-lt x pos)

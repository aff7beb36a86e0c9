-- ===== src/Kfxx/Ordered/Count.antt =====
-- How many keys are at or above one, which bounds a walk.
use pbos.Common.{ℕ, ◌+◌, ◌≤◌, ◌<◌, ◌≡◌, some, List, [], ◌∷◌, length, ltb, if◌then◌else◌, arith}
use pbos.Kfxx.Ordered.{find}

module _ {V : Type 0} where
  -- The keys at `k` or above.
  abbrev pub above : ℕ → List (ℕ × V) → ℕ
  above k [] = 0
  above k ((j, v) ∷ m) = (if ltb j k then 0 else 1) + above k m

  pub above_bound : (k : ℕ) (m : List (ℕ × V)) → above k m ≤ length m
  above_bound k [] = omega arith
  above_bound k ((j, v) ∷ m) = ground (arith, above_bound k m)

  pub above_mono : (k j : ℕ) (m : List (ℕ × V)) → k ≤ j → above j m ≤ above k m
  above_mono k j [] le = omega arith
  above_mono k j ((i, v) ∷ m) le = ground (arith, above_mono k j m le)

  pub above-passes :
      (k j : ℕ) (u : V) (m : List (ℕ × V)) → find k m ≡ some u → k < j → above j m < above k m
  unfolding find
  above-passes k j u [] e lt = absurd (ground (arith, e))
  above-passes k j u ((i, v) ∷ m) e lt = ground (arith, above-passes k j u m, above_mono k j m, e)

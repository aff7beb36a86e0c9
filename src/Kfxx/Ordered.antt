-- ===== src/Kfxx/Ordered.antt =====
-- What a client may assume of `kfxx::RBTree` (include/pbos/kfxx/rbtree.hh): its contents, as the
-- list of keys and payloads in ascending order. `pbos.Kfxx.Rbtree` shows that the tree keeps to it.
pub mod Count
pub mod Laws
pub mod Split
use pbos.Common.{
  ℕ, ◌+◌, ◌<◌, Bool, true, false, Option, none, some, List, [], ◌∷◌, ltb, leb, ◌==◌, if◌then◌else◌,
}

module _ {ℓ} {V : Type ℓ} where
  -- The entry of a key: `find`.
  unfoldable pub find : ℕ → List (ℕ × V) → Option V
  find k [] = none
  find k ((j, v) ∷ m) = if j == k then some v else find k m

  -- The entry with the greatest key that is at most `k`: `find_max_lteq`.
  unfoldable pub find_max_lteq : ℕ → List (ℕ × V) → Option (ℕ × V)
  find_max_lteq k [] = none
  find_max_lteq k ((j, v) ∷ m) =
      if leb j k then elim (find_max_lteq k m) [ none ↦ some (j, v) | some e ↦ some e ] else none

  -- The entry with the least key above `k`: `get_next` of the entry of `k`.
  unfoldable pub next_above : ℕ → List (ℕ × V) → Option (ℕ × V)
  next_above k [] = none
  next_above k ((j, v) ∷ m) = if ltb k j then some (j, v) else next_above k m

  -- A new key at its place: `insert` of a key that is absent.
  unfoldable pub insert : ℕ → V → List (ℕ × V) → List (ℕ × V)
  insert k v [] = (k, v) ∷ []
  insert k v ((j, w) ∷ m) = if ltb k j then (k, v) ∷ (j, w) ∷ m else (j, w) ∷ insert k v m

  -- The entries without that of `k`: `remove`.
  unfoldable pub remove : ℕ → List (ℕ × V) → List (ℕ × V)
  remove k [] = []
  remove k ((j, v) ∷ m) = if j == k then m else (j, v) ∷ remove k m

  -- A write to the fields of a node other than its key.
  unfoldable pub update : ℕ → V → List (ℕ × V) → List (ℕ × V)
  update k v [] = []
  update k v ((j, w) ∷ m) = if j == k then (j, v) ∷ m else (j, w) ∷ update k v m

  -- Every key of the list is above `k`, and each below the next.
  abbrev pub Above : ℕ → List (ℕ × V) → Type 0
  Above k [] = Unit
  Above k ((j, v) ∷ m) = (k < j) × Above j m

  abbrev pub IsSorted : List (ℕ × V) → Type 0
  IsSorted [] = Unit
  IsSorted ((j, v) ∷ m) = Above j m

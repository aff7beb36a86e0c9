-- ===== src/Mm/Vmr/Areas.antt =====
-- Areas that do not overlap: what splitting, merging and changing one does to the list of them.
use pbos.Common.{ℕ, ◌+◌, ◌-◌, ◌^◌, ◌≤◌, ◌<◌, ◌≡◌, refl, none, some, List, [], ◌∷◌, arith}
use pbos.Kfxx.Ordered.{find, insert, remove, update}
use pbos.Mm.Context.{Vmr}

-- The areas of the list lie above `b`, none is empty or passes the end of the address space, and
-- each ends before the next begins.
abbrev pub Beyond : ℕ → List (ℕ × Vmr) → Type 0
Beyond b [] = Unit
Beyond b ((j, v) ∷ m) = (b ≤ j) × (0 < v.size) × (j + v.size < 2 ^ 64) × Beyond (j + v.size) m

abbrev pub IsDisjoint : List (ℕ × Vmr) → Type 0
IsDisjoint = Beyond 0

find-Beyond : (k b : ℕ) (m : List (ℕ × Vmr)) → Beyond b m → k < b → find k m ≡ none
unfolding find
find-Beyond k b [] q h = refl
find-Beyond k b ((j, v) ∷ m) q h = ground (arith, find-Beyond k (j + v.size) m)

-- An area that is found.
pub found-Beyond :
    (k b : ℕ) (v : Vmr) (m : List (ℕ × Vmr))
    → Beyond b m
    → find k m ≡ some v
    → (b ≤ k) × (0 < v.size) × (k + v.size < 2 ^ 64)
unfolding find
found-Beyond k b v [] q f = ground arith
found-Beyond k b v ((j, w) ∷ m) q f = ground (arith, found-Beyond k (j + w.size) v m)

-- No area begins inside another.
pub find-inside :
    (k s b : ℕ) (v : Vmr) (m : List (ℕ × Vmr))
    → Beyond b m
    → find k m ≡ some v
    → k < s
    → s < k + v.size
    → find s m ≡ none
unfolding find
find-inside k s b v [] q f lt below = refl
find-inside k s b v ((j, w) ∷ m) q f lt below = ground (
  arith,
  find-inside k s (j + w.size) v m,
  find-Beyond s (j + w.size) m,
  found-Beyond k (j + w.size) v m,
)

insert-front :
    (k b : ℕ) (v : Vmr) (m : List (ℕ × Vmr)) → Beyond b m → k < b → insert k v m ≡ (k, v) ∷ m
unfolding insert
insert-front k b v [] q h = refl
insert-front k b v ((j, w) ∷ m) q h = ground arith

remove-front : (k : ℕ) (v : Vmr) (m : List (ℕ × Vmr)) → remove k ((k, v) ∷ m) ≡ m
unfolding remove
remove-front k v m = ground arith

-- A found area is replaced by two, of which the first begins where it did and ends where the second
-- begins, and the second ends where it did.
pub split-Beyond :
    (k s b : ℕ) (v lower upper : Vmr) (m : List (ℕ × Vmr))
    → Beyond b m
    → find k m ≡ some v
    → k < s
    → s < k + v.size
    → lower.size ≡ s - k
    → upper.size ≡ k + v.size - s
    → Beyond b (update k lower (insert s upper m))
unfolding find update insert
split-Beyond k s b v lower upper [] q f lt below el eu = ground arith
split-Beyond k s b v lower upper ((j, w) ∷ m) q f lt below el eu = ground (
  arith,
  split-Beyond k s (j + w.size) v lower upper m,
  insert-front s (j + w.size) upper m,
  found-Beyond k (j + w.size) v m,
)

remove-first :
    (k : ℕ) (w : Vmr) (m : List (ℕ × Vmr))
    → Beyond k m
    → find k m ≡ some w
    → Beyond (k + w.size) (remove k m)
unfolding find remove
remove-first k w [] q f = tt
remove-first k w ((j, u) ∷ m) q f = ground (arith, found-Beyond k (j + u.size) w m)

-- A found area takes in the one that begins where it ends.
pub merge-Beyond :
    (k b : ℕ) (v w grown : Vmr) (m : List (ℕ × Vmr))
    → Beyond b m
    → find k m ≡ some v
    → find (k + v.size) m ≡ some w
    → grown.size ≡ v.size + w.size
    → Beyond b (remove (k + v.size) (update k grown m))
unfolding find update remove
merge-Beyond k b v w grown [] q f g e = ground arith
merge-Beyond k b v w grown ((j, u) ∷ m) q f g e = ground (
  arith,
  merge-Beyond k (j + u.size) v w grown m,
  found-Beyond k (j + u.size) v m,
  remove-first (j + u.size) w m,
  found-Beyond (j + u.size) (j + u.size) w m,
)

-- A found area keeps its size.
pub update-Beyond :
    (k b : ℕ) (v w : Vmr) (m : List (ℕ × Vmr))
    → Beyond b m
    → find k m ≡ some v
    → w.size ≡ v.size
    → Beyond b (update k w m)
unfolding find update
update-Beyond k b v w [] q f e = tt
update-Beyond k b v w ((j, u) ∷ m) q f e = ground (arith, update-Beyond k (j + u.size) v w m)

-- Splitting and merging again.
pub merge-split_areas :
    (k s b : ℕ) (v lower upper : Vmr) (m : List (ℕ × Vmr))
    → Beyond b m
    → find k m ≡ some v
    → k < s
    → s < k + v.size
    → remove s (update k v (update k lower (insert s upper m))) ≡ m
unfolding find update insert remove
merge-split_areas k s b v lower upper [] q f lt below = ground arith
merge-split_areas k s b v lower upper ((j, w) ∷ m) q f lt below = ground (
  arith,
  merge-split_areas k s (j + w.size) v lower upper m,
  insert-front s (j + w.size) upper m,
  found-Beyond k (j + w.size) v m,
)

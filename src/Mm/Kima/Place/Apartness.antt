-- ===== src/Mm/Kima/Place/Apartness.antt =====
-- Blocks that are apart stay apart when one is added where there is room, or taken away.
use pbos.Common.{ℕ, ◌+◌, ◌^◌, ◌≤◌, ◌<◌, ◌≡◌, ◌⊎◌, inl, inr, none, some, ℕ_discrete, arith}
use pbos.Kfxx.Ordered.{find, insert, remove, IsSorted}
use pbos.Kfxx.Ordered.Laws.{find-insert, insert-IsSorted, find-remove, remove-IsSorted}
use pbos.Mm.Kima.Place.{Blocks}
use pbos.Mm.Kima.Place.Safe.{Apart, Free}

found-insert :
    (x i : ℕ) (e u : ℕ × ℕ) (m : Blocks)
    → find x m ≡ none
    → find i (insert x e m) ≡ some u
    → ((i ≡ x) × (u ≡ e)) ⊎ (find i m ≡ some u)
found-insert x i e u m absent f = elim (ℕ_discrete i x) [
  | yes same ↦ inl (same, grind (arith, find-insert x i e m absent, f))
  | no differ ↦ inr (ground (arith, find-insert x i e m absent, f))
]

found-remove :
    (x i : ℕ) (u : ℕ × ℕ) (m : Blocks)
    → IsSorted m
    → find i (remove x m) ≡ some u
    → find i m ≡ some u
found-remove x i u m s f = ground (arith, find-remove x i m s, f)

new_apart :
    (x : ℕ) (e : ℕ × ℕ) (i j : ℕ) (u w : ℕ × ℕ) (m : Blocks)
    → Apart m
    → Free x e.1 m
    → i < j
    → ((i ≡ x) × (u ≡ e)) ⊎ (find i m ≡ some u)
    → ((j ≡ x) × (w ≡ e)) ⊎ (find j m ≡ some w)
    → i + u.1 ≤ j
new_apart x e i j u w m v free lt (inl p) (inl q) = absurd (omega (arith, p.0, q.0))
new_apart x e i j u w m v free lt (inl p) (inr g) =
    grind (arith, p.0, p.1, free j w g, v.proper j w g)
new_apart x e i j u w m v free lt (inr f) (inl q) =
    grind (arith, q.0, q.1, free i u f, v.proper i u f)
new_apart x e i j u w m v free lt (inr f) (inr g) = v.apart i j u w f g lt

pub inside_Free :
    (x area size alignment i : ℕ) (u : ℕ × ℕ)
    → area ≤ x
    → x < area + alignment
    → (area + (size + alignment) ≤ i) ⊎ (i + u.1 ≤ area)
    → (x + size ≤ i) ⊎ (i + u.1 ≤ x)
inside_Free x area size alignment i u from to (inl h) = inl (omega arith)
inside_Free x area size alignment i u from to (inr h) = inr (omega arith)

pub insert-Apart :
    (x desc size : ℕ) (m : Blocks)
    → Apart m
    → find x m ≡ none
    → Free x size m
    → 0 < size
    → x + size < 2 ^ 64
    → Apart (insert x (desc, size) m)
insert-Apart x desc size m v absent free pos fits = record {
  sorted = insert-IsSorted x (desc, size) m v.sorted absent;
  proper = λ i u f. elim (found-insert x i (desc, size) u m absent f) [
    | inl (at, e) ↦ (grind arith, grind arith)
    | inr old ↦ v.proper i u old
  ];
  apart = λ i j u w f g lt.
      new_apart x (desc, size) i j u w m v free lt (found-insert x i (desc, size) u m absent f)
        (found-insert x j (desc, size) w m absent g);
}

pub remove-Apart : (x : ℕ) (m : Blocks) → Apart m → Apart (remove x m)
remove-Apart x m v = record {
  sorted = remove-IsSorted x m v.sorted;
  proper = λ i u f. v.proper i u (found-remove x i u m v.sorted f);
  apart = λ i j u w f g lt.
      v.apart i j u w (found-remove x i u m v.sorted f) (found-remove x j w m v.sorted g) lt;
}

-- ===== src/Ps/RwMutex/Writers.antt =====
-- Who may be inside the readers-writer mutex together.
use pbos.Common.{ℕ, ◌+◌, ◌≤◌, ◌≡◌, refl, Bool, true, false, some, List, [], ◌∷◌, ◌++◌, arith}
use pbos.Ps.RwMutex.{
  RwMutex, Place, outside, tested, reading, waiting, writing, Wish, to_read, to_write, act, World,
  Turn, turn, Turns, none_yet, and_then,
}

-- 1 for a thread that took `is_writing`, and 1 for a thread with the write lock.
unfoldable pub marks : Place → ℕ
marks outside = 0
marks tested = 0
marks reading = 0
marks waiting = 1
marks writing = 1

unfoldable pub writes : Place → ℕ
writes outside = 0
writes tested = 0
writes reading = 0
writes waiting = 0
writes writing = 1

unfoldable pub total : (Place → ℕ) → List Place → ℕ
total weight [] = 0
total weight (p ∷ ps) = weight p + total weight ps

unfoldable pub flag : Bool → ℕ
flag true = 1
flag false = 0

total-append :
    (weight : Place → ℕ) (xs ys : List Place)
    → total weight (xs ++ ys) ≡ total weight xs + total weight ys
unfolding total
total-append weight [] ys = omega arith
total-append weight (x ∷ xs) ys = omega (arith, total-append weight xs ys)

-- `is_writing` counts the threads that took it.
abbrev pub Counts : World → Type 0
Counts w = total marks w.threads ≡ flag w.mutex.is_writing

act-marks :
    (w : Wish) (p q : Place) (m n : RwMutex) (k : ℕ)
    → act w p m ≡ some (q, n)
    → k + marks p ≡ flag m.is_writing
    → k + marks q ≡ flag n.is_writing
unfolding act marks flag
act-marks to_read outside q m n k e h = ground (arith, e)
act-marks to_write outside q m n k e h = ground (arith, e)
act-marks w tested q m n k e h = ground (arith, e)
act-marks w reading q m n k e h = ground (arith, e)
act-marks w waiting q m n k e h = ground (arith, e)
act-marks w writing q m n k e h = ground (arith, e)

Turn-Counts : {u v : World} → Turn u v → Counts u → Counts v
unfolding total
Turn-Counts (turn w p q m n before after e) h =
    let a = total-append marks before (p ∷ after) in
    let b = total-append marks before (q ∷ after) in
    let k = total marks before + total marks after in
    let kept = act-marks w p q m n k e (omega (arith, a, h)) in omega (arith, b, kept)

Turns-Counts : {start v : World} → Counts start → Turns start v → Counts v
Turns-Counts h none_yet = h
Turns-Counts h (and_then ts t) = Turn-Counts t (Turns-Counts h ts)

writes-marks : (ps : List Place) → total writes ps ≤ total marks ps
unfolding total writes marks
writes-marks [] = omega arith
writes-marks (outside ∷ ps) = omega (arith, writes-marks ps)
writes-marks (tested ∷ ps) = omega (arith, writes-marks ps)
writes-marks (reading ∷ ps) = omega (arith, writes-marks ps)
writes-marks (waiting ∷ ps) = omega (arith, writes-marks ps)
writes-marks (writing ∷ ps) = omega (arith, writes-marks ps)

-- However many threads take turns in whatever order, from a mutex whose `is_writing` is set just if
-- one thread took it: at most one thread has the write lock.
pub Turns-one_writer : (start v : World) → Counts start → Turns start v → total writes v.threads ≤ 1
unfolding flag
Turns-one_writer start v h ts =
    let c = Turns-Counts h ts in let le = writes-marks v.threads in ground (arith, c, le)

-- From a mutex that nobody reads or writes, two threads that are outside may, whatever the others
-- are, come to have the read lock and the write lock together.
pub Turns-reader_and_writer :
    (others : List Place)
    → Turns
        (record {
          threads = outside ∷ outside ∷ others;
          mutex = record { is_writing = false; read_count = 0 };
        })
        (record {
          threads = reading ∷ writing ∷ others;
          mutex = record { is_writing = true; read_count = 1 };
        })
unfolding act
Turns-reader_and_writer others =
    and_then
      (and_then
        (and_then (and_then none_yet (turn to_read outside tested _ _ [] (outside ∷ others) refl))
          (turn to_write outside waiting _ _ (tested ∷ []) others refl))
        (turn to_write waiting writing _ _ (tested ∷ []) others refl))
      (turn to_read tested reading _ _ [] (writing ∷ others) refl)

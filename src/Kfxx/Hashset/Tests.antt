-- ===== src/Kfxx/Hashset/Tests.antt =====
-- Runs on a set of three numbers in one bucket, which grows with the next one.
use pbos.Common.{ℕ, ◌≡◌, refl, subst, true, false, ◌||◌, [], ◌∷◌, ◌==◌, ==_iff, arith}
use pbos.Kfxx.Hashset.{
  Element, HashSet, Grants, succeeded, failed, contains, insert, overwrite, check_capacity,
  bucket_at, set_bucket,
}
use pbos.Kfxx.Hashset.Resizing.{IsSound}
use pbos.Kfxx.Hashset.Insertion.{insert-contains}
use pbos.Kfxx.Hashset.Granting.{insert_granted, insert_evicts}

abbrev itself : ℕ → ℕ
itself x = x

abbrev entry : ℕ → Element ℕ
entry x = record { data_of = x; hash_code = x }

abbrev three : HashSet ℕ
three = record { buckets = (entry 2 ∷ entry 3 ∷ entry 4 ∷ []) ∷ []; size = 3 }

abbrev plenty : Grants
plenty = record { first_bucket = true; list_node = true; new_buckets = true }

abbrev scarce : Grants
scarce = record { first_bucket = true; list_node = true; new_buckets = false }

equal_hash : (a b : ℕ) → (a == b) ≡ true → itself a ≡ itself b
equal_hash a b h = (==_iff a b).0 h

equal_alike : (a b : ℕ) → (a == b) ≡ true → (z : ℕ) → (a == z) ≡ (b == z)
equal_alike a b h z = subst (λ k. (a == z) ≡ (k == z)) ((==_iff a b).0 h) refl

three-IsSound : IsSound ◌==◌ itself three
three-IsSound = (((refl, refl), ((refl, refl), ((refl, refl), tt))), tt)

insert-contains_example :
    IsSound ◌==◌ itself (insert ◌==◌ itself true plenty 5 three).1
    × (contains ◌==◌ itself (insert ◌==◌ itself true plenty 5 three).1 3
        ≡ (5 == 3 || contains ◌==◌ itself three 3))
insert-contains_example =
    insert-contains ◌==◌ itself equal_hash equal_alike true plenty 5 3 three three-IsSound
      (omega arith) (insert_granted ◌==◌ itself true 5 three (omega arith))

insert_granted_example : (insert ◌==◌ itself true plenty 5 three).0 ≡ succeeded
insert_granted_example = insert_granted ◌==◌ itself true 5 three (omega arith)

insert_evicts_example :
    insert ◌==◌ itself true scarce 3 three
    ≡ (failed, record three { buckets = set_bucket 0 (entry 3 ∷ entry 4 ∷ []) three.buckets })
unfolding overwrite check_capacity bucket_at
insert_evicts_example =
    insert_evicts ◌==◌ itself scarce 3 three (entry 2) (entry 3 ∷ entry 4 ∷ [])
      (entry 3 ∷ entry 4 ∷ []) refl refl (omega arith) refl refl refl refl

-- ===== src/Kfxx/Dynarray/Tests.antt =====
-- Runs of the dynamic array on arrays of numbers.
use pbos.Common.{ℕ, ◌+◌, ◌≡◌, refl, true, some, arith}
use pbos.Kfxx.Dynarray.{
  DynArray, returned, insert, erase_range, extract_range_and_shrink, shrink_capacity, realloc,
  sub_size,
}
use pbos.Kfxx.Dynarray.Access.{IsValid, InsertsAt, insert-InsertsAt}
use pbos.Kfxx.Dynarray.Ranges.{Erases, erase_range-Erases}

abbrev zeros : ℕ → ℕ
zeros i = 0

-- The numbers from 10 on, of which there are `length`.
abbrev tens : ℕ → DynArray ℕ
tens length = record { length = length; capacity = 8; buffer = some (λ i. i + 10) }

full-IsValid : IsValid (tens 8)
full-IsValid = (omega arith, omega arith, tt)

tens-IsValid : IsValid (tens 4)
tens-IsValid = (omega arith, omega arith, tt)

insert-InsertsAt_example : InsertsAt 8 true zeros 3 7 (tens 8) (insert 8 true zeros 3 7 (tens 8))
insert-InsertsAt_example =
    insert-InsertsAt 8 true zeros 3 7 (tens 8) full-IsValid (omega arith) (omega arith)

erase_range-Erases_example :
    Erases 8 true zeros 1 3 (tens 4) (erase_range 8 true zeros 1 3 (tens 4))
erase_range-Erases_example =
    erase_range-Erases 8 true zeros 1 3 (tens 4) tens-IsValid (omega arith) (omega arith)
      (omega arith)

abbrev extracted : DynArray ℕ
extracted = record {
  length = 2;
  capacity = 2;
  buffer = some (realloc 2 (some (λ i. i + 10)) zeros);
}

extract_run : extract_range_and_shrink 8 true zeros 2 4 (tens 4) ≡ returned true extracted
unfolding extract_range_and_shrink shrink_capacity sub_size
extract_run = refl

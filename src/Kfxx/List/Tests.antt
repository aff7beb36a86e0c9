-- ===== src/Kfxx/List/Tests.antt =====
-- Runs on a list of two nodes, and a third node that is linked to none.
use pbos.Common.{ℕ, ◌≡◌, refl, none, some, List, [], ◌∷◌, ◌==◌, if◌then◌else◌, arith}
use pbos.Kfxx.List.{Memory, Chain, push_front, remove, clear}
use pbos.Kfxx.List.Links.{IsListOf}
use pbos.Kfxx.List.Pushing.{Pushes, with_front, push_front-Pushes}
use pbos.Kfxx.List.Removal.{IsGivenBack, remove-IsListOf, clear-IsGivenBack}

abbrev memory : Memory ℕ
memory i =
    if i == 1
    then some (record { prev = none; next = some 2; value = 10 })
    else if i == 2
    then some (record { prev = some 1; next = none; value = 20 })
    else if i == 3
    then some (record { prev = none; next = none; value = 30 })
    else none

abbrev chain : Chain ℕ
chain = record { first = some 1; last = some 2; length = 2; nodes = memory }

abbrev entries : List (ℕ × ℕ)
entries = (1, 10) ∷ (2, 20) ∷ []

chain-IsListOf : IsListOf chain entries
chain-IsListOf = (refl, refl, refl, omega arith, (refl, (omega arith, tt), (refl, tt, tt)))

push_front-Pushes_example :
    Pushes (some 4) chain (with_front (some 4) 40 entries) (push_front (some 4) 40 chain)
push_front-Pushes_example =
    push_front-Pushes (some 4) 40 chain entries chain-IsListOf (omega arith) refl

remove-IsListOf_example :
    (d : Chain ℕ) × ((remove 2 chain ≡ some d) × IsListOf d ((1, 10) ∷ []) × (d.nodes 2 ≡ none))
remove-IsListOf_example = remove-IsListOf 2 20 chain ((1, 10) ∷ []) [] chain-IsListOf

clear-IsGivenBack_example :
    (d : Chain ℕ) × ((clear chain ≡ some d) × IsListOf d [] × IsGivenBack d.nodes entries)
clear-IsGivenBack_example = clear-IsGivenBack chain entries chain-IsListOf

-- ===== src/Kfxx/Tests.antt =====
-- Runs of the red-black tree on trees of numbers.
use pbos.Common.{ℕ, ◌+◌, ◌≡◌, refl, none, some, [], ◌∷◌, length, arith}
use pbos.Kfxx.Ordered.{find, IsSorted}
use pbos.Kfxx.Ordered
use pbos.Kfxx.Rbtree.{
  Tree, leaf, node, black, red, to_list, get, find_max_lteq, insert, is_red, inserted, get_slot,
  choose_side, insert_fixup, paint, plug,
}
use pbos.Kfxx.Rbtree.Insertion.{IsValid, Inserts, insert-Inserts}
use pbos.Kfxx.Rbtree.Search.{get-find, find_max_lteq-find_max_lteq}
use pbos.Kfxx.Rbtree.{rf}
use pbos.Kfxx.Rbtree.Clear.{clear, postorder, clear-postorder}
use pbos.Kfxx.Rbtree.Depth.{insert_all, IsShallow, insert_all-IsShallow}
use pbos.Kfxx.Rbtree.Walk.{Spot, get_next, begin, walk, spot}
use pbos.Kfxx.Rbtree.Walk.Order.{whole, entry, walk-begin, get_next-next_above}
use pbos.Kfxx.Rbtree.Remove.{remove}
use pbos.Kfxx.Rbtree.Remove.Removal.{remove-IsValid}

abbrev three : Tree ℕ
three = node black (node red leaf 10 1 leaf) 20 2 (node red leaf 30 3 leaf)

abbrev four : Tree ℕ
four = node black (node black leaf 10 1 leaf) 20 2 (node black leaf 30 3 (node red leaf 40 4 leaf))

abbrev two_sided : Tree ℕ
two_sided = node black (node black leaf 10 1 leaf) 20 2 (node black leaf 30 3 leaf)

three-IsValid : IsValid three
unfolding to_list is_red
three-IsValid = record {
  sorted = (omega arith, (omega arith, tt));
  balance = record {
    root_black = refl;
    height = 1;
    balanced = ((refl, refl, refl, refl), (refl, refl, refl, refl));
  };
}

four-IsValid : IsValid four
unfolding to_list is_red
four-IsValid = record {
  sorted = (omega arith, (omega arith, (omega arith, tt)));
  balance = record {
    root_black = refl;
    height = 2;
    balanced = ((refl, refl), (refl, (refl, refl, refl, refl)));
  };
}

insert_run : insert 40 4 three ≡ inserted four
unfolding insert get_slot choose_side insert_fixup is_red paint
insert_run = refl

remove_run : remove 40 four ≡ some two_sided
unfolding remove plug
remove_run = refl

insert-Inserts_example : Inserts 40 4 three (insert 40 4 three)
insert-Inserts_example = insert-Inserts 40 4 three three-IsValid

remove-IsValid_example :
    (u : Tree ℕ) × (remove 20 four ≡ some u)
    × (to_list u ≡ Ordered.remove 20 (to_list four))
    × IsValid u
remove-IsValid_example = remove-IsValid 20 2 four four-IsValid (unfold find to_list in refl)

get-find_example : get 30 four ≡ find 30 (to_list four)
get-find_example = get-find 30 four four-IsValid.sorted

find_max_lteq-find_max_lteq_example :
    find_max_lteq 35 four ≡ Ordered.find_max_lteq 35 (to_list four)
find_max_lteq-find_max_lteq_example = find_max_lteq-find_max_lteq 35 four four-IsValid.sorted

-- The node of 30 in the tree of four.
abbrev thirty : Spot ℕ
thirty =
    spot black leaf 30 3 (node red leaf 40 4 leaf) (rf black (node black leaf 10 1 leaf) 20 2 ∷ [])

walk-begin_example : walk 6 (begin four) ≡ to_list four
walk-begin_example = walk-begin 6 four (unfold to_list in omega arith)

get_next-next_above_example :
    entry (get_next none thirty) ≡ Ordered.next_above 30 (to_list (whole thirty))
get_next-next_above_example =
    get_next-next_above thirty
      (unfold to_list plug in (omega arith, (omega arith, (omega arith, tt))))

insert_all-IsShallow_example :
    IsShallow (length (to_list three) + 2) (insert_all ((40, 4) ∷ (50, 5) ∷ []) three)
insert_all-IsShallow_example = insert_all-IsShallow ((40, 4) ∷ (50, 5) ∷ []) three three-IsValid

clear-postorder_example : clear four ≡ some (postorder four)
clear-postorder_example = clear-postorder four

-- ===== src/LinkedList/Tests.antt =====
-- Instances of the theorems on the linked list, on a list of two links.
use rubberos.Base.{◌+◌, ◌-◌, ◌≡◌, refl, ◌==◌, if◌then◌else◌, arith}
use rubberos.LinkedList.{
  Links, insert_before, insert_after, remove, push_front, push_back, pop_front, pop_back,
  list_is_empty,
}
use rubberos.LinkedList.Laws.{SameBut, IsBetween, remove-insert, pop-push}

-- the dummy at 1, and the links 2 and 3
abbrev two : Links
two = record { prev = λ a. if a == 1 then 3 else a - 1; next = λ a. if a == 3 then 1 else a + 1 }

remove-insert_example :
    IsBetween 2 9 3 two (insert_after two 2 9)
    × IsBetween 1 9 2 two (insert_before two 2 9)
    × SameBut 9 two (remove (insert_after two 2 9) 9)
    × SameBut 9 two (remove (insert_before two 2 9) 9)
remove-insert_example = remove-insert two 2 9 refl refl (omega arith) (omega arith) (omega arith)

pop-push_example :
    ((pop_front (push_front two 1 9) 1).1 ≡ (if list_is_empty two 1 then 0 else 9))
    × ((pop_back (push_back two 1 9) 1).1 ≡ (if list_is_empty two 1 then 0 else 9))
pop-push_example = pop-push two 1 9 refl refl (omega arith) (omega arith) (omega arith)

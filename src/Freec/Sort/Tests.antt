-- ===== src/Freec/Sort/Tests.antt =====
-- Runs of sort.
use mathlib.Core.List.{Perm}
use rubberos.Base.{ℕ, ◌≡◌, refl, some, List, [], ◌∷◌, ltb, if◌then◌else◌, arith}
use rubberos.Base.Int.{ℤ, pos, negsuc}
use rubberos.Freec.Sort.{is_negative, sort, sort_loop, repair, greater_child, less, swap}
use rubberos.Freec.Sort.Order.{IsOrder}
use rubberos.Freec.Sort.Sorted.{IsSorted, sort_lem}

by_size : ℕ → ℕ → ℤ
by_size a b = if ltb b a then pos 1 else if ltb a b then negsuc 0 else pos 0

by_size-IsOrder : IsOrder by_size
unfolding by_size is_negative
by_size-IsOrder = record { asym = λ a b h. ground arith; trans = λ a b c h k. ground arith }

abbrev numbers : List ℕ
numbers = 5 ∷ 1 ∷ 4 ∷ 1 ∷ 9 ∷ 2 ∷ 6 ∷ []

sort_run : sort by_size numbers ≡ some (1 ∷ 1 ∷ 2 ∷ 4 ∷ 5 ∷ 6 ∷ 9 ∷ [])
unfolding sort sort_loop repair greater_child less swap by_size is_negative
sort_run = refl

sort_lem_example :
    (ys : List ℕ) × (sort by_size numbers ≡ some ys) × Perm ys numbers × IsSorted by_size ys
sort_lem_example = sort_lem by_size numbers by_size-IsOrder

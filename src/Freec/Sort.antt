-- ===== src/Freec/Sort.antt =====
-- libfreec/src/stdlib.c: sort, a heapsort on an array of `count` elements. The byte offsets of the
-- code are multiples of `size`, and are here the indices of elements; swap exchanges two elements.
-- `none` is an access outside of the array, or fuel that has run out.
pub mod Order
pub mod Sift
pub mod Sorted
mod Tests
use rubberos.Base.{
  ℕ, zero, suc, ◌+◌, ◌-◌, ◌*◌, ◌/◌, Bool, true, false, Option, none, some, List, length, get_elem?,
  set, ◌>>=◌, ltb, leb, if◌then◌else◌,
}
use rubberos.Base.Int.{ℤ, pos, negsuc}

-- the test `< 0`; the test `>= 0` is its negation
unfoldable pub is_negative : ℤ → Bool
is_negative (pos n) = false
is_negative (negsuc n) = true

module _ {ℓ} {A : Type ℓ} where
  unfoldable pub swap : List A → ℕ → ℕ → Option (List A)
  swap xs i j = do x ← get_elem? xs i; y ← get_elem? xs j; some (set (set xs i y) j x)

module _ {ℓ} {A : Type ℓ} (comp : A → A → ℤ) where
  -- `comp(p + i, p + j) < 0`
  unfoldable pub less : List A → ℕ → ℕ → Option Bool
  less xs i j = do x ← get_elem? xs i; y ← get_elem? xs j; some (is_negative (comp x y))

  -- the child of the two that is to be compared with their parent
  unfoldable pub greater_child : ℕ → ℕ → List A → Option ℕ
  greater_child child end xs =
      if ltb (child + 1) end
      then (do is_less ← less xs child (child + 1); some (if is_less then child + 1 else child))
      else some child

  -- The inner loop.
  unfoldable pub repair : ℕ → ℕ → ℕ → List A → Option (List A)
  repair zero root end xs = none
  repair (suc fuel) root end xs =
      let step : Option (List A) = do
        child ← greater_child (root * 2 + 1) end xs
        is_less ← less xs root child
        let next = swap xs root child >>= λ ys. repair fuel child end ys
        if is_less then next else some xs
      in if leb end (root * 2 + 1) then some xs else step

  -- The outer loop: a round of the first branch, and one of the second.
  unfoldable pub sort_loop : ℕ → ℕ → ℕ → List A → Option (List A)
  sort_loop zero start end xs = none
  sort_loop (suc fuel) start end xs =
      let heapify = repair end (start - 1) end xs >>= λ ys. sort_loop fuel (start - 1) end ys in
      let pop : Option (List A) = do
        ys ← swap xs (end - 1) 0
        zs ← repair end 0 (end - 1) ys
        sort_loop fuel 0 (end - 1) zs
      in let round = if ltb 0 start then heapify else pop in if ltb 1 end then round else some xs

  unfoldable pub sort : List A → Option (List A)
  sort xs = let count = length xs in sort_loop (count / 2 + count + 1) (count / 2) count xs

-- ===== src/Memory/Dynmem/Tests.antt =====
-- A block of four pages is shrunk to one page.
use rubberos.Base.{◌+◌, ◌*◌, ◌≡◌, some, arith, ◌>>=◌}
use rubberos.Freec.{div_ceil}
use rubberos.Paging.{page_size}
use rubberos.Buddy.{unit}
use rubberos.Buddy.Levels.{size, blocks}
use rubberos.Buddy.Invariant.{data_addr}
use rubberos.Buddy.Sample.{taken, taken-IsValid, taken-IsAligned}
use rubberos.Memory.Dynmem.{arraylist_dealloc, arraylist_shrink}
use rubberos.Memory.Dynmem.Shrink.{arraylist_shrink-dealloc}

-- The one page that the list keeps is free for the next allocation.
arraylist_shrink-dealloc_example :
    arraylist_shrink taken (data_addr taken + 0 * (unit * size 2)) (unit * size 2) 100 ≡ (
      arraylist_dealloc taken (data_addr taken + 0 * (unit * size 2)) (unit * size 2) >>= λ buddy.
      some (buddy, div_ceil 100 page_size * page_size))
unfolding size blocks div_ceil
arraylist_shrink-dealloc_example =
    arraylist_shrink-dealloc taken 2 0 100 taken-IsValid taken-IsAligned (omega arith) (omega arith)
      (omega arith) (omega arith)

-- ===== src/Memory/Dynmem/Shrink.antt =====
-- kernel/src/memory.c: what arraylist_shrink does to the block of the array list.
use rubberos.Base.{ℕ, ◌+◌, ◌*◌, ◌%◌, ◌^◌, ◌≤◌, ◌<◌, ◌≡◌, refl, some, ◌==◌, ◌>>=◌, arith, false}
use rubberos.Freec.{div_ceil}
use rubberos.Buddy.{unit, Buddy}
use rubberos.Buddy.Levels.{size, blocks}
use rubberos.Buddy.Invariant.{IsValid, data_addr}
use rubberos.Buddy.Dealloc.{IsAligned}
use rubberos.Buddy.Tail.{dealloc_tail}
use rubberos.Paging.{page_size}
use rubberos.Memory.Dynmem.{dynmem_dealloc, arraylist_dealloc, arraylist_shrink}

aligned_whole : (len : ℕ) → len % page_size ≡ 0 → div_ceil len page_size * page_size ≡ len
unfolding div_ceil
aligned_whole len h = ground arith

aligned_paged : (len : ℕ) → (div_ceil len page_size * page_size) % page_size ≡ 0
unfolding div_ceil
aligned_paged len = ground arith

-- Of a valid buddy allocator over whole units, and a block of it: when the block is shrunk to pages
-- that are less than half of it, arraylist_shrink gives the whole block back to the buddy allocator,
-- exactly as arraylist_dealloc does, although the list keeps the pages as its memory.
pub arraylist_shrink-dealloc :
    (buddy : Buddy) (fit block new_len : ℕ)
    → IsValid buddy
    → IsAligned buddy
    → block < blocks buddy.units fit
    → fit < buddy.bitmaps_len
    → unit * size fit ≤ 2 ^ 62
    → 2 * (div_ceil new_len page_size * page_size) < unit * size fit
    → arraylist_shrink buddy (data_addr buddy + block * (unit * size fit)) (unit * size fit) new_len
      ≡ (arraylist_dealloc buddy (data_addr buddy + block * (unit * size fit)) (unit * size fit)
          >>= λ buddy'. some (buddy', div_ceil new_len page_size * page_size))
unfolding arraylist_shrink arraylist_dealloc dynmem_dealloc
arraylist_shrink-dealloc buddy fit block new_len v a r lt small half =
    let old : div_ceil (unit * size fit) page_size * page_size ≡ unit * size fit =
      aligned_whole (unit * size fit) (omega arith) in
    let differ : (unit * size fit == div_ceil new_len page_size * page_size) ≡ false =
      ground arith in
    let tail =
      dealloc_tail buddy v a fit block r lt (div_ceil new_len page_size * page_size)
        (aligned_paged new_len) half small in
    rw (old, differ, tail) refl

-- ===== src/Memory/Dynmem.antt =====
-- kernel/src/memory.c: the dynamic memory, which is a buddy allocator behind a lock, and the page
-- allocator of the slabs and the allocator of the array lists, which are made of it. The functions
-- run under the lock, so that their steps do not interleave.
pub mod Shrink
mod Tests
use rubberos.Base.{ℕ, ◌+◌, ◌-◌, ◌*◌, Option, none, some, ◌==◌, if◌then◌else◌, ◌>>=◌}
use rubberos.Freec.{div_ceil}
use rubberos.Buddy.{Buddy, Slice, alloc_slice, dealloc}
use rubberos.Paging.{page_size}

pub dynmem_alloc : Buddy → ℕ → Option (Buddy × Slice)
dynmem_alloc buddy len = alloc_slice buddy len

pub dynmem_dealloc : Buddy → ℕ → ℕ → Option Buddy
dynmem_dealloc buddy ptr len = dealloc buddy ptr len

pub slab_page_alloc : Buddy → Option (Buddy × ℕ)
slab_page_alloc buddy = do (buddy', s) ← dynmem_alloc buddy page_size; some (buddy', s.ptr)

pub slab_page_dealloc : Buddy → ℕ → Option Buddy
slab_page_dealloc buddy page = dynmem_dealloc buddy page page_size

-- the pointer, and allocated_len
pub arraylist_alloc : Buddy → ℕ → Option (Buddy × ℕ × ℕ)
unfolding div_ceil
arraylist_alloc buddy len = do
  (buddy', s) ← dynmem_alloc buddy (div_ceil len page_size * page_size)
  some (buddy', s.ptr, s.len)

pub arraylist_dealloc : Buddy → ℕ → ℕ → Option Buddy
arraylist_dealloc buddy ptr len = dynmem_dealloc buddy ptr len

-- the new capacity
pub arraylist_shrink : Buddy → ℕ → ℕ → ℕ → Option (Buddy × ℕ)
unfolding div_ceil
arraylist_shrink buddy ptr old_len new_len =
    let aligned_old = div_ceil old_len page_size * page_size in
    let aligned_new = div_ceil new_len page_size * page_size in
    let tail = dynmem_dealloc buddy (ptr + aligned_new) (aligned_old - aligned_new) in
    if aligned_old == aligned_new
    then some (buddy, aligned_old)
    else tail >>= λ buddy'. some (buddy', aligned_new)

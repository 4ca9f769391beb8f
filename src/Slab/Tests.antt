-- ===== src/Slab/Tests.antt =====
-- A slab for objects of 24 bytes, on a page at 1 MiB, with its list at 64.
use rubberos.Base.{
  ℕ, suc, ◌+◌, ◌*◌, ◌≤◌, ◌≡◌, refl, inr, ◌&&◌, ◌==◌, leb, ltb, if◌then◌else◌, Option, none, some,
  arith,
}
use rubberos.LinkedList.{head, list_is_empty}
use rubberos.Freec.Memory.{memset, memchr_not, find, fill_up, write}
use rubberos.Slab.{
  SlabAllocator, SlabHeap, slab_page, redzone_fill, unused_fill, object_magic, empty_magic,
  page_init, slab_alloc, slab_dealloc, page_object_offset, object_info_is_valid, alloc_slot,
  slot_payload_offset, align_ceil, slot_alignof, is_filled, slot_on_alloc, slot_on_dealloc,
  slot_check_redzone, slot_check_unused, slot_write_unused, free_slot, page_push_front,
  page_pop_front, update,
}
use rubberos.Slab.Fresh.{IsLaidOut, IsChain}
use rubberos.Slab.Release.{
  IsSlab, IsRestored, slab_dealloc-slab_alloc, slab_dealloc-IsDamaged, slab_dealloc_twice,
}
use rubberos.Slab.Serve.{IsServed, HasFree}
use rubberos.Slab.First.{in_list, slab_alloc-IsChain}

abbrev slab : SlabAllocator
slab = record {
  partial_list = 64;
  object_size = 24;
  object_align = 8;
  payload_offset = 24;
  slot_size = 64;
}

abbrev blank : SlabHeap
blank = record {
  links = record { prev = λ a. 64; next = λ a. 64 };
  free_index = λ a. 0;
  alloc_count = λ a. 0;
  magic = λ a. 0;
  next = λ a. 0;
  bytes = λ a. 0;
}

slab-IsSlab : IsSlab slab
unfolding slot_payload_offset align_ceil
slab-IsSlab = record { offset = refl; behind_header = omega arith }

slab-IsLaidOut : IsLaidOut slab
slab-IsLaidOut = record { behind_header = omega arith; holds = omega arith }

slab_alloc-IsChain_example :
    (fresh h : SlabHeap) × (n : ℕ) × (page_init 0x100000 slab blank ≡ some fresh)
    × IsChain (suc n) 0x100000 (page_object_offset 8) slab fresh
    × (page_object_offset 8 + suc n * 64 ≤ slab_page)
    × (slab_page ≤ page_object_offset 8 + suc (suc n) * 64)
    × (slab_alloc 0x100000 slab blank ≡ some (h, 0x100000 + page_object_offset 8 + 24))
    × IsServed 0x100000 (0x100000 + page_object_offset 8) slab (in_list slab 0x100000 fresh) h
    × (h.alloc_count 0x100000 ≡ 1)
    × HasFree n 0x100000 (page_object_offset 8 + 64) slab h
unfolding object_info_is_valid page_object_offset slot_alignof align_ceil list_is_empty
slab_alloc-IsChain_example =
    slab_alloc-IsChain slab blank 0x100000 slab-IsLaidOut refl refl (omega arith)

-- a page with one object, and with two free slots at 128 and 192
abbrev partial : SlabHeap
partial = record {
  links = record {
    prev = λ a. if a == 64 then 0x100000 else 64;
    next = λ a. if a == 64 then 0x100000 else 64;
  };
  free_index = λ a. 128;
  alloc_count = λ a. 1;
  magic = λ a. empty_magic;
  next = λ a. if a == 0x100080 then 192 else 0;
  bytes = λ a. if leb 0x100098 a && ltb a 0x1000b0 then unused_fill else redzone_fill;
}

-- the page after an allocation
abbrev served : SlabHeap
served = record {
  links = partial.links;
  free_index = update partial.free_index 0x100000 192;
  alloc_count = update partial.alloc_count 0x100000 2;
  magic = update partial.magic 0x100080 object_magic;
  next = update partial.next 0x100080 0;
  bytes = memset partial.bytes 0x100098 0 24;
}

slab_alloc_run : slab_alloc 0 slab partial ≡ some (served, 0x100098)
unfolding slab_alloc alloc_slot page_pop_front slot_on_alloc slot_check_redzone slot_check_unused
    slot_write_unused is_filled memchr_not find list_is_empty head
slab_alloc_run = refl

slab_dealloc-slab_alloc_example :
    (h : SlabHeap) × (given : Option ℕ) × (slab_dealloc slab served 0x100098 ≡ some (h, given))
    × IsRestored 0x100000 slab partial h given
unfolding head list_is_empty
slab_dealloc-slab_alloc_example =
    slab_dealloc-slab_alloc slab partial served 0 0x100098 slab-IsSlab refl refl (omega arith)
      (omega arith) slab_alloc_run

-- The object was written one byte too far.
slab_dealloc-IsDamaged_example :
    slab_dealloc slab (record served { bytes = write served.bytes 0x1000b0 0 }) 0x100098 ≡ none
slab_dealloc-IsDamaged_example =
    slab_dealloc-IsDamaged slab (record served { bytes = write served.bytes 0x1000b0 0 }) 0x100080
      slab-IsSlab (inr (inr (48, omega arith, omega arith, omega arith)))

abbrev emptied : SlabHeap
emptied = record served {
  free_index = update served.free_index 0x100000 128;
  alloc_count = update served.alloc_count 0x100000 1;
  magic = update served.magic 0x100080 empty_magic;
  next = update served.next 0x100080 192;
  bytes = memset served.bytes 0x100098 unused_fill 24;
}

slab_dealloc_run : slab_dealloc slab served 0x100098 ≡ some (emptied, none)
unfolding slab_dealloc slot_on_dealloc slot_check_redzone slot_payload_offset align_ceil
    slot_write_unused is_filled memchr_not find memset fill_up free_slot page_push_front
slab_dealloc_run = refl

slab_dealloc_twice_example : slab_dealloc slab emptied 0x100098 ≡ none
slab_dealloc_twice_example = slab_dealloc_twice slab served emptied 0x100098 none slab_dealloc_run

-- ===== src/Slab/First.antt =====
-- libslab/src/slab.c: slab_init, and the first allocation from a fresh page.

use rubberos.Base.{
  ℕ, suc, ◌+◌, ◌*◌, ◌%◌, ◌^◌, ◌≤◌, ◌<◌, ◌≡◌, ◌≢◌, ap, ◌∙◌, true, false, some, ltb, ◌==◌,
  if◌then◌else◌, arith,
}
use rubberos.LinkedList.{list_init, list_is_empty, push_front}
use rubberos.Slab.Fresh.{IsLaidOut, IsChain, page_init_loop_lem}
use rubberos.Slab.Release.{IsSlab}
use rubberos.Slab.Serve.{
  IsServed, HasFree, IsServed-HasFree, IsChain-first, IsChain-links, alloc_slot-at,
}
use rubberos.Slab.{
  SlabAllocator, SlabHeap, slab_page, slot_header, slot_header_align, redzone_size, page_header,
  align_ceil, update, slot_alignof, slot_payload_offset, slot_sizeof, page_object_offset,
  object_info_is_valid, page_init, slab_alloc_page, slab_alloc, slab_init,
}

align_ceil-le : (x align : ℕ) → 0 < align → x ≤ align_ceil x align
unfolding align_ceil
align_ceil-le x align h = grind arith

page_object_offset-le : (align : ℕ) → page_header ≤ page_object_offset align
unfolding page_object_offset slot_alignof
page_object_offset-le align =
    align_ceil-le page_header (if ltb slot_header_align align then align else slot_header_align)
      (ground arith)

-- What slab_init accepts, for an alignment that is not 0, is a slab whose slots have their parts one
-- behind the other, and of which at least one fits in a page.
pub slab_init-IsSlab :
    (partial_list size align : ℕ) (h h' : SlabHeap) (slab : SlabAllocator)
    → 0 < align
    → slab_init partial_list size align h ≡ some (slab, h')
    → IsSlab slab × IsLaidOut slab × (object_info_is_valid slab ≡ true)
unfolding slab_init slot_payload_offset slot_sizeof
slab_init-IsSlab partial_list size align h h' slab pos run =
    let first = align_ceil-le (slot_header + redzone_size) align pos in
    let whole =
      align_ceil-le (align_ceil (slot_header + redzone_size) align + size + redzone_size) align
        pos in
    ground (arith, run, first, whole)

-- a heap with the page in the list of the slab, which was empty
abbrev pub in_list : SlabAllocator → ℕ → SlabHeap → SlabHeap
in_list slab page h = record h {
  links = push_front (list_init h.links slab.partial_list) slab.partial_list page;
}

-- When no page is partly free and the page allocator gives a page, slab_alloc fails no assertion. It
-- makes a chain of free slots of the page, each linked to the next, from behind the page header on
-- and as many as leave less than two slots' room in the page, and hands out the object of the first:
-- this slot leaves the chain, is marked and zeroed, and nothing else changes, the page has one object
-- and the others as its free slots, and it is in the list of the partly free pages unless there is no
-- other.
pub slab_alloc-IsChain :
    (slab : SlabAllocator) (h : SlabHeap) (new_page : ℕ)
    → IsLaidOut slab
    → object_info_is_valid slab ≡ true
    → list_is_empty h.links slab.partial_list ≡ true
    → new_page ≢ 0
    → (fresh h' : SlabHeap) × (n : ℕ) × (page_init new_page slab h ≡ some fresh)
      × IsChain (suc n) new_page (page_object_offset slab.object_align) slab fresh
      × (page_object_offset slab.object_align + suc n * slab.slot_size ≤ slab_page)
      × (slab_page ≤ page_object_offset slab.object_align + suc (suc n) * slab.slot_size)
      × (slab_alloc new_page slab h
          ≡ some (h', new_page + page_object_offset slab.object_align + slab.payload_offset))
      × IsServed new_page
          (new_page + page_object_offset slab.object_align)
          slab
          (in_list slab new_page fresh)
          h'
      × (h'.alloc_count new_page ≡ 1)
      × HasFree n new_page (page_object_offset slab.object_align + slab.slot_size) slab h'
unfolding slab_alloc slab_alloc_page page_init object_info_is_valid
slab_alloc-IsChain slab h new_page l valid none_partial page =
    let offset = page_object_offset slab.object_align in
    let behind = page_object_offset-le slab.object_align in
    let started : SlabHeap = record h {
      free_index = update h.free_index new_page (offset % 2 ^ 16);
      alloc_count = update h.alloc_count new_page 0;
    } in
    let (fresh, n, run, chain, same, room, most) =
      page_init_loop_lem slab l slab_page new_page offset started (omega (arith, behind))
        (ground (arith, valid)) in
    let linked = in_list slab new_page fresh in
    let small : offset % 2 ^ 16 ≡ offset = ground (arith, valid) in
    let index : fresh.free_index new_page ≡ offset =
      ap (λ f. f new_page) same.free_index ∙ ground (arith, small) in
    let chained = IsChain-links (suc n) new_page offset slab fresh linked.links chain in
    let empty = IsChain-first n new_page offset slab linked chained in
    let (h', runs, served) =
      alloc_slot-at new_page offset slab linked index (omega (arith, index, behind)) empty in
    let real : (new_page == 0) ≡ false = ground arith in
    let none_yet : fresh.alloc_count new_page ≡ 0 =
      ap (λ f. f new_page) same.alloc_count ∙ ground arith in
    (
      fresh,
      h',
      n,
      run,
      chain,
      room,
      most,
      rw (none_partial, real, run) runs,
      served,
      rw served.alloc_count (ground (arith, none_yet)),
      IsServed-HasFree n new_page offset slab linked h' l served chained,
    )

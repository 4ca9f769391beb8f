-- ===== src/Slab/Release.antt =====
-- libslab/src/slab.c: slab_dealloc after slab_alloc, and what slab_dealloc refuses.
use rubberos.Base.{
  ℕ, ◌+◌, ◌-◌, ◌%◌, ◌^◌, ◌≤◌, ◌<◌, ◌≡◌, ◌≢◌, refl, sym, ap, ◌∙◌, inl, inr, true, false, Option,
  none, some, ◌==◌, if◌then◌else◌, arith, Bool-cases, Option-cases,
}
use rubberos.LinkedList.{list_is_empty, head, remove, push_back}
use rubberos.Paging.{sub_64}
use rubberos.Slab.Slot.{
  slot_check_redzone-write, refill, slot_on_alloc_lem, slot_on_dealloc-IsDamaged,
  slot_on_dealloc-magic, IsDamaged,
}
use rubberos.Slab.{
  SlabAllocator, SlabHeap, slab_page, slot_header, unused_fill, object_magic, empty_magic, update,
  slot_payload_offset, slot_check_redzone, slot_check_unused, slot_write_unused, slot_on_alloc,
  slot_on_dealloc, page_from_slot, page_pop_front, page_push_front, alloc_slot, slab_alloc,
  free_slot, slab_dealloc,
}

-- The heap after alloc_slot.
abbrev front : ℕ → SlabHeap → ℕ
front page h = page + h.free_index page

abbrev taken : ℕ → SlabAllocator → SlabHeap → SlabHeap
taken page slab h =
    let slot = front page h in
    slot_write_unused slot slab 0 (record h {
      links = if h.next slot == 0 then remove h.links page else h.links;
      free_index = update h.free_index page (h.next slot);
      alloc_count = update h.alloc_count page ((h.alloc_count page + 1) % 2 ^ 16);
      magic = update h.magic slot object_magic;
      next = update h.next slot 0;
    })

record IsTaken (page : ℕ) (slab : SlabAllocator) (h h' : SlabHeap) (ptr : ℕ) : Type 0 where
  place : h.free_index page ≢ 0
  was_empty : h.magic (front page h) ≡ empty_magic
  redzones : slot_check_redzone (front page h) slab h ≡ true
  unused : slot_check_unused (front page h) slab h ≡ true
  pointer : ptr ≡ front page h + slab.payload_offset
  heap : h' ≡ taken page slab h

alloc_slot_lem :
    (page : ℕ) (slab : SlabAllocator) (h h' : SlabHeap) (ptr : ℕ)
    → alloc_slot page slab h ≡ some (h', ptr)
    → IsTaken page slab h h' ptr
unfolding alloc_slot page_pop_front slot_check_redzone slot_check_unused slot_write_unused
alloc_slot_lem page slab h h' ptr run =
    let slot = front page h in
    let popped : SlabHeap = record h {
      links = if h.next slot == 0 then remove h.links page else h.links;
      free_index = update h.free_index page (h.next slot);
      next = update h.next slot 0;
      alloc_count = update h.alloc_count page ((h.alloc_count page + 1) % 2 ^ 16);
    } in
    elim (Bool-cases (h.free_index page == 0)) [
      | inl none_left ↦ absurd (ground (arith, run, none_left))
      | inr place ↦ elim (Option-cases (slot_on_alloc slot slab popped)) [
        | inl refused ↦ absurd (ground (arith, run, place, refused))
        | inr (h₂, taken) ↦
            let (magic, redzones, unused, heap) = slot_on_alloc_lem slot slab popped h₂ taken in
            record {
              place = ground (arith, place);
              was_empty = magic;
              redzones = redzones;
              unused = unused;
              pointer = ground (arith, run, place, taken);
              heap = ground (arith, run, place, taken, heap);
            }
      ]
    ]

slot_on_dealloc-taken :
    (page : ℕ) (slab : SlabAllocator) (h : SlabHeap)
    → slot_header ≤ slab.payload_offset
    → slot_check_redzone (front page h) slab h ≡ true
    → slot_on_dealloc (front page h) slab (taken page slab h)
      ≡ some (
          slot_write_unused (front page h) slab unused_fill (record (taken page slab h) {
            magic = update (taken page slab h).magic (front page h) empty_magic;
          }))
unfolding slot_on_dealloc slot_write_unused slot_check_redzone
slot_on_dealloc-taken page slab h le ok =
    ground (arith, slot_check_redzone-write (front page h) slab 0 h le ok)

-- The heap is as it was, but for the links of the pages: a page that the allocation had made full
-- stands at the end of the list, and one without another object is removed and given back.
pub record IsRestored (page : ℕ) (slab : SlabAllocator) (h h' : SlabHeap) (given : Option ℕ)
    : Type 0 where
  pub free_index_same : (a : ℕ) → h'.free_index a ≡ h.free_index a
  pub alloc_count_same : (a : ℕ) → h'.alloc_count a ≡ h.alloc_count a
  pub magic_same : (a : ℕ) → h'.magic a ≡ h.magic a
  pub next_same : (a : ℕ) → h'.next a ≡ h.next a
  pub bytes_same : (a : ℕ) → h'.bytes a ≡ h.bytes a
  pub links_then : h'.links ≡ (
      if h.alloc_count page == 0
      then remove h.links page
      else if h.next (page + h.free_index page) == 0
      then push_back (remove h.links page) slab.partial_list page
      else h.links)
  pub given_then : given ≡ (if h.alloc_count page == 0 then some page else none)

-- Whatever happens to the links, the page gets the slot back.
free_slot_lem :
    (slot : ℕ) (slab : SlabAllocator) (h : SlabHeap)
    → ((free_slot slot slab h).0.free_index
        ≡ (page_push_front (page_from_slot slot) slot h).free_index)
      × ((free_slot slot slab h).0.alloc_count
          ≡ (page_push_front (page_from_slot slot) slot h).alloc_count)
      × ((free_slot slot slab h).0.next ≡ (page_push_front (page_from_slot slot) slot h).next)
      × ((free_slot slot slab h).0.magic ≡ h.magic)
      × ((free_slot slot slab h).0.bytes ≡ h.bytes)
unfolding free_slot page_push_front
free_slot_lem slot slab h =
    let page = page_from_slot slot in
    elim (Bool-cases ((page_push_front page slot h).alloc_count page == 0)) [
      | inl last ↦ elim (Bool-cases (h.free_index page == 0)) [
        | inl full ↦ rw (last, full) (refl, refl, refl, refl, refl)
        | inr left ↦ rw (last, left) (refl, refl, refl, refl, refl)
      ]
      | inr more ↦ elim (Bool-cases (h.free_index page == 0)) [
        | inl full ↦ rw (more, full) (refl, refl, refl, refl, refl)
        | inr left ↦ rw (more, left) (refl, refl, refl, refl, refl)
      ]
    ]

-- the heap of free_slot after alloc_slot and slot_on_dealloc
abbrev emptied : ℕ → SlabAllocator → SlabHeap → SlabHeap
emptied page slab h =
    slot_write_unused (front page h) slab unused_fill (record (taken page slab h) {
      magic = update (taken page slab h).magic (front page h) empty_magic;
    })

free_slot-links :
    (page : ℕ) (slab : SlabAllocator) (h : SlabHeap)
    → page_from_slot (front page h) ≡ page
    → h.alloc_count page < 2 ^ 16
    → ((free_slot (front page h) slab (emptied page slab h)).0.links ≡ (
        if h.alloc_count page == 0
        then remove h.links page
        else if h.next (front page h) == 0
        then push_back (remove h.links page) slab.partial_list page
        else h.links))
      × ((free_slot (front page h) slab (emptied page slab h)).1
          ≡ (if h.alloc_count page == 0 then some page else none))
unfolding free_slot page_push_front slot_write_unused
free_slot-links page slab h home count =
    let restored : ((h.alloc_count page + 1) % 2 ^ 16 + 2 ^ 16 - 1) % 2 ^ 16 ≡ h.alloc_count page =
      omega arith in
    let same : (page == page) ≡ true = ground arith in
    elim (Bool-cases (h.alloc_count page == 0)) [
      | inl last ↦ elim (Bool-cases (h.next (front page h) == 0)) [
        | inl full ↦ rw (home, same, restored, last, full) (refl, refl)
        | inr left ↦ rw (home, same, restored, last, left) (refl, refl)
      ]
      | inr more ↦ elim (Bool-cases (h.next (front page h) == 0)) [
        | inl full ↦ rw (home, same, restored, more, full) (refl, refl)
        | inr left ↦ rw (home, same, restored, more, left) (refl, refl)
      ]
    ]

free_slot-IsRestored :
    (page : ℕ) (slab : SlabAllocator) (h : SlabHeap)
    → page % slab_page ≡ 0
    → h.free_index page < slab_page
    → h.alloc_count page < 2 ^ 16
    → h.magic (front page h) ≡ empty_magic
    → slot_check_unused (front page h) slab h ≡ true
    → IsRestored page slab h
        (free_slot (front page h) slab (emptied page slab h)).0
        (free_slot (front page h) slab (emptied page slab h)).1
unfolding slot_write_unused slot_check_unused page_push_front
free_slot-IsRestored page slab h whole small count magic unused =
    let slot = front page h in
    let home : page_from_slot slot ≡ page = omega arith in
    let index : (slot - page) % 2 ^ 16 ≡ h.free_index page = omega arith in
    let restored : ((h.alloc_count page + 1) % 2 ^ 16 + 2 ^ 16 - 1) % 2 ^ 16 ≡ h.alloc_count page =
      omega arith in
    let (fi, ac, nx, mg, by) = free_slot_lem slot slab (emptied page slab h) in
    let (links, given) = free_slot-links page slab h home count in
    record {
      free_index_same = λ a. ap (λ f. f a) fi ∙ rw home (ground (arith, index));
      alloc_count_same = λ a. ap (λ f. f a) ac ∙ rw home (ground (arith, restored));
      magic_same = λ a. ap (λ f. f a) mg ∙ ground (arith, magic);
      next_same = λ a. ap (λ f. f a) nx ∙ rw home (ground arith);
      bytes_same = λ a. ap (λ f. f a) by ∙ refill slot slab h.bytes 0 a unused;
      links_then = links;
      given_then = given;
    }

-- What slab_init leaves.
pub record IsSlab (slab : SlabAllocator) : Type 0 where
  pub offset : slab.payload_offset ≡ slot_payload_offset slab
  pub behind_header : slot_header ≤ slab.payload_offset

alloc_slot-IsRestored :
    (page : ℕ) (slab : SlabAllocator) (h h' : SlabHeap) (ptr : ℕ)
    → IsSlab slab
    → page % slab_page ≡ 0
    → h.free_index page < slab_page
    → h.alloc_count page < 2 ^ 16
    → alloc_slot page slab h ≡ some (h', ptr)
    → (h'' : SlabHeap) × (given : Option ℕ) × (slab_dealloc slab h' ptr ≡ some (h'', given))
      × IsRestored page slab h h'' given
unfolding slab_dealloc
alloc_slot-IsRestored page slab h h' ptr s whole small count run =
    let t = alloc_slot_lem page slab h h' ptr run in
    let slot : sub_64 ptr (slot_payload_offset slab) ≡ front page h =
      ground (arith, t.pointer, s.offset) in
    let emptying = slot_on_dealloc-taken page slab h s.behind_header t.redzones in
    (
      (free_slot (front page h) slab (emptied page slab h)).0,
      (free_slot (front page h) slab (emptied page slab h)).1,
      rw (slot, t.heap, emptying) refl,
      free_slot-IsRestored page slab h whole small count t.was_empty t.unused,
    )

-- With a page in the list of partial pages, what slab_alloc hands out can be given back: slab_dealloc
-- fails no assertion, and every header of every page and slot and every byte is again as before. The
-- page goes back to the page allocator if it holds no other object, and to the end of the list if
-- the allocation had made it full; otherwise the list is as before.
pub slab_dealloc-slab_alloc :
    (slab : SlabAllocator) (h h' : SlabHeap) (new_page ptr : ℕ)
    → IsSlab slab
    → list_is_empty h.links slab.partial_list ≡ false
    → head h.links slab.partial_list % slab_page ≡ 0
    → h.free_index (head h.links slab.partial_list) < slab_page
    → h.alloc_count (head h.links slab.partial_list) < 2 ^ 16
    → slab_alloc new_page slab h ≡ some (h', ptr)
    → (h'' : SlabHeap) × (given : Option ℕ) × (slab_dealloc slab h' ptr ≡ some (h'', given))
      × IsRestored (head h.links slab.partial_list) slab h h'' given
unfolding slab_alloc
slab_dealloc-slab_alloc slab h h' new_page ptr s partial whole small count run =
    alloc_slot-IsRestored (head h.links slab.partial_list) slab h h' ptr s whole small count
      (rw partial at run)

-- slab_dealloc fails an assertion where the magic number of the slot is not that of an allocated
-- object, and where a byte between the header and the object, or behind the object in its slot, does
-- not hold the fill of a red zone.
pub slab_dealloc-IsDamaged :
    (slab : SlabAllocator) (h : SlabHeap) (slot : ℕ)
    → IsSlab slab
    → IsDamaged slot slab h
    → slab_dealloc slab h (slot + slab.payload_offset) ≡ none
unfolding slab_dealloc
slab_dealloc-IsDamaged slab h slot s damaged =
    let at : sub_64 (slot + slab.payload_offset) (slot_payload_offset slab) ≡ slot =
      ground (arith, s.offset) in
    rw (at, slot_on_dealloc-IsDamaged slot slab h damaged) refl

-- An object that was given back is refused when it is given back once more, in the heap that the first
-- slab_dealloc left.
pub slab_dealloc_twice :
    (slab : SlabAllocator) (h h' : SlabHeap) (ptr : ℕ) (given : Option ℕ)
    → slab_dealloc slab h ptr ≡ some (h', given)
    → slab_dealloc slab h' ptr ≡ none
unfolding slab_dealloc
slab_dealloc_twice slab h h' ptr given run =
    let slot = sub_64 ptr (slot_payload_offset slab) in
    elim (Option-cases (slot_on_dealloc slot slab h)) [
      | inl refused ↦ absurd (ground (arith, rw refused at run))
      | inr (h₁, emptying) ↦
          let freed : free_slot slot slab h₁ ≡ (h', given) = ground (arith, rw emptying at run) in
          let same : h'.magic ≡ h₁.magic =
            ap (λ (r : SlabHeap × Option ℕ). r.0.magic) (sym freed)
            ∙ (free_slot_lem slot slab h₁).3 in
          let magic : h'.magic slot ≡ empty_magic =
            ap (λ f. f slot) same ∙ slot_on_dealloc-magic slot slab h h₁ emptying in
          let gone : h'.magic slot ≢ object_magic = ground (arith, magic) in
          rw (slot_on_dealloc-IsDamaged slot slab h' (inl gone)) refl
    ]

-- ===== src/Slab.antt =====
-- libslab/src/slab.c: the slab allocator, which cuts pages into slots for objects of one size. The
-- fields of the page and slot headers are maps from addresses, the links of the pages are those of
-- LinkedList (a page's link is its first field, so that it has the page's address), and the red zones
-- and the objects are bytes of Freec.Memory. The page allocator is called through function pointers:
-- the page that its `alloc` gives, or 0, is an argument, and the page that its `dealloc` is called with
-- is a part of the result, with the heap as it is when `dealloc` is called: what the page allocator
-- writes to the page then is not in it. `none` is a failed assertion. Alignments are powers of two, for which the
-- mask of align_ceil rounds up.
pub mod Slot
pub mod Release
pub mod Fresh
pub mod Serve
pub mod First
mod Tests
use rubberos.Base.{
  ℕ, zero, suc, ◌+◌, ◌-◌, ◌*◌, ◌/◌, ◌%◌, ◌^◌, Bool, true, false, ◌&&◌, not, Option, none, some, ltb,
  leb, ◌==◌, if◌then◌else◌, ◌>>=◌,
}
use rubberos.Freec.Memory.{Memory, memset, memchr_not}
use rubberos.LinkedList.{Links, list_init, list_is_empty, head, remove, push_front, push_back}
use rubberos.Paging.{sub_64}

pub record SlabAllocator : Type 0 where
  pub partial_list : ℕ
  pub object_size : ℕ
  pub object_align : ℕ
  pub payload_offset : ℕ
  pub slot_size : ℕ

-- struct page and struct slot, by address
pub record SlabHeap : Type 0 where
  pub links : Links
  pub free_index : ℕ → ℕ
  pub alloc_count : ℕ → ℕ
  pub magic : ℕ → ℕ
  pub next : ℕ → ℕ
  pub bytes : Memory

abbrev pub slab_page : ℕ
slab_page = 4096

abbrev pub redzone_size : ℕ
redzone_size = 16

abbrev pub empty_magic : ℕ
empty_magic = 0x3a49

abbrev pub object_magic : ℕ
object_magic = 0x6b5c

abbrev pub redzone_fill : ℕ
redzone_fill = 0xe3

abbrev pub unused_fill : ℕ
unused_fill = 0xf2

-- sizeof(struct page), sizeof(struct slot) and alignof(struct slot)
abbrev pub page_header : ℕ
page_header = 24

abbrev pub slot_header : ℕ
slot_header = 4

abbrev pub slot_header_align : ℕ
slot_header_align = 2

-- `map[at] = value`
abbrev pub update : (ℕ → ℕ) → ℕ → ℕ → ℕ → ℕ
update map at value a = if a == at then value else map a

pub align_ceil : ℕ → ℕ → ℕ
align_ceil x align = (x + (align - 1)) / align * align

pub slot_alignof : ℕ → ℕ
slot_alignof object_align =
    if ltb slot_header_align object_align then object_align else slot_header_align

pub slot_payload_offset : SlabAllocator → ℕ
slot_payload_offset slab = align_ceil (slot_header + redzone_size) slab.object_align

abbrev pub slot_redzone1_size : SlabAllocator → ℕ
slot_redzone1_size slab = slab.payload_offset - slot_header

abbrev pub slot_redzone2_offset : SlabAllocator → ℕ
slot_redzone2_offset slab = slab.payload_offset + slab.object_size

pub slot_sizeof : SlabAllocator → ℕ
slot_sizeof slab = align_ceil (slot_redzone2_offset slab + redzone_size) slab.object_align

abbrev pub slot_redzone2_size : SlabAllocator → ℕ
slot_redzone2_size slab = slab.slot_size - slot_redzone2_offset slab

pub slot_init : ℕ → SlabAllocator → SlabHeap → SlabHeap
slot_init slot slab h =
    let m₁ = memset h.bytes (slot + slot_header) redzone_fill (slot_redzone1_size slab) in
    let m₂ = memset m₁ (slot + slab.payload_offset) unused_fill slab.object_size in
    record h {
      magic = update h.magic slot empty_magic;
      next = update h.next slot 0;
      bytes = memset m₂ (slot + slot_redzone2_offset slab) redzone_fill (slot_redzone2_size slab);
    }

-- `memchr_not(ptr, ch, count) == NULL`
pub is_filled : Memory → ℕ → ℕ → ℕ → Bool
is_filled m ptr ch count = elim (memchr_not m ptr ch count) [ none ↦ true | some at ↦ false ]

pub slot_check_redzone : ℕ → SlabAllocator → SlabHeap → Bool
slot_check_redzone slot slab h =
    is_filled h.bytes (slot + slot_header) redzone_fill (slot_redzone1_size slab)
    && is_filled h.bytes (slot + slot_redzone2_offset slab) redzone_fill (slot_redzone2_size slab)

pub slot_check_unused : ℕ → SlabAllocator → SlabHeap → Bool
slot_check_unused slot slab h =
    is_filled h.bytes (slot + slab.payload_offset) unused_fill slab.object_size

pub slot_write_unused : ℕ → SlabAllocator → ℕ → SlabHeap → SlabHeap
slot_write_unused slot slab b h = record h {
  bytes = memset h.bytes (slot + slab.payload_offset) b slab.object_size;
}

pub slot_on_alloc : ℕ → SlabAllocator → SlabHeap → Option SlabHeap
slot_on_alloc slot slab h =
    if (h.magic slot == empty_magic)
      && (h.next slot == 0)
      && slot_check_redzone slot slab h
      && slot_check_unused slot slab h
    then some
        (slot_write_unused slot slab 0 (record h { magic = update h.magic slot object_magic }))
    else none

pub slot_on_dealloc : ℕ → SlabAllocator → SlabHeap → Option SlabHeap
slot_on_dealloc slot slab h =
    if (h.magic slot == object_magic) && (h.next slot == 0) && slot_check_redzone slot slab h
    then some (
        slot_write_unused slot slab unused_fill
          (record h { magic = update h.magic slot empty_magic }))
    else none

abbrev pub page_from_slot : ℕ → ℕ
page_from_slot slot = slot / slab_page * slab_page

pub page_object_offset : ℕ → ℕ
page_object_offset object_align = align_ceil page_header (slot_alignof object_align)

pub object_info_is_valid : SlabAllocator → Bool
object_info_is_valid slab = leb (page_object_offset slab.object_align + slab.slot_size) slab_page

-- The loop of page_init.
pub page_init_loop : ℕ → ℕ → ℕ → SlabAllocator → SlabHeap → Option SlabHeap
page_init_loop zero page offset slab h = none
page_init_loop (suc fuel) page offset slab h =
    let slot = page + offset in
    let h₁ = slot_init slot slab h in
    let next_offset = offset + slab.slot_size in
    let h₂ = record h₁ { next = update h₁.next slot (next_offset % 2 ^ 16) } in
    let rest = page_init_loop fuel page next_offset slab h₂ in
    if ltb (next_offset + slab.slot_size) slab_page
    then rest
    else some (record h₁ { next = update h₁.next slot 0 })

pub page_init : ℕ → SlabAllocator → SlabHeap → Option SlabHeap
page_init page slab h =
    let offset = page_object_offset slab.object_align in
    page_init_loop slab_page page offset slab (record h {
      free_index = update h.free_index page (offset % 2 ^ 16);
      alloc_count = update h.alloc_count page 0;
    })

-- the slot, and whether the page is full now
pub page_pop_front : ℕ → SlabHeap → Option (SlabHeap × ℕ × Bool)
page_pop_front page h =
    let front = page + h.free_index page in
    if h.free_index page == 0
    then none
    else some (
      record h {
        free_index = update h.free_index page (h.next front);
        next = update h.next front 0;
        alloc_count = update h.alloc_count page ((h.alloc_count page + 1) % 2 ^ 16);
      },
      front,
      h.next front == 0,
    )

pub page_push_front : ℕ → ℕ → SlabHeap → SlabHeap
page_push_front page slot h = record h {
  next = update h.next slot (h.free_index page);
  free_index = update h.free_index page ((slot - page) % 2 ^ 16);
  alloc_count = update h.alloc_count page ((h.alloc_count page + 2 ^ 16 - 1) % 2 ^ 16);
}

-- slab_init for a slab with the list at `partial_list`
pub slab_init : ℕ → ℕ → ℕ → SlabHeap → Option (SlabAllocator × SlabHeap)
slab_init partial_list size align h =
    let s₀ : SlabAllocator = record {
      partial_list = partial_list;
      object_size = size;
      object_align = align;
      payload_offset = 0;
      slot_size = 0;
    } in
    let s₁ = record s₀ { payload_offset = slot_payload_offset s₀ } in
    let s₂ = record s₁ { slot_size = slot_sizeof s₁ } in
    if leb size 0xffff
      && leb align 0xffff
      && leb s₁.payload_offset 0xffff
      && leb s₂.slot_size 0xffff
      && object_info_is_valid s₂
    then some (s₂, record h { links = list_init h.links partial_list })
    else none

-- slab_alloc_page, with the page that the page allocator gave
pub slab_alloc_page : ℕ → SlabAllocator → SlabHeap → Option SlabHeap
slab_alloc_page page slab h = do
  h₁ ← page_init page slab h
  some (record h₁ {
    links = push_front (list_init h₁.links slab.partial_list) slab.partial_list page;
  })

-- slab_alloc from its second half on
pub alloc_slot : ℕ → SlabAllocator → SlabHeap → Option (SlabHeap × ℕ)
alloc_slot page slab h = do
  (h₁, slot, full) ← page_pop_front page h
  h₂ ← slot_on_alloc slot slab (if full then record h₁ { links = remove h₁.links page } else h₁)
  some (h₂, slot + slab.payload_offset)

-- the pointer, or 0
pub slab_alloc : ℕ → SlabAllocator → SlabHeap → Option (SlabHeap × ℕ)
slab_alloc new_page slab h =
    let fresh = slab_alloc_page new_page slab h >>= λ h₁. alloc_slot new_page slab h₁ in
    if list_is_empty h.links slab.partial_list
    then if new_page == 0 then some (h, 0) else fresh
    else alloc_slot (head h.links slab.partial_list) slab h

-- slab_dealloc from the call of page_push_front on: the heap, and the page that is given back
pub free_slot : ℕ → SlabAllocator → SlabHeap → SlabHeap × Option ℕ
free_slot slot slab h =
    let page = page_from_slot slot in
    let was_full = h.free_index page == 0 in
    let h₁ = page_push_front page slot h in
    let unlinked = record h₁ { links = remove h₁.links page } in
    if h₁.alloc_count page == 0
    then (if was_full then h₁ else unlinked, some page)
    else if was_full
    then (record h₁ { links = push_back h₁.links slab.partial_list page }, none)
    else (h₁, none)

pub slab_dealloc : SlabAllocator → SlabHeap → ℕ → Option (SlabHeap × Option ℕ)
slab_dealloc slab h ptr = do
  let slot = sub_64 ptr (slot_payload_offset slab)
  h₁ ← slot_on_dealloc slot slab h
  some (free_slot slot slab h₁)

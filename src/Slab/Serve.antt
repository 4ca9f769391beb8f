-- ===== src/Slab/Serve.antt =====
-- libslab/src/slab.c: an allocation from a page with free slots.
use mathlib.Core.Path.{subst}
use rubberos.Base.{
  ℕ, zero, suc, ◌+◌, ◌%◌, ◌^◌, ◌≤◌, ◌≡◌, ◌≢◌, refl, ◌∙◌, true, some, ◌==◌, if◌then◌else◌, arith,
}
use rubberos.Freec.Memory.Laws.{within, memset_lem}
use rubberos.Slab.Slot.{is_filled-get, is_filled-intro}
use rubberos.LinkedList.{Links, remove}
use rubberos.Slab.Fresh.{IsLaidOut, IsEmptySlot, IsChain}
use rubberos.Slab.{
  SlabAllocator, SlabHeap, object_magic, update, slot_check_redzone, is_filled, slot_check_unused,
  slot_write_unused, slot_on_alloc, page_pop_front, alloc_slot,
}

slot_on_alloc-IsEmptySlot :
    (slot : ℕ) (slab : SlabAllocator) (h : SlabHeap)
    → IsEmptySlot slot slab h
    → h.next slot ≡ 0
    → slot_on_alloc slot slab h
      ≡ some (slot_write_unused slot slab 0 (record h { magic = update h.magic slot object_magic }))
unfolding slot_on_alloc slot_check_redzone slot_check_unused
slot_on_alloc-IsEmptySlot slot slab h e next =
    rw (e.magic, next, e.redzone1, e.redzone2, e.unused) refl

-- What an allocation from a page does: it takes the first free slot, whose successor is then the first
-- one, and zeroes the object of it. A page without a further free slot leaves its list.
pub record IsServed (page slot : ℕ) (slab : SlabAllocator) (h h' : SlabHeap) : Type 0 where
  pub free_index : h'.free_index ≡ update h.free_index page (h.next slot)
  pub alloc_count : h'.alloc_count ≡ update h.alloc_count page ((h.alloc_count page + 1) % 2 ^ 16)
  pub next : h'.next ≡ update h.next slot 0
  pub magic : h'.magic ≡ update h.magic slot object_magic
  pub bytes :
      (x : ℕ)
      → h'.bytes x
        ≡ (if within (slot + slab.payload_offset) slab.object_size x then 0 else h.bytes x)
  pub links : h'.links ≡ (if h.next slot == 0 then remove h.links page else h.links)

alloc_slot-IsEmptySlot :
    (page : ℕ) (slab : SlabAllocator) (h : SlabHeap)
    → h.free_index page ≢ 0
    → IsEmptySlot (page + h.free_index page) slab h
    → (h' : SlabHeap) × (alloc_slot page slab h
        ≡ some (h', page + h.free_index page + slab.payload_offset))
      × IsServed page (page + h.free_index page) slab h h'
unfolding alloc_slot page_pop_front slot_write_unused
alloc_slot-IsEmptySlot page slab h place e =
    let slot = page + h.free_index page in
    let popped : SlabHeap = record h {
      links = if h.next slot == 0 then remove h.links page else h.links;
      free_index = update h.free_index page (h.next slot);
      next = update h.next slot 0;
      alloc_count = update h.alloc_count page ((h.alloc_count page + 1) % 2 ^ 16);
    } in
    let empty : IsEmptySlot slot slab popped = record {
      magic = e.magic;
      redzone1 = e.redzone1;
      redzone2 = e.redzone2;
      unused = e.unused;
    } in
    let run = slot_on_alloc-IsEmptySlot slot slab popped empty (ground arith) in
    (
      slot_write_unused slot slab 0
          (record popped { magic = update popped.magic slot object_magic }),
      ground (arith, run, place),
      record {
        free_index = refl;
        alloc_count = refl;
        next = refl;
        magic = refl;
        bytes = λ x. memset_lem h.bytes (slot + slab.payload_offset) 0 slab.object_size x;
        links = refl;
      },
    )

pub alloc_slot-at :
    (page offset : ℕ) (slab : SlabAllocator) (h : SlabHeap)
    → h.free_index page ≡ offset
    → h.free_index page ≢ 0
    → IsEmptySlot (page + offset) slab h
    → (h' : SlabHeap) × (alloc_slot page slab h ≡ some (h', page + offset + slab.payload_offset))
      × IsServed page (page + offset) slab h h'
alloc_slot-at page offset slab h index place =
    subst
      (λ o.
        IsEmptySlot (page + o) slab h
        → (h' : SlabHeap) × (alloc_slot page slab h ≡ some (h', page + o + slab.payload_offset))
          × IsServed page (page + o) slab h h')
      index (alloc_slot-IsEmptySlot page slab h place)

-- Only what stands below `bound` differs.
record SameFrom (bound : ℕ) (h h' : SlabHeap) : Type 0 where
  magic : (a : ℕ) → bound ≤ a → h'.magic a ≡ h.magic a
  next : (a : ℕ) → bound ≤ a → h'.next a ≡ h.next a
  bytes : (a : ℕ) → bound ≤ a → h'.bytes a ≡ h.bytes a

IsServed-SameFrom :
    (page slot : ℕ) (slab : SlabAllocator) (h h' : SlabHeap)
    → IsLaidOut slab
    → IsServed page slot slab h h'
    → SameFrom (slot + slab.slot_size) h h'
IsServed-SameFrom page slot slab h h' l s = record {
  magic = λ a le. rw s.magic (ground (arith, l.behind_header, l.holds));
  next = λ a le. rw s.next (ground (arith, l.behind_header, l.holds));
  bytes = λ a le. ground (arith, s.bytes a, l.holds);
}

IsEmptySlot-SameFrom :
    (slot bound : ℕ) (slab : SlabAllocator) (h h' : SlabHeap)
    → bound ≤ slot
    → SameFrom bound h h'
    → IsEmptySlot slot slab h
    → IsEmptySlot slot slab h'
IsEmptySlot-SameFrom slot bound slab h h' le same e =
    let kept : (ptr ch count : ℕ)
        → bound ≤ ptr
        → is_filled h.bytes ptr ch count ≡ true
        → is_filled h'.bytes ptr ch count ≡ true =
      λ ptr ch count behind filled. is_filled-intro h'.bytes ptr ch count λ i lt.
        same.bytes (ptr + i) (omega arith) ∙ is_filled-get h.bytes ptr ch count i filled lt in
    record {
      magic = same.magic slot le ∙ e.magic;
      redzone1 = kept _ _ _ (omega arith) e.redzone1;
      redzone2 = kept _ _ _ (omega arith) e.redzone2;
      unused = kept _ _ _ (omega arith) e.unused;
    }

IsChain-SameFrom :
    (n page offset bound : ℕ) (slab : SlabAllocator) (h h' : SlabHeap)
    → bound ≤ page + offset
    → SameFrom bound h h'
    → IsChain n page offset slab h
    → IsChain n page offset slab h'
IsChain-SameFrom zero page offset bound slab h h' le same chain = chain
IsChain-SameFrom (suc zero) page offset bound slab h h' le same chain = (
  IsEmptySlot-SameFrom (page + offset) bound slab h h' le same chain.0,
  same.next (page + offset) le ∙ chain.1,
)
IsChain-SameFrom (suc (suc n)) page offset bound slab h h' le same chain = (
  IsEmptySlot-SameFrom (page + offset) bound slab h h' le same chain.0,
  same.next (page + offset) le ∙ chain.1,
  IsChain-SameFrom (suc n) page (offset + slab.slot_size) bound slab h h' (omega arith) same
      chain.2,
)

-- The page's free slots are the chain of `n` slots from `offset` on; without one it has no first.
abbrev pub HasFree : ℕ → ℕ → ℕ → SlabAllocator → SlabHeap → Type 0
HasFree zero page offset slab h = h.free_index page ≡ 0
HasFree (suc n) page offset slab h =
    (h.free_index page ≡ offset) × IsChain (suc n) page offset slab h

pub IsChain-first :
    (n page offset : ℕ) (slab : SlabAllocator) (h : SlabHeap)
    → IsChain (suc n) page offset slab h
    → IsEmptySlot (page + offset) slab h
IsChain-first zero page offset slab h chain = chain.0
IsChain-first (suc n) page offset slab h chain = chain.0

-- The links between the pages are no part of a chain.
pub IsChain-links :
    (n page offset : ℕ) (slab : SlabAllocator) (h : SlabHeap) (links : Links)
    → IsChain n page offset slab h
    → IsChain n page offset slab (record h { links = links })
IsChain-links n page offset slab h links chain =
    IsChain-SameFrom n page offset 0 slab h (record h { links = links }) (omega arith)
      (record { magic = λ a le. refl; next = λ a le. refl; bytes = λ a le. refl }) chain

-- An allocation takes the first slot of a chain and leaves the others.
pub IsServed-HasFree :
    (n page offset : ℕ) (slab : SlabAllocator) (h h' : SlabHeap)
    → IsLaidOut slab
    → IsServed page (page + offset) slab h h'
    → IsChain (suc n) page offset slab h
    → HasFree n page (offset + slab.slot_size) slab h'
IsServed-HasFree zero page offset slab h h' l s chain = rw s.free_index (ground (arith, chain.1))
IsServed-HasFree (suc n) page offset slab h h' l s chain = (
  rw s.free_index (ground (arith, chain.1)),
  IsChain-SameFrom (suc n) page (offset + slab.slot_size) (page + offset + slab.slot_size) slab h h'
      (omega arith) (IsServed-SameFrom page (page + offset) slab h h' l s) chain.2,
)

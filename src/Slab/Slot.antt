-- ===== src/Slab/Slot.antt =====
-- libslab/src/slab.c: the fills of a slot, and the checks on them.
use rubberos.Base.{
  ℕ, ◌+◌, ◌-◌, ◌%◌, ◌≤◌, ◌<◌, ◌≡◌, ◌≢◌, refl, ap, ◌⊎◌, inl, inr, true, false, none, some, arith,
  Bool-cases,
}
use rubberos.Freec.Memory.{Memory, memset}
use rubberos.Freec.Memory.Laws.{within, memset_lem, memchr_lem}
use rubberos.Slab.{
  SlabAllocator, SlabHeap, slot_header, redzone_fill, unused_fill, object_magic, empty_magic,
  update, slot_redzone1_size, slot_redzone2_offset, slot_redzone2_size, is_filled,
  slot_check_redzone, slot_check_unused, slot_write_unused, slot_on_alloc, slot_on_dealloc,
}

pub is_filled-get :
    (m : Memory) (ptr ch count i : ℕ)
    → is_filled m ptr ch count ≡ true
    → i < count
    → m (ptr + i) ≡ ch % 256
unfolding is_filled
is_filled-get m ptr ch count i filled lt = elim ((memchr_lem m ptr ch count).1) [
  | inl (e, all) ↦ ground (arith, all i)
  | inr (j, e, lt', differs, rest) ↦ absurd (ground (arith, e, filled))
]

pub is_filled-intro :
    (m : Memory) (ptr ch count : ℕ)
    → ((i : ℕ) → i < count → m (ptr + i) ≡ ch % 256)
    → is_filled m ptr ch count ≡ true
unfolding is_filled
is_filled-intro m ptr ch count all = elim ((memchr_lem m ptr ch count).1) [
  | inl (e, rest) ↦ rw (is_filled, e) refl
  | inr (j, e, lt, differs, rest) ↦ absurd (ground (arith, all j, differs))
]

-- A write to other bytes leaves the red zones.
is_filled-memset :
    (m : Memory) (ptr ch count dest b size : ℕ)
    → (ptr + count ≤ dest) ⊎ (dest + size ≤ ptr)
    → is_filled m ptr ch count ≡ true
    → is_filled (memset m dest b size) ptr ch count ≡ true
is_filled-memset m ptr ch count dest b size apart filled =
    is_filled-intro (memset m dest b size) ptr ch count λ i lt.
      ground
        (arith, memset_lem m dest b size (ptr + i), is_filled-get m ptr ch count i filled, apart)

pub slot_check_redzone-write :
    (slot : ℕ) (slab : SlabAllocator) (b : ℕ) (h : SlabHeap)
    → slot_header ≤ slab.payload_offset
    → slot_check_redzone slot slab h ≡ true
    → slot_check_redzone slot slab (slot_write_unused slot slab b h) ≡ true
unfolding slot_check_redzone slot_write_unused
slot_check_redzone-write slot slab b h le ok = ground (
  arith,
  ok,
  is_filled-memset h.bytes (slot + slot_header) redzone_fill (slot_redzone1_size slab)
      (slot + slab.payload_offset) b slab.object_size (inl (omega arith)),
  is_filled-memset h.bytes (slot + slot_redzone2_offset slab) redzone_fill (slot_redzone2_size slab)
      (slot + slab.payload_offset) b slab.object_size (inr (omega arith)),
)

-- Writing the fill of an unused object over what was written to it gives the bytes of before.
pub refill :
    (slot : ℕ) (slab : SlabAllocator) (m : Memory) (b x : ℕ)
    → is_filled m (slot + slab.payload_offset) unused_fill slab.object_size ≡ true
    → memset
        (memset m (slot + slab.payload_offset) b slab.object_size)
        (slot + slab.payload_offset)
        unused_fill
        slab.object_size
        x
      ≡ m x
refill slot slab m b x filled =
    let p = slot + slab.payload_offset in
    let inner = memset_lem m p b slab.object_size x in
    let outer = memset_lem (memset m p b slab.object_size) p unused_fill slab.object_size x in
    let back : p ≤ x → p + (x - p) ≡ x = λ (le : p ≤ x). omega arith in
    elim (Bool-cases (within p slab.object_size x)) [
      | inl inside ↦
          let at : p + (x - p) ≡ x = ground arith in
          let old = is_filled-get m p unused_fill slab.object_size (x - p) filled (ground arith) in
          ground (arith, inner, outer, inside, old, ap m at)
      | inr outside ↦ ground (arith, inner, outer, outside)
    ]

pub slot_on_alloc_lem :
    (slot : ℕ) (slab : SlabAllocator) (h h' : SlabHeap)
    → slot_on_alloc slot slab h ≡ some h'
    → (h.magic slot ≡ empty_magic)
      × (slot_check_redzone slot slab h ≡ true)
      × (slot_check_unused slot slab h ≡ true)
      × (h' ≡ slot_write_unused slot slab 0 (record h { magic = update h.magic slot object_magic }))
unfolding slot_on_alloc
slot_on_alloc_lem slot slab h h' run = ground (arith, run)

-- The slot is not that of an allocated object, or a byte of a red zone was overwritten.
abbrev pub IsDamaged : ℕ → SlabAllocator → SlabHeap → Type 0
IsDamaged slot slab h =
    (h.magic slot ≢ object_magic)
    ⊎ ((i : ℕ) × (slot_header ≤ i)
        × (i < slab.payload_offset)
        × (h.bytes (slot + i) ≢ redzone_fill))
    ⊎ ((i : ℕ) × (slot_redzone2_offset slab ≤ i)
        × (i < slab.slot_size)
        × (h.bytes (slot + i) ≢ redzone_fill))

is_filled-false :
    (m : Memory) (ptr ch count i : ℕ)
    → i < count
    → m (ptr + i) ≢ ch % 256
    → is_filled m ptr ch count ≡ false
is_filled-false m ptr ch count i lt differs = elim (Bool-cases (is_filled m ptr ch count)) [
  | inl filled ↦ absurd (differs (is_filled-get m ptr ch count i filled lt))
  | inr torn ↦ torn
]

pub slot_on_dealloc-IsDamaged :
    (slot : ℕ) (slab : SlabAllocator) (h : SlabHeap)
    → IsDamaged slot slab h
    → slot_on_dealloc slot slab h ≡ none
unfolding slot_on_dealloc slot_check_redzone
slot_on_dealloc-IsDamaged slot slab h (inl magic) = ground arith
slot_on_dealloc-IsDamaged slot slab h (inr (inl (i, from, to, differs))) =
    let at : slot + slot_header + (i - slot_header) ≡ slot + i = omega arith in
    ground (
      arith,
      is_filled-false h.bytes (slot + slot_header) redzone_fill (slot_redzone1_size slab)
          (i - slot_header) (omega arith) (rw at differs),
    )
slot_on_dealloc-IsDamaged slot slab h (inr (inr (i, from, to, differs))) =
    let start = slot_redzone2_offset slab in
    let at : slot + start + (i - start) ≡ slot + i = omega arith in
    ground (
      arith,
      is_filled-false h.bytes (slot + start) redzone_fill (slot_redzone2_size slab) (i - start)
          (omega arith) (rw at differs),
    )

pub slot_on_dealloc-magic :
    (slot : ℕ) (slab : SlabAllocator) (h h' : SlabHeap)
    → slot_on_dealloc slot slab h ≡ some h'
    → h'.magic slot ≡ empty_magic
unfolding slot_on_dealloc slot_write_unused
slot_on_dealloc-magic slot slab h h' run = ground (arith, run)

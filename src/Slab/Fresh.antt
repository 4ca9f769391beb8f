-- ===== src/Slab/Fresh.antt =====
-- libslab/src/slab.c: the slots of a fresh page, and the first allocation from it.
use rubberos.Base.{
  ℕ, zero, suc, ◌+◌, ◌*◌, ◌%◌, ◌^◌, ◌≤◌, ◌<◌, ◌≡◌, refl, ◌∙◌, inl, inr, true, some, ltb,
  if◌then◌else◌, arith, Bool-cases,
}
use rubberos.Freec.Memory.{memset}
use rubberos.Freec.Memory.Laws.{within, memset_lem}
use rubberos.Slab.Slot.{is_filled-get, is_filled-intro}
use rubberos.Slab.{
  SlabAllocator, SlabHeap, slab_page, slot_header, redzone_fill, unused_fill, empty_magic, update,
  slot_redzone1_size, slot_redzone2_offset, slot_redzone2_size, is_filled, slot_init,
  page_init_loop,
}

-- A slot has its header, a red zone, the object and a red zone, one behind the other.
pub record IsLaidOut (slab : SlabAllocator) : Type 0 where
  pub behind_header : slot_header ≤ slab.payload_offset
  pub holds : slot_redzone2_offset slab ≤ slab.slot_size

-- A free slot passes the checks of slab_alloc.
pub record IsEmptySlot (slot : ℕ) (slab : SlabAllocator) (h : SlabHeap) : Type 0 where
  pub magic : h.magic slot ≡ empty_magic
  pub redzone1 :
      is_filled h.bytes (slot + slot_header) redzone_fill (slot_redzone1_size slab) ≡ true
  pub redzone2 :
      is_filled h.bytes (slot + slot_redzone2_offset slab) redzone_fill (slot_redzone2_size slab)
      ≡ true
  pub unused : is_filled h.bytes (slot + slab.payload_offset) unused_fill slab.object_size ≡ true

-- Only what stands at `bound` or behind it differs.
pub record SameBelow (bound : ℕ) (h h' : SlabHeap) : Type 0 where
  pub magic : (a : ℕ) → a < bound → h'.magic a ≡ h.magic a
  pub next : (a : ℕ) → a < bound → h'.next a ≡ h.next a
  pub bytes : (a : ℕ) → a < bound → h'.bytes a ≡ h.bytes a
  pub free_index : h'.free_index ≡ h.free_index
  pub alloc_count : h'.alloc_count ≡ h.alloc_count
  pub links : h'.links ≡ h.links

-- `n` free slots from `offset` on, each of which is followed by the next.
abbrev pub IsChain : ℕ → ℕ → ℕ → SlabAllocator → SlabHeap → Type 0
IsChain zero page offset slab h = ⊥
IsChain (suc zero) page offset slab h =
    IsEmptySlot (page + offset) slab h × (h.next (page + offset) ≡ 0)
IsChain (suc (suc n)) page offset slab h =
    IsEmptySlot (page + offset) slab h
    × (h.next (page + offset) ≡ offset + slab.slot_size)
    × IsChain (suc n) page (offset + slab.slot_size) slab h

module _ (slab : SlabAllocator) (l : IsLaidOut slab) where
  slot_init-bytes :
      (slot x : ℕ) (h : SlabHeap)
      → (slot_init slot slab h).bytes x ≡ (
          if within (slot + slot_redzone2_offset slab) (slot_redzone2_size slab) x
          then redzone_fill
          else if within (slot + slab.payload_offset) slab.object_size x
          then unused_fill
          else if within (slot + slot_header) (slot_redzone1_size slab) x
          then redzone_fill
          else h.bytes x)
  unfolding slot_init
  slot_init-bytes slot x h =
      let m₁ = memset h.bytes (slot + slot_header) redzone_fill (slot_redzone1_size slab) in
      let m₂ = memset m₁ (slot + slab.payload_offset) unused_fill slab.object_size in
      rw
        (
          memset_lem m₂ (slot + slot_redzone2_offset slab) redzone_fill (slot_redzone2_size slab) x,
          memset_lem m₁ (slot + slab.payload_offset) unused_fill slab.object_size x,
          memset_lem h.bytes (slot + slot_header) redzone_fill (slot_redzone1_size slab) x,
        )
        refl

  slot_init-IsEmptySlot : (slot : ℕ) (h : SlabHeap) → IsEmptySlot slot slab (slot_init slot slab h)
  slot_init-IsEmptySlot slot h =
      let m = (slot_init slot slab h).bytes in
      record {
        magic = unfold slot_init in ground arith;
        redzone1 =
            is_filled-intro m (slot + slot_header) redzone_fill (slot_redzone1_size slab)
              λ i lt. ground (arith, slot_init-bytes slot (slot + slot_header + i) h);
        redzone2 =
            is_filled-intro m (slot + slot_redzone2_offset slab) redzone_fill
              (slot_redzone2_size slab)
              λ i lt. ground (arith, slot_init-bytes slot (slot + slot_redzone2_offset slab + i) h);
        unused =
            is_filled-intro m (slot + slab.payload_offset) unused_fill slab.object_size
              λ i lt. ground (arith, slot_init-bytes slot (slot + slab.payload_offset + i) h);
      }

  slot_init-SameBelow : (slot : ℕ) (h : SlabHeap) → SameBelow slot h (slot_init slot slab h)
  slot_init-SameBelow slot h = record {
    magic = λ a lt. unfold slot_init in ground arith;
    next = λ a lt. unfold slot_init in ground arith;
    bytes = λ a lt. ground (arith, slot_init-bytes slot a h, l.behind_header);
    free_index = unfold slot_init in refl;
    alloc_count = unfold slot_init in refl;
    links = unfold slot_init in refl;
  }

  IsEmptySlot-SameBelow :
      (slot bound : ℕ) (h h' : SlabHeap)
      → slot + slab.slot_size ≤ bound
      → slot < bound
      → SameBelow bound h h'
      → IsEmptySlot slot slab h
      → IsEmptySlot slot slab h'
  IsEmptySlot-SameBelow slot bound h h' fits lt same e = record {
    magic = same.magic slot lt ∙ e.magic;
    redzone1 =
        is_filled-intro h'.bytes (slot + slot_header) redzone_fill (slot_redzone1_size slab) λ i lt.
          same.bytes _ (omega (arith, l.holds))
          ∙ is_filled-get h.bytes (slot + slot_header) redzone_fill (slot_redzone1_size slab) i
              e.redzone1 lt;
    redzone2 =
        is_filled-intro h'.bytes (slot + slot_redzone2_offset slab) redzone_fill
          (slot_redzone2_size slab)
          λ i lt.
            same.bytes _ (omega (arith, l.holds))
            ∙ is_filled-get h.bytes (slot + slot_redzone2_offset slab) redzone_fill
                (slot_redzone2_size slab) i e.redzone2 lt;
    unused =
        is_filled-intro h'.bytes (slot + slab.payload_offset) unused_fill slab.object_size λ i lt.
          same.bytes _ (omega (arith, l.holds))
          ∙ is_filled-get h.bytes (slot + slab.payload_offset) unused_fill slab.object_size i
              e.unused lt;
  }

  -- The links between the slots are no part of the checks.
  next-IsEmptySlot :
      (slot : ℕ) (to : ℕ → ℕ) (h : SlabHeap)
      → IsEmptySlot slot slab h
      → IsEmptySlot slot slab (record h { next = to })
  next-IsEmptySlot slot to h e = record {
    magic = e.magic;
    redzone1 = e.redzone1;
    redzone2 = e.redzone2;
    unused = e.unused;
  }

  SameBelow-init :
      (slot value : ℕ) (h : SlabHeap)
      → SameBelow slot h
          (record (slot_init slot slab h) { next = update (slot_init slot slab h).next slot value })
  SameBelow-init slot value h =
      let same = slot_init-SameBelow slot h in
      record {
        magic = same.magic;
        next = λ a lt. ground (arith, same.next a lt);
        bytes = same.bytes;
        free_index = same.free_index;
        alloc_count = same.alloc_count;
        links = same.links;
      }

  SameBelow-trans :
      (low high : ℕ) (h h' h'' : SlabHeap)
      → low ≤ high
      → SameBelow low h h'
      → SameBelow high h' h''
      → SameBelow low h h''
  SameBelow-trans low high h h' h'' le f g = record {
    magic = λ a lt. g.magic a (omega arith) ∙ f.magic a lt;
    next = λ a lt. g.next a (omega arith) ∙ f.next a lt;
    bytes = λ a lt. g.bytes a (omega arith) ∙ f.bytes a lt;
    free_index = g.free_index ∙ f.free_index;
    alloc_count = g.alloc_count ∙ f.alloc_count;
    links = g.links ∙ f.links;
  }

  pub page_init_loop_lem :
      (fuel page offset : ℕ) (h : SlabHeap)
      → slab_page < offset + fuel
      → offset + slab.slot_size ≤ slab_page
      → (h' : SlabHeap) × (n : ℕ) × (page_init_loop fuel page offset slab h ≡ some h')
        × IsChain (suc n) page offset slab h'
        × SameBelow (page + offset) h h'
        × (offset + suc n * slab.slot_size ≤ slab_page)
        × (slab_page ≤ offset + suc (suc n) * slab.slot_size)
  unfolding page_init_loop
  page_init_loop_lem zero page offset h enough fits = absurd (omega arith)
  page_init_loop_lem (suc fuel) page offset h enough fits =
      let slot = page + offset in
      let h₁ = slot_init slot slab h in
      let next_offset = offset + slab.slot_size in
      elim (Bool-cases (ltb (next_offset + slab.slot_size) slab_page)) [
        | inr last ↦ (
          record h₁ { next = update h₁.next slot 0 },
          0,
          rw last refl,
          (
            next-IsEmptySlot slot (update h₁.next slot 0) h₁ (slot_init-IsEmptySlot slot h),
            ground arith,
          ),
          SameBelow-init slot 0 h,
          omega arith,
          ground arith,
        )
        | inl more ↦
            let h₂ = record h₁ { next = update h₁.next slot (next_offset % 2 ^ 16) } in
            let (h', n, run, chain, same, room, most) =
              page_init_loop_lem fuel page next_offset h₂ (omega (arith, l.behind_header, l.holds))
                (ground arith) in
            let here : slot < page + next_offset = omega (arith, l.behind_header, l.holds) in
            (
              h',
              suc n,
              rw more run,
              (
                IsEmptySlot-SameBelow slot (page + next_offset) h₂ h' (omega arith) here same
                    (next-IsEmptySlot slot h₂.next h₁ (slot_init-IsEmptySlot slot h)),
                same.next slot here ∙ ground arith,
                chain,
              ),
              SameBelow-trans slot (page + next_offset) h h₂ h' (omega arith)
                  (SameBelow-init slot (next_offset % 2 ^ 16) h) same,
              omega (arith, room),
              omega (arith, most),
            )
      ]

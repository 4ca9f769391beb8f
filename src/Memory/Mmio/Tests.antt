-- ===== src/Memory/Mmio/Tests.antt =====
-- Allocations of the framebuffer's size on the free list after the start.
use rubberos.Base.{
  ℕ, ◌+◌, ◌≤◌, ◌≡◌, refl, ◌⊎◌, true, false, not, ◌||◌, none, some, List, [], ◌∷◌, any, arith,
}
use rubberos.Paging.{page_iterator_from_virt}
use rubberos.Paging.Unmap.{PageTables, huge, table, pagetable_mmio_unmap, unmap_loop, unmap_step}
use rubberos.Memory.Mmio.{
  MmioNode, iomap_start_virt, iomap_virt_size, mmio_freelist_init, page_floor, aligned_len,
  take_range, give_range, insert_range, mmio_alloc_mapping, mmio_dealloc_mapping,
}
use rubberos.Memory.Mmio.Alloc.{iomap_end, IsFreelist, is_short, IsTaken, mmio_alloc_mapping_lem}
use rubberos.Memory.Mmio.Dealloc.{meets, is_behind, IsGiven}
use rubberos.Memory.Mmio.RoundTrip.{
  unmapped, mmio_dealloc_mapping_lem, mmio_dealloc_mapping-mmio_alloc_mapping,
}

-- the framebuffer is mapped, and a page behind it
abbrev two_left : List MmioNode
two_left =
    record { begin = iomap_start_virt; end = iomap_start_virt + 0x1000 }
    ∷ record { begin = iomap_start_virt + 0x301000; end = iomap_end }
    ∷ []

-- Every directory entry has a full table.
abbrev mapped : PageTables
mapped i = table (λ page. true)

-- The second page of a huge page cannot be taken out alone, so the release of it panics.
huge_page_kept :
    mmio_dealloc_mapping two_left
      (λ i. huge)
      (iomap_start_virt + 0x1000)
      (iomap_start_virt + 0x2000)
    ≡ none
unfolding mmio_dealloc_mapping give_range insert_range aligned_len pagetable_mmio_unmap unmap_loop
    unmap_step page_iterator_from_virt
huge_page_kept = refl

two_left-IsFreelist : IsFreelist two_left
two_left-IsFreelist = omega arith

init-IsFreelist : IsFreelist mmio_freelist_init
unfolding mmio_freelist_init
init-IsFreelist = omega arith

mmio_alloc_mapping_run :
    mmio_alloc_mapping two_left 0xfd000010 0xfd300000
    ≡ some (
      iomap_start_virt + 0x301000,
      record { begin = iomap_start_virt; end = iomap_start_virt + 0x1000 }
          ∷ record { begin = iomap_start_virt + 0x601000; end = iomap_end }
          ∷ [],
    )
unfolding mmio_alloc_mapping aligned_len take_range
mmio_alloc_mapping_run = refl

mmio_alloc_mapping_lem_example :
    ((any (λ node. not (is_short (aligned_len 0xfd000010 0xfd300000) node)) two_left ≡ false)
      × (mmio_alloc_mapping two_left 0xfd000010 0xfd300000 ≡ none))
    ⊎ ((begin : ℕ) × (nodes' : List MmioNode) × (mmio_alloc_mapping two_left 0xfd000010 0xfd300000
          ≡ some (begin, nodes'))
        × IsFreelist nodes'
        × (0xfd300000 ≤ page_floor 0xfd000010 + aligned_len 0xfd000010 0xfd300000)
        × IsTaken iomap_start_virt (aligned_len 0xfd000010 0xfd300000) two_left begin nodes')
mmio_alloc_mapping_lem_example =
    mmio_alloc_mapping_lem two_left 0xfd000010 0xfd300000 two_left-IsFreelist (omega arith)
      (omega arith)

mmio_dealloc_mapping_lem_example :
    (((any
            (meets
              (page_floor 0xffffff8000001000)
              (page_floor 0xffffff8000001000 + aligned_len 0xffffff8000001000 0xffffff8000301000))
            two_left
          || not (any (is_behind (page_floor 0xffffff8000001000)) two_left))
        ≡ true)
      × (mmio_dealloc_mapping two_left mapped 0xffffff8000001000 0xffffff8000301000 ≡ none))
    ⊎ ((nodes' : List MmioNode) × (mmio_dealloc_mapping two_left mapped 0xffffff8000001000
            0xffffff8000301000
          ≡ unmapped
              (page_floor 0xffffff8000001000)
              (page_floor 0xffffff8000001000 + aligned_len 0xffffff8000001000 0xffffff8000301000)
              mapped
              nodes')
        × IsFreelist nodes'
        × IsGiven iomap_start_virt
            (page_floor 0xffffff8000001000)
            (page_floor 0xffffff8000001000 + aligned_len 0xffffff8000001000 0xffffff8000301000)
            two_left
            nodes')
mmio_dealloc_mapping_lem_example =
    mmio_dealloc_mapping_lem two_left mapped 0xffffff8000001000 0xffffff8000301000
      two_left-IsFreelist (omega arith) (omega arith) (omega arith) (omega arith)

mmio_dealloc_mapping-mmio_alloc_mapping_example :
    mmio_dealloc_mapping
      (record { begin = iomap_start_virt; end = iomap_start_virt + 0x1000 }
        ∷ record { begin = iomap_start_virt + 0x601000; end = iomap_end }
        ∷ [])
      mapped
      (iomap_start_virt + 0x301000)
      (iomap_start_virt + 0x301000 + 0x300000)
    ≡ unmapped
        (iomap_start_virt + 0x301000)
        (iomap_start_virt + 0x301000 + 0x300000)
        mapped
        two_left
unfolding aligned_len
mmio_dealloc_mapping-mmio_alloc_mapping_example =
    mmio_dealloc_mapping-mmio_alloc_mapping two_left mapped 0xfd000010 0xfd300000
      (iomap_start_virt + 0x301000)
      (record { begin = iomap_start_virt; end = iomap_start_virt + 0x1000 }
        ∷ record { begin = iomap_start_virt + 0x601000; end = iomap_end }
        ∷ [])
      two_left-IsFreelist (omega arith) (omega arith) mmio_alloc_mapping_run

-- The whole space is mapped at once, and cannot be released.
all_mapped : mmio_alloc_mapping mmio_freelist_init 0 iomap_virt_size ≡ some (iomap_start_virt, [])
unfolding mmio_alloc_mapping mmio_freelist_init aligned_len take_range
all_mapped = refl

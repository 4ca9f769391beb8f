-- ===== src/Memory/Mmap/Tests.antt =====
-- construct_mmap_dyn on the map of a small machine.
use rubberos.Base.{ℕ, ◌≡◌, refl, true, ◌&&◌, some, List, [], ◌∷◌, leb, arith, any, length, take}
use rubberos.Freec.Sort.{sort, sort_loop, repair, greater_child, less, swap, is_negative}
use rubberos.Paging.{virt_to_phys_dynmem, phys_to_virt}
use rubberos.Paging.Dynmem.{Above, Ascending, Bounded, total, covers}
use rubberos.Memory.Mmap.{
  BootEntry, construct_mmap_dyn, dynmem_start_phys_minimum, mmap_dyn, comp_mmap_entry,
  align_entries, align_entry, remove_loop,
}
use rubberos.Memory.Mmap.Compact.{remove_loop_lem, keep}
use rubberos.Memory.Mmap.Ascending.{IsPaged}
use rubberos.Memory.Mmap.Exact.{has_page, page_of}
use rubberos.Memory.Mmap.Construct.{
  construct_mmap_dyn-covers, construct_mmap_dyn-Ascending, virt_to_phys-construct_mmap_dyn,
}

-- two overlapping pieces of memory in the wrong order, one below the minimum, and a hole
abbrev machine : List BootEntry
machine =
    record { base = 0x2000800; len = 0x3000; kind = 1 }
    ∷ record { base = 0x100000; len = 0x900000; kind = 1 }
    ∷ record { base = 0; len = 0x9fc00; kind = 1 }
    ∷ record { base = 0xa00000; len = 0x1000; kind = 2 }
    ∷ record { base = 0x9ff000; len = 0x3000; kind = 1 }
    ∷ []

abbrev machine_dyn : List BootEntry
machine_dyn =
    record { base = 0x800000; len = 0x200000; kind = 1 }
    ∷ record { base = 0xa00000; len = 0x2000; kind = 1 }
    ∷ record { base = 0x2001000; len = 0x2000; kind = 1 }
    ∷ []

machine_made : construct_mmap_dyn machine ≡ some machine_dyn
unfolding construct_mmap_dyn sort sort_loop repair greater_child less swap is_negative
    comp_mmap_entry align_entries align_entry remove_loop
machine_made = refl

construct_mmap_dyn-covers_example :
    (entries : List BootEntry) × (construct_mmap_dyn machine ≡ some entries)
    × (any (covers 0xa00123) (mmap_dyn entries)
        ≡ (leb dynmem_start_phys_minimum 0xa00123 && any (has_page (page_of 0xa00123)) machine))
construct_mmap_dyn-covers_example = construct_mmap_dyn-covers machine 0xa00123 refl

construct_mmap_dyn-Ascending_example :
    (entries : List BootEntry) × (construct_mmap_dyn machine ≡ some entries)
    × Above dynmem_start_phys_minimum (mmap_dyn entries)
    × Ascending (mmap_dyn entries)
    × IsPaged (mmap_dyn entries)
    × Bounded (mmap_dyn entries)
construct_mmap_dyn-Ascending_example = construct_mmap_dyn-Ascending machine

virt_to_phys-construct_mmap_dyn_example :
    (phys : ℕ) × (virt_to_phys_dynmem 0x401000 (mmap_dyn machine_dyn) ≡ some phys)
    × (phys_to_virt phys (mmap_dyn machine_dyn) ≡ some 0x401000)
    × (any (has_page (page_of phys)) machine ≡ true)
unfolding total
virt_to_phys-construct_mmap_dyn_example =
    virt_to_phys-construct_mmap_dyn machine machine_dyn 0x401000 refl machine_made (omega arith)
      (omega arith)

remove_loop_lem_example :
    (left : List BootEntry) × (len : ℕ) × (remove_loop (length machine) 0 0 machine
      ≡ some (left, len))
    × (take len left ≡ keep machine)
remove_loop_lem_example = remove_loop_lem machine

-- ===== src/Paging/Tests.antt =====
-- Instances of the theorems on the dynamic memory and the page iterator.
use rubberos.Base.{
  ℕ, ◌+◌, ◌%◌, ◌^◌, ◌≡◌, refl, none, some, any, true, List, [], ◌∷◌, ltb, if◌then◌else◌, arith,
}
use rubberos.Paging.{
  MmapEntry, page_size, virt_to_phys_dynmem, phys_to_virt_dynmem, phys_to_virt,
  page_iterator_from_virt, page_iterator_next,
}
use rubberos.Paging.Dynmem.{total, covers, phys_to_virt-virt_to_phys_dynmem}
use rubberos.Paging.Pages.{page_iterator_next_lem}

abbrev mmap : List MmapEntry
mmap = record { base = 0x800000; len = 0x4000 } ∷ record { base = 0x1000000; len = 0x8000 } ∷ []

mmap_total : total mmap ≡ 0xc000
unfolding total
mmap_total = refl

phys_to_virt-virt_to_phys_dynmem_example :
    (phys : ℕ) × (virt_to_phys_dynmem 0x205010 mmap ≡ some phys)
    × (phys_to_virt_dynmem phys mmap ≡ some 0x205010)
    × (phys_to_virt phys mmap ≡ some 0x205010)
    × (any (covers phys) mmap ≡ true)
phys_to_virt-virt_to_phys_dynmem_example =
    phys_to_virt-virt_to_phys_dynmem mmap 0x205010 ((omega arith, tt), (tt, tt)) (omega arith)
      (omega arith) (omega arith) (omega (arith, mmap_total))

page_iterator_next_lem_example : page_iterator_next (page_iterator_from_virt 0x1ff000) ≡ (
    if ltb (0x1ff000 % 2 ^ 48 + page_size) (2 ^ 48)
    then some (page_iterator_from_virt (0x1ff000 + page_size))
    else none)
page_iterator_next_lem_example = page_iterator_next_lem 0x1ff000

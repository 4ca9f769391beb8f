-- ===== src/Memory/Mmap/Construct.antt =====
-- kernel/src/memory.c: construct_mmap_dyn as a whole, and the address translation on the map that it
-- makes.
use mathlib.Core.List.{Perm}
use rubberos.Base.{
  ℕ, suc, ◌+◌, ◌≤◌, ◌<◌, ◌≡◌, refl, ap, ◌∙◌, true, false, ◌&&◌, some, List, [], ◌∷◌, leb, arith,
  any, any-perm, ◌>>=◌, length,
}
use rubberos.Freec.Sort.Sorted.{IsSorted, sort_lem}
use rubberos.Paging.{dynmem_start_virt, virt_to_phys_dynmem, phys_to_virt}
use rubberos.Paging.Dynmem.{
  Above, Ascending, Bounded, total, total-Bounded, phys_to_virt-virt_to_phys_dynmem, covers,
}
use rubberos.Memory.Mmap.{
  BootEntry, comp_mmap_entry, align_entry, align_entries, construct_mmap_dyn,
  dynmem_start_phys_minimum, mmap_dyn,
}
use rubberos.Memory.Mmap.Compact.{keep, remove_loop_lem}
use rubberos.Memory.Mmap.Ascending.{IsPaged, kept_map, kept_map-Ascending}
use rubberos.Memory.Mmap.Exact.{
  has_page, reaches_top, page_of, comp_mmap_entry-IsOrder, kept_map-covers,
}

length-align_entries :
    (prev_end : ℕ) (entries : List BootEntry)
    → length (align_entries prev_end entries) ≡ length entries
unfolding align_entries
length-align_entries prev_end [] = refl
length-align_entries prev_end (e ∷ es) = ap suc (length-align_entries (align_entry prev_end e).1 es)

construct_mmap_dyn_lem :
    (mmap_boot : List BootEntry)
    → (sorted : List BootEntry) × Perm sorted mmap_boot
      × IsSorted comp_mmap_entry sorted
      × (construct_mmap_dyn mmap_boot
          ≡ some (keep (align_entries dynmem_start_phys_minimum sorted)))
unfolding construct_mmap_dyn
construct_mmap_dyn_lem mmap_boot =
    let (sorted, run, perm, order) = sort_lem comp_mmap_entry mmap_boot comp_mmap_entry-IsOrder in
    let (left, len, removed, kept) =
      remove_loop_lem (align_entries dynmem_start_phys_minimum sorted) in
    let size = length-align_entries dynmem_start_phys_minimum sorted in
    let removed' = rw size at removed in (sorted, perm, order, rw (run, ◌>>=◌, removed', kept) refl)

-- Of a memory map whose entries end at least a page before the end of the addresses, the map of the
-- dynamic memory is made, and an address stands in one of its entries exactly when it is at
-- DYNMEM_START_PHYS_MINIMUM or behind it and its page lies in an available entry of the boot loader.
pub construct_mmap_dyn-covers :
    (mmap_boot : List BootEntry) (phys : ℕ)
    → any reaches_top mmap_boot ≡ false
    → (entries : List BootEntry) × (construct_mmap_dyn mmap_boot ≡ some entries)
      × (any (covers phys) (mmap_dyn entries)
          ≡ (leb dynmem_start_phys_minimum phys && any (has_page (page_of phys)) mmap_boot))
unfolding kept_map
construct_mmap_dyn-covers mmap_boot phys low =
    let (sorted, perm, order, run) = construct_mmap_dyn_lem mmap_boot in
    let low_sorted = any-perm reaches_top perm ∙ low in
    let exact = kept_map-covers dynmem_start_phys_minimum phys sorted refl order low_sorted in
    (
      keep (align_entries dynmem_start_phys_minimum sorted),
      run,
      exact
          ∙ ap (λ b. leb dynmem_start_phys_minimum phys && b)
              (any-perm (has_page (page_of phys)) perm),
    )

-- The map of the dynamic memory is made of every memory map, and its entries begin at
-- DYNMEM_START_PHYS_MINIMUM or behind it, ascend without an overlap, are each of whole pages and of
-- one page at least, and end before the end of the addresses.
pub construct_mmap_dyn-Ascending :
    (mmap_boot : List BootEntry)
    → (entries : List BootEntry) × (construct_mmap_dyn mmap_boot ≡ some entries)
      × Above dynmem_start_phys_minimum (mmap_dyn entries)
      × Ascending (mmap_dyn entries)
      × IsPaged (mmap_dyn entries)
      × Bounded (mmap_dyn entries)
unfolding kept_map
construct_mmap_dyn-Ascending mmap_boot =
    let (sorted, _, _, run) = construct_mmap_dyn_lem mmap_boot in
    let (above, asc, paged, bounded) = kept_map-Ascending dynmem_start_phys_minimum sorted refl in
    (keep (align_entries dynmem_start_phys_minimum sorted), run, above, asc, paged, bounded)

-- Of a memory map whose entries end at least a page before the end of the addresses, every address
-- of the dynamic memory, as long as the sum of its entries, is mapped to a physical address whose
-- page lies in an available entry of the boot loader, and which is mapped back to it.
pub virt_to_phys-construct_mmap_dyn :
    (mmap_boot : List BootEntry) (entries : List BootEntry) (virt : ℕ)
    → any reaches_top mmap_boot ≡ false
    → construct_mmap_dyn mmap_boot ≡ some entries
    → dynmem_start_virt ≤ virt
    → virt < dynmem_start_virt + total (mmap_dyn entries)
    → (phys : ℕ) × (virt_to_phys_dynmem virt (mmap_dyn entries) ≡ some phys)
      × (phys_to_virt phys (mmap_dyn entries) ≡ some virt)
      × (any (has_page (page_of phys)) mmap_boot ≡ true)
virt_to_phys-construct_mmap_dyn mmap_boot entries virt low made from inside =
    let (entries', made', above, asc, paged, bounded) = construct_mmap_dyn-Ascending mmap_boot in
    let same : entries' ≡ entries = cc in
    let asc' : Ascending (mmap_dyn entries) = rw same at asc in
    let above' : Above dynmem_start_phys_minimum (mmap_dyn entries) = rw same at above in
    let bounded' : Bounded (mmap_dyn entries) = rw same at bounded in
    let fits =
      total-Bounded dynmem_start_phys_minimum (mmap_dyn entries) (omega arith) above' asc'
        bounded' in
    let (phys, to_phys, _, back, covered) =
      phys_to_virt-virt_to_phys_dynmem (mmap_dyn entries) virt asc' bounded' (omega (arith, fits))
        from inside in
    let (entries'', made'', exact) = construct_mmap_dyn-covers mmap_boot phys low in
    let same' : entries'' ≡ entries = cc in
    (phys, to_phys, back, ground (arith, exact, same', covered))

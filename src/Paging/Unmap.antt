-- ===== src/Paging/Unmap.antt =====
-- kernel/src/arch/x86_64/memory.c: pagetable_mmio_unmap, which takes a range out of the page tables. The
-- tables are here the entries of the page directories, which cover 2 MiB of addresses each; an upper
-- table without a present entry counts as absent. The frames of the tables that become empty go back to
-- the dynamic memory, which is not in the state. `none` is a failed assertion, an iterator behind the
-- last page, or fuel that has run out.
pub mod Returns
use rubberos.Base.{
  ℕ, zero, suc, ◌+◌, ◌-◌, ◌*◌, ◌/◌, ◌%◌, ◌^◌, Bool, true, not, ◌&&◌, Option, none, some, ltb, ◌==◌,
  if◌then◌else◌, ◌>>=◌,
}
use rubberos.Paging.{
  page_size, PageIterator, page_iterator_from_virt, page_iterator_next, page_iterator_next_pdti,
}

-- An entry of a page directory: not present, a huge page, or a table with the present bits of its
-- entries.
pub data DirEntry : Type 0 where
  absent : DirEntry
  huge : DirEntry
  table : (ℕ → Bool) → DirEntry

-- the page directory entries, by the number of the 2 MiB that they cover
abbrev pub PageTables : Type 0
PageTables = ℕ → DirEntry

abbrev pub directory : PageIterator → ℕ
directory it = (it.pl4i * 512 + it.pdpi) * 512 + it.pdti

abbrev pub set_entry : PageTables → ℕ → DirEntry → PageTables
set_entry tables at entry i = if i == at then entry else tables i

-- The loop of pagetable_is_empty, with `n` entries left.
unfoldable pub is_empty_below : ℕ → (ℕ → Bool) → Bool
is_empty_below zero present = true
is_empty_below (suc n) present = not (present n) && is_empty_below n present

abbrev pub pagetable_is_empty : (ℕ → Bool) → Bool
pagetable_is_empty present = is_empty_below 512 present

-- `(*pt)[it.ptei] = 0`
abbrev pub clear_page : (ℕ → Bool) → ℕ → ℕ → Bool
clear_page present at i = not (i == at) && present i

-- A round of the loop: the step, the next iterator, and the tables.
unfoldable pub unmap_step : PageIterator → PageTables → Option (ℕ × PageIterator × PageTables)
unmap_step it tables = elim (tables (directory it)) [
  | absent ↦ none
  | huge ↦
      let cleared : Option (ℕ × PageIterator × PageTables) = page_iterator_next_pdti it >>= λ next.
      some (0x00200000, next, set_entry tables (directory it) absent) in
      if it.ptei == 0 then cleared else none
  | table present ↦ page_iterator_next it >>= λ next.
      let left = clear_page present it.ptei in
      let entry = if ltb next.ptei it.ptei && pagetable_is_empty left then absent else table left in
      some (page_size, next, set_entry tables (directory it) entry)
]

-- The loop, from the address `virt` on.
unfoldable pub unmap_loop : ℕ → ℕ → ℕ → PageIterator → PageTables → Option PageTables
unmap_loop zero virt end it tables = none
unmap_loop (suc fuel) virt end it tables =
    let more : Option PageTables = do
      (step, next, tables') ← unmap_step it tables
      unmap_loop fuel ((virt + step) % 2 ^ 64) end next tables'
    in if ltb virt end then more else some tables

-- Every round takes a page at least.
unfoldable pub pagetable_mmio_unmap : ℕ → ℕ → PageTables → Option PageTables
pagetable_mmio_unmap begin_virt end_virt tables =
    unmap_loop (suc ((end_virt - begin_virt) / page_size)) begin_virt end_virt
      (page_iterator_from_virt begin_virt) tables

-- ===== src/Paging.antt =====
-- kernel/src/arch/x86_64/memory.c: the dynamic memory, which maps the entries of the memory map one
-- behind the other from DYNMEM_START_VIRT on, and the iterator over the pages of the four levels of
-- tables. `none` is a panic. An address is a `uintptr_t`, so sums and differences wrap.
pub mod Dynmem
pub mod Pages
pub mod Unmap
mod Tests
use rubberos.Base.{
  ℕ, zero, suc, ◌+◌, ◌-◌, ◌*◌, ◌/◌, ◌%◌, ◌^◌, Bool, ◌&&◌, Option, none, some, List, [], ◌∷◌, ltb,
  leb, if◌then◌else◌,
}

pub record MmapEntry : Type 0 where
  pub base : ℕ
  pub len : ℕ  -- the field `length`

abbrev pub page_size : ℕ
page_size = 0x1000

abbrev pub dynmem_start_virt : ℕ
dynmem_start_virt = 0x00200000

-- the difference of two words
abbrev pub sub_64 : ℕ → ℕ → ℕ
sub_64 a b = if leb b a then a - b else 2 ^ 64 + a - b

-- The loop of virt_to_phys_dynmem: the offset, and the lengths of the entries before.
pub to_phys_loop : ℕ → ℕ → List MmapEntry → Option ℕ
to_phys_loop offset sum [] = none
to_phys_loop offset sum (entry ∷ entries) =
    let end_offset = (sum + entry.len) % 2 ^ 64 in
    let rest = to_phys_loop offset end_offset entries in
    if ltb offset end_offset then some ((entry.base + sub_64 offset sum) % 2 ^ 64) else rest

pub virt_to_phys_dynmem : ℕ → List MmapEntry → Option ℕ
virt_to_phys_dynmem virt mmap_dyn = to_phys_loop (sub_64 virt dynmem_start_virt) 0 mmap_dyn

-- struct page_iterator
pub record PageIterator : Type 0 where
  pub pl4i : ℕ
  pub pdpi : ℕ
  pub pdti : ℕ
  pub ptei : ℕ

-- A mask of nine bits and a shift are a quotient and a remainder.
unfoldable pub page_iterator_from_virt : ℕ → PageIterator
page_iterator_from_virt virt = record {
  pl4i = virt / 2 ^ 39 % 512;
  pdpi = virt / 2 ^ 30 % 512;
  pdti = virt / 2 ^ 21 % 512;
  ptei = virt / 2 ^ 12 % 512;
}

pub page_iterator_next_pl4i : PageIterator → Option PageIterator
page_iterator_next_pl4i it =
    if ltb (it.pl4i + 1) 512 then some (record it { pl4i = it.pl4i + 1 }) else none

pub page_iterator_next_pdpi : PageIterator → Option PageIterator
page_iterator_next_pdpi it =
    if ltb (it.pdpi + 1) 512
    then some (record it { pdpi = it.pdpi + 1 })
    else page_iterator_next_pl4i (record it { pdpi = 0 })

pub page_iterator_next_pdti : PageIterator → Option PageIterator
page_iterator_next_pdti it =
    if ltb (it.pdti + 1) 512
    then some (record it { pdti = it.pdti + 1 })
    else page_iterator_next_pdpi (record it { pdti = 0 })

pub page_iterator_next : PageIterator → Option PageIterator
page_iterator_next it =
    if ltb (it.ptei + 1) 512
    then some (record it { ptei = it.ptei + 1 })
    else page_iterator_next_pdti (record it { ptei = 0 })

abbrev pub kernel_start_phys : ℕ
kernel_start_phys = 0x00200000

abbrev pub kernel_size : ℕ
kernel_size = 0x00400000

abbrev pub kernel_start_virt : ℕ
kernel_start_virt = 0xffffffff80000000

pub virt_to_phys_kernel : ℕ → ℕ
virt_to_phys_kernel virt = (sub_64 virt kernel_start_virt + kernel_start_phys) % 2 ^ 64

pub phys_to_virt_kernel : ℕ → ℕ
phys_to_virt_kernel phys = (sub_64 phys kernel_start_phys + kernel_start_virt) % 2 ^ 64

-- the loop of phys_to_virt_dynmem
pub to_virt_loop : ℕ → ℕ → List MmapEntry → Option ℕ
to_virt_loop phys sum [] = none
to_virt_loop phys sum (entry ∷ entries) =
    let rest = to_virt_loop phys ((sum + entry.len) % 2 ^ 64) entries in
    if leb entry.base phys && ltb phys ((entry.base + entry.len) % 2 ^ 64)
    then some ((dynmem_start_virt + sum + (phys - entry.base)) % 2 ^ 64)
    else rest

pub phys_to_virt_dynmem : ℕ → List MmapEntry → Option ℕ
phys_to_virt_dynmem phys mmap_dyn = to_virt_loop phys 0 mmap_dyn

-- An empty map has no first entry to read.
pub phys_to_virt : ℕ → List MmapEntry → Option ℕ
phys_to_virt phys [] = none
phys_to_virt phys (entry ∷ entries) =
    if leb entry.base phys
    then phys_to_virt_dynmem phys (entry ∷ entries)
    else if leb kernel_start_phys phys && ltb phys (kernel_start_phys + kernel_size)
    then some (phys_to_virt_kernel phys)
    else none

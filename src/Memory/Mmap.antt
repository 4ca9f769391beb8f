-- ===== src/Memory/Mmap.antt =====
-- kernel/src/memory.c: the map of the dynamic memory, which construct_mmap_dyn makes of the map that
-- the boot loader gives. Addresses are `mmap_ulong` and `size_t`, both of 64 bits. `none` is an
-- access outside of the array, or a sort that does not end.
pub mod Compact
pub mod Ascending
pub mod Exact
pub mod Construct
mod Tests
use rubberos.Base.{
  ℕ, zero, suc, ◌+◌, ◌-◌, ◌*◌, ◌/◌, ◌%◌, ◌^◌, Bool, true, false, Option, none, some, List, [], ◌∷◌,
  length, get_elem?, set, take, ltb, leb, ◌==◌, if◌then◌else◌, map, ◌>>=◌,
}
use rubberos.Base.Int.{ℤ, pos, negsuc}
use rubberos.Freec.{div_ceil}
use rubberos.Freec.Sort.{sort}
use rubberos.Paging.{MmapEntry, page_size}

-- struct mmap_entry, with its type
pub record BootEntry : Type 0 where
  pub base : ℕ
  pub len : ℕ  -- the field `length`
  pub kind : ℕ  -- the field `type`

abbrev pub available : ℕ
available = 1

abbrev pub reserved : ℕ
reserved = 2

abbrev pub dynmem_start_phys_minimum : ℕ
dynmem_start_phys_minimum = 0x00800000

pub comp_mmap_entry : BootEntry → BootEntry → ℤ
comp_mmap_entry a b =
    if ltb b.base a.base then pos 1 else if ltb a.base b.base then negsuc 0 else pos 0

-- A round of the first loop: the entry, and prev_end.
unfoldable pub align_entry : ℕ → BootEntry → BootEntry × ℕ
unfolding div_ceil
align_entry prev_end entry =
    let aligned = div_ceil entry.base page_size * page_size % 2 ^ 64 in
    let end_aligned = (entry.base + entry.len) % 2 ^ 64 / page_size * page_size in
    let start_aligned = if ltb aligned prev_end then prev_end else aligned in
    if entry.kind == available
    then if leb end_aligned start_aligned
      then (record entry { kind = reserved }, prev_end)
      else (record entry { base = start_aligned; len = end_aligned - start_aligned }, end_aligned)
    else (entry, prev_end)

unfoldable pub align_entries : ℕ → List BootEntry → List BootEntry
align_entries prev_end [] = []
align_entries prev_end (entry ∷ entries) =
    let (aligned, end) = align_entry prev_end entry in aligned ∷ align_entries end entries

-- The second loop, with `n` rounds left: the array, and removal_end.
unfoldable pub remove_loop : ℕ → ℕ → ℕ → List BootEntry → Option (List BootEntry × ℕ)
remove_loop zero i removal_end entries = some (entries, removal_end)
remove_loop (suc n) i removal_end entries = elim (get_elem? entries i) [
  | none ↦ none
  | some entry ↦
      let written =
        if ltb removal_end (length entries)
        then remove_loop n (i + 1) (removal_end + 1) (set entries removal_end entry)
        else none in
      let skipped = remove_loop n (i + 1) removal_end entries in
      if entry.kind == available then written else skipped
]

unfoldable pub construct_mmap_dyn : List BootEntry → Option (List BootEntry)
construct_mmap_dyn mmap_boot = do
  entries ← sort comp_mmap_entry mmap_boot
  (left, len) ← remove_loop (length entries) 0 0 (align_entries dynmem_start_phys_minimum entries)
  some (take len left)

-- what the page tables read of the map
abbrev pub mmap_dyn : List BootEntry → List MmapEntry
mmap_dyn entries = map (λ entry. record { base = entry.base; len = entry.len }) entries

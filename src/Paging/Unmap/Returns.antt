-- ===== src/Paging/Unmap/Returns.antt =====
-- pagetable_mmio_unmap returns on pages that are mapped by page tables: its fuel is enough, and no
-- assertion fails.
use mathlib.Core.Path.{subst}
use rubberos.Base.{
  ℕ, zero, suc, ◌+◌, ◌-◌, ◌*◌, ◌/◌, ◌%◌, ◌^◌, ◌≤◌, ◌<◌, ◌≡◌, refl, inl, inr, Bool, true, false,
  ◌&&◌, some, ltb, arith, ◌==◌, if◌then◌else◌, Bool-cases, ap, ◌∙◌,
}
use rubberos.Paging.{page_size, PageIterator, page_iterator_from_virt, page_iterator_next}
use rubberos.Paging.Pages.{page_iterator_next_lem}
use rubberos.Paging.Unmap.{
  DirEntry, absent, huge, table, PageTables, directory, set_entry, clear_page, pagetable_is_empty,
  unmap_step, unmap_loop, pagetable_mmio_unmap,
}

abbrev pub is_table : DirEntry → Bool
is_table (table present) = true
is_table _ = false

-- the number of the 2 MiB of an address
abbrev pub directory_of : ℕ → ℕ
directory_of virt = virt / 2 ^ 21 % 2 ^ 27

directory-page_iterator_from_virt :
    (virt : ℕ) → directory (page_iterator_from_virt virt) ≡ directory_of virt
unfolding page_iterator_from_virt
directory-page_iterator_from_virt virt = omega arith

-- Every page of the range is in a page table.
abbrev pub HasTables : ℕ → ℕ → PageTables → Type 0
HasTables begin end tables =
    (v : ℕ) → begin ≤ v → v < end → is_table (tables (directory_of v)) ≡ true

page_iterator_next-inside :
    (virt : ℕ)
    → virt % 2 ^ 48 + page_size < 2 ^ 48
    → page_iterator_next (page_iterator_from_virt virt)
      ≡ some (page_iterator_from_virt (virt + page_size))
page_iterator_next-inside virt h =
    let inside : ltb (virt % 2 ^ 48 + page_size) (2 ^ 48) ≡ true = ground arith in
    page_iterator_next_lem virt ∙ rw inside refl

same_table :
    (virt v : ℕ)
    → virt / 2 ^ 48 ≡ v / 2 ^ 48
    → virt + page_size ≤ v
    → directory_of v ≡ directory_of virt
    → virt / 2 ^ 12 % 512 < (virt + page_size) / 2 ^ 12 % 512
same_table virt v block le same = omega arith

table_of :
    (entry : DirEntry) → is_table entry ≡ true → (present : ℕ → Bool) × (entry ≡ table present)
table_of absent h = cc
table_of huge h = cc
table_of (table present) h = (present, refl)

-- The entry of a page table without the page, which is absent behind the last page of an empty one.
abbrev entry_left : ℕ → (ℕ → Bool) → DirEntry
entry_left virt present =
    let left = clear_page present (virt / 2 ^ 12 % 512) in
    if ltb ((virt + page_size) / 2 ^ 12 % 512) (virt / 2 ^ 12 % 512) && pagetable_is_empty left
    then absent
    else table left

unmap_step_at :
    (it next : PageIterator) (tables : PageTables) (present : ℕ → Bool)
    → page_iterator_next it ≡ some next
    → tables (directory it) ≡ table present
    → let left = clear_page present it.ptei in
      unmap_step it tables
      ≡ some (
        page_size,
        next,
        set_entry tables
            (directory it)
            (if ltb next.ptei it.ptei && pagetable_is_empty left then absent else table left),
      )
unfolding unmap_step
unmap_step_at it next tables present going here = rw (unmap_step, here, going) refl

unmap_step_lem :
    (virt : ℕ) (tables : PageTables) (present : ℕ → Bool)
    → virt % 2 ^ 48 + page_size < 2 ^ 48
    → tables (directory_of virt) ≡ table present
    → unmap_step (page_iterator_from_virt virt) tables
      ≡ some (
        page_size,
        page_iterator_from_virt (virt + page_size),
        set_entry tables (directory_of virt) (entry_left virt present),
      )
unfolding page_iterator_from_virt
unmap_step_lem virt tables present inside here =
    let it = page_iterator_from_virt virt in
    let same = directory-page_iterator_from_virt virt in
    let here' : tables (directory it) ≡ table present = ap tables same ∙ here in
    let step =
      unmap_step_at it (page_iterator_from_virt (virt + page_size)) tables present
        (page_iterator_next-inside virt inside) here' in
    subst
      (λ d.
        unmap_step it tables
        ≡ some (
          page_size,
          page_iterator_from_virt (virt + page_size),
          set_entry tables d (entry_left virt present),
        ))
      same step

HasTables-step :
    (virt end : ℕ) (tables : PageTables) (present : ℕ → Bool)
    → virt / 2 ^ 48 ≡ end / 2 ^ 48
    → HasTables virt end tables
    → HasTables
        (virt + page_size)
        end
        (set_entry tables (directory_of virt) (entry_left virt present))
HasTables-step virt end tables present block has v from lt =
    elim (Bool-cases (directory_of v == directory_of virt)) [
      | inl same ↦
          let within : virt / 2 ^ 12 % 512 < (virt + page_size) / 2 ^ 12 % 512 =
            same_table virt v (omega arith) from (ground arith) in
          let kept : ltb ((virt + page_size) / 2 ^ 12 % 512) (virt / 2 ^ 12 % 512) ≡ false =
            ground arith in
          rw (same, kept) refl
      | inr other ↦ rw other (has v (omega arith) lt)
    ]

unmap_loop_lem :
    (n virt end : ℕ) (tables : PageTables)
    → virt % page_size ≡ 0
    → end % page_size ≡ 0
    → virt ≤ end
    → end ≤ virt + n * page_size
    → end < 2 ^ 64
    → virt / 2 ^ 48 ≡ end / 2 ^ 48
    → HasTables virt end tables
    → (tables' : PageTables) × (unmap_loop (suc n) virt end (page_iterator_from_virt virt) tables
        ≡ some tables')
unfolding unmap_loop
unmap_loop_lem zero virt end tables starts ends le enough low block has =
    let done : ltb virt end ≡ false = ground arith in (tables, rw done refl)
unmap_loop_lem (suc n) virt end tables starts ends le enough low block has =
    elim (Bool-cases (ltb virt end)) [
      | inr done ↦ (tables, rw done refl)
      | inl more ↦
          let (present, here) =
            table_of (tables (directory_of virt)) (has virt (omega arith) (ground arith)) in
          let room : virt + page_size ≤ end = ground arith in
          let inside : virt % 2 ^ 48 + page_size < 2 ^ 48 = omega arith in
          let step = unmap_step_lem virt tables present inside here in
          let (tables', rest) =
            unmap_loop_lem n (virt + page_size) end
              (set_entry tables (directory_of virt) (entry_left virt present)) (omega arith) ends
              room (omega arith) low (omega arith)
              (HasTables-step virt end tables present block has) in
          let no_wrap : (virt + page_size) % 2 ^ 64 ≡ virt + page_size = omega arith in
          (tables', rw (more, step, no_wrap) rest)
    ]

-- A range of pages within the addresses that the tables translate apart from the last page, and of
-- which every page is in a page table, is taken out without a failed assertion.
pub pagetable_mmio_unmap-HasTables :
    (begin end : ℕ) (tables : PageTables)
    → begin % page_size ≡ 0
    → end % page_size ≡ 0
    → begin ≤ end
    → end < 2 ^ 64
    → begin / 2 ^ 48 ≡ end / 2 ^ 48
    → HasTables begin end tables
    → (tables' : PageTables) × (pagetable_mmio_unmap begin end tables ≡ some tables')
unfolding pagetable_mmio_unmap
pagetable_mmio_unmap-HasTables begin end tables starts ends le low block has =
    unmap_loop_lem ((end - begin) / page_size) begin end tables starts ends le (omega arith) low
      block has

-- ===== src/Memory/Mmap/Ascending.antt =====
-- kernel/src/memory.c: the order of the entries of the map of the dynamic memory.
use rubberos.Base.{
  ℕ, ◌+◌, ◌%◌, ◌^◌, ◌≤◌, ◌<◌, ◌≡◌, ◌⊎◌, inl, inr, true, false, List, [], ◌∷◌, ◌==◌, arith,
}
use rubberos.Paging.{MmapEntry, page_size}
use rubberos.Paging.Dynmem.{Above, Ascending, Bounded, Above-weaken}
use rubberos.Memory.Mmap.{BootEntry, available, align_entry, align_entries, mmap_dyn}
use rubberos.Memory.Mmap.Compact.{keep}

-- Every entry is of one page at least, and of whole pages.
abbrev pub IsPaged : List MmapEntry → Type 0
IsPaged [] = Unit
IsPaged (entry ∷ entries) =
    (entry.base % page_size ≡ 0) × (entry.len % page_size ≡ 0) × (0 < entry.len) × IsPaged entries

-- the entries that the two loops leave
unfoldable pub kept_map : ℕ → List BootEntry → List MmapEntry
kept_map prev_end entries = mmap_dyn (keep (align_entries prev_end entries))

-- A round leaves out the entry, or keeps the whole pages of it from `prev_end` on.
pub record IsKept (prev_end : ℕ) (entry : BootEntry) : Type 0 where
  pub was : (entry.kind == available) ≡ true
  pub is : ((align_entry prev_end entry).0.kind == available) ≡ true
  pub from : prev_end ≤ (align_entry prev_end entry).0.base
  pub start : (align_entry prev_end entry).0.base % page_size ≡ 0
  pub whole : (align_entry prev_end entry).0.len % page_size ≡ 0
  pub some_page : 0 < (align_entry prev_end entry).0.len
  pub end :
      (align_entry prev_end entry).0.base + (align_entry prev_end entry).0.len
      ≡ (align_entry prev_end entry).1
  pub below_top : (align_entry prev_end entry).1 < 2 ^ 64

pub record IsLeftOut (prev_end : ℕ) (entry : BootEntry) : Type 0 where
  pub is : ((align_entry prev_end entry).0.kind == available) ≡ false
  pub same : (align_entry prev_end entry).1 ≡ prev_end

pub align_entry_lem :
    (prev_end : ℕ) (entry : BootEntry)
    → prev_end % page_size ≡ 0
    → IsKept prev_end entry ⊎ IsLeftOut prev_end entry
unfolding align_entry
align_entry_lem prev_end entry whole = ground arith

pub kept_map-Ascending :
    (prev_end : ℕ) (entries : List BootEntry)
    → prev_end % page_size ≡ 0
    → Above prev_end (kept_map prev_end entries)
      × Ascending (kept_map prev_end entries)
      × IsPaged (kept_map prev_end entries)
      × Bounded (kept_map prev_end entries)
unfolding align_entries keep kept_map
kept_map-Ascending prev_end [] whole = (tt, tt, tt, tt)
kept_map-Ascending prev_end (e ∷ es) whole =
    let e' = (align_entry prev_end e).0 in
    let end = (align_entry prev_end e).1 in
    elim (align_entry_lem prev_end e whole) [
      | inl k ↦
          let (above, asc, paged, bounded) =
            kept_map-Ascending end es (omega (arith, k.start, k.whole, k.end)) in
          rw k.is (
            (k.from, Above-weaken prev_end end _ (omega (arith, k.from, k.end)) above),
            (rw k.end above, asc),
            (k.start, k.whole, k.some_page, paged),
            (rw k.end k.below_top, bounded),
          )
      | inr l ↦ rw (l.is, l.same) (kept_map-Ascending prev_end es whole)
    ]

-- ===== src/Memory/Mmap/Exact.antt =====
-- kernel/src/memory.c: which addresses the map of the dynamic memory holds.

use rubberos.Base.{
  ℕ, ◌+◌, ◌*◌, ◌/◌, ◌%◌, ◌^◌, ◌<◌, ◌≡◌, refl, inl, inr, Bool, true, false, ◌&&◌, ◌||◌, List, [],
  ◌∷◌, ltb, leb, ◌==◌, Bool-cases, arith, any,
}
use rubberos.Freec.Sort.{is_negative}
use rubberos.Freec.Sort.Order.{IsOrder}
use rubberos.Freec.Sort.Sorted.{Heads, IsSorted}
use rubberos.Paging.{page_size}
use rubberos.Paging.Dynmem.{covers}
use rubberos.Memory.Mmap.{BootEntry, available, comp_mmap_entry, align_entry, align_entries}
use rubberos.Memory.Mmap.Compact.{keep}
use rubberos.Memory.Mmap.Ascending.{kept_map, IsKept, IsLeftOut, align_entry_lem}

-- The page from the address `page` on is memory that the boot loader says is available.
abbrev pub has_page : ℕ → BootEntry → Bool
has_page page entry =
    (entry.kind == available)
    && leb entry.base page
    && leb (page + page_size) (entry.base + entry.len)

-- The entry ends less than a page before the end of the addresses.
abbrev pub reaches_top : BootEntry → Bool
reaches_top entry = ltb (2 ^ 64) (entry.base + entry.len + page_size)

abbrev pub page_of : ℕ → ℕ
page_of phys = phys / page_size * page_size

pub comp_mmap_entry-IsOrder : IsOrder comp_mmap_entry
unfolding comp_mmap_entry is_negative
comp_mmap_entry-IsOrder = record { asym = λ a b h. ground arith; trans = λ a b c h k. ground arith }

later_out :
    (page : ℕ) (e : BootEntry) (es : List BootEntry)
    → Heads comp_mmap_entry e es
    → page < e.base
    → any (has_page page) es ≡ false
unfolding comp_mmap_entry is_negative
later_out page e [] heads lt = refl
later_out page e (f ∷ es) heads lt = ground (arith, heads.0, later_out page e es heads.1 lt)

module _ (prev_end phys : ℕ) (e : BootEntry) (whole : prev_end % page_size ≡ 0)
    (low : reaches_top e ≡ false) where
  kept_covers :
      IsKept prev_end e
      → covers phys
          (record { base = (align_entry prev_end e).0.base; len = (align_entry prev_end e).0.len })
        ≡ (leb prev_end phys && has_page (page_of phys) e)
  unfolding align_entry
  kept_covers k = ground (arith, k.was, k.is)

  left_out_covers : IsLeftOut prev_end e → (leb prev_end phys && has_page (page_of phys) e) ≡ false
  unfolding align_entry
  left_out_covers l = ground (arith, l.is)

  kept_before :
      IsKept prev_end e
      → (leb prev_end phys && has_page (page_of phys) e) ≡ false
      → leb prev_end phys ≡ true
      → phys < (align_entry prev_end e).1
      → page_of phys < e.base
  unfolding align_entry
  kept_before k out from lt = ground (arith, k.was, k.is)

  joins :
      (rest later : Bool)
      → rest ≡ (leb (align_entry prev_end e).1 phys && later)
      → (page_of phys < e.base → later ≡ false)
      → IsKept prev_end e
      → (covers phys (record {
        base = (align_entry prev_end e).0.base;
        len = (align_entry prev_end e).0.len;
      })
          || rest)
        ≡ (leb prev_end phys && (has_page (page_of phys) e || later))
  joins rest later is none_left k =
      let here = kept_covers k in
      let out = kept_before k in
      let end = k.end in
      let from = k.from in
      elim (Bool-cases (leb prev_end phys && has_page (page_of phys) e)) [
        | inl now ↦ ground (arith, here, now)
        | inr not_now ↦ elim (Bool-cases (leb (align_entry prev_end e).1 phys)) [
          | inl past ↦ ground (arith, here, not_now, is, past)
          | inr before ↦ elim (Bool-cases (leb prev_end phys)) [
            | inl inside ↦
                let gone : later ≡ false = none_left (out not_now inside (ground arith)) in
                ground (arith, here, is, not_now, before, inside, gone)
            | inr low ↦ ground (arith, here, is, before, low)
          ]
        ]
      ]

pub kept_map-covers :
    (prev_end phys : ℕ) (es : List BootEntry)
    → prev_end % page_size ≡ 0
    → IsSorted comp_mmap_entry es
    → any reaches_top es ≡ false
    → any (covers phys) (kept_map prev_end es)
      ≡ (leb prev_end phys && any (has_page (page_of phys)) es)
unfolding kept_map keep align_entries
kept_map-covers prev_end phys [] whole sorted low = ground arith
kept_map-covers prev_end phys (e ∷ es) whole sorted low =
    let low_e : reaches_top e ≡ false = ground (arith, low) in
    let low_es : any reaches_top es ≡ false = ground (arith, low) in
    let end = (align_entry prev_end e).1 in
    elim (align_entry_lem prev_end e whole) [
      | inl k ↦
          let rest =
            kept_map-covers end phys es (omega (arith, k.start, k.whole, k.end)) sorted.1 low_es in
          rw k.is (
            joins prev_end phys e whole low_e (any (covers phys) (kept_map end es))
              (any (has_page (page_of phys)) es) rest (later_out (page_of phys) e es sorted.0) k)
      | inr l ↦
          let rest = kept_map-covers prev_end phys es whole sorted.1 low_es in
          rw (l.is, l.same, kept_map, rest)
            (ground (arith, left_out_covers prev_end phys e whole low_e l))
    ]

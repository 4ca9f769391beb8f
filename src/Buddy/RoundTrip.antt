-- ===== src/Buddy/RoundTrip.antt =====
-- buddy_alloc_slice followed by buddy_dealloc.
use mathlib.Core.Path.{subst}
use rubberos.Base.{ℕ, ◌*◌, ◌^◌, ◌≤◌, ◌<◌, ◌≡◌, ◌≢◌, some, arith, inl, inr, ap, sym, ◌∙◌}
use rubberos.Freec.{div_ceil}
use rubberos.Buddy.{unit, Buddy, Slice, alloc_slice, dealloc, bitmap_index_for_size}
use rubberos.Buddy.Levels.{size}
use rubberos.Buddy.Size.{div_ceil_bounds, bitmap_index_for_size_lem}
use rubberos.Buddy.Invariant.{IsValid}
use rubberos.Buddy.Alloc.{Takes, Served, alloc_slice_lem}
use rubberos.Buddy.Dealloc.{IsAligned, dealloc_lem}

-- A request above the last level gets the null slice.
alloc_slice-large :
    (buddy : Buddy) (len fit : ℕ) (r : Buddy × Slice)
    → bitmap_index_for_size (div_ceil len unit * unit) ≡ some fit
    → alloc_slice buddy len ≡ some r
    → r.1.ptr ≢ 0
    → fit < buddy.bitmaps_len
unfolding alloc_slice
alloc_slice-large buddy len fit r index e nz = ground (arith, index)

take_back :
    (buddy buddy' : Buddy) (fit block : ℕ) (s : Slice) (len : ℕ)
    → len ≢ 0
    → Takes fit block buddy buddy' s
    → IsAligned buddy
    → bitmap_index_for_size (div_ceil len unit * unit) ≡ some fit
    → fit < buddy.bitmaps_len
    → div_ceil len unit * unit ≤ unit * size fit
    → (buddy'' : Buddy) × (dealloc buddy' s.ptr len ≡ some buddy'')
      × IsValid buddy''
      × (buddy''.used ≡ buddy.used)
take_back buddy buddy' fit block s len nz t a index lt holds =
    let l = t.layout in
    let starts : buddy'.start_addr ≡ buddy.start_addr = ap Buddy.start_addr l in
    let offsets : buddy'.data_offset ≡ buddy.data_offset = ap Buddy.data_offset l in
    let totals : buddy'.total_len ≡ buddy.total_len = ap Buddy.total_len l in
    let units : buddy'.units ≡ buddy.units = ap Buddy.units l in
    let lens : buddy'.bitmaps_len ≡ buddy.bitmaps_len = ap Buddy.bitmaps_len l in
    let aligned : IsAligned buddy' = record {
      start = omega (arith, a.start);
      whole = omega (arith, a.whole);
    } in
    let (buddy'', freed, returned) =
      dealloc_lem buddy' t.valid aligned fit block t.held (rw units t.room) (omega arith)
        (omega (arith, t.used_eq)) s.ptr len (omega (arith, t.ptr_eq)) nz index holds in
    (buddy'', freed, returned.valid, omega (arith, returned.used_eq, t.used_eq))

-- Of a valid allocator over whole units, what an allocation of up to 2^62 bytes hands out can be
-- given back under the length that was asked for: buddy_dealloc fails no assertion, the allocator
-- is valid again, and as many bytes are used as before the allocation.
pub dealloc-alloc_slice :
    (buddy : Buddy) (len : ℕ) (buddy' : Buddy) (s : Slice)
    → IsValid buddy
    → IsAligned buddy
    → len ≢ 0
    → len ≤ 2 ^ 62
    → alloc_slice buddy len ≡ some (buddy', s)
    → s.ptr ≢ 0
    → (buddy'' : Buddy) × (dealloc buddy' s.ptr len ≡ some buddy'')
      × IsValid buddy''
      × (buddy''.used ≡ buddy.used)
dealloc-alloc_slice buddy len buddy' s v a nz small e given =
    let (r, fit, found, index, served, room, tight) = alloc_slice_lem buddy v len nz small in
    let (fit', index', holds, least) =
      bitmap_index_for_size_lem (div_ceil len unit * unit) (ground (arith, div_ceil_bounds len)) in
    let same : r ≡ (buddy', s) = cc in
    let level : fit' ≡ fit = cc in
    elim (subst (Served buddy fit fit) same served) [
      | inl (null, kept, none_free) ↦ absurd (given (ap Slice.ptr null))
      | inr (block, takes) ↦
          take_back buddy buddy' fit block s len nz takes a index
            (alloc_slice-large buddy len fit (buddy', s) index e given)
            (ground (arith, level, holds))
    ]

-- An allocation keeps the allocator valid, whether it is served or not.
pub alloc_slice-IsValid :
    (buddy : Buddy) (len : ℕ) (buddy' : Buddy) (s : Slice)
    → IsValid buddy
    → len ≢ 0
    → len ≤ 2 ^ 62
    → alloc_slice buddy len ≡ some (buddy', s)
    → IsValid buddy'
alloc_slice-IsValid buddy len buddy' s v nz small run =
    let (r, fit, run', index, served, holds, least) = alloc_slice_lem buddy v len nz small in
    let same : r.0 ≡ buddy' = cc in
    elim served [
      | inl (null, unchanged, counts) ↦
          let kept : buddy ≡ buddy' = sym unchanged ∙ same in rw (← kept) v
      | inr (block, t) ↦ rw same at t.valid
    ]

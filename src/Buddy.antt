-- ===== src/Buddy.antt =====
-- libbuddy/src/buddy.c, the buddy allocator: struct buddy_blocks of libbuddy/include/buddy/buddy.h,
-- struct slice, and the operations. Level l has a bitmap of its free blocks of 2^l units. The
-- bitmaps lie one behind the other in the metadata area; here each has its own list of bytes.
-- Addresses are plain numbers, since the object lies within the address space. `none` is a failed
-- assertion or undefined behaviour, such as a shift of the `int` 4096 out of its range.
pub mod Bits
pub mod Free
pub mod Levels
pub mod Size
pub mod Invariant
pub mod Init
pub mod Alloc
pub mod Merge
pub mod Dealloc
pub mod Tail
pub mod RoundTrip
pub mod Sample
mod Tests
use rubberos.Base.{
  ℕ, zero, suc, ◌+◌, ◌-◌, ◌*◌, ◌/◌, ◌%◌, ◌^◌, Bool, true, false, not, ◌&&◌, ◌||◌, Option, none,
  some, List, [], ◌∷◌, ltb, leb, ◌==◌, length, set, get_or, replicate, if◌then◌else◌,
}
use rubberos.Freec.{div_ceil}
use rubberos.Buddy.Bits.{Bitmap, is_empty, get_bit, set_1, set_0, get_first_1}

abbrev pub unit : ℕ
unit = 4096

pub record Buddy : Type 0 where
  pub start_addr : ℕ
  pub total_len : ℕ
  pub metadata_len : ℕ
  pub data_offset : ℕ
  pub units : ℕ
  pub levels : ℕ
  pub used : ℕ
  pub bitmaps : List Bitmap
  pub bitmaps_len : ℕ

-- A `ptr` of 0 is NULL.
pub record Slice : Type 0 where
  pub ptr : ℕ
  pub len : ℕ

abbrev pub null_slice : Slice
null_slice = record { ptr = 0; len = 0 }

abbrev pub blank : Bitmap
blank = record { bits = []; count = 0 }

abbrev pub bitmap_at : List Bitmap → ℕ → Bitmap
bitmap_at bitmaps level = get_or bitmaps level blank

-- `BUDDY_UNIT << level` on an `int`
abbrev pub int_shift : ℕ → Option ℕ
int_shift level = if ltb level 19 then some (unit * 2 ^ level) else none

-- bitmap_index_for_size: `for (; ((size_t)BUDDY_UNIT << idx) < size; idx++) {}`. Its 52 rounds are
-- the shifts that stay within a `size_t`.
index_loop : ℕ → ℕ → ℕ → Option ℕ
index_loop zero idx size = none
index_loop (suc fuel) idx size =
    let rest = index_loop fuel (idx + 1) size in
    if ltb (unit * 2 ^ idx) size then rest else some idx

pub bitmap_index_for_size : ℕ → Option ℕ
bitmap_index_for_size size = index_loop 52 0 size

-- The loop of buddy_alloc_slice that gives the upper halves back: `below` counts down from
-- `fit + n` to `fit`.
split_loop : ℕ → ℕ → ℕ → List Bitmap → List Bitmap
split_loop zero fit block bitmaps = bitmaps
split_loop (suc n) fit block bitmaps =
    let below = fit + n in
    split_loop n fit (block * 2)
      (set bitmaps below (set_1 (bitmap_at bitmaps below) (block * 2 + 1)))

-- The body of the outer loop on a level with a free block.
take_block : Buddy → ℕ → ℕ → Option (Buddy × Slice)
take_block buddy fit idx = elim (get_first_1 (bitmap_at buddy.bitmaps idx)) [
  | none ↦ none
  | some block ↦ elim (int_shift fit) [
    | none ↦ none
    | some allocated_len ↦ elim (int_shift idx) [
      | none ↦ none
      | some block_len ↦ some (
        record buddy {
          used = buddy.used + allocated_len;
          bitmaps =
              split_loop (idx - fit) fit block
                (set buddy.bitmaps idx (set_0 (bitmap_at buddy.bitmaps idx) block));
        },
        record {
          ptr = buddy.start_addr + buddy.data_offset + block * block_len;
          len = allocated_len;
        },
      )
    ]
  ]
]

-- The outer loop from level `idx` on, with `n` levels left.
alloc_loop : ℕ → Buddy → ℕ → ℕ → Option (Buddy × Slice)
alloc_loop zero buddy fit idx = some (buddy, null_slice)
alloc_loop (suc n) buddy fit idx =
    let rest = alloc_loop n buddy fit (idx + 1) in
    if is_empty (bitmap_at buddy.bitmaps idx) then rest else take_block buddy fit idx

pub alloc_slice : Buddy → ℕ → Option (Buddy × Slice)
alloc_slice buddy len =
    if len == 0 then none else elim (bitmap_index_for_size (div_ceil len unit * unit)) [
      | none ↦ none
      | some fit ↦
          if leb buddy.bitmaps_len fit
          then some (buddy, null_slice)
          else alloc_loop (buddy.bitmaps_len - fit) buddy fit fit
    ]

-- `block_index ^ 1`
abbrev pub buddy_index : ℕ → ℕ
buddy_index block = if block % 2 == 0 then block + 1 else block - 1

-- The loop of buddy_dealloc at level `current`, with `n` levels above it.
pub merge_loop : ℕ → ℕ → ℕ → List Bitmap → Option (List Bitmap)
merge_loop zero current block bitmaps =
    if get_bit (bitmap_at bitmaps current) block
    then none
    else some (set bitmaps current (set_1 (bitmap_at bitmaps current) block))
merge_loop (suc n) current block bitmaps =
    let freed = set_1 (bitmap_at bitmaps current) block in
    let other = buddy_index block in
    let rest =
      merge_loop n (current + 1) (block / 2)
        (set bitmaps current (set_0 (set_0 freed other) block)) in
    if get_bit (bitmap_at bitmaps current) block
    then none
    else if get_bit freed other
    then rest
    else some (set bitmaps current freed)

-- buddy_dealloc from the level and the block on
release : Buddy → ℕ → ℕ → ℕ → Option Buddy
release buddy fit block block_len =
    elim (merge_loop (buddy.bitmaps_len - fit - 1) fit block buddy.bitmaps) [
      | none ↦ none
      | some bitmaps ↦ some (record buddy { bitmaps = bitmaps; used = buddy.used - block_len })
    ]

pub dealloc : Buddy → ℕ → ℕ → Option Buddy
dealloc buddy addr len =
    if len == 0
    then some buddy
    else let data_addr = buddy.start_addr + buddy.data_offset in
      let data_len = buddy.total_len - buddy.data_offset in
      let aligned_addr = addr / unit * unit in
      let aligned_end = div_ceil (addr + len) unit * unit in
      if leb data_addr aligned_addr
        && ltb aligned_addr (data_addr + data_len)
        && ltb data_addr aligned_end
        && leb aligned_end (data_addr + data_len)
      then elim (bitmap_index_for_size (aligned_end - aligned_addr)) [
        | none ↦ none
        | some fit ↦
            if ltb fit buddy.bitmaps_len
            then elim (int_shift fit) [
              | none ↦ none
              | some block_len ↦
                  release buddy fit ((aligned_addr - data_addr) / block_len) block_len
            ]
            else none
      ]
      else none

-- ===== src/Buddy/Init.antt =====
-- buddy_init: buddy_info_calc_metadata, buddy_info_init and the bitmaps at the start. The loops
-- halve a `size_t`, so 64 rounds are enough; `none` is a failed assertion, or the end of the fuel.
pub mod First
pub mod Laws
pub mod Valid
use rubberos.Base.{
  ℕ, zero, suc, ◌+◌, ◌-◌, ◌*◌, ◌/◌, ◌%◌, ◌^◌, Bool, true, false, ◌&&◌, Option, none, some, List, [],
  ◌∷◌, ltb, leb, ◌==◌, length, set, replicate, if◌then◌else◌,
}
use rubberos.Freec.{div_ceil}
use rubberos.Buddy.{unit, Buddy}
use rubberos.Buddy.Bits.{Bitmap}

-- sizeof(struct block_bitmap): a pointer and a `size_t`
abbrev pub bitmap_sizeof : ℕ
bitmap_sizeof = 16

abbrev pub u32 : ℕ → ℕ
u32 n = n % 2 ^ 32

-- the bytes of a bitmap of `count` blocks
abbrev pub bytes_for : ℕ → ℕ
bytes_for count = (count - 1) / 8 + 1

-- The loop of buddy_info_calc_metadata: the levels and the bytes of their bitmaps.
unfoldable pub count_loop : ℕ → ℕ → ℕ → ℕ → Option (ℕ × ℕ)
count_loop zero block_count levels bits = none
count_loop (suc fuel) block_count levels bits =
    let levels' = u32 (levels + 1) in
    let bits' = u32 (bits + bytes_for block_count) in
    let rest = count_loop fuel (block_count / 2) levels' bits' in
    if block_count == 1 then some (levels', bits') else rest

pub record Metadata : Type 0 where
  pub metadata_len : ℕ
  pub units : ℕ
  pub levels : ℕ

unfoldable pub calc_metadata : ℕ → Option Metadata
calc_metadata data_len =
    let units = (data_len - 1) / unit + 1 in
    if ltb unit data_len
    then elim (count_loop 64 units 0 0) [
      | none ↦ none
      | some (levels, bits) ↦
          let metadata_len = levels * bitmap_sizeof + bits in
          if ltb metadata_len data_len
          then some (record { metadata_len = metadata_len; units = units; levels = levels })
          else none
    ]
    else none

-- buddy_info_init: the metadata of what its own metadata leaves, and the offset of the data. The
-- metadata takes at most 18 bytes for each unit, so the offset is below the length and the
-- difference is exact.
unfoldable pub info_init : ℕ → Option (Metadata × ℕ)
info_init total_len = elim (calc_metadata total_len) [
  | none ↦ none
  | some first ↦
      let data_offset = div_ceil first.metadata_len unit * unit in
      elim (calc_metadata (total_len - data_offset)) [
        | none ↦ none
        | some meta ↦ if ltb meta.metadata_len data_offset then some (meta, data_offset) else none
      ]
]

-- The body of the loop of buddy_init: a block with no buddy, the last of an odd number, is free.
unfoldable pub first_bitmap : ℕ → Bitmap
first_bitmap block_count =
    let bits = replicate (bytes_for block_count) 0 in
    if block_count % 2 == 0 then record { bits = bits; count = 0 } else record {
      bits = set bits (bytes_for block_count - 1) (2 ^ (block_count % 8 - 1));
      count = 1;
    }

unfoldable pub bitmap_loop : ℕ → ℕ → Option (List Bitmap)
bitmap_loop zero block_count = none
bitmap_loop (suc fuel) block_count =
    let rest = bitmap_loop fuel (block_count / 2) in
    if block_count / 2 == 0
    then some (first_bitmap block_count ∷ [])
    else elim rest [ none ↦ none | some bitmaps ↦ some (first_bitmap block_count ∷ bitmaps) ]

-- `bits_idx` after the loop
unfoldable pub total_bits : List Bitmap → ℕ
total_bits [] = 0
total_bits (bitmap ∷ bitmaps) = length bitmap.bits + total_bits bitmaps

unfoldable pub init : ℕ → ℕ → Option Buddy
init start_addr total_len = elim (info_init total_len) [
  | none ↦ none
  | some (meta, data_offset) ↦
      let bitmaps_bytes = meta.levels * bitmap_sizeof in
      elim (bitmap_loop 64 meta.units) [
        | none ↦ none
        | some bitmaps ↦
            if total_bits bitmaps == meta.metadata_len - bitmaps_bytes
              && length bitmaps == meta.levels
            then some (record {
              start_addr = start_addr;
              total_len = total_len;
              metadata_len = meta.metadata_len;
              data_offset = data_offset;
              units = meta.units;
              levels = meta.levels;
              used = 0;
              bitmaps = bitmaps;
              bitmaps_len = meta.levels;
            })
            else none
      ]
]

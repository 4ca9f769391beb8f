-- ===== src/Buddy/Init/Laws.antt =====
-- buddy_init leaves a valid allocator with every unit free.
use rubberos.Base.{
  ℕ, zero, suc, ◌+◌, ◌-◌, ◌*◌, ◌/◌, ◌%◌, ◌^◌, ◌≤◌, ◌<◌, ◌≡◌, ◌≢◌, refl, some, List, [], ◌∷◌, arith,
  ◌==◌, Bool-cases, inl, inr, length, replicate, ◌∙◌, length-set, length-replicate,
}
use rubberos.Buddy.{unit}
use rubberos.Buddy.Bits.{Bitmap}
use rubberos.Buddy.Levels.{size}
use rubberos.Buddy.Init.{
  bitmap_sizeof, bytes_for, count_loop, Metadata, calc_metadata, first_bitmap, bitmap_loop,
  total_bits,
}

pub first_bytes : (count : ℕ) → length (first_bitmap count).bits ≡ bytes_for count
unfolding first_bitmap
first_bytes count =
    let zeros : List ℕ = replicate (bytes_for count) 0 in
    elim (Bool-cases (count % 2 == 0)) [
      | inl even ↦ rw even (length-replicate (bytes_for count) 0)
      | inr odd ↦ rw odd (
          length-set zeros (bytes_for count - 1) (2 ^ (count % 8 - 1))
          ∙ length-replicate (bytes_for count) 0)
    ]

-- The loop counts what it would build: as many levels, and the bytes of their bitmaps.
count_loop_lem :
    (fuel count levels bits : ℕ)
    → count ≢ 0
    → count < size fuel
    → levels + fuel < 2 ^ 32
    → bits + 2 * count < 2 ^ 32
    → (bitmaps : List Bitmap) × (bitmap_loop fuel count ≡ some bitmaps)
      × (count_loop fuel count levels bits
          ≡ some (levels + length bitmaps, bits + total_bits bitmaps))
      × (length bitmaps ≤ count)
      × (total_bits bitmaps ≤ 2 * count)
unfolding bitmap_loop count_loop total_bits size
count_loop_lem zero count levels bits nz h small few = absurd (omega arith)
count_loop_lem (suc fuel) count levels bits nz h small few = elim (Bool-cases (count == 1)) [
  | inl last ↦ (
    first_bitmap count ∷ [],
    ground arith,
    ground (arith, first_bytes count),
    omega arith,
    omega (arith, first_bytes count),
  )
  | inr more ↦
      let (bitmaps, built, counted, fewer, smaller) =
        count_loop_lem fuel (count / 2) (levels + 1) (bits + bytes_for count) (ground arith)
          (omega arith) (omega arith) (ground arith) in
      (
        first_bitmap count ∷ bitmaps,
        ground (arith, built),
        ground (arith, counted, first_bytes count),
        ground arith,
        ground (arith, first_bytes count),
      )
]

size_64 : size 64 ≡ 2 ^ 64
unfolding size
size_64 = refl

-- The metadata of an area of less than 2^30 units is computed, and lies within the area.
pub calc_metadata_lem :
    (data_len : ℕ)
    → unit < data_len
    → data_len ≤ unit * 2 ^ 30
    → (meta : Metadata) × (bitmaps : List Bitmap) × (calc_metadata data_len ≡ some meta)
      × (meta.units ≡ (data_len - 1) / unit + 1)
      × (bitmap_loop 64 meta.units ≡ some bitmaps)
      × (length bitmaps ≡ meta.levels)
      × (meta.metadata_len ≡ meta.levels * bitmap_sizeof + total_bits bitmaps)
      × (meta.metadata_len ≤ 18 * meta.units)
unfolding calc_metadata
calc_metadata_lem data_len lo hi =
    let units = (data_len - 1) / unit + 1 in
    let (bitmaps, built, counted, few, small) =
      count_loop_lem 64 units 0 0 (omega arith) (omega (arith, size_64)) (omega arith)
        (omega arith) in
    let zero_levels : 0 + length bitmaps ≡ length bitmaps = omega arith in
    let zero_bits : 0 + total_bits bitmaps ≡ total_bits bitmaps = omega arith in
    (
      record {
        metadata_len = length bitmaps * bitmap_sizeof + total_bits bitmaps;
        units = units;
        levels = length bitmaps;
      },
      bitmaps,
      ground (arith, counted, zero_levels, zero_bits, few, small),
      refl,
      built,
      refl,
      refl,
      omega arith,
    )

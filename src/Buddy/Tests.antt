-- ===== src/Buddy/Tests.antt =====
-- Runs of the allocator over three units, and the instances of its theorems.
use rubberos.Base.{
  ℕ, ◌+◌, ◌*◌, ◌≡◌, ◌≤◌, ◌<◌, ◌⊎◌, ◌%◌, refl, ◌-◌, none, some, List, [], ◌∷◌, arith,
}
use rubberos.Freec.{div_ceil}
use rubberos.Buddy.{
  unit, Buddy, Slice, null_slice, alloc_slice, dealloc, bitmap_index_for_size, alloc_loop,
  take_block, split_loop, index_loop,
}
use rubberos.Buddy.Bits.{Bitmap}
use rubberos.Buddy.Bits.{is_empty, test_bit, set_0, clear_bit, get_bit, get_first_1}
use rubberos.Buddy.Levels.{size}
use rubberos.Buddy.Invariant.{IsValid}
use rubberos.Buddy.Dealloc.{IsAligned}
use rubberos.Buddy.Init.{
  Metadata, calc_metadata, bitmap_loop, init, info_init, count_loop, first_bitmap, total_bits,
}
use rubberos.Buddy.Init.First.{bitmap_loop-IsFirst}
use rubberos.Buddy.Init.Valid.{IsFresh, made-IsFresh, init_lem, IsFresh-IsAligned}
use rubberos.Buddy.Alloc.{Served, alloc_slice_lem}
use rubberos.Buddy.RoundTrip.{dealloc-alloc_slice}

abbrev three : List Bitmap
three = record { bits = 4 ∷ []; count = 1 } ∷ record { bits = 1 ∷ []; count = 1 } ∷ []

abbrev metadata : Metadata
metadata = record { metadata_len = 34; units = 3; levels = 2 }

-- an area of four units at 1 MiB
abbrev fresh : Buddy
fresh = record {
  start_addr = 0x100000;
  total_len = 16384;
  metadata_len = 34;
  data_offset = 4096;
  units = 3;
  levels = 2;
  used = 0;
  bitmaps = three;
  bitmaps_len = 2;
}

init_run : init 0x100000 16384 ≡ some fresh
unfolding init info_init calc_metadata count_loop bitmap_loop first_bitmap total_bits div_ceil
init_run = refl

three_loop : bitmap_loop 64 3 ≡ some three
unfolding bitmap_loop first_bitmap
three_loop = refl

fresh-IsFresh : IsFresh 0x100000 16384 fresh
fresh-IsFresh =
    made-IsFresh 0x100000 16384 metadata 4096 three
      (bitmap_loop-IsFirst 64 3 three (omega arith) three_loop) refl (omega arith) (omega arith)
      refl (omega arith) (omega arith)

abbrev taken : Buddy
taken = record fresh {
  used = 8192;
  bitmaps = record { bits = 4 ∷ []; count = 1 } ∷ record { bits = 0 ∷ []; count = 0 } ∷ [];
}

alloc_run : alloc_slice fresh 5000 ≡ some (taken, record { ptr = 0x101000; len = 8192 })
unfolding alloc_slice alloc_loop take_block split_loop bitmap_index_for_size index_loop div_ceil
    is_empty get_first_1 test_bit set_0 clear_bit get_bit
alloc_run = refl

large_run : alloc_slice fresh 8193 ≡ some (fresh, null_slice)
unfolding alloc_slice bitmap_index_for_size index_loop div_ceil
large_run = refl

fresh-IsAligned : IsAligned fresh
fresh-IsAligned = IsFresh-IsAligned 0x100000 16384 fresh fresh-IsFresh refl refl

dealloc-alloc_slice_example :
    (buddy : Buddy) × (dealloc taken 0x101000 5000 ≡ some buddy) × IsValid buddy × (buddy.used ≡ 0)
dealloc-alloc_slice_example =
    dealloc-alloc_slice fresh 5000 taken (record { ptr = 0x101000; len = 8192 }) fresh-IsFresh.valid
      fresh-IsAligned (omega arith) (omega arith) alloc_run (omega arith)

alloc_slice_lem_example :
    (r : Buddy × Slice) × (fit : ℕ) × (alloc_slice fresh 5000 ≡ some r)
    × (bitmap_index_for_size (div_ceil 5000 unit * unit) ≡ some fit)
    × Served fresh fit fit r
    × (5000 ≤ unit * size fit)
    × ((fit ≡ 0) ⊎ (unit * size fit < 2 * (5000 + unit)))
alloc_slice_lem_example = alloc_slice_lem fresh fresh-IsFresh.valid 5000 (omega arith) (omega arith)

init_lem_example :
    ((meta : Metadata) × (calc_metadata (16384 - meta.metadata_len) ≡ some meta)
      × (meta.metadata_len % unit ≡ 0)
      × (init 0x100000 16384 ≡ none))
    ⊎ ((buddy : Buddy) × (init 0x100000 16384 ≡ some buddy) × IsFresh 0x100000 16384 buddy)
init_lem_example = init_lem 0x100000 16384 (omega arith) (omega arith)

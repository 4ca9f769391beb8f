-- ===== src/Buddy/Sample.antt =====
-- An area of five units, and the block of four of them that is handed out.
use rubberos.Base.{◌≡◌, refl, some, List, [], ◌∷◌, arith}
use rubberos.Freec.{div_ceil}
use rubberos.Buddy.{
  Buddy, alloc_slice, bitmap_index_for_size, alloc_loop, take_block, split_loop, index_loop,
}
use rubberos.Buddy.Bits.{Bitmap, is_empty, test_bit, set_0, clear_bit, get_bit, get_first_1}
use rubberos.Buddy.Invariant.{IsValid}
use rubberos.Buddy.Dealloc.{IsAligned}
use rubberos.Buddy.Init.{bitmap_loop, first_bitmap}
use rubberos.Buddy.Init.First.{bitmap_loop-IsFirst}
use rubberos.Buddy.Init.Valid.{IsFresh, made-IsFresh}
use rubberos.Buddy.RoundTrip.{alloc_slice-IsValid}

abbrev pub five : List Bitmap
five =
    record { bits = 16 ∷ []; count = 1 }
    ∷ record { bits = 0 ∷ []; count = 0 }
    ∷ record { bits = 1 ∷ []; count = 1 }
    ∷ []

abbrev pub fresh : Buddy
fresh = record {
  start_addr = 0x100000;
  total_len = 24576;
  metadata_len = 51;
  data_offset = 4096;
  units = 5;
  levels = 3;
  used = 0;
  bitmaps = five;
  bitmaps_len = 3;
}

five_loop : bitmap_loop 64 5 ≡ some five
unfolding bitmap_loop first_bitmap
five_loop = refl

fresh-IsFresh : IsFresh 0x100000 24576 fresh
fresh-IsFresh =
    made-IsFresh 0x100000 24576 (record { metadata_len = 51; units = 5; levels = 3 }) 4096 five
      (bitmap_loop-IsFirst 64 5 five (omega arith) five_loop) refl (omega arith) (omega arith) refl
      (omega arith) (omega arith)

abbrev pub taken : Buddy
taken = record fresh {
  used = 16384;
  bitmaps =
      record { bits = 16 ∷ []; count = 1 }
      ∷ record { bits = 0 ∷ []; count = 0 }
      ∷ record { bits = 0 ∷ []; count = 0 }
      ∷ [];
}

alloc_run : alloc_slice fresh 16384 ≡ some (taken, record { ptr = 0x101000; len = 16384 })
unfolding alloc_slice alloc_loop take_block split_loop bitmap_index_for_size index_loop div_ceil
    is_empty get_first_1 test_bit set_0 clear_bit get_bit
alloc_run = refl

pub taken-IsValid : IsValid taken
taken-IsValid =
    alloc_slice-IsValid fresh 16384 taken (record { ptr = 0x101000; len = 16384 })
      fresh-IsFresh.valid (omega arith) (omega arith) alloc_run

pub taken-IsAligned : IsAligned taken
taken-IsAligned = record { start = refl; whole = refl }

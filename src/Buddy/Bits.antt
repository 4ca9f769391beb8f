-- ===== src/Buddy/Bits.antt =====
-- struct block_bitmap of libbuddy/src/buddy.c: the bits of one level, in bytes, and their count.
pub mod Laws
pub mod First
use Prim.Native.Nat.{bit_and, bit_or}
use rubberos.Base.{
  ℕ, zero, suc, ◌+◌, ◌-◌, ◌*◌, ◌/◌, ◌%◌, ◌^◌, Bool, true, false, not, ◌&&◌, Option, none, some,
  List, [], ◌∷◌, ltb, ◌==◌, length, set, get_or, replicate, if◌then◌else◌,
}

pub record Bitmap : Type 0 where
  pub bits : List ℕ
  pub count : ℕ

unfoldable pub is_empty : Bitmap → Bool
is_empty bitmap = bitmap.count == 0

-- `(byte & (1 << k)) != 0`
unfoldable pub test_bit : ℕ → ℕ → Bool
test_bit byte k = not (bit_and byte (2 ^ k) == 0)

-- `byte | 1 << k`
unfoldable pub or_bit : ℕ → ℕ → ℕ
or_bit byte k = bit_or byte (2 ^ k)

-- `byte & ~(1 << k)`, for a byte
unfoldable pub clear_bit : ℕ → ℕ → ℕ
clear_bit byte k = bit_and byte (255 - 2 ^ k)

unfoldable pub get_bit : Bitmap → ℕ → Bool
get_bit bitmap index = test_bit (get_or bitmap.bits (index / 8) 0) (index % 8)

unfoldable pub set_1 : Bitmap → ℕ → Bitmap
set_1 bitmap index =
    let prev = get_bit bitmap index in
    record {
      bits = set bitmap.bits (index / 8) (or_bit (get_or bitmap.bits (index / 8) 0) (index % 8));
      count = if prev then bitmap.count else bitmap.count + 1;
    }

unfoldable pub set_0 : Bitmap → ℕ → Bitmap
set_0 bitmap index =
    let prev = get_bit bitmap index in
    record {
      bits = set bitmap.bits (index / 8) (clear_bit (get_or bitmap.bits (index / 8) 0) (index % 8));
      count = if prev then bitmap.count - 1 else bitmap.count;
    }

-- `for (; bits[bits_idx] == 0; bits_idx++) {}` from the byte at `bits_idx` on: the index and the
-- byte where it stops. `none` is a read behind the bits.
pub first_byte : List ℕ → ℕ → Option (ℕ × ℕ)
first_byte [] bits_idx = none
first_byte (byte ∷ bytes) bits_idx =
    let rest = first_byte bytes (bits_idx + 1) in if byte == 0 then rest else some (bits_idx, byte)

-- `for (; offset < 8 && (byte & (1 << offset)) == 0; offset++) {}`, with `fuel` rounds left
pub first_offset : ℕ → ℕ → ℕ → ℕ
first_offset zero byte offset = offset
first_offset (suc fuel) byte offset =
    let rest = first_offset fuel byte (offset + 1) in
    if ltb offset 8 && not (test_bit byte offset) then rest else offset

-- The first assertion, the two loops, and the second assertion.
unfoldable pub get_first_1 : Bitmap → Option ℕ
unfolding first_byte first_offset is_empty
get_first_1 bitmap = if is_empty bitmap then none else elim (first_byte bitmap.bits 0) [
  | none ↦ none
  | some (bits_idx, byte) ↦
      let offset = first_offset 8 byte 0 in
      if ltb offset 8 then some (bits_idx * 8 + offset) else none
]

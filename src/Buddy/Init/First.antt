-- ===== src/Buddy/Init/First.antt =====
-- The bitmaps that buddy_init builds: the last block of each level with an odd number is free.
use mathlib.Core.Path.{subst}
use mathlib.Core.Bool.{false≢true}
use rubberos.Base.{
  ℕ, zero, suc, ◌+◌, ◌-◌, ◌/◌, ◌%◌, ◌^◌, ◌≤◌, ◌<◌, ◌≡◌, ◌≢◌, refl, Bool, true, false, not, ◌&&◌,
  some, List, [], ◌∷◌, arith, ltb, ◌==◌, Option-cases, Bool-cases, inl, inr, length, get_or,
  replicate, if◌then◌else◌, ap, ◌∙◌, sym, length-set, length-replicate, get_or-replicate,
}
use rubberos.Base.Table.{every_under, every_under_at}
use rubberos.Buddy.{blank}
use rubberos.Buddy.Bits.{Bitmap, test_bit, get_bit}
use rubberos.Buddy.Bits.Laws.{IsBytes, IsWell, ones, ones_byte, ones-set, set-IsBytes, get_or-set}
use rubberos.Buddy.Bits.First.{zero_byte, ones-zero}
use rubberos.Buddy.Free.{Apart, up}
use rubberos.Buddy.Levels.{blocks, IsLevel, Shape, free_of, weight}
use rubberos.Buddy.Init.{bytes_for, first_bitmap, bitmap_loop}

power_laws : ℕ → Bool
power_laws k =
    (ones_byte (2 ^ k) == 1)
    && ltb (2 ^ k) 256
    && every_under 8 (λ j. if j == k then test_bit (2 ^ k) j else not (test_bit (2 ^ k) j))

power_laws_table : every_under 8 power_laws ≡ true
unfolding power_laws ones_byte test_bit every_under
power_laws_table = refl

power_law :
    (k j : ℕ)
    → k < 8
    → j < 8
    → (ones_byte (2 ^ k) ≡ 1) × (2 ^ k < 256) × (test_bit (2 ^ k) j ≡ (j == k))
unfolding power_laws
power_law k j hk hj =
    let law = every_under_at 8 power_laws k power_laws_table hk in
    ground (
      arith,
      law,
      every_under_at 8 (λ j. if j == k then test_bit (2 ^ k) j else not (test_bit (2 ^ k) j)) j,
    )

zeros-IsBytes : (n : ℕ) → IsBytes (replicate n 0)
zeros-IsBytes zero = tt
zeros-IsBytes (suc n) = (omega arith, zeros-IsBytes n)

ones-zeros : (n : ℕ) → ones (replicate n 0) ≡ 0
unfolding ones
ones-zeros zero = refl
ones-zeros (suc n) = omega (arith, ones-zero, ones-zeros n)

-- the bytes before the one write
length-zeros : (n : ℕ) → length (replicate {A = ℕ} n 0) ≡ n
length-zeros n = length-replicate n 0

get_or-zeros : (n i : ℕ) → get_or (replicate {A = ℕ} n 0) i 0 ≡ 0
get_or-zeros n i = get_or-replicate n i 0

module _ (count : ℕ) (nz : count ≢ 0) where
  get_bit-first :
      (i : ℕ) → get_bit (first_bitmap count) i ≡ (if count % 2 == 0 then false else i + 1 == count)
  unfolding first_bitmap get_bit
  get_bit-first i = elim (Bool-cases (count % 2 == 0)) [
    | inl even ↦ rw (even, get_or-zeros) (zero_byte (i % 8) (omega arith))
    | inr odd ↦ rw odd (
        ground (
          arith,
          get_or-set (replicate (bytes_for count) 0) (bytes_for count - 1) (i / 8)
              (2 ^ (count % 8 - 1)),
          length-zeros (bytes_for count),
          get_or-zeros (bytes_for count) (i / 8),
          zero_byte (i % 8),
          power_law (count % 8 - 1) (i % 8),
        ))
  ]

  first-IsWell : IsWell (first_bitmap count)
  unfolding first_bitmap
  first-IsWell = elim (Bool-cases (count % 2 == 0)) [
    | inl even ↦ rw even (record {
      bytes = zeros-IsBytes (bytes_for count);
      counted = sym (ones-zeros (bytes_for count));
    })
    | inr odd ↦
        let law = power_law (count % 8 - 1) 0 (ground arith) (omega arith) in
        rw odd (record {
          bytes = set-IsBytes _ _ _ (zeros-IsBytes (bytes_for count)) law.1;
          counted = ground (
            arith,
            law,
            ones-zero,
            ones-zeros (bytes_for count),
            get_or-zeros (bytes_for count) (bytes_for count - 1),
            length-zeros (bytes_for count),
            ones-set (replicate (bytes_for count) 0) (bytes_for count - 1) (2 ^ (count % 8 - 1)),
          );
        })
  ]

  first_bytes : length (first_bitmap count).bits ≡ bytes_for count
  unfolding first_bitmap
  first_bytes = elim (Bool-cases (count % 2 == 0)) [
    | inl even ↦ rw even (length-zeros (bytes_for count))
    | inr odd ↦ rw odd (
        length-set (replicate (bytes_for count) 0) (bytes_for count - 1) (2 ^ (count % 8 - 1))
        ∙ length-zeros (bytes_for count))
  ]

  first-IsLevel : IsLevel count (first_bitmap count)
  first-IsLevel = record {
    well = first-IsWell;
    sized = first_bytes;
    in_range = λ i e. ground (arith, get_bit-first i);
  }

  count-first : (first_bitmap count).count ≡ count % 2
  unfolding first_bitmap
  count-first = elim (Bool-cases (count % 2 == 0)) [
    | inl even ↦ rw even (ground arith)
    | inr odd ↦ rw odd (ground arith)
  ]

-- What buddy_init builds for `count` units: of each level only the last block of an odd number is
-- free, and together the free blocks are all the units.
pub record IsFirst (count : ℕ) (bitmaps : List Bitmap) : Type 0 where
  pub shape : Shape count bitmaps
  pub last :
      (l i : ℕ) → free_of bitmaps l i ≡ true → (i + 1 ≡ blocks count l) × (blocks count l % 2 ≡ 1)
  pub all_free : weight bitmaps ≡ count

blank_clear : (i : ℕ) → get_bit blank i ≡ false
unfolding get_bit
blank_clear i = zero_byte (i % 8) (omega arith)

IsFirst-last :
    (count : ℕ)
    → count ≢ 0
    → (bitmaps : List Bitmap)
    → ((l i : ℕ)
        → free_of bitmaps l i ≡ true
        → (i + 1 ≡ blocks (count / 2) l) × (blocks (count / 2) l % 2 ≡ 1))
    → (l i : ℕ) → free_of (first_bitmap count ∷ bitmaps) l i ≡ true
    → (i + 1 ≡ blocks count l) × (blocks count l % 2 ≡ 1)
unfolding blocks
IsFirst-last count nz bitmaps rest zero i e = ground (arith, get_bit-first count nz i)
IsFirst-last count nz bitmaps rest (suc l) i e = rest l i e

IsFirst-cons :
    (count : ℕ) (bitmaps : List Bitmap)
    → count ≢ 0
    → Shape (count / 2) bitmaps
    → ((l i : ℕ)
        → free_of bitmaps l i ≡ true
        → (i + 1 ≡ blocks (count / 2) l) × (blocks (count / 2) l % 2 ≡ 1))
    → weight bitmaps ≡ count / 2
    → IsFirst count (first_bitmap count ∷ bitmaps)
unfolding weight
IsFirst-cons count bitmaps nz s last full = record {
  shape = (first-IsLevel count nz, s);
  last = IsFirst-last count nz bitmaps last;
  all_free = omega (arith, count-first count nz);
}

pub bitmap_loop-IsFirst :
    (fuel count : ℕ) (bitmaps : List Bitmap)
    → count ≢ 0
    → bitmap_loop fuel count ≡ some bitmaps
    → IsFirst count bitmaps
unfolding bitmap_loop weight
bitmap_loop-IsFirst zero count bitmaps nz e = cc
bitmap_loop-IsFirst (suc fuel) count bitmaps nz e = elim (Bool-cases (count / 2 == 0)) [
  | inl top ↦
      let same : first_bitmap count ∷ [] ≡ bitmaps = ground arith in
      subst (IsFirst count) same (
        IsFirst-cons count [] nz tt (λ l i free. absurd (false≢true (sym (blank_clear i) ∙ free)))
          (ground arith))
  | inr more ↦ elim (Option-cases (bitmap_loop fuel (count / 2))) [
    | inl stuck ↦ absurd (ground arith)
    | inr (rest, built) ↦
        let same : first_bitmap count ∷ rest ≡ bitmaps = ground arith in
        let below = bitmap_loop-IsFirst fuel (count / 2) rest (ground arith) built in
        subst (IsFirst count) same
          (IsFirst-cons count rest nz below.shape below.last below.all_free)
  ]
]

blocks-add : (n l d : ℕ) → blocks n (l + d) ≡ blocks (blocks n l) d
unfolding blocks
blocks-add n zero d = let e : 0 + d ≡ d = omega arith in ap (blocks n) e
blocks-add n (suc l) d =
    let e : suc l + d ≡ suc (l + d) = omega arith in ap (blocks n) e ∙ blocks-add (n / 2) l d

-- An index behind the last block stays behind it on the levels above.
up-ge : (d n i : ℕ) → n ≤ i → blocks n d ≤ up d i
unfolding up blocks
up-ge zero n i h = h
up-ge (suc d) n i h = up-ge d (n / 2) (i / 2) (omega arith)

Shape-free :
    (n l i : ℕ) (bitmaps : List Bitmap)
    → Shape n bitmaps
    → free_of bitmaps l i ≡ true
    → i < blocks n l
unfolding blocks
Shape-free n l i [] s e = absurd (false≢true (sym (blank_clear i) ∙ e))
Shape-free n zero i (bitmap ∷ bitmaps) s e = s.0.in_range i e
Shape-free n (suc l) i (bitmap ∷ bitmaps) s e = Shape-free (n / 2) l i bitmaps s.1 e

pub IsFirst-Apart :
    (count : ℕ) (bitmaps : List Bitmap) → IsFirst count bitmaps → Apart (free_of bitmaps)
unfolding up blocks
IsFirst-Apart count bitmaps first l d i free =
    elim (Bool-cases (free_of bitmaps (l + suc d) (up d (i / 2)))) [
      | inr out ↦ out
      | inl too ↦
          let top = first.last l i free in
          let far = up-ge d (blocks count l / 2) (i / 2) (omega arith) in
          let near = Shape-free count (l + suc d) (up d (i / 2)) bitmaps first.shape too in
          absurd (omega (arith, far, near, blocks-add count l (suc d)))
    ]

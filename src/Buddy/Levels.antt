-- ===== src/Buddy/Levels.antt =====
-- The bitmaps of all levels: their shape, the blocks that they hold free, and how many units those
-- make up, under an update of one level.
use mathlib.Core.Path.{fun_ext}
use rubberos.Base.{
  ℕ, zero, suc, ◌+◌, ◌-◌, ◌*◌, ◌/◌, ◌<◌, ◌≡◌, ◌≢◌, refl, true, false, arith, ◌==◌, Bool-cases, inl,
  inr, ap, ◌∙◌, if◌then◌else◌, List, [], ◌∷◌, length, set, get_or-set_self, get_or-set_ne,
}
use rubberos.Buddy.{bitmap_at, blank}
use rubberos.Buddy.Bits.{Bitmap, get_bit, set_1, set_0}
use rubberos.Buddy.Bits.Laws.{
  IsWell, get_bit-set_1, get_bit-set_0, set_1-IsWell, set_0-IsWell, bits-set_1, bits-set_0,
  count-set_1, count-set_0,
}
use rubberos.Buddy.Free.{Free, put, drop}

-- the units of a block of a level, and the blocks that a level has, of `n` units
unfoldable pub size : ℕ → ℕ
size zero = 1
size (suc level) = 2 * size level

unfoldable pub blocks : ℕ → ℕ → ℕ
blocks n zero = n
blocks n (suc level) = blocks (n / 2) level

pub blocks-suc : (n level : ℕ) → blocks n (suc level) ≡ blocks n level / 2
unfolding blocks
blocks-suc n zero = refl
blocks-suc n (suc level) = blocks-suc (n / 2) level

pub size_pos : (level : ℕ) → 0 < size level
unfolding size
size_pos zero = omega arith
size_pos (suc level) = omega (arith, size_pos level)

-- A level of `n` blocks: a bitmap with a bit for each, and no other bit set.
pub record IsLevel (n : ℕ) (bitmap : Bitmap) : Type 0 where
  pub well : IsWell bitmap
  pub sized : length bitmap.bits ≡ (n - 1) / 8 + 1
  pub in_range : (i : ℕ) → get_bit bitmap i ≡ true → i < n

abbrev pub Shape : ℕ → List Bitmap → Type 0
Shape n [] = Unit
Shape n (bitmap ∷ bitmaps) = IsLevel n bitmap × Shape (n / 2) bitmaps

module _ (n : ℕ) (bitmap : Bitmap) (v : IsLevel n bitmap) (i : ℕ) (h : i < n) where
  pub inside : i / 8 < length bitmap.bits
  inside = omega (arith, v.sized)

  pub IsLevel-set_1 : IsLevel n (set_1 bitmap i)
  IsLevel-set_1 = record {
    well = set_1-IsWell bitmap i v.well inside;
    sized = bits-set_1 bitmap i ∙ v.sized;
    in_range = λ j e. ground (arith, get_bit-set_1 bitmap i v.well inside j, v.in_range j);
  }

  pub IsLevel-set_0 : IsLevel n (set_0 bitmap i)
  IsLevel-set_0 = record {
    well = set_0-IsWell bitmap i v.well inside;
    sized = bits-set_0 bitmap i ∙ v.sized;
    in_range = λ j e. ground (arith, get_bit-set_0 bitmap i v.well inside j, v.in_range j);
  }

pub Shape-at :
    (n level : ℕ) (bitmaps : List Bitmap)
    → Shape n bitmaps
    → level < length bitmaps
    → IsLevel (blocks n level) (bitmap_at bitmaps level)
unfolding blocks
Shape-at n level [] s h = absurd (omega arith)
Shape-at n zero (bitmap ∷ bitmaps) s h = s.0
Shape-at n (suc level) (bitmap ∷ bitmaps) s h = Shape-at (n / 2) level bitmaps s.1 (omega arith)

pub Shape-set :
    (n level : ℕ) (bitmaps : List Bitmap) (new : Bitmap)
    → Shape n bitmaps
    → IsLevel (blocks n level) new
    → Shape n (set bitmaps level new)
unfolding blocks
Shape-set n level [] new s v = tt
Shape-set n zero (bitmap ∷ bitmaps) new s v = (v, s.1)
Shape-set n (suc level) (bitmap ∷ bitmaps) new s v =
    (s.0, Shape-set (n / 2) level bitmaps new s.1 v)

-- The free blocks of the bitmaps, and the units that they make up.
abbrev pub free_of : List Bitmap → Free
free_of bitmaps level i = get_bit (bitmap_at bitmaps level) i

unfoldable pub weight : List Bitmap → ℕ
weight [] = 0
weight (bitmap ∷ bitmaps) = bitmap.count + 2 * weight bitmaps

pub weight-set :
    (bitmaps : List Bitmap) (level : ℕ) (new : Bitmap)
    → level < length bitmaps
    → weight (set bitmaps level new) + size level * (bitmap_at bitmaps level).count
      ≡ weight bitmaps + size level * new.count
unfolding weight size
weight-set [] level new h = absurd (omega arith)
weight-set (bitmap ∷ bitmaps) zero new h = omega arith
weight-set (bitmap ∷ bitmaps) (suc level) new h =
    omega (arith, weight-set bitmaps level new (omega arith))

pub bitmap_at-set :
    (bitmaps : List Bitmap) (level k : ℕ) (new : Bitmap)
    → level < length bitmaps
    → bitmap_at (set bitmaps level new) k ≡ (if k == level then new else bitmap_at bitmaps k)
bitmap_at-set bitmaps level k new h = elim (Bool-cases (k == level)) [
  | inl e ↦
      let same : level ≡ k = ground arith in
      rw (e, ← same) (get_or-set_self bitmaps level new blank h)
  | inr e ↦ let apart : level ≢ k = ground arith in rw e (get_or-set_ne bitmaps new blank apart)
]

module _ (n : ℕ) (bitmaps : List Bitmap) (s : Shape n bitmaps) (level i : ℕ)
    (h : level < length bitmaps) (r : i < blocks n level) where
  abbrev pub given_back : List Bitmap
  given_back = set bitmaps level (set_1 (bitmap_at bitmaps level) i)

  abbrev pub taken : List Bitmap
  taken = set bitmaps level (set_0 (bitmap_at bitmaps level) i)

  IsLevel-ok : IsLevel (blocks n level) (bitmap_at bitmaps level)
  IsLevel-ok = Shape-at n level bitmaps s h

  pub Shape-given_back : Shape n given_back
  Shape-given_back = Shape-set n level bitmaps _ s (IsLevel-set_1 (blocks n level) _ IsLevel-ok i r)

  pub Shape-taken : Shape n taken
  Shape-taken = Shape-set n level bitmaps _ s (IsLevel-set_0 (blocks n level) _ IsLevel-ok i r)

  pub free_of-given_back : free_of given_back ≡ put (free_of bitmaps) level i
  free_of-given_back = fun_ext λ k. fun_ext λ j.
      let bitmap = bitmap_at bitmaps level in
      ground (
        arith,
        bitmap_at-set bitmaps level k (set_1 bitmap i) h,
        get_bit-set_1 bitmap i IsLevel-ok.well (inside (blocks n level) bitmap IsLevel-ok i r) j,
      )

  pub free_of-taken : free_of taken ≡ drop (free_of bitmaps) level i
  free_of-taken = fun_ext λ k. fun_ext λ j.
      let bitmap = bitmap_at bitmaps level in
      ground (
        arith,
        bitmap_at-set bitmaps level k (set_0 bitmap i) h,
        get_bit-set_0 bitmap i IsLevel-ok.well (inside (blocks n level) bitmap IsLevel-ok i r) j,
      )

  pub weight-given_back :
      free_of bitmaps level i ≡ false → weight given_back ≡ weight bitmaps + size level
  weight-given_back e =
      let bitmap = bitmap_at bitmaps level in
      omega (
        arith,
        weight-set bitmaps level (set_1 bitmap i) h,
        ap (λ c. size level * c) (count-set_1 bitmap i e),
      )

  pub weight-taken : free_of bitmaps level i ≡ true → weight taken + size level ≡ weight bitmaps
  weight-taken e =
      let bitmap = bitmap_at bitmaps level in
      omega (
        arith,
        weight-set bitmaps level (set_0 bitmap i) h,
        ap (λ c. size level * c)
            (count-set_0 bitmap i IsLevel-ok.well (inside (blocks n level) bitmap IsLevel-ok i r)
              e),
      )

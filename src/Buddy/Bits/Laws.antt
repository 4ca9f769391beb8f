-- ===== src/Buddy/Bits/Laws.antt =====
-- The bits of a bitmap under get_bit, set_1 and set_0, and the count against the bits.
use rubberos.Base.{
  ℕ, zero, suc, ◌+◌, ◌/◌, ◌%◌, ◌<◌, ◌≡◌, ◌≢◌, refl, Bool, true, false, not, ◌&&◌, ◌||◌, List, [],
  ◌∷◌, ltb, ◌==◌, length, set, get_or, if◌then◌else◌, arith, Bool-cases, inl, inr, get_or-set_self,
  get_or-set_ne, length-set,
}
use rubberos.Base.Table.{every_under, every_under_at}
use rubberos.Buddy.Bits.{Bitmap, test_bit, or_bit, clear_bit, get_bit, set_1, set_0}

abbrev pub IsBytes : List ℕ → Type 0
IsBytes [] = Unit
IsBytes (b ∷ bits) = (b < 256) × IsBytes bits

bool_eq : Bool → Bool → Bool
bool_eq true b = b
bool_eq false b = not b

bool_eq_sound : (a b : Bool) → bool_eq a b ≡ true → a ≡ b
unfolding bool_eq
bool_eq_sound a b h = ground arith

-- the laws of one byte, for every byte and every two of its bits
byte_laws : ℕ → ℕ → ℕ → Bool
unfolding bool_eq
byte_laws b k j =
    bool_eq (test_bit (or_bit b k) j) ((j == k) || test_bit b j)
    && bool_eq (test_bit (clear_bit b k) j) (not (j == k) && test_bit b j)
    && ltb (or_bit b k) 256
    && ltb (clear_bit b k) 256

byte_laws_table :
    every_under 256 (λ b. every_under 8 (λ k. every_under 8 (λ j. byte_laws b k j))) ≡ true
unfolding byte_laws test_bit or_bit clear_bit every_under
byte_laws_table = refl

byte_law :
    (b k j : ℕ)
    → b < 256
    → k < 8
    → j < 8
    → (test_bit (or_bit b k) j ≡ ((j == k) || test_bit b j))
      × (test_bit (clear_bit b k) j ≡ (not (j == k) && test_bit b j))
      × (or_bit b k < 256)
      × (clear_bit b k < 256)
unfolding byte_laws
byte_law b k j hb hk hj =
    let row : every_under 8 (λ k. every_under 8 (λ j. byte_laws b k j)) ≡ true =
      every_under_at 256 _ b byte_laws_table hb in
    let cell : byte_laws b k j ≡ true =
      every_under_at 8 _ j (every_under_at 8 (λ k. every_under 8 (λ j. byte_laws b k j)) k row hk)
        hj in
    ground (
      arith,
      bool_eq_sound (test_bit (or_bit b k) j) ((j == k) || test_bit b j),
      bool_eq_sound (test_bit (clear_bit b k) j) (not (j == k) && test_bit b j),
      cell,
    )

-- the number of ones among the first `n` bits of a byte
ones_below : ℕ → ℕ → ℕ
ones_below zero b = 0
ones_below (suc n) b = ones_below n b + (if test_bit b n then 1 else 0)

unfoldable pub ones_byte : ℕ → ℕ
unfolding ones_below
ones_byte b = ones_below 8 b

-- the number of ones in all bytes
unfoldable pub ones : List ℕ → ℕ
ones [] = 0
ones (b ∷ bs) = ones_byte b + ones bs

count_laws : ℕ → ℕ → Bool
count_laws b k =
    (ones_byte (or_bit b k) == ones_byte b + (if test_bit b k then 0 else 1))
    && (ones_byte (clear_bit b k) + (if test_bit b k then 1 else 0) == ones_byte b)

count_laws_table : every_under 256 (λ b. every_under 8 (λ k. count_laws b k)) ≡ true
unfolding count_laws ones_byte test_bit or_bit clear_bit every_under
count_laws_table = refl

count_law :
    (b k : ℕ)
    → b < 256
    → k < 8
    → (ones_byte (or_bit b k) ≡ ones_byte b + (if test_bit b k then 0 else 1))
      × (ones_byte (clear_bit b k) + (if test_bit b k then 1 else 0) ≡ ones_byte b)
unfolding count_laws
count_law b k hb hk =
    let cell : count_laws b k ≡ true =
      every_under_at 8 _ k (every_under_at 256 _ b count_laws_table hb) hk in
    ground (arith, cell)

pub get_or-IsBytes : (bits : List ℕ) (i : ℕ) → IsBytes bits → get_or bits i 0 < 256
get_or-IsBytes [] i h = omega arith
get_or-IsBytes (b ∷ bs) zero h = h.0
get_or-IsBytes (b ∷ bs) (suc i) h = get_or-IsBytes bs i h.1

pub set-IsBytes : (bits : List ℕ) (i v : ℕ) → IsBytes bits → v < 256 → IsBytes (set bits i v)
set-IsBytes [] i v h hv = tt
set-IsBytes (b ∷ bs) zero v h hv = (hv, h.1)
set-IsBytes (b ∷ bs) (suc i) v h hv = (h.0, set-IsBytes bs i v h.1 hv)

pub ones-set :
    (bits : List ℕ) (i v : ℕ)
    → i < length bits
    → ones (set bits i v) + ones_byte (get_or bits i 0) ≡ ones bits + ones_byte v
unfolding ones
ones-set [] i v h = absurd (omega arith)
ones-set (b ∷ bs) zero v h = omega arith
ones-set (b ∷ bs) (suc i) v h = omega (arith, ones-set bs i v (omega arith))

-- The bits are bytes, and the count counts them.
pub record IsWell (bitmap : Bitmap) : Type 0 where
  pub bytes : IsBytes bitmap.bits
  pub counted : bitmap.count ≡ ones bitmap.bits

pub get_or-set :
    (bits : List ℕ) (p q v : ℕ)
    → p < length bits
    → get_or (set bits p v) q 0 ≡ (if q == p then v else get_or bits q 0)
get_or-set bits p q v h = elim (Bool-cases (q == p)) [
  | inl e ↦ let same : p ≡ q = ground arith in rw (e, ← same) (get_or-set_self bits p v 0 h)
  | inr e ↦ let apart : p ≢ q = ground arith in rw e (get_or-set_ne bits v 0 apart)
]

module _ (bitmap : Bitmap) (i : ℕ) (v : IsWell bitmap) (inside : i / 8 < length bitmap.bits) where
  -- set_1 sets the bit, and no other.
  pub get_bit-set_1 : (j : ℕ) → get_bit (set_1 bitmap i) j ≡ (j == i || get_bit bitmap j)
  unfolding get_bit set_1
  get_bit-set_1 j =
      let byte = get_or bitmap.bits (i / 8) 0 in
      ground (
        arith,
        get_or-set bitmap.bits (i / 8) (j / 8) (or_bit byte (i % 8)) inside,
        byte_law byte (i % 8) (j % 8) (get_or-IsBytes bitmap.bits (i / 8) v.bytes),
      )

  -- set_0 clears the bit, and no other.
  pub get_bit-set_0 : (j : ℕ) → get_bit (set_0 bitmap i) j ≡ (not (j == i) && get_bit bitmap j)
  unfolding get_bit set_0
  get_bit-set_0 j =
      let byte = get_or bitmap.bits (i / 8) 0 in
      ground (
        arith,
        get_or-set bitmap.bits (i / 8) (j / 8) (clear_bit byte (i % 8)) inside,
        byte_law byte (i % 8) (j % 8) (get_or-IsBytes bitmap.bits (i / 8) v.bytes),
      )

  pub set_1-IsWell : IsWell (set_1 bitmap i)
  unfolding get_bit set_1
  set_1-IsWell =
      let byte = get_or bitmap.bits (i / 8) 0 in
      let small = get_or-IsBytes bitmap.bits (i / 8) v.bytes in
      let law = byte_law byte (i % 8) 0 small (omega arith) (omega arith) in
      record {
        bytes = set-IsBytes bitmap.bits (i / 8) (or_bit byte (i % 8)) v.bytes law.2;
        counted = ground (
          arith,
          ones-set bitmap.bits (i / 8) (or_bit byte (i % 8)) inside,
          count_law byte (i % 8) small,
        );
      }

  pub set_0-IsWell : IsWell (set_0 bitmap i)
  unfolding get_bit set_0
  set_0-IsWell =
      let byte = get_or bitmap.bits (i / 8) 0 in
      let small = get_or-IsBytes bitmap.bits (i / 8) v.bytes in
      let law = byte_law byte (i % 8) 0 small (omega arith) (omega arith) in
      record {
        bytes = set-IsBytes bitmap.bits (i / 8) (clear_bit byte (i % 8)) v.bytes law.3;
        counted = ground (
          arith,
          ones-set bitmap.bits (i / 8) (clear_bit byte (i % 8)) inside,
          count_law byte (i % 8) small,
        );
      }

  -- A set bit counts.
  pub count-set_0 : get_bit bitmap i ≡ true → (set_0 bitmap i).count + 1 ≡ bitmap.count
  unfolding get_bit set_0
  count-set_0 e =
      let byte = get_or bitmap.bits (i / 8) 0 in
      let small = get_or-IsBytes bitmap.bits (i / 8) v.bytes in
      ground (
        arith,
        ones-set bitmap.bits (i / 8) (clear_bit byte (i % 8)) inside,
        count_law byte (i % 8) small,
      )

module _ (bitmap : Bitmap) (i : ℕ) where
  pub count-set_1 : get_bit bitmap i ≡ false → (set_1 bitmap i).count ≡ bitmap.count + 1
  unfolding set_1
  count-set_1 e = rw e

  pub bits-set_1 : length (set_1 bitmap i).bits ≡ length bitmap.bits
  unfolding set_1
  bits-set_1 = length-set bitmap.bits (i / 8) _

  pub bits-set_0 : length (set_0 bitmap i).bits ≡ length bitmap.bits
  unfolding set_0
  bits-set_0 = length-set bitmap.bits (i / 8) _

-- ===== src/Buddy/Bits/First.antt =====
-- get_first_1 finds the lowest bit that is set.
use rubberos.Base.{
  ℕ, zero, suc, ◌+◌, ◌*◌, ◌/◌, ◌%◌, ◌<◌, ◌≡◌, ◌≢◌, refl, Bool, true, false, not, ◌&&◌, ◌||◌, some,
  List, [], ◌∷◌, ltb, leb, ◌==◌, length, get_or, if◌then◌else◌, arith, Bool-cases, inl, inr,
}
use rubberos.Base.Table.{every_under, every_under_at}
use rubberos.Buddy.Bits.{Bitmap, test_bit, get_bit, first_byte, first_offset, get_first_1}
use rubberos.Buddy.Bits.Laws.{IsWell, ones_byte, ones, get_or-IsBytes}

-- For every byte: the offset is below 8 unless the byte is 0, its bit is set, and those before are
-- not. A zero byte has no ones.
offset_laws : ℕ → Bool
offset_laws b =
    let offset = first_offset 8 b 0 in
    if b == 0
    then ones_byte b == 0 && every_under 8 (λ k. not (test_bit b k))
    else ltb offset 8
      && test_bit b offset
      && every_under 8 (λ k. leb offset k || not (test_bit b k))

offset_laws_table : every_under 256 offset_laws ≡ true
unfolding offset_laws ones_byte first_offset test_bit every_under
offset_laws_table = refl

offset_law :
    (b : ℕ)
    → b < 256
    → b ≢ 0
    → (first_offset 8 b 0 < 8)
      × (test_bit b (first_offset 8 b 0) ≡ true)
      × ((k : ℕ) → k < first_offset 8 b 0 → test_bit b k ≡ false)
unfolding offset_laws
offset_law b hb nz =
    let law = every_under_at 256 offset_laws b offset_laws_table hb in
    let below = λ (k : ℕ) (h : k < 8).
      every_under_at 8 (λ k. leb (first_offset 8 b 0) k || not (test_bit b k)) k in
    (ground (arith, law), ground (arith, law), λ k h. ground (arith, law, below k))

pub zero_byte : (k : ℕ) → k < 8 → test_bit 0 k ≡ false
unfolding offset_laws
zero_byte k h =
    let law : offset_laws 0 ≡ true =
      every_under_at 256 offset_laws 0 offset_laws_table (omega arith) in
    ground (arith, law, every_under_at 8 (λ k. not (test_bit 0 k)) k)

pub ones-zero : ones_byte 0 ≡ 0
unfolding ones_byte test_bit
ones-zero = refl

-- The scan over the bytes, from any start: it stops at the first byte that is not zero.
first_byte_lem :
    (bits : List ℕ) (n : ℕ)
    → 0 < ones bits
    → (p : ℕ) × (first_byte bits n ≡ some (n + p, get_or bits p 0))
      × (p < length bits)
      × (get_or bits p 0 ≢ 0)
      × ((q : ℕ) → q < p → get_or bits q 0 ≡ 0)
unfolding first_byte ones
first_byte_lem [] n h = absurd (omega arith)
first_byte_lem (b ∷ bs) n h = elim (Bool-cases (b == 0)) [
  | inl zeros ↦
      let e : b ≡ 0 = ground arith in
      let (p, found, inside, nz, before) =
        first_byte_lem bs (n + 1) (ground (arith, ones-zero, e)) in
      (suc p, ground (arith, found), omega arith, nz, before_suc p before e)
  | inr ones ↦ (zero, ground arith, omega arith, ground arith, λ q h. absurd (omega arith))
]
  where
    before_suc :
        (p : ℕ)
        → ((q : ℕ) → q < p → get_or bs q 0 ≡ 0)
        → b ≡ 0
        → (q : ℕ) → q < suc p
        → get_or (b ∷ bs) q 0 ≡ 0
    before_suc p before e zero h = e
    before_suc p before e (suc q) h = before q (omega arith)

-- On a well-formed bitmap that is not empty get_first_1 returns: its result is a set bit within the
-- bytes, and no lower bit is set.
pub get_first_1_lem :
    (bitmap : Bitmap)
    → IsWell bitmap
    → bitmap.count ≢ 0
    → (i : ℕ) × (get_first_1 bitmap ≡ some i)
      × (get_bit bitmap i ≡ true)
      × (i / 8 < length bitmap.bits)
      × ((j : ℕ) → j < i → get_bit bitmap j ≡ false)
unfolding get_first_1 get_bit
get_first_1_lem bitmap v some_bit =
    let (p, found, inside, nz, before) = first_byte_lem bitmap.bits 0 (omega arith) in
    let b = get_or bitmap.bits p 0 in
    let (small, hit, first) = offset_law b (get_or-IsBytes bitmap.bits p v.bytes) nz in
    let offset = first_offset 8 b 0 in
    let row : (p * 8 + offset) / 8 ≡ p = omega arith in
    let col : (p * 8 + offset) % 8 ≡ offset = omega arith in
    (
      p * 8 + offset,
      ground (arith, found, small),
      rw (row, col) hit,
      rw row inside,
      λ j h. elim (Bool-cases (j / 8 == p)) [
        | inl e ↦ let same : j / 8 ≡ p = ground arith in rw same (first (j % 8) (omega arith))
        | inr e ↦ rw (before (j / 8) (ground arith)) (zero_byte (j % 8) (omega arith))
      ],
    )

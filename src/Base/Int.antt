-- ===== src/Base/Int.antt =====
-- C's `int` as the integers: signed overflow is undefined in C. Where a model does not test its sums by
-- is_int, a program that meets an overflow is outside of it. An integer is read by its two parts, which are numbers that `omega` reads.
use rubberos.Base.{
  ℕ, suc, ◌+◌, ◌-◌, ◌*◌, ◌^◌, ◌&&◌, ◌≤◌, ◌<◌, ◌≡◌, refl, Bool, true, false, ◌↔◌, arith, ltb, leb,
  if◌then◌else◌,
}

-- `negsuc n` is -(n + 1).
pub data ℤ : Type 0 where
  pos : ℕ → ℤ
  negsuc : ℕ → ℤ

abbrev pub pos_part : ℤ → ℕ
pos_part (pos n) = n
pos_part (negsuc n) = 0

abbrev pub neg_part : ℤ → ℕ
neg_part (pos n) = 0
neg_part (negsuc n) = suc n

-- a - b, as an integer.
abbrev pub sub_ℕ : ℕ → ℕ → ℤ
sub_ℕ a b = if leb b a then pos (a - b) else negsuc (b - a - 1)

infixl 65 ◌+ℤ◌ ◌-ℤ◌
infix 50 ◌≤ℤ◌ ◌<ℤ◌
unfoldable pub ◌+ℤ◌ : ℤ → ℤ → ℤ
a +ℤ b = sub_ℕ (pos_part a + pos_part b) (neg_part a + neg_part b)

unfoldable pub ◌-ℤ◌ : ℤ → ℤ → ℤ
a -ℤ b = sub_ℕ (pos_part a + neg_part b) (neg_part a + pos_part b)

abbrev pub ◌≤ℤ◌ : ℤ → ℤ → Type 0
a ≤ℤ b = pos_part a + neg_part b ≤ pos_part b + neg_part a

abbrev pub ◌<ℤ◌ : ℤ → ℤ → Type 0
a <ℤ b = pos_part a + neg_part b < pos_part b + neg_part a

abbrev pub ltb_ℤ : ℤ → ℤ → Bool
ltb_ℤ a b = ltb (pos_part a + neg_part b) (pos_part b + neg_part a)

abbrev pub leb_ℤ : ℤ → ℤ → Bool
leb_ℤ a b = leb (pos_part a + neg_part b) (pos_part b + neg_part a)

-- One lemma for each operation lets `omega` work with the operations shut, at any depth.
pub +ℤ_parts :
    (a b : ℤ)
    → pos_part (a +ℤ b) + neg_part a + neg_part b ≡ neg_part (a +ℤ b) + pos_part a + pos_part b
unfolding ◌+ℤ◌
+ℤ_parts a b = ground arith

pub -ℤ_parts :
    (a b : ℤ)
    → pos_part (a -ℤ b) + neg_part a + pos_part b ≡ neg_part (a -ℤ b) + pos_part a + neg_part b
unfolding ◌-ℤ◌
-ℤ_parts a b = ground arith

pub eq_of_parts : (a b : ℤ) → pos_part a + neg_part b ≡ pos_part b + neg_part a → a ≡ b
eq_of_parts a b h = ground arith

pub ltb_ℤ_iff : (a b : ℤ) → (ltb_ℤ a b ≡ true) ↔ (a <ℤ b)
ltb_ℤ_iff a b = ground arith

pub leb_ℤ_iff : (a b : ℤ) → (leb_ℤ a b ≡ true) ↔ (a ≤ℤ b)
leb_ℤ_iff a b = ground arith

pub one_part_zero : (a : ℤ) → pos_part a * neg_part a ≡ 0
one_part_zero (pos n) = omega arith
one_part_zero (negsuc n) = omega arith

-- The macros MAX and MIN of freec/stdlib.h.
unfoldable pub max_ℤ : ℤ → ℤ → ℤ
max_ℤ a b = if ltb_ℤ b a then a else b

unfoldable pub min_ℤ : ℤ → ℤ → ℤ
min_ℤ a b = if ltb_ℤ a b then a else b

pub max_ℤ-bounds : (a b : ℤ) → (a ≤ℤ max_ℤ a b) × (b ≤ℤ max_ℤ a b)
unfolding max_ℤ
max_ℤ-bounds a b = ground arith

pub min_ℤ-bounds : (a b : ℤ) → (min_ℤ a b ≤ℤ a) × (min_ℤ a b ≤ℤ b)
unfolding min_ℤ
min_ℤ-bounds a b = ground arith

-- The value fits in an `int`.
unfoldable pub is_int : ℤ → Bool
is_int z = leb (neg_part z) (2 ^ 31) && ltb (pos_part z) (2 ^ 31)

-- The value is at most `k` from zero.
abbrev pub IsWithin : ℕ → ℤ → Type 0
IsWithin k z = (pos_part z ≤ neg_part z + k) × (neg_part z ≤ pos_part z + k)

pub IsWithin-is_int : (k : ℕ) (z : ℤ) → k < 2 ^ 31 → IsWithin k z → is_int z ≡ true
unfolding is_int
IsWithin-is_int k (pos n) small w = ground (arith, w)
IsWithin-is_int k (negsuc n) small w = ground (arith, w)

pub IsWithin-add : (j k : ℕ) (a b : ℤ) → IsWithin j a → IsWithin k b → IsWithin (j + k) (a +ℤ b)
IsWithin-add j k a b v w = omega (arith, +ℤ_parts a b)

pub IsWithin-sub : (j k : ℕ) (a b : ℤ) → IsWithin j a → IsWithin k b → IsWithin (j + k) (a -ℤ b)
IsWithin-sub j k a b v w = omega (arith, -ℤ_parts a b)

pub IsWithin-max : (k : ℕ) (a b : ℤ) → IsWithin k a → IsWithin k b → IsWithin k (max_ℤ a b)
unfolding max_ℤ
IsWithin-max k a b v w = ground arith

pub IsWithin-min : (k : ℕ) (a b : ℤ) → IsWithin k a → IsWithin k b → IsWithin k (min_ℤ a b)
unfolding min_ℤ
IsWithin-min k a b v w = ground arith

pub IsWithin-weaken : (j k : ℕ) (z : ℤ) → j ≤ k → IsWithin j z → IsWithin k z
IsWithin-weaken j k z le w = omega arith

pub ruleset int_laws = (arith, +ℤ_parts, -ℤ_parts, eq_of_parts)

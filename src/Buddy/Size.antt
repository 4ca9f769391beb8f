-- ===== src/Buddy/Size.antt =====
-- bitmap_index_for_size finds the least level whose blocks hold a size.
use rubberos.Base.{
  sym, ℕ, zero, suc, ◌+◌, ◌*◌, ◌^◌, ◌≤◌, ◌<◌, ◌≡◌, refl, some, arith, ltb, Bool-cases, inl, inr,
  ◌⊎◌, ap, ◌∙◌,
}
use rubberos.Freec.{div_ceil}
use rubberos.Buddy.{unit, index_loop, bitmap_index_for_size}
use rubberos.Buddy.Levels.{size}

pub pow-size : (level : ℕ) → 2 ^ level ≡ size level
unfolding size
pow-size zero = refl
pow-size (suc level) = omega (arith, pow-size level)

size-add_one : (level : ℕ) → size (level + 1) ≡ 2 * size level
unfolding size
size-add_one level = let e : level + 1 ≡ suc level = omega arith in ap size e

pub size-add : (a b : ℕ) → size (a + b) ≡ size a * size b
unfolding size
size-add zero b = let e : 0 + b ≡ b = omega arith in ap size e ∙ omega arith
size-add (suc a) b =
    let e : suc a + b ≡ suc (a + b) = omega arith in
    ap size e ∙ omega (arith, ap (λ (s : ℕ). 2 * s) (size-add a b))

-- the start of a block of level `idx`, counted in blocks of the lower level `fit`
pub block_start :
    (fit d idx block : ℕ)
    → fit + d ≡ idx
    → block * (unit * 2 ^ idx) ≡ block * size d * (unit * size fit)
block_start fit d idx block e =
    omega
      (arith, ap (λ (t : ℕ). block * (unit * t)) (pow-size idx ∙ ap size (sym e) ∙ size-add fit d))

-- rounding up to whole units
pub div_ceil_bounds :
    (len : ℕ) → (len ≤ div_ceil len unit * unit) × (div_ceil len unit * unit < len + unit)
unfolding div_ceil
div_ceil_bounds len = ground arith

-- From level `idx` on the loop stops at the first level whose blocks hold `len`.
index_loop_lem :
    (fuel idx len : ℕ)
    → len ≤ unit * size (idx + fuel)
    → (fit : ℕ) × (index_loop (suc fuel) idx len ≡ some fit)
      × (len ≤ unit * size fit)
      × ((fit ≡ idx) ⊎ (unit * size fit < 2 * len))
unfolding index_loop
index_loop_lem zero idx len h =
    let e : idx + 0 ≡ idx = omega arith in
    let fits : len ≤ unit * size idx = omega (arith, ap size e) in
    (idx, ground (arith, pow-size idx), fits, inl refl)
index_loop_lem (suc fuel) idx len h = elim (Bool-cases (ltb (unit * 2 ^ idx) len)) [
  | inr stop ↦ (idx, ground arith, ground (arith, pow-size idx), inl refl)
  | inl more ↦
      let e : idx + suc fuel ≡ idx + 1 + fuel = omega arith in
      let (fit, found, fits, least) =
        index_loop_lem fuel (idx + 1) len (omega (arith, ap size e)) in
      (fit, rw more found, fits, inr (ground (arith, least, pow-size idx, size-add_one idx)))
]

size_51 : size 51 ≡ 2 ^ 51
unfolding size
size_51 = refl

-- A size of at most half the address space has a level whose blocks hold it, and the code finds
-- the least one: level 0, or blocks less than twice the size.
pub bitmap_index_for_size_lem :
    (len : ℕ)
    → len ≤ 2 ^ 63
    → (fit : ℕ) × (bitmap_index_for_size len ≡ some fit)
      × (len ≤ unit * size fit)
      × ((fit ≡ 0) ⊎ (unit * size fit < 2 * len))
unfolding bitmap_index_for_size
bitmap_index_for_size_lem len h = index_loop_lem 51 0 len (omega (arith, size_51))

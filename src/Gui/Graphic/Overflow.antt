-- ===== src/Gui/Graphic/Overflow.antt =====
-- kernel/src/gui/graphic.c: the sums of `int` that the fills and the frames take do not overflow.
use rubberos.Base.{ℕ, ◌+◌, ◌*◌, ◌^◌, ◌≡◌, refl, true, ◌&&◌, arith}
use rubberos.Base.Int.{
  ℤ, ◌+ℤ◌, ◌-ℤ◌, min_ℤ, max_ℤ, is_int, IsWithin, IsWithin-is_int, IsWithin-add, IsWithin-sub,
  IsWithin-max, IsWithin-min, IsWithin-weaken,
}
use rubberos.Gui.Shapes.{Rect}
use rubberos.Gui.Graphic.{intersect_fits}

-- Every number of the rectangle is at most `k` from zero.
pub record IsSmallRect (k : ℕ) (r : Rect) : Type 0 where
  pub x : IsWithin k r.x
  pub y : IsWithin k r.y
  pub width : IsWithin k r.width
  pub height : IsWithin k r.height

abbrev pub three_small : ℕ
three_small = 3 * 2 ^ 27

span_fits :
    (a b c d : ℤ)
    → IsWithin three_small a
    → IsWithin three_small b
    → IsWithin three_small c
    → IsWithin three_small d
    → (is_int (a +ℤ b) ≡ true)
      × (is_int (c +ℤ d) ≡ true)
      × (is_int (min_ℤ (a +ℤ b) (c +ℤ d) -ℤ max_ℤ a c) ≡ true)
span_fits a b c d wa wb wc wd =
    let k = three_small in
    let ab = IsWithin-add k k a b wa wb in
    let cd = IsWithin-add k k c d wc wd in
    let low = IsWithin-min (k + k) (a +ℤ b) (c +ℤ d) ab cd in
    let high = IsWithin-max k a c wa wc in
    (
      IsWithin-is_int (k + k) _ (omega arith) ab,
      IsWithin-is_int (k + k) _ (omega arith) cd,
      IsWithin-is_int (k + k + k) _ (omega arith) (IsWithin-sub (k + k) k _ _ low high),
    )

pub intersect_fits_lem :
    (r₁ r₂ : Rect)
    → IsSmallRect (2 ^ 27) r₁
    → IsSmallRect three_small r₂
    → intersect_fits r₁ r₂ ≡ true
unfolding intersect_fits
intersect_fits_lem r₁ r₂ s t =
    let wide =
      λ (z : ℤ) (w : IsWithin (2 ^ 27) z). IsWithin-weaken (2 ^ 27) three_small z (omega arith) w in
    let (right₁, right₂, columns) =
      span_fits r₁.x r₁.width r₂.x r₂.width (wide _ s.x) (wide _ s.width) t.x t.width in
    let (below₁, below₂, rows) =
      span_fits r₁.y r₁.height r₂.y r₂.height (wide _ s.y) (wide _ s.height) t.y t.height in
    rw (right₁, right₂, below₁, below₂, columns, rows) refl

-- None of the sums of draw_rect overflows.
pub sides_fit :
    (x y width height thickness : ℤ)
    → IsSmallRect (2 ^ 27) (record { x = x; y = y; width = width; height = height })
    → IsWithin (2 ^ 27) thickness
    → (is_int (y +ℤ height)
        && is_int (y +ℤ height -ℤ thickness)
        && is_int (y +ℤ thickness)
        && is_int (thickness +ℤ thickness)
        && is_int (height -ℤ (thickness +ℤ thickness))
        && is_int (x +ℤ width)
        && is_int (x +ℤ width -ℤ thickness))
      ≡ true
sides_fit x y width height thickness r t =
    let k = 2 ^ 27 in
    let fits =
      λ (z : ℤ) (w : IsWithin three_small z). IsWithin-is_int three_small z (omega arith) w in
    let add = λ (a b : ℤ) (v : IsWithin k a) (w : IsWithin k b). IsWithin-add k k a b v w in
    let two = λ (z : ℤ) (w : IsWithin (k + k) z).
      fits z (IsWithin-weaken (k + k) three_small z (omega arith) w) in
    let below = add y height r.y r.height in
    let right = add x width r.x r.width in
    let twice = add thickness thickness t t in
    rw
      (
        two _ below,
        fits _ (IsWithin-sub (k + k) k _ _ below t),
        two _ (add y thickness r.y t),
        two _ twice,
        fits _ (IsWithin-sub k (k + k) _ _ r.height twice),
        two _ right,
        fits _ (IsWithin-sub (k + k) k _ _ right t),
      )
      refl

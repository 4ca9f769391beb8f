-- ===== src/Gui/Shapes.antt =====
-- kernel/src/gui/shapes.c and struct point, struct size and struct rect of
-- kernel/include/gui/shapes.h.
pub mod Laws
mod Tests
use rubberos.Base.{ℕ, ◌+◌, Bool, ◌&&◌, ◌||◌, ◌==◌, if◌then◌else◌}
use rubberos.Base.Int.{ℤ, pos, ◌+ℤ◌, ◌-ℤ◌, ltb_ℤ, leb_ℤ, max_ℤ, min_ℤ, pos_part, neg_part}

pub record Rect : Type 0 where
  pub x : ℤ
  pub y : ℤ
  pub width : ℤ
  pub height : ℤ

abbrev pub eqb_ℤ : ℤ → ℤ → Bool
eqb_ℤ a b = pos_part a + neg_part b == pos_part b + neg_part a

unfoldable pub rect_contains : Rect → ℤ → ℤ → Bool
rect_contains r x y =
    leb_ℤ r.x x && ltb_ℤ x (r.x +ℤ r.width) && leb_ℤ r.y y && ltb_ℤ y (r.y +ℤ r.height)

pub rect_intersect : Rect → Rect → Rect
rect_intersect r₁ r₂ =
    let x = max_ℤ r₁.x r₂.x in
    let y = max_ℤ r₁.y r₂.y in
    let width = min_ℤ (r₁.x +ℤ r₁.width) (r₂.x +ℤ r₂.width) -ℤ x in
    let height = min_ℤ (r₁.y +ℤ r₁.height) (r₂.y +ℤ r₂.height) -ℤ y in
    if ltb_ℤ width (pos 0) || ltb_ℤ height (pos 0)
    then record { x = x; y = y; width = pos 0; height = pos 0 }
    else record { x = x; y = y; width = width; height = height }

pub rect_union : Rect → Rect → Rect
rect_union r₁ r₂ =
    if eqb_ℤ r₂.width (pos 0) || eqb_ℤ r₂.height (pos 0)
    then r₁
    else if eqb_ℤ r₁.width (pos 0) || eqb_ℤ r₁.height (pos 0)
    then r₂
    else let x = min_ℤ r₁.x r₂.x in
      let y = min_ℤ r₁.y r₂.y in
      record {
        x = x;
        y = y;
        width = max_ℤ (r₁.x +ℤ r₁.width) (r₂.x +ℤ r₂.width) -ℤ x;
        height = max_ℤ (r₁.y +ℤ r₁.height) (r₂.y +ℤ r₂.height) -ℤ y;
      }

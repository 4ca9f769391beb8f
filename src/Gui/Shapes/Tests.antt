-- ===== src/Gui/Shapes/Tests.antt =====
-- Instances of the theorems on rectangles.
use rubberos.Base.{◌≡◌, ◌↔◌, refl, true, inr}
use rubberos.Base.Int.{pos, negsuc, ◌+ℤ◌}
use rubberos.Gui.Shapes.{Rect, rect_contains, rect_intersect, rect_union}
use rubberos.Gui.Shapes.Laws.{rect_contains-rect_intersect, rect_contains-rect_union}

abbrev window : Rect
window = record { x = pos 50; y = pos 50; width = pos 400; height = pos 300 }

abbrev corner : Rect
corner = record { x = negsuc 9; y = negsuc 9; width = pos 70; height = pos 80 }

rect_contains-rect_intersect_example :
    (rect_contains (rect_intersect window corner) (pos 55) (pos 60) ≡ true) ↔ (
      (rect_contains window (pos 55) (pos 60) ≡ true)
      × (rect_contains corner (pos 55) (pos 60) ≡ true))
rect_contains-rect_intersect_example = rect_contains-rect_intersect window corner (pos 55) (pos 60)

origin_in : rect_contains corner (pos 0) (pos 0) ≡ true
unfolding rect_contains ◌+ℤ◌
origin_in = refl

rect_contains-rect_union_example : rect_contains (rect_union window corner) (pos 0) (pos 0) ≡ true
rect_contains-rect_union_example =
    rect_contains-rect_union window corner (pos 0) (pos 0) (inr origin_in)

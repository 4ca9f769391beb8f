-- ===== src/Gui/Graphic/Tests.antt =====
-- Instances of the theorems on drawing, on a surface of four by three pixels.
use rubberos.Base.{◌^◌, none, replicate, arith}
use rubberos.Base.Int.{pos, negsuc, ◌-ℤ◌, min_ℤ, max_ℤ}
use rubberos.Gui.Shapes.{Rect}
use rubberos.Gui.Graphic.{
  Graphic, base, set_clipping, draw_rect, draw_rect_xor, fill_rect, fill_rect_xor,
}
use rubberos.Gui.Graphic.Overflow.{IsSmallRect}
use rubberos.Gui.Graphic.Bounds.{IsSurface, Draws, draw_rect-Draws}
use rubberos.Gui.Graphic.Clip.{HasPixels, IsSurface-set}

abbrev moved : Rect
moved = record { x = negsuc 0; y = pos 1; width = pos 10; height = pos 10 }

abbrev screen : Graphic
screen = record {
  framebuffer = replicate 12 0;
  pitch = 4;
  width = 4;
  height = 3;
  offset = moved;
  clipping = moved;
}

screen-HasPixels : HasPixels screen
screen-HasPixels = record {
  wide = omega arith;
  sized = omega arith;
  small = omega arith;
  small_sides = (omega arith, omega arith);
}

abbrev g : Graphic
g = set_clipping screen none

g-IsSurface : IsSurface g
g-IsSurface = (IsSurface-set screen none screen-HasPixels).0

clipping_small : IsSmallRect (2 ^ 27) g.clipping
unfolding set_clipping base ◌-ℤ◌ min_ℤ max_ℤ
clipping_small = record {
  x = omega arith;
  y = omega arith;
  width = omega arith;
  height = omega arith;
}

draw_rect-Draws_example :
    Draws g (fill_rect g (pos 2) (negsuc 0) (pos 9) (pos 9) 7)
    × Draws g (fill_rect_xor g (pos 2) (negsuc 0) (pos 9) (pos 9) 7)
    × Draws g (draw_rect g (pos 2) (negsuc 0) (pos 9) (pos 9) (pos 1) 7)
    × Draws g (draw_rect_xor g (pos 2) (negsuc 0) (pos 9) (pos 9) (pos 1) 7)
draw_rect-Draws_example =
    draw_rect-Draws g (pos 2) (negsuc 0) (pos 9) (pos 9) (pos 1) 7 g-IsSurface clipping_small
      (record { x = omega arith; y = omega arith; width = omega arith; height = omega arith })
      (omega arith)

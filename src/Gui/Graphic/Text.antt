-- ===== src/Gui/Graphic/Text.antt =====
-- Text on a surface: characters and strings are drawn within it, and the clipping is put back.
use mathlib.Core.Path.{subst}
use rubberos.Base.{
  sym, ℕ, zero, suc, ◌+◌, ◌-◌, ◌*◌, ◌/◌, ◌%◌, ◌^◌, ◌≡◌, refl, inl, inr, Bool, not, ◌&&◌, Option,
  none, some, List, [], ◌∷◌, ◌==◌, if◌then◌else◌, Bool-cases, ap,
}
use rubberos.Base.Int.{ℤ, pos, ◌+ℤ◌, ltb_ℤ, leb_ℤ}
use rubberos.Gui.Shapes.{Rect, rect_intersect}
use rubberos.Gui.Shapes.Laws.{rect_contains-rect_intersect}
use rubberos.Gui.Graphic.{
  Graphic, draw_pixel, draw_bits, draw_glyph, draw_char, draw_chars, draw_string,
}
use rubberos.Gui.Graphic.Bounds.{IsSurface, Draws, Draws-bind, draw_pixel-Draws}

draw_bits-Draws :
    (n bits : ℕ) (g : Graphic) (x y : ℤ) (color : ℕ)
    → IsSurface g
    → Draws g (draw_bits n bits g x y color)
unfolding draw_bits
draw_bits-Draws zero bits g x y color s = (refl, s)
draw_bits-Draws (suc n) bits g x y color s =
    Draws-bind g (if bits / 2 ^ n % 2 == 1 then draw_pixel g x y color else some g) _
      (elim (Bool-cases (bits / 2 ^ n % 2 == 1)) [
        | inl on ↦ rw on (draw_pixel-Draws g x y color s)
        | inr off ↦ rw off (refl, s)
      ])
      (λ g' same s'. draw_bits-Draws n bits g' (x +ℤ pos 1) y color s')

draw_glyph-Draws :
    (n : ℕ) (glyph : ℕ → ℕ) (g : Graphic) (x y : ℤ) (color : ℕ)
    → IsSurface g
    → Draws g (draw_glyph n glyph g x y color)
unfolding draw_glyph
draw_glyph-Draws zero glyph g x y color s = (refl, s)
draw_glyph-Draws (suc n) glyph g x y color s =
    Draws-bind g _ _ (draw_bits-Draws 8 (glyph (16 - suc n)) g x (y +ℤ pos (16 - suc n)) color s)
      (λ g' same s'. draw_glyph-Draws n glyph g' x y color s')

draw_char-Draws :
    (font : ℕ → ℕ) (g : Graphic) (x y : ℤ) (c color : ℕ)
    → IsSurface g
    → Draws g (draw_char font g x y c color)
unfolding draw_char
draw_char-Draws font g x y c color s =
    draw_glyph-Draws 16 (λ row. font (c * 16 + row)) g x y color s

module _ (font : ℕ → ℕ) (rt c : Rect) (color : ℕ) (wrap : Bool) where
  draw_chars-Draws :
      (str : List ℕ) (g : Graphic) (x y : ℤ)
      → IsSurface g
      → Draws g (draw_chars font rt c color wrap str g x y)
  unfolding draw_chars
  draw_chars-Draws [] g x y s = (refl, s)
  draw_chars-Draws (ch ∷ str) g x y s =
      let full = wrap && ltb_ℤ (c.x +ℤ c.width) (x +ℤ pos 8) in
      let x' = if full then rt.x else x in
      let y' = if full then y +ℤ pos 16 else y in
      elim (Bool-cases (ch == 10)) [
        | inl newline ↦ rw newline (draw_chars-Draws str g rt.x (y +ℤ pos 16) s)
        | inr other ↦ elim (Bool-cases (not wrap && leb_ℤ (c.x +ℤ c.width) x)) [
          | inl end ↦ rw (other, end) (refl, s)
          | inr on ↦
              rw (other, on)
                (Draws-bind g _ _ (draw_char-Draws font g x' y' ch color s)
                  (λ g' same s'. draw_chars-Draws str g' (x' +ℤ pos 8) y' s'))
        ]
      ]

abbrev reclip : Rect → Graphic → Graphic
reclip clipping g = record g { clipping = clipping }

-- The old clipping rectangle is put back.
restore-Draws :
    (g : Graphic) (c : Rect) (r : Option Graphic)
    → IsSurface g
    → Draws (record g { clipping = c }) r
    → Draws g (elim r [ none ↦ none | some g' ↦ some (record g' { clipping = g.clipping }) ])
restore-Draws g c none s d = absurd d
restore-Draws g c (some g') s (same, s') =
    let back : reclip g.clipping g' ≡ record g { framebuffer = g'.framebuffer } =
      ap (reclip g.clipping) same in
    let pitch : g'.pitch ≡ g.pitch = ap Graphic.pitch same in
    let height : g'.height ≡ g.height = ap Graphic.height same in
    let kept : IsSurface (record g { framebuffer = g'.framebuffer }) = record {
      wide = s.wide;
      sized = rw (← pitch, ← height) s'.sized;
      small = s.small;
      small_sides = s.small_sides;
      clipped = s.clipped;
    } in
    (back, subst IsSurface (sym back) kept)

-- On a surface a string is drawn without an access behind the pixels, with or without wrapping and
-- whatever the rectangle; the clipping rectangle and the rest of the frame are as before.
pub draw_string-Draws :
    (font : ℕ → ℕ) (g : Graphic) (rt : Rect) (str : List ℕ) (color : ℕ) (wrap : Bool)
    → IsSurface g
    → Draws g (draw_string font g rt str color wrap)
unfolding draw_string
draw_string-Draws font g rt str color wrap s =
    let c = rect_intersect g.clipping rt in
    let inner : Graphic = record g { clipping = c } in
    let narrowed : IsSurface inner = record {
      wide = s.wide;
      sized = s.sized;
      small = s.small;
      small_sides = s.small_sides;
      clipped = λ x y h. s.clipped x y ((rect_contains-rect_intersect g.clipping rt x y).0 h).0;
    } in
    restore-Draws g c (draw_chars font rt c color wrap str inner rt.x rt.y) s
      (draw_chars-Draws font rt c color wrap str inner rt.x rt.y narrowed)

-- ===== src/Gui/Graphic.antt =====
-- kernel/src/gui/graphic.c and struct graphic of kernel/include/gui/graphic.h: drawing on a
-- surface. The surface is the list of its pixels; an index is computed in `uint32_t`, since the
-- pitch is one. The font is an argument. `none` is an access behind the pixels, or an
-- overflow of `int` in the place of a write or in a fill.
pub mod Overflow
pub mod Bounds
pub mod Clip
pub mod Text
mod Tests
use rubberos.Base.{
  ℕ, zero, suc, ◌+◌, ◌-◌, ◌*◌, ◌/◌, ◌%◌, ◌^◌, Bool, true, false, not, ◌&&◌, Option, none, some,
  List, [], ◌∷◌, ltb, ◌==◌, length, set, get_or, replicate, if◌then◌else◌,
}
use Prim.Native.Nat.{bit_xor}
use rubberos.Base.Int.{
  ℤ, pos, negsuc, ◌+ℤ◌, ◌-ℤ◌, ltb_ℤ, leb_ℤ, is_int, max_ℤ, min_ℤ, pos_part, neg_part,
}
use rubberos.Gui.Shapes.{Rect, rect_contains, rect_intersect}

pub record Graphic : Type 0 where
  pub framebuffer : List ℕ
  pub pitch : ℕ
  pub width : ℕ
  pub height : ℕ
  pub offset : Rect
  pub clipping : Rect

abbrev pub whole : ℕ → ℕ → Rect
whole width height = record { x = pos 0; y = pos 0; width = pos width; height = pos height }

-- graphic_create_memory, on the pixels that dynmem_alloc gives for the screen
pub create_memory : ℕ → ℕ → List ℕ → Graphic
create_memory width height pixels = record {
  framebuffer = pixels;
  pitch = width;
  width = width;
  height = height;
  offset = whole width height;
  clipping = whole width height;
}

-- an `int` converted to `uint32_t`
abbrev pub to_u32 : ℤ → ℕ
to_u32 (pos n) = n % 2 ^ 32
to_u32 (negsuc n) = 2 ^ 32 - 1 - n % 2 ^ 32

-- `x + y * pitch`
pub index : ℕ → ℤ → ℤ → ℕ
index pitch x y = (to_u32 x + to_u32 y * pitch) % 2 ^ 32

-- what graphic_set_clipping cuts to: the part of the offset rectangle that the surface has
pub base : Graphic → Rect
base g =
    let ow = min_ℤ g.offset.width (pos g.width -ℤ g.offset.x) in
    let oh = min_ℤ g.offset.height (pos g.height -ℤ g.offset.y) in
    let x = pos 0 -ℤ min_ℤ (pos 0) g.offset.x in
    let y = pos 0 -ℤ min_ℤ (pos 0) g.offset.y in
    record { x = x; y = y; width = max_ℤ (ow -ℤ x) (pos 0); height = max_ℤ (oh -ℤ y) (pos 0) }

-- A NULL rectangle is `none`.
pub set_clipping : Graphic → Option Rect → Graphic
set_clipping g none = record g { clipping = base g }
set_clipping g (some rt) = record g { clipping = rect_intersect rt (base g) }

pub set_offset : Graphic → Option Rect → Graphic
set_offset g none = set_clipping (record g { offset = whole g.width g.height }) none
set_offset g (some rt) = set_clipping (record g { offset = rt }) none

-- a write at a point of the surface, of a value made from the old one
pub put : Graphic → ℤ → ℤ → (ℕ → ℕ) → Option Graphic
put g x y f =
    let i = index g.pitch x y in
    if is_int x && is_int y && ltb i (length g.framebuffer)
    then some (record g { framebuffer = set g.framebuffer i (f (get_or g.framebuffer i 0)) })
    else none

pub draw_pixel : Graphic → ℤ → ℤ → ℕ → Option Graphic
draw_pixel g x y color =
    if rect_contains g.clipping x y
    then put g (x +ℤ g.offset.x) (y +ℤ g.offset.y) (λ old. color)
    else some g

-- The inner loop of the fills, with `n` columns left, and the outer loop, with `n` rows left.
pub fill_row : ℕ → ℕ → ℕ → Rect → (ℕ → ℕ) → Graphic → Option Graphic
fill_row zero xi yi r f g = some g
fill_row (suc n) xi yi r f g =
    elim (put g (g.offset.x +ℤ r.x +ℤ pos xi) (g.offset.y +ℤ r.y +ℤ pos yi) f) [
      | none ↦ none
      | some g' ↦ fill_row n (xi + 1) yi r f g'
    ]

pub fill_rows : ℕ → ℕ → Rect → (ℕ → ℕ) → Graphic → Option Graphic
fill_rows zero yi r f g = some g
fill_rows (suc n) yi r f g = elim (fill_row (pos_part r.width) 0 yi r f g) [
  | none ↦ none
  | some g' ↦ fill_rows n (yi + 1) r f g'
]

-- The sums and the differences that rect_intersect takes fit in an `int`.
pub intersect_fits : Rect → Rect → Bool
intersect_fits r₁ r₂ =
    let right₁ = r₁.x +ℤ r₁.width in
    let right₂ = r₂.x +ℤ r₂.width in
    let below₁ = r₁.y +ℤ r₁.height in
    let below₂ = r₂.y +ℤ r₂.height in
    is_int right₁
    && is_int right₂
    && is_int below₁
    && is_int below₂
    && is_int (min_ℤ right₁ right₂ -ℤ max_ℤ r₁.x r₂.x)
    && is_int (min_ℤ below₁ below₂ -ℤ max_ℤ r₁.y r₂.y)

pub fill : Graphic → ℤ → ℤ → ℤ → ℤ → (ℕ → ℕ) → Option Graphic
fill g x y width height f =
    let rt : Rect = record { x = x; y = y; width = width; height = height } in
    let r = rect_intersect g.clipping rt in
    if intersect_fits g.clipping rt then fill_rows (pos_part r.height) 0 r f g else none

pub fill_rect : Graphic → ℤ → ℤ → ℤ → ℤ → ℕ → Option Graphic
fill_rect g x y width height color = fill g x y width height (λ old. color)

pub fill_rect_xor : Graphic → ℤ → ℤ → ℤ → ℤ → ℕ → Option Graphic
fill_rect_xor g x y width height color = fill g x y width height (λ old. bit_xor old color)

-- The four sides, by one of the two fills. An overflow is undefined, wherever it happens.
pub sides :
    (Graphic → ℤ → ℤ → ℤ → ℤ → Option Graphic) → Graphic → ℤ → ℤ → ℤ → ℤ → ℤ → Option Graphic
sides side g x y width height thickness =
    let inner = height -ℤ (thickness +ℤ thickness) in
    let fits =
      is_int (y +ℤ height)
      && is_int (y +ℤ height -ℤ thickness)
      && is_int (y +ℤ thickness)
      && is_int (thickness +ℤ thickness)
      && is_int inner
      && is_int (x +ℤ width)
      && is_int (x +ℤ width -ℤ thickness) in
    let drawn : Option Graphic = elim (side g x y width thickness) [
      | none ↦ none
      | some g₁ ↦ elim (side g₁ x (y +ℤ height -ℤ thickness) width thickness) [
        | none ↦ none
        | some g₂ ↦ elim (side g₂ x (y +ℤ thickness) thickness inner) [
          | none ↦ none
          | some g₃ ↦ side g₃ (x +ℤ width -ℤ thickness) (y +ℤ thickness) thickness inner
        ]
      ]
    ] in
    if fits then drawn else none

pub draw_rect : Graphic → ℤ → ℤ → ℤ → ℤ → ℤ → ℕ → Option Graphic
draw_rect g x y width height thickness color =
    sides (λ g x y w h. fill_rect g x y w h color) g x y width height thickness

pub draw_rect_xor : Graphic → ℤ → ℤ → ℤ → ℤ → ℤ → ℕ → Option Graphic
draw_rect_xor g x y width height thickness color =
    sides (λ g x y w h. fill_rect_xor g x y w h color) g x y width height thickness

-- One row of a glyph: the pixels of the bits 7 down to 0, with `n` of them left.
pub draw_bits : ℕ → ℕ → Graphic → ℤ → ℤ → ℕ → Option Graphic
draw_bits zero bits g x y color = some g
draw_bits (suc n) bits g x y color =
    elim (if bits / 2 ^ n % 2 == 1 then draw_pixel g x y color else some g) [
      | none ↦ none
      | some g' ↦ draw_bits n bits g' (x +ℤ pos 1) y color
    ]

-- the rows of a glyph, from row 16 - n on
pub draw_glyph : ℕ → (ℕ → ℕ) → Graphic → ℤ → ℤ → ℕ → Option Graphic
draw_glyph zero glyph g x y color = some g
draw_glyph (suc n) glyph g x y color =
    elim (draw_bits 8 (glyph (16 - suc n)) g x (y +ℤ pos (16 - suc n)) color) [
      | none ↦ none
      | some g' ↦ draw_glyph n glyph g' x y color
    ]

pub draw_char : (ℕ → ℕ) → Graphic → ℤ → ℤ → ℕ → ℕ → Option Graphic
draw_char font g x y c color = draw_glyph 16 (λ row. font (c * 16 + row)) g x y color

-- The loop of graphic_draw_string, at a place: the characters up to the zero, `c` the clipping.
pub draw_chars : (ℕ → ℕ) → Rect → Rect → ℕ → Bool → List ℕ → Graphic → ℤ → ℤ → Option Graphic
draw_chars font rt c color wrap [] g x y = some g
draw_chars font rt c color wrap (ch ∷ str) g x y =
    let full = wrap && ltb_ℤ (c.x +ℤ c.width) (x +ℤ pos 8) in
    let x' = if full then rt.x else x in
    let y' = if full then y +ℤ pos 16 else y in
    let below = draw_chars font rt c color wrap str g rt.x (y +ℤ pos 16) in
    let after : Option Graphic = elim (draw_char font g x' y' ch color) [
      | none ↦ none
      | some g' ↦ draw_chars font rt c color wrap str g' (x' +ℤ pos 8) y'
    ] in
    if ch == 10 then below else if not wrap && leb_ℤ (c.x +ℤ c.width) x then some g else after

pub draw_string : (ℕ → ℕ) → Graphic → Rect → List ℕ → ℕ → Bool → Option Graphic
draw_string font g rt str color wrap =
    let c = rect_intersect g.clipping rt in
    elim (draw_chars font rt c color wrap str (record g { clipping = c }) rt.x rt.y) [
      | none ↦ none
      | some g' ↦ some (record g' { clipping = g.clipping })
    ]

-- The inner loop of graphic_bitblt, with `n` columns left, and the outer loop, with `n` rows left: `d`
-- and `s` are the clipped target and the source that is left.
pub copy_row : ℕ → ℕ → ℕ → Rect → Rect → Graphic → Graphic → Option Graphic
copy_row zero xi yi d s g₀ g = some g
copy_row (suc n) xi yi d s g₀ g =
    let from = index g₀.pitch (g₀.offset.x +ℤ s.x +ℤ pos xi) (g₀.offset.y +ℤ s.y +ℤ pos yi) in
    if ltb from (length g₀.framebuffer)
    then elim (put g (g.offset.x +ℤ d.x +ℤ pos xi) (g.offset.y +ℤ d.y +ℤ pos yi)
        (λ old. get_or g₀.framebuffer from 0)) [
          | none ↦ none
          | some g' ↦ copy_row n (xi + 1) yi d s g₀ g'
        ]
    else none

pub copy_rows : ℕ → ℕ → ℕ → Rect → Rect → Graphic → Graphic → Option Graphic
copy_rows zero columns yi d s g₀ g = some g
copy_rows (suc n) columns yi d s g₀ g = elim (copy_row columns 0 yi d s g₀ g) [
  | none ↦ none
  | some g' ↦ copy_rows n columns (yi + 1) d s g₀ g'
]

-- The two surfaces do not share their pixels.
pub bitblt : Graphic → ℤ → ℤ → ℤ → ℤ → Graphic → ℤ → ℤ → Option Graphic
bitblt g x y cx cy g₀ x₀ y₀ =
    let d = rect_intersect g.clipping (record { x = x; y = y; width = cx; height = cy }) in
    let skip_x = d.x -ℤ x in
    let skip_y = d.y -ℤ y in
    let s : Rect = record {
      x = x₀ +ℤ skip_x;
      y = y₀ +ℤ skip_y;
      width = cx -ℤ skip_x;
      height = cy -ℤ skip_y;
    } in
    let columns = pos_part (min_ℤ d.width s.width) in
    let rows = pos_part (min_ℤ d.height s.height) in copy_rows rows columns 0 d s g₀ g

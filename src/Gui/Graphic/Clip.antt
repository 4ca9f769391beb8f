-- ===== src/Gui/Graphic/Clip.antt =====
-- graphic_set_offset and graphic_set_clipping keep the clipping rectangle on the surface.
use rubberos.Base.{ℕ, ◌*◌, ◌^◌, ◌≤◌, ◌≡◌, true, Option, none, some, arith, length}
use rubberos.Base.Int.{ℤ, pos, ◌+ℤ◌, ◌-ℤ◌, ◌≤ℤ◌, ◌<ℤ◌, max_ℤ, min_ℤ, +ℤ_parts, -ℤ_parts}
use rubberos.Gui.Shapes.{Rect, rect_contains}
use rubberos.Gui.Shapes.Laws.{
  rect_contains-rect_intersect, rect_contains_iff, Within, max_ℤ_cases, min_ℤ_cases,
}
use rubberos.Gui.Graphic.{Graphic, whole, base, set_clipping, set_offset}
use rubberos.Gui.Graphic.Bounds.{OnSurface, IsSurface}

-- the pixels that a surface has, whatever its offset and clipping
pub record HasPixels (g : Graphic) : Type 0 where
  pub wide : g.width ≤ g.pitch
  pub sized : g.pitch * g.height ≤ length g.framebuffer
  pub small : g.pitch * g.height ≤ 2 ^ 32
  pub small_sides : (g.width ≤ 2 ^ 31) × (g.height ≤ 2 ^ 31)

-- one side of the base rectangle
side_on :
    (offset len : ℤ) (width : ℕ) (p : ℤ)
    → let start = pos 0 -ℤ min_ℤ (pos 0) offset in
      Within start (max_ℤ (min_ℤ len (pos width -ℤ offset) -ℤ start) (pos 0)) p
      → (pos 0 ≤ℤ (p +ℤ offset)) × ((p +ℤ offset) <ℤ pos width)
side_on offset len width p h =
    let low = min_ℤ (pos 0) offset in
    let start = pos 0 -ℤ low in
    let high = min_ℤ len (pos width -ℤ offset) in
    let span = max_ℤ (high -ℤ start) (pos 0) in
    let lows = min_ℤ_cases (pos 0) offset in
    let highs = min_ℤ_cases len (pos width -ℤ offset) in
    let spans = max_ℤ_cases (high -ℤ start) (pos 0) in
    ground (
      arith,
      lows,
      highs,
      spans,
      +ℤ_parts p offset,
      +ℤ_parts start span,
      -ℤ_parts high start,
      -ℤ_parts (pos 0) low,
      -ℤ_parts (pos width) offset,
    )

base-OnSurface :
    (g : Graphic) (x y : ℤ)
    → rect_contains (base g) x y ≡ true
    → OnSurface g (x +ℤ g.offset.x) (y +ℤ g.offset.y)
unfolding base
base-OnSurface g x y h =
    let (inx, iny) = (rect_contains_iff (base g) x y).0 h in
    let (x₀, x₁) = side_on g.offset.x g.offset.width g.width x inx in
    let (y₀, y₁) = side_on g.offset.y g.offset.height g.height y iny in (x₀, x₁, y₀, y₁)

set_clipping-IsSurface :
    (g : Graphic) (rt : Option Rect) → HasPixels g → IsSurface (set_clipping g rt)
unfolding set_clipping
set_clipping-IsSurface g none p = record {
  wide = p.wide;
  sized = p.sized;
  small = p.small;
  small_sides = p.small_sides;
  clipped = λ x y h. base-OnSurface g x y h;
}
set_clipping-IsSurface g (some rt) p = record {
  wide = p.wide;
  sized = p.sized;
  small = p.small;
  small_sides = p.small_sides;
  clipped = λ x y h. base-OnSurface g x y ((rect_contains-rect_intersect rt (base g) x y).0 h).1;
}

set_offset-IsSurface : (g : Graphic) (rt : Option Rect) → HasPixels g → IsSurface (set_offset g rt)
unfolding set_offset
set_offset-IsSurface g none p =
    set_clipping-IsSurface (record g { offset = whole g.width g.height }) none
      (record { wide = p.wide; sized = p.sized; small = p.small; small_sides = p.small_sides })
set_offset-IsSurface g (some rt) p =
    set_clipping-IsSurface (record g { offset = rt }) none
      (record { wide = p.wide; sized = p.sized; small = p.small; small_sides = p.small_sides })

-- Whatever offset and clipping rectangles a client sets, in or out of the surface, what it can draw
-- on stays on the surface.
pub IsSurface-set :
    (g : Graphic) (rt : Option Rect)
    → HasPixels g
    → IsSurface (set_clipping g rt) × IsSurface (set_offset g rt)
IsSurface-set g rt p = (set_clipping-IsSurface g rt p, set_offset-IsSurface g rt p)

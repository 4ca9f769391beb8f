-- ===== src/Gui/Graphic/Bounds.antt =====
-- Drawing stays within the surface: no access is behind the pixels, whatever is drawn.
use mathlib.Core.Path.{subst}
use rubberos.Base.{
  ℕ, zero, suc, ◌+◌, ◌*◌, ◌%◌, ◌^◌, ◌≤◌, ◌<◌, ◌≡◌, refl, inl, inr, true, Option, none, some, List,
  arith, ltb, length, get_or, length-set, Bool-cases, sym, ap, ◌∙◌,
}
use Prim.Native.Nat.{bit_xor}
use rubberos.Base.Int.{
  is_int, IsWithin, IsWithin-add, IsWithin-sub, IsWithin-weaken, ◌-ℤ◌, ℤ, pos, negsuc, ◌+ℤ◌, ◌-ℤ◌,
  ◌≤ℤ◌, ◌<ℤ◌, pos_part, eq_of_parts, +ℤ_parts,
}
use rubberos.Gui.Shapes.{Rect, rect_contains, rect_intersect}
use rubberos.Gui.Shapes.Laws.{rect_contains-rect_intersect, rect_contains_iff, Within}
use rubberos.Gui.Graphic.Overflow.{IsSmallRect, three_small, intersect_fits_lem, sides_fit}
use rubberos.Gui.Graphic.{
  Graphic, index, put, draw_pixel, fill_row, fill_rows, fill, fill_rect, fill_rect_xor, sides,
  draw_rect, draw_rect_xor,
}

-- a point of the surface
abbrev pub OnSurface : Graphic → ℤ → ℤ → Type 0
OnSurface g x y = (pos 0 ≤ℤ x) × (x <ℤ pos g.width) × (pos 0 ≤ℤ y) × (y <ℤ pos g.height)

-- The surface has its pixels, an index fits in a `uint32_t`, and what the clipping rectangle
-- contains lies, moved by the offset, on the surface.
pub record IsSurface (g : Graphic) : Type 0 where
  pub wide : g.width ≤ g.pitch
  pub sized : g.pitch * g.height ≤ length g.framebuffer
  pub small : g.pitch * g.height ≤ 2 ^ 32
  pub small_sides : (g.width ≤ 2 ^ 31) × (g.height ≤ 2 ^ 31)
  pub clipped :
      (x y : ℤ)
      → rect_contains g.clipping x y ≡ true
      → OnSurface g (x +ℤ g.offset.x) (y +ℤ g.offset.y)

abbrev with_pixels : List ℕ → Graphic → Graphic
with_pixels pixels g = record g { framebuffer = pixels }

-- Only the pixels differ.
abbrev pub SameFrame : Graphic → Graphic → Type 0
SameFrame g g' = g' ≡ record g { framebuffer = g'.framebuffer }

-- The call returns, and leaves a surface of the same frame.
abbrev pub Draws : Graphic → Option Graphic → Type 0
Draws g none = ⊥
Draws g (some g') = SameFrame g g' × IsSurface g'

in_area :
    (x y width height pitch : ℕ)
    → x < width
    → width ≤ pitch
    → y < height
    → x + y * pitch < pitch * height
in_area x y width height pitch hx hw hy = grind arith

index-OnSurface :
    (g : Graphic) (x y : ℤ)
    → IsSurface g
    → OnSurface g x y
    → (index g.pitch x y ≡ pos_part x + pos_part y * g.pitch)
      × (index g.pitch x y < length g.framebuffer)
unfolding index
index-OnSurface g (pos x) (pos y) s on =
    let area = in_area x y g.width g.height g.pitch (ground arith) s.wide (ground arith) in
    let x_small : x % 2 ^ 32 ≡ x = ground (arith, s.small_sides) in
    let y_small : y % 2 ^ 32 ≡ y = ground (arith, s.small_sides) in
    let fits : (x + y * g.pitch) % 2 ^ 32 ≡ x + y * g.pitch = ground (arith, area, s.small) in
    (rw (x_small, y_small) fits, rw (x_small, y_small, fits) (ground (arith, area, s.sized)))
index-OnSurface g (pos x) (negsuc y) s on = absurd (omega arith)
index-OnSurface g (negsuc x) y s on = absurd (omega arith)

pub put-Draws :
    (g : Graphic) (x y : ℤ) (f : ℕ → ℕ) → IsSurface g → OnSurface g x y → Draws g (put g x y f)
unfolding put
put-Draws g x y f s on =
    let i = index g.pitch x y in
    let inside : ltb i (length g.framebuffer) ≡ true = ground (arith, index-OnSurface g x y s on) in
    let x_fits : is_int x ≡ true = unfold is_int in ground (arith, s.small_sides) in
    let y_fits : is_int y ≡ true = unfold is_int in ground (arith, s.small_sides) in
    rw (x_fits, y_fits, inside)
      (
        refl,
        record {
          wide = s.wide;
          sized =
              ground (arith, s.sized, length-set g.framebuffer i (f (get_or g.framebuffer i 0)));
          small = s.small;
          small_sides = s.small_sides;
          clipped = s.clipped;
        },
      )

-- a call after a call
pub Draws-bind :
    (g : Graphic) (r : Option Graphic) (next : Graphic → Option Graphic)
    → Draws g r
    → ((g' : Graphic) → SameFrame g g' → IsSurface g' → Draws g' (next g'))
    → Draws g (elim r [ none ↦ none | some g' ↦ next g' ])
Draws-bind g none next d rest = absurd d
Draws-bind g (some g') next (same, s) rest = go (next g') (rest g' same s)
  where
    go : (r : Option Graphic) → Draws g' r → Draws g r
    go none d = absurd d
    go (some g'') (same', s') = (same' ∙ ap (with_pixels g''.framebuffer) same, s')

pub draw_pixel-Draws :
    (g : Graphic) (x y : ℤ) (color : ℕ) → IsSurface g → Draws g (draw_pixel g x y color)
unfolding draw_pixel
draw_pixel-Draws g x y color s = elim (Bool-cases (rect_contains g.clipping x y)) [
  | inl inside ↦
      rw inside
        (put-Draws g (x +ℤ g.offset.x) (y +ℤ g.offset.y) (λ old. color) s (s.clipped x y inside))
  | inr outside ↦ rw outside (refl, s)
]

-- every point of a rectangle, moved by the offset
abbrev Covers : Graphic → Rect → Type 0
Covers g r =
    (xi yi : ℕ)
    → xi < pos_part r.width
    → yi < pos_part r.height
    → OnSurface g (g.offset.x +ℤ r.x +ℤ pos xi) (g.offset.y +ℤ r.y +ℤ pos yi)

Covers-SameFrame : (g g' : Graphic) (r : Rect) → SameFrame g g' → Covers g r → Covers g' r
Covers-SameFrame g g' r same c = subst (λ h. Covers h r) (sym same) c

fill_row-Draws :
    (n xi yi : ℕ) (r : Rect) (f : ℕ → ℕ) (g : Graphic)
    → IsSurface g
    → Covers g r
    → xi + n ≡ pos_part r.width
    → yi < pos_part r.height
    → Draws g (fill_row n xi yi r f g)
unfolding fill_row
fill_row-Draws zero xi yi r f g s c e h = (refl, s)
fill_row-Draws (suc n) xi yi r f g s c e h =
    Draws-bind g _ (fill_row n (xi + 1) yi r f)
      (put-Draws g (g.offset.x +ℤ r.x +ℤ pos xi) (g.offset.y +ℤ r.y +ℤ pos yi) f s
        (c xi yi (omega arith) h))
      (λ g' same s'.
        fill_row-Draws n (xi + 1) yi r f g' s' (Covers-SameFrame g g' r same c) (omega arith) h)

fill_rows-Draws :
    (n yi : ℕ) (r : Rect) (f : ℕ → ℕ) (g : Graphic)
    → IsSurface g
    → Covers g r
    → yi + n ≡ pos_part r.height
    → Draws g (fill_rows n yi r f g)
unfolding fill_rows
fill_rows-Draws zero yi r f g s c e = (refl, s)
fill_rows-Draws (suc n) yi r f g s c e =
    Draws-bind g _ (fill_rows n (yi + 1) r f)
      (fill_row-Draws (pos_part r.width) 0 yi r f g s c (omega arith) (omega arith))
      (λ g' same s'.
        fill_rows-Draws n (yi + 1) r f g' s' (Covers-SameFrame g g' r same c) (omega arith))

Within-add : (low len : ℤ) (i : ℕ) → i < pos_part len → Within low len (low +ℤ pos i)
Within-add low (pos len) i h = omega (arith, +ℤ_parts low (pos i), +ℤ_parts low (pos len))
Within-add low (negsuc len) i h = absurd (omega arith)

add_rotate : (a b c : ℤ) → a +ℤ b +ℤ c ≡ b +ℤ c +ℤ a
add_rotate a b c =
    eq_of_parts (a +ℤ b +ℤ c) (b +ℤ c +ℤ a)
      (omega (arith, +ℤ_parts a b, +ℤ_parts (a +ℤ b) c, +ℤ_parts b c, +ℤ_parts (b +ℤ c) a))

Covers-rect_intersect :
    (g : Graphic) (rt : Rect) → IsSurface g → Covers g (rect_intersect g.clipping rt)
Covers-rect_intersect g rt s xi yi hx hy =
    let r = rect_intersect g.clipping rt in
    let x = r.x +ℤ pos xi in
    let y = r.y +ℤ pos yi in
    let here =
      (rect_contains_iff r x y).1 (Within-add r.x r.width xi hx, Within-add r.y r.height yi hy) in
    rw (add_rotate g.offset.x r.x (pos xi), add_rotate g.offset.y r.y (pos yi))
      (s.clipped x y ((rect_contains-rect_intersect g.clipping rt x y).0 here).0)

module _ (f : ℕ → ℕ) where
  fill-Draws :
      (g : Graphic) (x y width height : ℤ)
      → IsSurface g
      → IsSmallRect (2 ^ 27) g.clipping
      → IsSmallRect three_small (record { x = x; y = y; width = width; height = height })
      → Draws g (fill g x y width height f)
  unfolding fill
  fill-Draws g x y width height s clip small =
      let rt : Rect = record { x = x; y = y; width = width; height = height } in
      let r = rect_intersect g.clipping rt in
      rw (intersect_fits_lem g.clipping rt clip small)
        (fill_rows-Draws (pos_part r.height) 0 r f g s (Covers-rect_intersect g rt s) (omega arith))

  sides-Draws :
      (g : Graphic) (x y width height thickness : ℤ)
      → IsSurface g
      → IsSmallRect (2 ^ 27) g.clipping
      → IsSmallRect (2 ^ 27) (record { x = x; y = y; width = width; height = height })
      → IsWithin (2 ^ 27) thickness
      → Draws g (sides (λ g x y w h. fill g x y w h f) g x y width height thickness)
  unfolding sides
  sides-Draws g x y width height thickness s clip r t =
      let k = 2 ^ 27 in
      let three = λ (j : ℕ) (z : ℤ) (le : j ≤ three_small) (w : IsWithin j z).
        IsWithin-weaken j three_small z le w in
      let x₃ = three k x (omega arith) r.x in
      let y₃ = three k y (omega arith) r.y in
      let w₃ = three k width (omega arith) r.width in
      let t₃ = three k thickness (omega arith) t in
      let top = three (k + k) _ (omega arith) (IsWithin-add k k y thickness r.y t) in
      let bottom = IsWithin-sub (k + k) k _ thickness (IsWithin-add k k y height r.y r.height) t in
      let right = IsWithin-sub (k + k) k _ thickness (IsWithin-add k k x width r.x r.width) t in
      let inner =
        IsWithin-sub k (k + k) height _ r.height (IsWithin-add k k thickness thickness t t) in
      let kept = λ (g g' : Graphic) (e : SameFrame g g') (c : IsSmallRect (2 ^ 27) g.clipping).
        subst (λ h. IsSmallRect (2 ^ 27) h.clipping) (sym e) c in
      rw (sides_fit x y width height thickness r t) (
        Draws-bind g _ _
          (fill-Draws g x y width thickness s clip
            (record { x = x₃; y = y₃; width = w₃; height = t₃ }))
          λ g₁ e₁ s₁.
            let clip₁ = kept g g₁ e₁ clip in
            Draws-bind g₁ _ _
              (fill-Draws g₁ x (y +ℤ height -ℤ thickness) width thickness s₁ clip₁
                (record { x = x₃; y = bottom; width = w₃; height = t₃ }))
              λ g₂ e₂ s₂.
                let clip₂ = kept g₁ g₂ e₂ clip₁ in
                Draws-bind g₂ _ _
                  (fill-Draws g₂ x (y +ℤ thickness) thickness (height -ℤ (thickness +ℤ thickness))
                    s₂ clip₂ (record { x = x₃; y = top; width = t₃; height = inner }))
                  λ g₃ e₃ s₃.
                    fill-Draws g₃ (x +ℤ width -ℤ thickness) (y +ℤ thickness) thickness
                      (height -ℤ (thickness +ℤ thickness)) s₃ (kept g₂ g₃ e₃ clip₂)
                      (record { x = right; y = top; width = t₃; height = inner }))

-- On a surface a rectangle is drawn, filled or xored without an access behind the pixels and without
-- an overflow, wherever it lies and whatever its size, as long as its numbers, its thickness and the
-- numbers of the clipping rectangle are at most 2^27 from zero; only pixels change.
pub draw_rect-Draws :
    (g : Graphic) (x y width height thickness : ℤ) (color : ℕ)
    → IsSurface g
    → IsSmallRect (2 ^ 27) g.clipping
    → IsSmallRect (2 ^ 27) (record { x = x; y = y; width = width; height = height })
    → IsWithin (2 ^ 27) thickness
    → Draws g (fill_rect g x y width height color)
      × Draws g (fill_rect_xor g x y width height color)
      × Draws g (draw_rect g x y width height thickness color)
      × Draws g (draw_rect_xor g x y width height thickness color)
unfolding fill_rect fill_rect_xor draw_rect draw_rect_xor
draw_rect-Draws g x y width height thickness color s clip r t =
    let wide =
      λ (z : ℤ) (w : IsWithin (2 ^ 27) z). IsWithin-weaken (2 ^ 27) three_small z (omega arith) w in
    let r₃ : IsSmallRect three_small (record { x = x; y = y; width = width; height = height }) =
      record {
        x = wide x r.x;
        y = wide y r.y;
        width = wide width r.width;
        height = wide height r.height;
      } in
    let over = λ (old : ℕ). color in
    let xor = λ (old : ℕ). bit_xor old color in
    (
      fill-Draws over g x y width height s clip r₃,
      fill-Draws xor g x y width height s clip r₃,
      sides-Draws over g x y width height thickness s clip r t,
      sides-Draws xor g x y width height thickness s clip r t,
    )

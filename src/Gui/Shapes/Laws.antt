-- ===== src/Gui/Shapes/Laws.antt =====
-- The rectangles as sets of points.
use rubberos.Base.{◌+◌, ◌≡◌, ◌⊎◌, inl, inr, true, false, ◌||◌, arith, Bool-cases, ◌↔◌}
use rubberos.Base.Int.{
  ℤ, pos, ◌+ℤ◌, ◌-ℤ◌, ◌≤ℤ◌, ◌<ℤ◌, ltb_ℤ, max_ℤ, min_ℤ, pos_part, neg_part, +ℤ_parts, -ℤ_parts,
  ltb_ℤ_iff,
}
use rubberos.Gui.Shapes.{Rect, eqb_ℤ, rect_contains, rect_intersect, rect_union}

pub max_ℤ_cases : (a b : ℤ) → (max_ℤ a b ≡ a) × (b ≤ℤ a) ⊎ (max_ℤ a b ≡ b) × (a ≤ℤ b)
unfolding max_ℤ
max_ℤ_cases a b = ground arith

pub min_ℤ_cases : (a b : ℤ) → (min_ℤ a b ≡ a) × (a ≤ℤ b) ⊎ (min_ℤ a b ≡ b) × (b ≤ℤ a)
unfolding min_ℤ
min_ℤ_cases a b = ground arith

-- one side of a rectangle
abbrev pub Within : ℤ → ℤ → ℤ → Type 0
Within low len p = (low ≤ℤ p) × (p <ℤ (low +ℤ len))

pub rect_contains_iff :
    (r : Rect) (x y : ℤ)
    → (rect_contains r x y ≡ true) ↔ (Within r.x r.width x × Within r.y r.height y)
unfolding rect_contains
rect_contains_iff r x y = ground arith

module _ (a la b lb : ℤ) where
  abbrev low : ℤ
  low = max_ℤ a b

  abbrev span : ℤ
  span = min_ℤ (a +ℤ la) (b +ℤ lb) -ℤ low

  Within-meet : (p : ℤ) → Within low span p ↔ (Within a la p × Within b lb p)
  Within-meet p =
      let high = min_ℤ (a +ℤ la) (b +ℤ lb) in
      let lows = max_ℤ_cases a b in
      let highs = min_ℤ_cases (a +ℤ la) (b +ℤ lb) in
      let ends : pos_part (low +ℤ span) + neg_part high ≡ neg_part (low +ℤ span) + pos_part high =
        omega (arith, -ℤ_parts high low, +ℤ_parts low span) in
      (λ h. ground (arith, lows, highs, ends), λ h. ground (arith, lows, highs, ends))

Within-zero : (low p : ℤ) → Within low (pos 0) p → ⊥
Within-zero low p h = omega (arith, +ℤ_parts low (pos 0))

Within-pos : (low len p : ℤ) → len <ℤ pos 0 → Within low len p → ⊥
Within-pos low len p neg h = omega (arith, +ℤ_parts low len)

rect_intersect-Within :
    (r₁ r₂ : Rect) (x y : ℤ)
    → let r = rect_intersect r₁ r₂ in
      let w = span r₁.x r₁.width r₂.x r₂.width in
      let h = span r₁.y r₁.height r₂.y r₂.height in
      (Within r.x r.width x × Within r.y r.height y) ↔ (
        Within (low r₁.x r₁.width r₂.x r₂.width) w x
        × Within (low r₁.y r₁.height r₂.y r₂.height) h y)
unfolding rect_intersect
rect_intersect-Within r₁ r₂ x y =
    let left = low r₁.x r₁.width r₂.x r₂.width in
    let top = low r₁.y r₁.height r₂.y r₂.height in
    let w = span r₁.x r₁.width r₂.x r₂.width in
    let h = span r₁.y r₁.height r₂.y r₂.height in
    elim (Bool-cases (ltb_ℤ w (pos 0) || ltb_ℤ h (pos 0))) [
      | inl neg ↦ rw neg (
        λ e. absurd (Within-zero left x e.0),
        λ e. absurd (elim (Bool-cases (ltb_ℤ w (pos 0))) [
          | inl short ↦ Within-pos left w x ((ltb_ℤ_iff w (pos 0)).0 short) e.0
          | inr wide ↦
              let short : ltb_ℤ h (pos 0) ≡ true = rw wide at neg in
              Within-pos top h y ((ltb_ℤ_iff h (pos 0)).0 short) e.1
        ]),
      )
      | inr ok ↦ rw ok (λ e. e, λ e. e)
    ]

-- Two rectangles meet in what rect_intersect gives: it contains exactly the points that both do.
pub rect_contains-rect_intersect :
    (r₁ r₂ : Rect) (x y : ℤ)
    → (rect_contains (rect_intersect r₁ r₂) x y ≡ true)
      ↔ ((rect_contains r₁ x y ≡ true) × (rect_contains r₂ x y ≡ true))
rect_contains-rect_intersect r₁ r₂ x y =
    let xs = Within-meet r₁.x r₁.width r₂.x r₂.width x in
    let ys = Within-meet r₁.y r₁.height r₂.y r₂.height y in
    let meet = rect_intersect-Within r₁ r₂ x y in
    let i = rect_contains_iff (rect_intersect r₁ r₂) x y in
    let i₁ = rect_contains_iff r₁ x y in
    let i₂ = rect_contains_iff r₂ x y in
    (
      λ e.
          let (inx, iny) = meet.0 (i.0 e) in
          let (x₁, x₂) = xs.0 inx in let (y₁, y₂) = ys.0 iny in (i₁.1 (x₁, y₁), i₂.1 (x₂, y₂)),
      λ e.
          let (x₁, y₁) = i₁.0 e.0 in
          let (x₂, y₂) = i₂.0 e.1 in i.1 (meet.1 (xs.1 (x₁, x₂), ys.1 (y₁, y₂))),
    )

Within-join :
    (a la b lb p : ℤ)
    → Within a la p
    → Within (min_ℤ a b) (max_ℤ (a +ℤ la) (b +ℤ lb) -ℤ min_ℤ a b) p
Within-join a la b lb p h =
    let low = min_ℤ a b in
    let high = max_ℤ (a +ℤ la) (b +ℤ lb) in
    let lows = min_ℤ_cases a b in
    let highs = max_ℤ_cases (a +ℤ la) (b +ℤ lb) in
    let ends : pos_part (low +ℤ (high -ℤ low)) + neg_part high
        ≡ neg_part (low +ℤ (high -ℤ low)) + pos_part high =
      omega (arith, -ℤ_parts high low, +ℤ_parts low (high -ℤ low)) in
    ground (arith, lows, highs, ends)

Within-join_right :
    (a la b lb p : ℤ)
    → Within b lb p
    → Within (min_ℤ a b) (max_ℤ (a +ℤ la) (b +ℤ lb) -ℤ min_ℤ a b) p
Within-join_right a la b lb p h =
    let low = min_ℤ a b in
    let high = max_ℤ (a +ℤ la) (b +ℤ lb) in
    let lows = min_ℤ_cases a b in
    let highs = max_ℤ_cases (a +ℤ la) (b +ℤ lb) in
    let ends : pos_part (low +ℤ (high -ℤ low)) + neg_part high
        ≡ neg_part (low +ℤ (high -ℤ low)) + pos_part high =
      omega (arith, -ℤ_parts high low, +ℤ_parts low (high -ℤ low)) in
    ground (arith, lows, highs, ends)

Within-zero_free : (low len p : ℤ) → Within low len p → eqb_ℤ len (pos 0) ≡ false
Within-zero_free low len p h = ground (arith, +ℤ_parts low len)

-- The union of two rectangles contains every point of either, also where one of them is empty.
pub rect_contains-rect_union :
    (r₁ r₂ : Rect) (x y : ℤ)
    → (rect_contains r₁ x y ≡ true) ⊎ (rect_contains r₂ x y ≡ true)
    → rect_contains (rect_union r₁ r₂) x y ≡ true
unfolding rect_union
rect_contains-rect_union r₁ r₂ x y (inl inside) =
    let (inx, iny) = (rect_contains_iff r₁ x y).0 inside in
    let full : (eqb_ℤ r₁.width (pos 0) || eqb_ℤ r₁.height (pos 0)) ≡ false =
      rw (Within-zero_free r₁.x r₁.width x inx) (Within-zero_free r₁.y r₁.height y iny) in
    elim (Bool-cases (eqb_ℤ r₂.width (pos 0) || eqb_ℤ r₂.height (pos 0))) [
      | inl empty ↦ rw empty inside
      | inr other ↦
          rw (other, full)
            ((rect_contains_iff _ x y).1 (
              Within-join r₁.x r₁.width r₂.x r₂.width x inx,
              Within-join r₁.y r₁.height r₂.y r₂.height y iny,
            ))
    ]
rect_contains-rect_union r₁ r₂ x y (inr inside) =
    let (inx, iny) = (rect_contains_iff r₂ x y).0 inside in
    let full : (eqb_ℤ r₂.width (pos 0) || eqb_ℤ r₂.height (pos 0)) ≡ false =
      rw (Within-zero_free r₂.x r₂.width x inx) (Within-zero_free r₂.y r₂.height y iny) in
    elim (Bool-cases (eqb_ℤ r₁.width (pos 0) || eqb_ℤ r₁.height (pos 0))) [
      | inl empty ↦ rw (full, empty) inside
      | inr other ↦
          rw (full, other)
            ((rect_contains_iff _ x y).1 (
              Within-join_right r₁.x r₁.width r₂.x r₂.width x inx,
              Within-join_right r₁.y r₁.height r₂.y r₂.height y iny,
            ))
    ]

-- ===== src/Gui/Window/Mouse.antt =====
-- The mouse: its place, what its moves invalidate, and which window gets its events.
use rubberos.Base.{
  ℕ, zero, suc, ◌≡◌, refl, ◌⊎◌, inl, inr, Bool, true, false, none, some, List, [], ◌∷◌, arith,
  if◌then◌else◌, Bool-cases, Option-cases, get_or, set, sym, ap, ◌∙◌,
}
use rubberos.Base.Int.{ℤ, pos, ◌+ℤ◌, ◌-ℤ◌, ◌≤ℤ◌}
use rubberos.Gui.Shapes.{rect_contains}
use rubberos.Gui.Shapes.Laws.{rect_contains-rect_union}
use rubberos.Gui.Window.{
  Window, Winman, GuiMouseEvent, window_at, client_rect_for_window, invalidate_global, pointer,
  clamp, gui_mouse_move, hit, to_target, window_sendmsg_mouse, client_x0, client_y0, move_to_front,
  invalidate_window_all, any_down,
}

clamp_bounds : (p size : ℤ) → pos 0 ≤ℤ size → (pos 0 ≤ℤ clamp p size) × (clamp p size ≤ℤ size)
unfolding clamp
clamp_bounds p size h = ground arith

-- After a move the mouse is within the screen, its right and lower edge included.
pub gui_mouse_move_bounds :
    (g : Winman) (dx dy : ℤ)
    → pos 0 ≤ℤ g.scr_width
    → pos 0 ≤ℤ g.scr_height
    → let (g', p) = gui_mouse_move g dx dy in
      (g'.mouse_pos ≡ p)
      × ((pos 0 ≤ℤ p.px) × (p.px ≤ℤ g.scr_width))
      × ((pos 0 ≤ℤ p.py) × (p.py ≤ℤ g.scr_height))
unfolding gui_mouse_move invalidate_global
gui_mouse_move_bounds g dx dy hw hh = (
  refl,
  clamp_bounds (g.mouse_pos.px +ℤ dx) g.scr_width hw,
  clamp_bounds (g.mouse_pos.py +ℤ dy) g.scr_height hh,
)

-- After a move of the mouse the area to be drawn again has every point that was in it before, and
-- of the pointer at its old and at its new place.
pub gui_mouse_move_covers :
    (g : Winman) (dx dy x y : ℤ)
    → (rect_contains g.global_invalidated x y ≡ true)
      ⊎ (rect_contains (pointer g.mouse_pos) x y ≡ true)
      ⊎ (rect_contains (pointer (gui_mouse_move g dx dy).1) x y ≡ true)
    → rect_contains (gui_mouse_move g dx dy).0.global_invalidated x y ≡ true
unfolding gui_mouse_move invalidate_global
gui_mouse_move_covers g dx dy x y (inl old) =
    rect_contains-rect_union g.global_invalidated _ x y (inl old)
gui_mouse_move_covers g dx dy x y (inr some_pointer) =
    rect_contains-rect_union g.global_invalidated _ x y
      (inr (rect_contains-rect_union (pointer g.mouse_pos) _ x y some_pointer))

-- What a hit says of a window: it contains the point.
hit_lem :
    (g : Winman) (x y : ℤ) (ids : List ℕ) (id : ℕ)
    → hit g x y ids ≡ some id
    → rect_contains (window_at g id).scr_rect x y ≡ true
unfolding hit
hit_lem g x y [] id e = cc
hit_lem g x y (other ∷ ids) id e = elim (Option-cases (hit g x y ids)) [
  | inr (front, found) ↦
      let e' : some front ≡ some id = rw found at e in
      let same : front ≡ id = cc in hit_lem g x y ids id (found ∙ ap (λ i. some i) same)
  | inl nothing ↦ elim (Bool-cases (rect_contains (window_at g other).scr_rect x y)) [
    | inl inside ↦
        let e' : some other ≡ some id = rw (nothing, inside) at e in
        let same : other ≡ id = cc in rw (← same) inside
    | inr outside ↦ let e' : none ≡ some id = rw (nothing, outside) at e in cc
  ]
]

get_or-set_window :
    (ws : List Window) (id : ℕ) (w d : Window)
    → w.scr_rect ≡ (get_or ws id d).scr_rect
    → (get_or (set ws id w) id d).scr_rect ≡ (get_or ws id d).scr_rect
get_or-set_window [] id w d e = refl
get_or-set_window (v ∷ ws) zero w d e = e
get_or-set_window (v ∷ ws) (suc id) w d e = get_or-set_window ws id w d e

-- Coming to the front leaves a window where it is.
frame-move_to_front :
    (g : Winman) (id : ℕ) → (window_at (move_to_front g id) id).scr_rect ≡ (window_at g id).scr_rect
unfolding move_to_front invalidate_window_all
frame-move_to_front g id =
    get_or-set_window g.windows id (invalidate_window_all (window_at g id)) _ refl

frame-front :
    (g : Winman) (id : ℕ) (down : Bool)
    → (window_at (if down then move_to_front g id else g) id).scr_rect ≡ (window_at g id).scr_rect
frame-front g id true = frame-move_to_front g id
frame-front g id false = refl

client_corner :
    (width height : ℤ)
    → ((client_rect_for_window width height).x ≡ client_x0)
      × ((client_rect_for_window width height).y ≡ client_y0)
unfolding client_rect_for_window
client_corner width height = (refl, refl)

-- An event in the client area of a window, in the coordinates of that area.
pub record IsClientEvent (w : Window) (evt sent : GuiMouseEvent) : Type 0 where
  pub still : w.moving ≡ false
  pub x_eq : sent.x ≡ evt.x -ℤ w.scr_rect.x -ℤ client_x0
  pub y_eq : sent.y ≡ evt.y -ℤ w.scr_rect.y -ℤ client_y0
  pub inside :
      let client = client_rect_for_window w.scr_rect.width w.scr_rect.height in
      rect_contains client (evt.x -ℤ w.scr_rect.x) (evt.y -ℤ w.scr_rect.y) ≡ true

to_target_lem :
    (g : Winman) (id : ℕ) (evt : GuiMouseEvent) (to : ℕ) (sent : GuiMouseEvent)
    → (to_target g id evt).1 ≡ some (to, sent)
    → (to ≡ id) × IsClientEvent (window_at g id) evt sent
unfolding to_target
to_target_lem g id evt to sent e = elim (Bool-cases (window_at g id).moving) [
  | inl moving ↦ let e' : none ≡ some (to, sent) = rw (to_target, moving) at e in cc
  | inr still ↦
      let front = if any_down evt then move_to_front g id else g in
      let same = frame-front g id (any_down evt) in
      let frame = (window_at front id).scr_rect in
      let client = client_rect_for_window frame.width frame.height in
      elim (Bool-cases (rect_contains client (evt.x -ℤ frame.x) (evt.y -ℤ frame.y))) [
        | inr outside ↦ let e' : none ≡ some (to, sent) = rw (to_target, still, outside) at e in cc
        | inl inside ↦
            let e' : some (
              id,
              record evt { x = evt.x -ℤ frame.x -ℤ client.x; y = evt.y -ℤ frame.y -ℤ client.y },
            )
                ≡ some (to, sent) =
              rw (to_target, still, inside) at e in
            let hits : id ≡ to = cc in
            let made : record evt {
              x = evt.x -ℤ frame.x -ℤ client.x;
              y = evt.y -ℤ frame.y -ℤ client.y;
            }
                ≡ sent =
              cc in
            let (left, top) = client_corner frame.width frame.height in
            (
              sym hits,
              record {
                still = still;
                x_eq =
                    rw same at
                      (sym (ap GuiMouseEvent.x made) ∙ ap (λ c. evt.x -ℤ frame.x -ℤ c) left);
                y_eq =
                    rw same at
                      (sym (ap GuiMouseEvent.y made) ∙ ap (λ c. evt.y -ℤ frame.y -ℤ c) top);
                inside = rw same at inside;
              },
            )
      ]
]

-- While no window has the mouse captured, an event is sent only to a window that contains the point,
-- that is not being dragged, and in the client area of which the event lies; it is sent in the
-- coordinates of that area.
pub window_sendmsg_mouse_lem :
    (g : Winman) (x y : ℤ) (evt : GuiMouseEvent) (to : ℕ) (sent : GuiMouseEvent)
    → g.mouse_capturing ≡ none
    → (window_sendmsg_mouse g x y evt).1 ≡ some (to, sent)
    → (hit g x y g.window_list ≡ some to)
      × (rect_contains (window_at g to).scr_rect x y ≡ true)
      × IsClientEvent (window_at g to) evt sent
unfolding window_sendmsg_mouse
window_sendmsg_mouse_lem g x y evt to sent free e = elim (Option-cases (hit g x y g.window_list)) [
  | inl nothing ↦
      let e' : none ≡ some (to, sent) = rw (window_sendmsg_mouse, free, nothing) at e in cc
  | inr (id, found) ↦
      let (same, sent_to) =
        to_target_lem g id evt to sent (rw (window_sendmsg_mouse, free, found) at e) in
      let found' : hit g x y g.window_list ≡ some to = found ∙ ap (λ i. some i) (sym same) in
      (found', hit_lem g x y g.window_list to found', rw (sym same) at sent_to)
]

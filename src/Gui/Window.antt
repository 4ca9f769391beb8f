-- ===== src/Gui/Window.antt =====
-- kernel/src/gui/window.c, with struct window and struct winman of kernel/include/gui/window.h and
-- struct gui_mouse_event of kernel/include/gui/evt.h: where the mouse is, which window gets its
-- events, and how a window is dragged. The windows are a list and a window is its index;
-- `window_list` is the order of their indices, the front window last. Drawing a window, its title
-- and its procedure are not part of the state. The lock makes each call atomic.
pub mod Mouse
mod Tests
use rubberos.Base.{
  ℕ, ◌+◌, Bool, true, false, not, ◌&&◌, ◌||◌, Option, none, some, List, [], ◌∷◌, ◌++◌, ◌==◌, set,
  get_or, if◌then◌else◌,
}
use rubberos.Base.Int.{ℤ, pos, ◌+ℤ◌, ◌-ℤ◌, ltb_ℤ, leb_ℤ, pos_part, neg_part}
use rubberos.Gui.Shapes.{Rect, rect_contains, rect_union}

pub record Point : Type 0 where
  pub px : ℤ
  pub py : ℤ

pub record Window : Type 0 where
  pub scr_rect : Rect
  pub moving : Bool
  pub win_invalidated : Rect

pub record Winman : Type 0 where
  pub windows : List Window
  pub window_list : List ℕ
  pub focused : Option ℕ
  pub mouse_capturing : Option ℕ
  pub sizing_rect : Rect
  pub sizing_pt : Point
  pub sizing : Bool
  pub scr_width : ℤ
  pub scr_height : ℤ
  pub mouse_pos : Point
  pub global_invalidated : Rect

pub record GuiMouseEvent : Type 0 where
  pub x : ℤ
  pub y : ℤ
  pub prev_left : Bool
  pub prev_right : Bool
  pub prev_middle : Bool
  pub left : Bool
  pub right : Bool
  pub middle : Bool

abbrev pub no_rect : Rect
no_rect = record { x = pos 0; y = pos 0; width = pos 0; height = pos 0 }

abbrev pub window_at : Winman → ℕ → Window
window_at g id =
    get_or g.windows id (record { scr_rect = no_rect; moving = false; win_invalidated = no_rect })

abbrev pub set_window : Winman → ℕ → Window → Winman
set_window g id w = record g { windows = set g.windows id w }

-- CLIENT_X0 and CLIENT_Y0
abbrev pub client_x0 : ℤ
client_x0 = pos 3

abbrev pub client_y0 : ℤ
client_y0 = pos 23

-- window_size_for_client: the width and the height
pub window_size_for_client : ℤ → ℤ → ℤ × ℤ
window_size_for_client width height = (width +ℤ pos 6, height +ℤ pos 6 +ℤ pos 20)

pub client_rect_for_window : ℤ → ℤ → Rect
client_rect_for_window width height =
    let w = width -ℤ pos 6 in
    let h = height -ℤ client_x0 -ℤ client_y0 in
    record {
      x = client_x0;
      y = client_y0;
      width = if ltb_ℤ w (pos 0) then pos 0 else w;
      height = if ltb_ℤ h (pos 0) then pos 0 else h;
    }

pub invalidate_window_all : Window → Window
invalidate_window_all w = record w {
  win_invalidated = record {
    x = pos 0;
    y = pos 0;
    width = w.scr_rect.width;
    height = w.scr_rect.height;
  };
}

pub invalidate_global : Winman → Rect → Winman
invalidate_global g rt = record g { global_invalidated = rect_union g.global_invalidated rt }

-- linkedlist_remove and linkedlist_push_back of the window's link
pub without : ℕ → List ℕ → List ℕ
without id [] = []
without id (other ∷ ids) = if other == id then ids else other ∷ without id ids

pub move_to_front : Winman → ℕ → Winman
move_to_front g id =
    set_window (record g { focused = some id; window_list = without id g.window_list ++ id ∷ [] })
      id (invalidate_window_all (window_at g id))

-- gui_mouse_event_down and gui_mouse_event_up of the left button
abbrev pub left_down : GuiMouseEvent → Bool
left_down evt = evt.left && not evt.prev_left

abbrev pub left_up : GuiMouseEvent → Bool
left_up evt = not evt.left && evt.prev_left

abbrev pub any_down : GuiMouseEvent → Bool
any_down evt =
    left_down evt || (evt.right && not evt.prev_right) || (evt.middle && not evt.prev_middle)

-- a press in the title bar begins to drag the window
pub on_nc_mouse : Winman → ℕ → GuiMouseEvent → Winman
on_nc_mouse g id evt =
    let w = window_at g id in
    let title : Rect = record {
      x = client_x0;
      y = client_x0;
      width = w.scr_rect.width -ℤ pos 6;
      height = pos 20;
    } in
    if rect_contains title evt.x evt.y && left_down evt
    then invalidate_global
        (set_window
          (record g {
            mouse_capturing = some id;
            sizing = true;
            sizing_rect = w.scr_rect;
            sizing_pt = record { px = evt.x +ℤ w.scr_rect.x; py = evt.y +ℤ w.scr_rect.y };
          })
          id (record w { moving = true }))
        w.scr_rect
    else g

pub on_moving : Winman → ℕ → GuiMouseEvent → Winman
on_moving g id evt =
    let w = window_at g id in
    let now : Rect = record w.scr_rect {
      x = w.scr_rect.x +ℤ (evt.x -ℤ g.sizing_pt.px);
      y = w.scr_rect.y +ℤ (evt.y -ℤ g.sizing_pt.py);
    } in
    let inv = rect_union g.sizing_rect now in
    if left_up evt
    then invalidate_global
        (set_window (record g { sizing_rect = now; mouse_capturing = none; sizing = false }) id
          (record w { scr_rect = now; moving = false }))
        (rect_union inv w.scr_rect)
    else invalidate_global (record g { sizing_rect = now }) inv

-- `linkedlist_foreach_backward`: the last window of the list that contains the point
pub hit : Winman → ℤ → ℤ → List ℕ → Option ℕ
hit g x y [] = none
hit g x y (id ∷ ids) = elim (hit g x y ids) [
  | some front ↦ some front
  | none ↦ if rect_contains (window_at g id).scr_rect x y then some id else none
]

-- what window_sendmsg_mouse does with its target: the state, and the event that it sends
pub to_target : Winman → ℕ → GuiMouseEvent → Winman × Option (ℕ × GuiMouseEvent)
to_target g id evt =
    if (window_at g id).moving
    then (on_moving g id evt, none)
    else let g' = if any_down evt then move_to_front g id else g in
      let frame = (window_at g' id).scr_rect in
      let client = client_rect_for_window frame.width frame.height in
      let x = evt.x -ℤ frame.x in
      let y = evt.y -ℤ frame.y in
      if rect_contains client x y
      then (g', some (id, record evt { x = x -ℤ client.x; y = y -ℤ client.y }))
      else (on_nc_mouse g' id (record evt { x = x; y = y }), none)

pub window_sendmsg_mouse : Winman → ℤ → ℤ → GuiMouseEvent → Winman × Option (ℕ × GuiMouseEvent)
window_sendmsg_mouse g x y evt = elim g.mouse_capturing [
  | some id ↦ to_target g id evt
  | none ↦ elim (hit g x y g.window_list) [ none ↦ (g, none) | some id ↦ to_target g id evt ]
]

-- MOUSE_WIDTH and MOUSE_HEIGHT at a point
abbrev pub pointer : Point → Rect
pointer p = record { x = p.px; y = p.py; width = pos 13; height = pos 19 }

-- one coordinate of the mouse
pub clamp : ℤ → ℤ → ℤ
clamp p size = if ltb_ℤ p (pos 0) then pos 0 else if leb_ℤ size p then size else p

pub gui_mouse_move : Winman → ℤ → ℤ → Winman × Point
gui_mouse_move g dx dy =
    let now : Point = record {
      px = clamp (g.mouse_pos.px +ℤ dx) g.scr_width;
      py = clamp (g.mouse_pos.py +ℤ dy) g.scr_height;
    } in
    (
      invalidate_global (record g { mouse_pos = now })
          (rect_union (pointer g.mouse_pos) (pointer now)),
      now,
    )

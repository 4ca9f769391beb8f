-- ===== src/Gui/Window/Tests.antt =====
-- Instances of the theorems on the window manager, with the two windows of kmain.
use rubberos.Base.{◌≡◌, refl, inl, inr, true, false, none, some, [], ◌∷◌, arith}
use rubberos.Base.Int.{ℤ, pos, negsuc, ◌≤ℤ◌, ◌+ℤ◌, ◌-ℤ◌}
use rubberos.Gui.Shapes.{rect_contains}
use rubberos.Gui.Window.{
  Window, Winman, GuiMouseEvent, no_rect, window_at, pointer, gui_mouse_move, hit, to_target,
  window_sendmsg_mouse, client_rect_for_window,
}
use rubberos.Gui.Window.Mouse.{
  IsClientEvent, gui_mouse_move_bounds, gui_mouse_move_covers, window_sendmsg_mouse_lem,
}

abbrev window : ℤ → Window
window at = record {
  scr_rect = record { x = at; y = at; width = pos 400; height = pos 300 };
  moving = false;
  win_invalidated = no_rect;
}

abbrev g : Winman
g = record {
  windows = window (pos 50) ∷ window (pos 75) ∷ [];
  window_list = 0 ∷ 1 ∷ [];
  focused = none;
  mouse_capturing = none;
  sizing_rect = no_rect;
  sizing_pt = record { px = pos 0; py = pos 0 };
  sizing = false;
  scr_width = pos 1024;
  scr_height = pos 768;
  mouse_pos = record { px = pos 512; py = pos 384 };
  global_invalidated = no_rect;
}

gui_mouse_move_bounds_example :
    let (g', p) = gui_mouse_move g (pos 600) (negsuc 400) in
    (g'.mouse_pos ≡ p)
    × ((pos 0 ≤ℤ p.px) × (p.px ≤ℤ pos 1024))
    × ((pos 0 ≤ℤ p.py) × (p.py ≤ℤ pos 768))
gui_mouse_move_bounds_example =
    gui_mouse_move_bounds g (pos 600) (negsuc 400) (omega arith) (omega arith)

old_pointer : rect_contains (pointer g.mouse_pos) (pos 520) (pos 390) ≡ true
unfolding rect_contains ◌+ℤ◌
old_pointer = refl

gui_mouse_move_covers_example :
    rect_contains (gui_mouse_move g (pos 600) (negsuc 400)).0.global_invalidated (pos 520) (pos 390)
    ≡ true
gui_mouse_move_covers_example =
    gui_mouse_move_covers g (pos 600) (negsuc 400) (pos 520) (pos 390) (inr (inl old_pointer))

abbrev still : ℤ → ℤ → GuiMouseEvent
still x y = record {
  x = x;
  y = y;
  prev_left = false;
  prev_right = false;
  prev_middle = false;
  left = false;
  right = false;
  middle = false;
}

sent_run :
    (window_sendmsg_mouse g (pos 100) (pos 100) (still (pos 100) (pos 100))).1
    ≡ some (1, still (pos 22) (pos 2))
unfolding window_sendmsg_mouse hit to_target client_rect_for_window rect_contains ◌+ℤ◌ ◌-ℤ◌
sent_run = refl

window_sendmsg_mouse_lem_example :
    (hit g (pos 100) (pos 100) (0 ∷ 1 ∷ []) ≡ some 1)
    × (rect_contains (window_at g 1).scr_rect (pos 100) (pos 100) ≡ true)
    × IsClientEvent (window_at g 1) (still (pos 100) (pos 100)) (still (pos 22) (pos 2))
window_sendmsg_mouse_lem_example =
    window_sendmsg_mouse_lem g (pos 100) (pos 100) (still (pos 100) (pos 100)) 1
      (still (pos 22) (pos 2)) refl sent_run

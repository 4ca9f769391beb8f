-- ===== src/Gui/TtyWindow/Tests.antt =====
-- Instances of the theorems on the terminal window, on a blank screen.
use rubberos.Base.{
  ℕ, ◌+◌, ◌≡◌, ◌<◌, refl, some, List, [], ◌∷◌, ◌==◌, replicate, length-replicate, if◌then◌else◌,
  arith,
}
use rubberos.Gui.TtyWindow.{TtyWindow, Lines, ttyw_width, ttyw_height, space, newline, write}
use rubberos.Gui.TtyWindow.Screen.{IsValid, Redraws, cell, write-Redraws, newline-scroll}

blank : ℕ → List ℕ
blank size = replicate size space

abbrev at_end : TtyWindow
at_end = record { buffer = blank 2000; cursor_x = 79; cursor_y = 24 }

at_end-IsValid : IsValid at_end
unfolding blank
at_end-IsValid = record {
  sized = length-replicate 2000 space;
  x_in = omega arith;
  y_in = omega arith;
}

write-Redraws_example :
    (tw' : TtyWindow) × (lines : Lines) × (write at_end (b'a' ∷ b'b' ∷ []) ≡ some (tw', lines))
    × Redraws at_end tw' lines
write-Redraws_example = write-Redraws at_end (b'a' ∷ b'b' ∷ []) at_end-IsValid

newline-scroll_example :
    let tw' = (newline at_end).0 in
    (tw'.cursor_x ≡ 0)
    × (tw'.cursor_y ≡ 24)
    × ((x y : ℕ)
        → x < ttyw_width
        → y < ttyw_height
        → cell tw' x y ≡ (if y == 24 then space else cell at_end x (y + 1)))
newline-scroll_example = newline-scroll at_end at_end-IsValid refl

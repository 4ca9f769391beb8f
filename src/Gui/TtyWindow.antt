-- ===== src/Gui/TtyWindow.antt =====
-- kernel/src/gui/tty_window.c: the text buffer of the terminal window and its cursor, and the lines
-- that a write leaves to be drawn again. Drawing and the window itself are Gui.Graphic and the
-- window manager. A string is the list of its characters; `none` is a write behind the buffer.
pub mod Screen
mod Tests
use rubberos.Base.{
  ℕ, ◌+◌, ◌-◌, ◌*◌, ◌%◌, ◌^◌, Bool, Option, none, some, List, [], ◌∷◌, ◌++◌, ltb, leb, ◌==◌, length,
  set, take, drop, replicate, if◌then◌else◌,
}

abbrev pub ttyw_width : ℕ
ttyw_width = 80

abbrev pub ttyw_height : ℕ
ttyw_height = 25

abbrev pub newline_char : ℕ
newline_char = 10

abbrev pub space : ℕ
space = 0x20

pub record TtyWindow : Type 0 where
  pub buffer : List ℕ
  pub cursor_x : ℕ
  pub cursor_y : ℕ

pub record Lines : Type 0 where
  pub begin : ℕ
  pub end : ℕ

abbrev pub u16 : ℕ → ℕ
u16 n = n % 2 ^ 16

pub lines_union : Lines → Lines → Lines
lines_union a b = if b.begin == b.end then a else if a.begin == a.end then b else record {
  begin = if ltb a.begin b.begin then a.begin else b.begin;
  end = if ltb b.end a.end then a.end else b.end;
}

-- the rows move up by one, and the last is blank
pub scrolled : List ℕ → List ℕ
scrolled buffer =
    take (ttyw_width * (ttyw_height - 1)) (drop ttyw_width buffer) ++ replicate ttyw_width space

pub scroll : TtyWindow → TtyWindow
scroll tw =
    if ltb 0 tw.cursor_y
    then record tw { buffer = scrolled tw.buffer; cursor_y = tw.cursor_y - 1 }
    else record tw { buffer = scrolled tw.buffer; cursor_x = 0 }

pub newline : TtyWindow → TtyWindow × Lines
newline tw =
    let y = u16 (tw.cursor_y + 1) in
    let tw' = record tw { cursor_x = 0; cursor_y = y } in
    if leb ttyw_height y
    then (scroll tw', record { begin = 0; end = ttyw_height })
    else (tw', record { begin = y - 1; end = y + 1 })

pub write_one : TtyWindow → ℕ → Option (TtyWindow × Lines)
write_one tw ch =
    let place = tw.cursor_y * ttyw_width + tw.cursor_x in
    let x = u16 (tw.cursor_x + 1) in
    let tw' = record tw { buffer = set tw.buffer place ch; cursor_x = x } in
    if ch == newline_char
    then some (newline tw)
    else if ltb place (length tw.buffer)
    then some (
        if leb ttyw_width x
        then newline tw'
        else (tw', record { begin = tw'.cursor_y; end = tw'.cursor_y + 1 }))
    else none

-- the loop of write, with the lines so far
pub write_loop : List ℕ → TtyWindow → Lines → Option (TtyWindow × Lines)
write_loop [] tw lines = some (tw, lines)
write_loop (ch ∷ str) tw lines = elim (write_one tw ch) [
  | none ↦ none
  | some (tw', more) ↦ write_loop str tw' (lines_union lines more)
]

-- write: the window, and the lines that it invalidates
pub write : TtyWindow → List ℕ → Option (TtyWindow × Lines)
write tw str = write_loop str tw (record { begin = 0; end = 0 })

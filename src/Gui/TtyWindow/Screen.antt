-- ===== src/Gui/TtyWindow/Screen.antt =====
-- The cursor stays on the screen, and the invalidated lines are all that changed.
use rubberos.Base.{
  ℕ, ◌+◌, ◌-◌, ◌*◌, ◌≤◌, ◌<◌, ◌≡◌, ◌≢◌, refl, ◌⊎◌, inl, inr, true, false, Option, none, some, List,
  [], ◌∷◌, arith, ltb, leb, ◌==◌, length, set, get_or, take, drop, replicate, if◌then◌else◌,
  length-set, length-append, length-take, length-drop, length-replicate, get_or-set_ne,
  get_or-append, get_or-take, get_or-drop, get_or-replicate, Bool-cases, Option-cases, ap, ◌∙◌,
}
use rubberos.Gui.TtyWindow.{
  ttyw_width, ttyw_height, newline_char, space, TtyWindow, Lines, u16, lines_union, scrolled,
  scroll, newline, write_one, write_loop, write,
}

pub record IsValid (tw : TtyWindow) : Type 0 where
  pub sized : length tw.buffer ≡ ttyw_width * ttyw_height
  pub x_in : tw.cursor_x < ttyw_width
  pub y_in : tw.cursor_y < ttyw_height

-- the character at a column of a row
abbrev pub cell : TtyWindow → ℕ → ℕ → ℕ
cell tw x y = get_or tw.buffer (y * ttyw_width + x) space

abbrev Outside : Lines → ℕ → Type 0
Outside lines y = (y < lines.begin) ⊎ (lines.end ≤ y)

-- Rows outside of the lines are the same.
abbrev pub Keeps : TtyWindow → TtyWindow → Lines → Type 0
Keeps tw tw' lines =
    (x y : ℕ) → x < ttyw_width → y < ttyw_height → Outside lines y → cell tw' x y ≡ cell tw x y

-- The cursor is drawn in rows of the lines, before and after.
abbrev pub Shows : TtyWindow → Lines → Type 0
Shows tw lines = (lines.begin ≤ tw.cursor_y) × (tw.cursor_y < lines.end)

length-scrolled :
    (buffer : List ℕ)
    → length buffer ≡ ttyw_width * ttyw_height
    → length (scrolled buffer) ≡ ttyw_width * ttyw_height
unfolding scrolled
length-scrolled buffer e = omega (
  arith,
  length-append (take 1920 (drop 80 buffer)) (replicate 80 space),
  length-take 1920 (drop 80 buffer),
  length-drop 80 buffer,
  length-replicate 80 space,
)

pub record Step (tw : TtyWindow) (tw' : TtyWindow) (lines : Lines) : Type 0 where
  pub valid : IsValid tw'
  pub kept : Keeps tw tw' lines
  pub shows : Shows tw lines × Shows tw' lines

newline-Step :
    (tw : TtyWindow)
    → length tw.buffer ≡ ttyw_width * ttyw_height
    → tw.cursor_y < ttyw_height
    → Step tw (newline tw).0 (newline tw).1
unfolding newline scroll
newline-Step tw sized y_in =
    let wrap : u16 (tw.cursor_y + 1) ≡ tw.cursor_y + 1 = ground arith in
    let up : ltb 0 (tw.cursor_y + 1) ≡ true = ground arith in
    elim (Bool-cases (leb ttyw_height (tw.cursor_y + 1))) [
      | inl last ↦
          rw (wrap, last, up)
            (record {
              valid = record {
                sized = length-scrolled tw.buffer sized;
                x_in = omega arith;
                y_in = omega arith;
              };
              kept = λ x y hx hy out. absurd (omega arith);
              shows = ((omega arith, omega arith), (omega arith, omega arith));
            })
      | inr more ↦
          rw (wrap, more)
            (record {
              valid = record { sized = sized; x_in = omega arith; y_in = ground arith };
              kept = λ x y hx hy out. refl;
              shows = ((omega arith, omega arith), (omega arith, omega arith));
            })
    ]

-- The call returns, and it is a step from the old window.
abbrev pub Steps : TtyWindow → Option (TtyWindow × Lines) → Type 0
Steps tw none = ⊥
Steps tw (some (tw', lines)) = Step tw tw' lines

-- The character is written in its row, and the step goes on from there.
after_char :
    (tw tw' : TtyWindow) (ch : ℕ) (lines : Lines)
    → IsValid tw
    → let place = tw.cursor_y * ttyw_width + tw.cursor_x in
      let mid = record tw { buffer = set tw.buffer place ch; cursor_x = u16 (tw.cursor_x + 1) } in
      Step mid tw' lines → Step tw tw' lines
after_char tw tw' ch lines v s =
    let place = tw.cursor_y * ttyw_width + tw.cursor_x in
    record {
      valid = s.valid;
      kept = λ x y hx hy out.
          let other : place ≢ y * ttyw_width + x = omega (arith, s.shows, v.x_in) in
          s.kept x y hx hy out ∙ get_or-set_ne tw.buffer ch space other;
      shows = s.shows;
    }

write_one-Steps : (tw : TtyWindow) (ch : ℕ) → IsValid tw → Steps tw (write_one tw ch)
unfolding write_one
write_one-Steps tw ch v =
    let place = tw.cursor_y * ttyw_width + tw.cursor_x in
    let inside : ltb place (length tw.buffer) ≡ true = ground (arith, v.sized, v.x_in, v.y_in) in
    let mid = record tw { buffer = set tw.buffer place ch; cursor_x = u16 (tw.cursor_x + 1) } in
    let sized : length mid.buffer ≡ ttyw_width * ttyw_height =
      length-set tw.buffer place ch ∙ v.sized in
    elim (Bool-cases (ch == newline_char)) [
      | inl line ↦ rw line (newline-Step tw v.sized v.y_in)
      | inr char ↦ elim (Bool-cases (leb ttyw_width (u16 (tw.cursor_x + 1)))) [
        | inl full ↦
            rw (char, inside, full) (after_char tw _ ch _ v (newline-Step mid sized v.y_in))
        | inr room ↦
            rw (char, inside, room)
              (after_char tw mid ch _ v (record {
                valid = record { sized = sized; x_in = ground arith; y_in = v.y_in };
                kept = λ x y hx hy out. refl;
                shows = ((omega arith, omega arith), (omega arith, omega arith));
              }))
      ]
    ]

lines_union_lem :
    (a b : Lines) (y : ℕ)
    → b.begin < b.end
    → a.begin ≤ a.end
    → Outside (lines_union a b) y
    → Outside a y × Outside b y
unfolding lines_union
lines_union_lem a b y hb ha out = ground arith

lines_union_bounds :
    (a b : Lines)
    → b.begin < b.end
    → a.begin ≤ a.end
    → ((lines_union a b).begin ≤ b.begin)
      × (b.end ≤ (lines_union a b).end)
      × ((a.begin ≡ a.end)
          ⊎ (((lines_union a b).begin ≤ a.begin) × (a.end ≤ (lines_union a b).end)))
unfolding lines_union
lines_union_bounds a b hb ha = ground arith

-- The window after some characters, against the one before: the rows outside of the lines are the
-- same, and either nothing has happened or the lines hold the row of the cursor, before and now.
pub record Redraws (old tw : TtyWindow) (lines : Lines) : Type 0 where
  pub valid : IsValid tw
  pub ordered : lines.begin ≤ lines.end
  pub kept : Keeps old tw lines
  pub shows : (lines.begin ≡ lines.end) × (tw ≡ old) ⊎ Shows old lines × Shows tw lines

Redraws-Step :
    (old tw tw' : TtyWindow) (lines more : Lines)
    → Redraws old tw lines
    → Step tw tw' more
    → Redraws old tw' (lines_union lines more)
Redraws-Step old tw tw' lines more r s =
    let some_lines : more.begin < more.end = omega (arith, s.shows) in
    let bounds = lines_union_bounds lines more some_lines r.ordered in
    record {
      valid = s.valid;
      ordered = omega (arith, bounds);
      kept = λ x y hx hy out.
          let (out₁, out₂) = lines_union_lem lines more y some_lines r.ordered out in
          s.kept x y hx hy out₂ ∙ r.kept x y hx hy out₁;
      shows = elim r.shows [
        | inl (empty, same) ↦
            let row : tw.cursor_y ≡ old.cursor_y = ap TtyWindow.cursor_y same in
            inr (
              (omega (arith, bounds, s.shows), omega (arith, bounds, s.shows)),
              (omega (arith, bounds, s.shows), omega (arith, bounds, s.shows)),
            )
        | inr (before, now) ↦ inr (
          (omega (arith, bounds, s.shows), omega (arith, bounds, s.shows)),
          (omega (arith, bounds, s.shows), omega (arith, bounds, s.shows)),
        )
      ];
    }

write_loop_lem :
    (str : List ℕ) (old tw : TtyWindow) (lines : Lines)
    → Redraws old tw lines
    → (tw' : TtyWindow) × (lines' : Lines) × (write_loop str tw lines ≡ some (tw', lines'))
      × Redraws old tw' lines'
unfolding write_loop
write_loop_lem [] old tw lines r = (tw, lines, refl, r)
write_loop_lem (ch ∷ str) old tw lines r =
    let step = write_one-Steps tw ch r.valid in
    elim (Option-cases (write_one tw ch)) [
      | inl stuck ↦ absurd (rw stuck at step)
      | inr ((tw', more), written) ↦
          let (last, all, done, redraws) =
            write_loop_lem str old tw' (lines_union lines more)
              (Redraws-Step old tw tw' lines more r (rw written at step)) in
          (last, all, rw (write_loop, written) done, redraws)
    ]

-- On a window whose cursor is on the screen and whose buffer has the screen, a write of any string
-- keeps the cursor on the screen and never goes behind the buffer, and the lines that it invalidates are enough: every row outside of them is the same as before, and unless
-- nothing was written they hold the rows where the cursor was and where it is.
pub write-Redraws :
    (tw : TtyWindow) (str : List ℕ)
    → IsValid tw
    → (tw' : TtyWindow) × (lines : Lines) × (write tw str ≡ some (tw', lines))
      × Redraws tw tw' lines
unfolding write
write-Redraws tw str v =
    write_loop_lem str tw tw (record { begin = 0; end = 0 })
      (record {
        valid = v;
        ordered = omega arith;
        kept = λ x y hx hy out. refl;
        shows = inl (refl, refl);
      })

row_low :
    (x y last : ℕ)
    → x < ttyw_width
    → y < ttyw_height
    → last + 1 ≡ ttyw_height
    → let place = y * ttyw_width + x in
      ((y == last) ≡ true → ltb place 1920 ≡ false)
      × ((y == last) ≡ false → (place < 1920) × (ltb place 1920 ≡ true))
row_low x y last hx hy e = (λ h. ground arith, λ h. (ground arith, ground arith))

scrolled-cell :
    (tw : TtyWindow) (x y : ℕ)
    → IsValid tw
    → tw.cursor_y + 1 ≡ ttyw_height
    → x < ttyw_width
    → y < ttyw_height
    → get_or (scrolled tw.buffer) (y * ttyw_width + x) space
      ≡ (if y == tw.cursor_y then space else cell tw x (y + 1))
unfolding scrolled
scrolled-cell tw x y v last hx hy =
    let place = y * ttyw_width + x in
    let upper = take (ttyw_width * (ttyw_height - 1)) (drop ttyw_width tw.buffer) in
    let whole : length upper ≡ ttyw_width * (ttyw_height - 1) =
      omega (arith, length-take 1920 (drop 80 tw.buffer), length-drop 80 tw.buffer, v.sized) in
    let split = get_or-append upper (replicate ttyw_width space) place space in
    elim (Bool-cases (y == tw.cursor_y)) [
      | inl bottom ↦
          let test = (row_low x y tw.cursor_y hx hy last).0 bottom in
          let low : ltb place (length upper) ≡ false = rw whole test in
          rw (bottom, split, low) (get_or-replicate ttyw_width (place - length upper) space)
      | inr higher ↦
          let (small, test) = (row_low x y tw.cursor_y hx hy last).1 higher in
          let low : ltb place (length upper) ≡ true = rw whole test in
          let next : ttyw_width + place ≡ (y + 1) * ttyw_width + x = omega arith in
          rw (higher, split, low)
            (get_or-take 1920 (drop 80 tw.buffer) place space small
              ∙ get_or-drop 80 tw.buffer place space
              ∙ ap (λ i. get_or tw.buffer i space) next)
    ]

-- A line break on the last row moves every row up by one and leaves a blank last row; the cursor
-- stays there, at its start.
pub newline-scroll :
    (tw : TtyWindow)
    → IsValid tw
    → tw.cursor_y + 1 ≡ ttyw_height
    → let tw' = (newline tw).0 in
      (tw'.cursor_x ≡ 0)
      × (tw'.cursor_y ≡ tw.cursor_y)
      × ((x y : ℕ)
          → x < ttyw_width
          → y < ttyw_height
          → cell tw' x y ≡ (if y == tw.cursor_y then space else cell tw x (y + 1)))
unfolding newline scroll scrolled
newline-scroll tw v last =
    let wrap : u16 (tw.cursor_y + 1) ≡ tw.cursor_y + 1 = ground arith in
    let up : ltb 0 (tw.cursor_y + 1) ≡ true = ground arith in
    let bottom : leb ttyw_height (tw.cursor_y + 1) ≡ true = ground arith in
    rw (wrap, bottom, up) (refl, omega arith, λ x y hx hy. scrolled-cell tw x y v last hx hy)

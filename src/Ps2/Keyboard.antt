-- ===== src/Ps2/Keyboard.antt =====
-- kernel/src/drivers/ps2_keyboard.c and struct ps2_keyboard of kernel/include/drivers/ps2.h.
-- The first half turns bytes into key events (ps2_keyboard_init, ps2_keyboard_put_byte), the
-- second turns key events into characters (ps2_keyboard_process_keyevent). A byte is a number
-- below 256. `state` stays the number that the code keeps, since its `switch` panics on others.

pub mod Decode
pub mod Modifiers
pub mod Chars
mod Tests
use rubberos.Base.{
  ℕ, ◌+◌, ◌*◌, ◌%◌, Bool, true, false, not, ◌&&◌, ◌||◌, Option, none, some, ◌==◌, leb,
  if◌then◌else◌,
}
use rubberos.Ps2.Keycode.{
  Keycode, is_unknown, key_oem_tilde, key_1, key_2, key_3, key_4, key_5, key_6, key_7, key_8, key_9,
  key_0, key_minus, key_plus, key_q, key_w, key_e, key_r, key_t, key_y, key_u, key_i, key_o, key_p,
  key_oem_lbrace, key_oem_rbrace, key_oem_pipe, key_a, key_s, key_d, key_f, key_g, key_h, key_j,
  key_k, key_l, key_oem_colon, key_oem_quote, key_z, key_x, key_c, key_v, key_b, key_n, key_m,
  key_comma, key_period, key_oem_slash, key_space, key_tab, key_enter, key_numpad_mul,
  key_numpad_div, key_numpad_add, key_numpad_sub, key_numpad_enter, key_numpad0, key_numpad1,
  key_numpad2, key_numpad3, key_numpad4, key_numpad5, key_numpad6, key_numpad7, key_numpad8,
  key_numpad9, key_numpad_period, key_insert, key_end, key_down, key_pagedown, key_left, key_right,
  key_home, key_up, key_pageup, key_printscreen, key_pausebreak, key_lshift, key_rshift, key_lctrl,
  key_rctrl, key_lalt, key_ralt, key_capslock, key_scrolllock, key_numlock,
}
use rubberos.Ps2.ScanCodes.{keycode_normal, keycode_extended}

abbrev pub state_start : ℕ
state_start = 0

abbrev pub state_ext1 : ℕ
state_ext1 = 1

abbrev pub state_ext1_1 : ℕ
state_ext1_1 = 2

abbrev pub state_ext1_2 : ℕ
state_ext1_2 = 3

abbrev pub state_ext2_1 : ℕ
state_ext2_1 = 4

abbrev pub state_ext2_2 : ℕ
state_ext2_2 = 5

pub record Keyboard : Type 0 where
  pub state : ℕ
  pub byte : ℕ  -- the field `data`
  pub lshift : Bool
  pub rshift : Bool
  pub lctrl : Bool
  pub rctrl : Bool
  pub lalt : Bool
  pub ralt : Bool
  pub caps : Bool
  pub scroll : Bool
  pub num : Bool

pub record KeyEvent : Type 0 where
  pub keycode : Keycode
  pub keydown : Bool

pub init : Keyboard
init = record {
  state = state_start;
  byte = 0;
  lshift = false;
  rshift = false;
  lctrl = false;
  rctrl = false;
  lalt = false;
  ralt = false;
  caps = false;
  scroll = false;
  num = false;
}

-- What a call leaves: the keyboard, and the event if it returned true. `none` is the panic.
abbrev pub Outcome : Type 0
Outcome = Option (Keyboard × Option KeyEvent)

abbrev pub silent : Keyboard → Outcome
silent kb = some (kb, none)

abbrev pub event : Keyboard → Keycode → Bool → Outcome
event kb key down = some (kb, some (record { keycode = key; keydown = down }))

-- `if (keycode == KEYCODE_UNKNOWN) return false;` and the event otherwise
report : Keyboard → Keycode → Bool → Outcome
report kb key down = if is_unknown key then silent kb else event kb key down

-- `byte & 0x80` and `byte & 0x7f`, in the form that arithmetic reads
abbrev pub is_break : ℕ → Bool
is_break byte = leb 0x80 byte

abbrev pub make_code : ℕ → ℕ
make_code byte = byte % 0x80

-- case STATE_START
put_start : Keyboard → ℕ → Outcome
unfolding report
put_start kb byte =
    if byte == 0xe0
    then silent (record kb { state = state_ext1 })
    else if byte == 0xe1
    then silent (record kb { state = state_ext2_1 })
    else if is_break byte
    then report kb (keycode_normal (make_code byte)) false
    else report kb (keycode_normal byte) true

-- case STATE_EXT1
put_ext1 : Keyboard → ℕ → Outcome
unfolding report
put_ext1 kb byte =
    if byte == 0x2a || byte == 0xb7
    then silent (record kb { state = state_ext1_1; byte = byte })
    else let kb' = record kb { state = state_start } in
      if is_break byte
      then report kb' (keycode_extended (make_code byte)) false
      else report kb' (keycode_extended byte) true

-- case STATE_EXT1_2
put_ext1_2 : Keyboard → ℕ → Outcome
put_ext1_2 kb byte =
    let kb' = record kb { state = state_start } in
    if kb.byte == 0xb7 && byte == 0xaa
    then event kb' key_printscreen false
    else if kb.byte == 0x2a && byte == 0x37
    then event kb' key_printscreen true
    else silent kb'

-- case STATE_EXT2_2. The low byte of `data << 8` is zero, so `|` adds the byte.
put_ext2_2 : Keyboard → ℕ → Outcome
put_ext2_2 kb byte =
    let kb' = record kb { state = state_start } in
    let code = kb.byte * 256 + byte in
    if code == 0x9dc5
    then event kb' key_pausebreak false
    else if code == 0x1d45
    then event kb' key_pausebreak true
    else silent kb'

-- the `switch` over the state
put_switch : Keyboard → ℕ → Outcome
unfolding put_start put_ext1 put_ext1_2 put_ext2_2
put_switch kb byte =
    if kb.state == state_start
    then put_start kb byte
    else if kb.state == state_ext1
    then put_ext1 kb byte
    else if kb.state == state_ext1_2
    then put_ext1_2 kb byte
    else if kb.state == state_ext2_1
    then silent (record kb { state = state_ext2_2; byte = byte })
    else if kb.state == state_ext2_2
    then put_ext2_2 kb byte
    else none

pub put_byte : Keyboard → ℕ → Outcome
unfolding put_switch
put_byte kb byte =
    if kb.state == state_ext1_1
    then (if byte == 0xe0
        then silent (record kb { state = state_ext1_2 })
        else put_switch (record kb { state = state_start }) byte)
    else put_switch kb byte

-- struct hid_char of kernel/include/drivers/hid.h
pub record HidChar : Type 0 where
  pub raw : Bool
  pub ch : ℕ
  pub keycode : Keycode

abbrev pub raw_char : Keycode → HidChar
raw_char key = record { raw = true; ch = 0; keycode = key }

abbrev pub text_char : Keycode → ℕ → HidChar
text_char key c = record { raw = false; ch = c; keycode = key }

-- the first `switch`: which modifier a key is
set_modifier : Keycode → Bool → Keyboard → Keyboard
set_modifier key_lshift down kb = record kb { lshift = down }
set_modifier key_rshift down kb = record kb { rshift = down }
set_modifier key_lctrl down kb = record kb { lctrl = down }
set_modifier key_rctrl down kb = record kb { rctrl = down }
set_modifier key_lalt down kb = record kb { lalt = down }
set_modifier key_ralt down kb = record kb { ralt = down }
set_modifier _ down kb = kb

-- the second `switch`, on a key that goes down
toggle_lock : Keycode → Keyboard → Keyboard
toggle_lock key_capslock kb = record kb { caps = not kb.caps }
toggle_lock key_scrolllock kb = record kb { scroll = not kb.scroll }
toggle_lock key_numlock kb = record kb { num = not kb.num }
toggle_lock _ kb = kb

-- the `switch` under `if (!control)`: the character of a key, if it has one
pub char_of : Bool → Bool → Keycode → Option ℕ
char_of shift upper key_oem_tilde = some (if shift then 0x7e else 0x60)
char_of shift upper key_1 = some (if shift then 0x21 else b'1')
char_of shift upper key_2 = some (if shift then 0x40 else b'2')
char_of shift upper key_3 = some (if shift then 0x23 else b'3')
char_of shift upper key_4 = some (if shift then 0x24 else b'4')
char_of shift upper key_5 = some (if shift then 0x25 else b'5')
char_of shift upper key_6 = some (if shift then 0x5e else b'6')
char_of shift upper key_7 = some (if shift then 0x26 else b'7')
char_of shift upper key_8 = some (if shift then 0x2a else b'8')
char_of shift upper key_9 = some (if shift then 0x28 else b'9')
char_of shift upper key_0 = some (if shift then 0x29 else b'0')
char_of shift upper key_minus = some (if shift then 0x5f else 0x2d)
char_of shift upper key_plus = some (if shift then 0x2b else 0x3d)
char_of shift upper key_q = some (if upper then b'Q' else b'q')
char_of shift upper key_w = some (if upper then b'W' else b'w')
char_of shift upper key_e = some (if upper then b'E' else b'e')
char_of shift upper key_r = some (if upper then b'R' else b'r')
char_of shift upper key_t = some (if upper then b'T' else b't')
char_of shift upper key_y = some (if upper then b'Y' else b'y')
char_of shift upper key_u = some (if upper then b'U' else b'u')
char_of shift upper key_i = some (if upper then b'I' else b'i')
char_of shift upper key_o = some (if upper then b'O' else b'o')
char_of shift upper key_p = some (if upper then b'P' else b'p')
char_of shift upper key_oem_lbrace = some (if shift then 0x7b else 0x5b)
char_of shift upper key_oem_rbrace = some (if shift then 0x7d else 0x5d)
char_of shift upper key_oem_pipe = some (if shift then 0x7c else 92)
char_of shift upper key_a = some (if upper then b'A' else b'a')
char_of shift upper key_s = some (if upper then b'S' else b's')
char_of shift upper key_d = some (if upper then b'D' else b'd')
char_of shift upper key_f = some (if upper then b'F' else b'f')
char_of shift upper key_g = some (if upper then b'G' else b'g')
char_of shift upper key_h = some (if upper then b'H' else b'h')
char_of shift upper key_j = some (if upper then b'J' else b'j')
char_of shift upper key_k = some (if upper then b'K' else b'k')
char_of shift upper key_l = some (if upper then b'L' else b'l')
char_of shift upper key_oem_colon = some (if shift then 0x3a else 0x3b)
char_of shift upper key_oem_quote = some (if shift then 0x22 else 39)
char_of shift upper key_z = some (if upper then b'Z' else b'z')
char_of shift upper key_x = some (if upper then b'X' else b'x')
char_of shift upper key_c = some (if upper then b'C' else b'c')
char_of shift upper key_v = some (if upper then b'V' else b'v')
char_of shift upper key_b = some (if upper then b'B' else b'b')
char_of shift upper key_n = some (if upper then b'N' else b'n')
char_of shift upper key_m = some (if upper then b'M' else b'm')
char_of shift upper key_comma = some (if shift then 0x3c else 0x2c)
char_of shift upper key_period = some (if shift then 0x3e else 0x2e)
char_of shift upper key_oem_slash = some (if shift then 0x3f else 0x2f)
char_of shift upper key_space = some 0x20
char_of shift upper key_tab = some 9
char_of shift upper key_enter = some 10
char_of shift upper key_numpad_mul = some 0x2a
char_of shift upper key_numpad_div = some 0x2f
char_of shift upper key_numpad_add = some 0x2b
char_of shift upper key_numpad_sub = some 0x2d
char_of shift upper key_numpad_enter = some 10
char_of _ _ _ = none

-- the last `switch`: a numpad key is its digit, or another key
numpad_of : Keycode → Option (ℕ × Keycode)
numpad_of key_numpad0 = some (b'0', key_insert)
numpad_of key_numpad1 = some (b'1', key_end)
numpad_of key_numpad2 = some (b'2', key_down)
numpad_of key_numpad3 = some (b'3', key_pagedown)
numpad_of key_numpad4 = some (b'4', key_left)
numpad_of key_numpad5 = some (b'5', key_numpad5)
numpad_of key_numpad6 = some (b'6', key_right)
numpad_of key_numpad7 = some (b'7', key_home)
numpad_of key_numpad8 = some (b'8', key_up)
numpad_of key_numpad9 = some (b'9', key_pageup)
numpad_of key_numpad_period = some (0x2e, key_period)
numpad_of _ = none

numpad_char : Bool → Bool → Keycode → HidChar
numpad_char num control key = elim (numpad_of key) [
  | none ↦ raw_char key
  | some (digit, other) ↦
      if num then (if control then raw_char key else text_char key digit) else raw_char other
]

abbrev pub xor : Bool → Bool → Bool
xor a b = if a then not b else b

pub process_keyevent : Keyboard → KeyEvent → Keyboard × HidChar
process_keyevent kb evt =
    let control = kb.lctrl || kb.rctrl || kb.lalt || kb.ralt in
    let shift = kb.lshift || kb.rshift in
    let upper = xor kb.caps shift in
    let kb₁ = set_modifier evt.keycode evt.keydown kb in
    if not evt.keydown
    then (kb₁, raw_char evt.keycode)
    else let kb₂ = toggle_lock evt.keycode kb₁ in
      let last = numpad_char kb₂.num control evt.keycode in
      (
        kb₂,
        if control then last else elim (char_of shift upper evt.keycode) [
          | some c ↦ text_char evt.keycode c
          | none ↦ last
        ],
      )

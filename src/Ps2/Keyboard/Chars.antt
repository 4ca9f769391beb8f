-- ===== src/Ps2/Keyboard/Chars.antt =====
-- The character that ps2_keyboard_process_keyevent makes of a key event.
use rubberos.Base.{
  ◌+◌, ℕ, ◌≤◌, ◌<◌, ◌≡◌, Bool, true, false, ◌||◌, Option, none, some, ◌⊎◌, arith, if◌then◌else◌,
}
use rubberos.Ps2.Keycode.{Keycode, key_numpad0, key_oem_tilde}
use rubberos.Ps2.Keyboard.{
  Keyboard, KeyEvent, HidChar, xor, text_char, set_modifier, toggle_lock, char_of, numpad_of,
  numpad_char, process_keyevent,
}

-- any of the control and alt keys is held
abbrev pub controls : Keyboard → Bool
controls kb = kb.lctrl || kb.rctrl || kb.lalt || kb.ralt

-- a character from tab to `~`
abbrev pub IsAscii : ℕ → Type 0
IsAscii c = (9 ≤ c) × (c < 0x7f)

abbrev AllSome : Option ℕ → Type 0
AllSome none = Unit
AllSome (some c) = IsAscii c

char_of_ascii : (shift upper : Bool) (key : Keycode) → AllSome (char_of shift upper key)
unfolding char_of
char_of_ascii shift upper key_oem_tilde = ground arith
char_of_ascii shift upper _ = ground arith

char_of_letter :
    (key : Keycode) (shift upper : Bool) (capital : ℕ)
    → char_of true true key ≡ some capital
    → b'A' ≤ capital
    → capital ≤ b'Z'
    → char_of shift upper key ≡ some (if upper then capital else capital + 32)
unfolding char_of
char_of_letter key_oem_tilde shift upper capital e lo hi = ground arith
char_of_letter _ shift upper capital e lo hi = ground arith

AllDigit : Option (ℕ × Keycode) → Type 0
AllDigit none = Unit
AllDigit (some (c, other)) = IsAscii c

numpad_of_ascii : (key : Keycode) → AllDigit (numpad_of key)
unfolding numpad_of AllDigit
numpad_of_ascii key_numpad0 = omega arith
numpad_of_ascii _ = omega arith

-- What a character without `raw` says of its event: a press with no control or alt key held, and
-- an ASCII character under the key's own code. One with `raw` has no character.
abbrev pub IsProper : Keyboard → KeyEvent → HidChar → Type 0
IsProper kb evt c =
    (c.raw ≡ true) × (c.ch ≡ 0)
    ⊎ (c.raw ≡ false)
      × (evt.keydown ≡ true)
      × (controls kb ≡ false)
      × IsAscii c.ch
      × (c.keycode ≡ evt.keycode)

numpad_char-IsProper :
    (num : Bool) (kb : Keyboard) (evt : KeyEvent)
    → evt.keydown ≡ true
    → IsProper kb evt (numpad_char num (controls kb) evt.keycode)
unfolding numpad_char AllDigit
numpad_char-IsProper num kb evt down = ground (arith, numpad_of_ascii evt.keycode)

-- Every event, on every keyboard, gives either a raw key or a proper character.
pub process_keyevent-IsProper :
    (kb : Keyboard) (evt : KeyEvent) → IsProper kb evt (process_keyevent kb evt).1
unfolding process_keyevent
process_keyevent-IsProper kb evt =
    let shift = kb.lshift || kb.rshift in
    let after = toggle_lock evt.keycode (set_modifier evt.keycode evt.keydown kb) in
    ground (
      arith,
      char_of_ascii shift (xor kb.caps shift) evt.keycode,
      numpad_char-IsProper after.num kb evt,
    )

-- A letter key, held without control or alt, is its capital letter exactly when one of caps lock
-- and shift is on, and otherwise the small letter, which is 32 above it.
pub process_keyevent_case :
    (kb : Keyboard) (key : Keycode) (capital : ℕ)
    → char_of true true key ≡ some capital
    → b'A' ≤ capital
    → capital ≤ b'Z'
    → controls kb ≡ false
    → (process_keyevent kb (record { keycode = key; keydown = true })).1
      ≡ text_char key (if xor kb.caps (kb.lshift || kb.rshift) then capital else capital + 32)
unfolding process_keyevent
process_keyevent_case kb key capital letter lo hi free =
    let shift = kb.lshift || kb.rshift in
    ground (arith, char_of_letter key shift (xor kb.caps shift) capital)

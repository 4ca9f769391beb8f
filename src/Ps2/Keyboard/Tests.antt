-- ===== src/Ps2/Keyboard/Tests.antt =====
-- Runs of the keyboard driver, and the instances of its theorems.
use rubberos.Base.{
  ◌+◌, ◌≡◌, ◌≢◌, refl, true, false, ◌||◌, some, List, [], ◌∷◌, arith, if◌then◌else◌,
}
use rubberos.Ps2.Keycode.{is_unknown, key_a, key_lshift, key_rctrl, key_capslock}
use rubberos.Ps2.ScanCodes.{keycode_normal, keycode_extended, switch}
use rubberos.Ps2.Keyboard.{
  state_ext1, KeyEvent, init, put_byte, xor, put_switch, put_start, report, process_keyevent,
  text_char, char_of,
}
use rubberos.Ps2.Keyboard.Decode.{
  IsValid, SameKeys, Returns, put_byte-Returns, put_byte_sound, left_control, run, press_release,
  run-press_release,
}
use rubberos.Ps2.Keyboard.Modifiers.{
  process_all, process_all_tracks, Modifier, Lock, held, locked, last_position, flips,
}
use rubberos.Ps2.Keyboard.Chars.{process_keyevent_case}

init-IsValid : IsValid init
unfolding init
init-IsValid = record { state_known = omega arith; byte_in = omega arith }

put_byte-Returns_example : Returns (λ kb' evt. IsValid kb' × SameKeys init kb') (put_byte init 0x1e)
put_byte-Returns_example = put_byte-Returns init 0x1e init-IsValid (omega arith)

abbrev a_down : KeyEvent
a_down = record { keycode = key_a; keydown = true }

put_run : put_byte init 0x1e ≡ some (init, some a_down)
unfolding init put_byte put_switch put_start report keycode_normal switch is_unknown
put_run = refl

put_byte_sound_example :
    (is_unknown key_a ≡ false)
    × (key_a ≢ key_rctrl)
    × (put_byte (record init { state = state_ext1 }) 0x1d ≡ left_control init true)
    × (put_byte (record init { state = state_ext1 }) 0x9d ≡ left_control init false)
put_byte_sound_example = put_byte_sound init 0x1e put_run

starts : init.state ≡ 0
unfolding init
starts = refl

a_known : is_unknown (keycode_normal 0x1e) ≡ false
unfolding keycode_normal switch is_unknown
a_known = refl

up_known : is_unknown (keycode_extended 0x48) ≡ false
unfolding keycode_extended switch is_unknown
up_known = refl

run-press_release_example :
    run init (0x1e ∷ 0x9e ∷ []) ≡ some (init, press_release (keycode_normal 0x1e))
run-press_release_example = run-press_release init starts 0x1e (omega arith) a_known

abbrev typed : List KeyEvent
typed =
    record { keycode = key_lshift; keydown = true }
    ∷ record { keycode = key_capslock; keydown = true }
    ∷ record { keycode = key_lshift; keydown = false }
    ∷ []

process_all_tracks_example :
    ((m : Modifier) → held m (process_all init typed) ≡ last_position m (held m init) typed)
    × ((l : Lock) → locked l (process_all init typed) ≡ flips l (locked l init) typed)
process_all_tracks_example = process_all_tracks typed init

a_letter : char_of true true key_a ≡ some b'A'
unfolding char_of
a_letter = refl

no_control : (init.lctrl || init.rctrl || init.lalt || init.ralt) ≡ false
unfolding init
no_control = refl

no_shift : xor init.caps (init.lshift || init.rshift) ≡ false
unfolding init
no_shift = refl

process_keyevent_case_example :
    (process_keyevent init a_down).1
    ≡ text_char key_a (if xor init.caps (init.lshift || init.rshift) then b'A' else b'A' + 32)
process_keyevent_case_example =
    process_keyevent_case init key_a b'A' a_letter (omega arith) (omega arith) no_control

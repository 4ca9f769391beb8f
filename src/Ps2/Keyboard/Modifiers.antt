-- ===== src/Ps2/Keyboard/Modifiers.antt =====
-- The modifier and lock bits that ps2_keyboard_process_keyevent keeps, over any history of events.
use rubberos.Base.{
  ◌∙◌, ap, ◌≡◌, refl, Bool, true, false, ◌&&◌, Option, none, some, List, [], ◌∷◌, arith, Bool-cases,
  inl, inr, if◌then◌else◌,
}
use rubberos.Ps2.Keycode.{
  Keycode, key_lshift, key_rshift, key_lctrl, key_rctrl, key_lalt, key_ralt, key_capslock,
  key_scrolllock, key_numlock,
}
use rubberos.Ps2.Keyboard.{Keyboard, KeyEvent, set_modifier, toggle_lock, process_keyevent, xor}

-- the events in order, as intr_msg_on_keyboard hands them over
unfoldable pub process_all : Keyboard → List KeyEvent → Keyboard
process_all kb [] = kb
process_all kb (evt ∷ evts) = process_all (process_keyevent kb evt).0 evts

-- A key of the six that the code tracks, with the bit that it keeps.
pub data Modifier : Type 0 where
  lshift rshift lctrl rctrl lalt ralt : Modifier

pub data Lock : Type 0 where
  caps scroll num : Lock

abbrev pub held : Modifier → Keyboard → Bool
held lshift kb = kb.lshift
held rshift kb = kb.rshift
held lctrl kb = kb.lctrl
held rctrl kb = kb.rctrl
held lalt kb = kb.lalt
held ralt kb = kb.ralt

abbrev pub locked : Lock → Keyboard → Bool
locked caps kb = kb.caps
locked scroll kb = kb.scroll
locked num kb = kb.num

-- which modifier, and which lock, a key is
unfoldable pub modifier_of : Keycode → Option Modifier
modifier_of key_lshift = some lshift
modifier_of key_rshift = some rshift
modifier_of key_lctrl = some lctrl
modifier_of key_rctrl = some rctrl
modifier_of key_lalt = some lalt
modifier_of key_ralt = some ralt
modifier_of _ = none

unfoldable pub lock_of : Keycode → Option Lock
lock_of key_capslock = some caps
lock_of key_scrolllock = some scroll
lock_of key_numlock = some num
lock_of _ = none

abbrev pub is_modifier : Modifier → Option Modifier → Bool
is_modifier lshift (some lshift) = true
is_modifier rshift (some rshift) = true
is_modifier lctrl (some lctrl) = true
is_modifier rctrl (some rctrl) = true
is_modifier lalt (some lalt) = true
is_modifier ralt (some ralt) = true
is_modifier _ _ = false

abbrev pub is_lock : Lock → Option Lock → Bool
is_lock caps (some caps) = true
is_lock scroll (some scroll) = true
is_lock num (some num) = true
is_lock _ _ = false

-- whether the modifier is held after the events, by the last event of its key
unfoldable pub last_position : Modifier → Bool → List KeyEvent → Bool
last_position m down [] = down
last_position m down (evt ∷ evts) =
    last_position m (if is_modifier m (modifier_of evt.keycode) then evt.keydown else down) evts

-- whether the lock is on after the events: it flips at each press of its key
unfoldable pub flips : Lock → Bool → List KeyEvent → Bool
flips l on [] = on
flips l on (evt ∷ evts) = flips l (xor (evt.keydown && is_lock l (lock_of evt.keycode)) on) evts

held-set_modifier :
    (key : Keycode) (m : Modifier) (down : Bool) (kb : Keyboard)
    → held m (set_modifier key down kb)
      ≡ (if is_modifier m (modifier_of key) then down else held m kb)
unfolding set_modifier modifier_of
held-set_modifier key_lshift m down kb = ground arith
held-set_modifier _ m down kb = ground arith

held-toggle_lock :
    (key : Keycode) (m : Modifier) (kb : Keyboard) → held m (toggle_lock key kb) ≡ held m kb
unfolding toggle_lock
held-toggle_lock key_capslock m kb = ground arith
held-toggle_lock _ m kb = ground arith

locked-set_modifier :
    (key : Keycode) (l : Lock) (down : Bool) (kb : Keyboard)
    → locked l (set_modifier key down kb) ≡ locked l kb
unfolding set_modifier
locked-set_modifier key_lshift l down kb = ground arith
locked-set_modifier _ l down kb = ground arith

locked-toggle_lock :
    (key : Keycode) (l : Lock) (kb : Keyboard)
    → locked l (toggle_lock key kb) ≡ xor (is_lock l (lock_of key)) (locked l kb)
unfolding toggle_lock lock_of
locked-toggle_lock key_capslock l kb = ground arith
locked-toggle_lock _ l kb = ground arith

module _ (kb : Keyboard) (evt : KeyEvent) where
  held-process :
      (m : Modifier)
      → held m (process_keyevent kb evt).0
        ≡ (if is_modifier m (modifier_of evt.keycode) then evt.keydown else held m kb)
  unfolding process_keyevent
  held-process m = elim (Bool-cases evt.keydown) [
    | inl down ↦ rw (down, held-toggle_lock, held-set_modifier)
    | inr up ↦ rw (up, held-set_modifier)
  ]

  locked-process :
      (l : Lock)
      → locked l (process_keyevent kb evt).0
        ≡ xor (evt.keydown && is_lock l (lock_of evt.keycode)) (locked l kb)
  unfolding process_keyevent
  locked-process l = elim (Bool-cases evt.keydown) [
    | inl down ↦ rw (down, locked-toggle_lock, locked-set_modifier)
    | inr up ↦ rw (up, locked-set_modifier)
  ]

-- After any events each modifier bit tells whether the last event of its key was a press (at the
-- start, what it was before), and each lock bit has flipped at every press of its key.
pub process_all_tracks :
    (evts : List KeyEvent) (kb : Keyboard)
    → ((m : Modifier) → held m (process_all kb evts) ≡ last_position m (held m kb) evts)
      × ((l : Lock) → locked l (process_all kb evts) ≡ flips l (locked l kb) evts)
unfolding process_all last_position flips
process_all_tracks [] kb = (λ m. refl, λ l. refl)
process_all_tracks (evt ∷ evts) kb =
    let (mods, locks) = process_all_tracks evts (process_keyevent kb evt).0 in
    (
      λ m. mods m ∙ ap (λ b. last_position m b evts) (held-process kb evt m),
      λ l. locks l ∙ ap (λ b. flips l b evts) (locked-process kb evt l),
    )

-- ===== src/Ps2/Keyboard/Decode.antt =====
-- What ps2_keyboard_put_byte does with any byte, and with the sequences of make and break codes.
use rubberos.Base.{
  ℕ, ◌%◌, ◌+◌, ◌≤◌, ◌<◌, ◌≡◌, ◌≢◌, refl, Bool, true, false, Option, none, some, List, [], ◌∷◌,
  arith,
}
use mathlib.Core.Path.{subst}
use rubberos.Ps2.Keycode.{
  keycode_unknown, Keycode, is_unknown, key_lctrl, key_rctrl, key_printscreen, key_pausebreak,
}
use rubberos.Ps2.ScanCodes.{keycode_normal, keycode_extended}
use rubberos.Ps2.ScanCodes.Avoids.{normal_avoids, extended_avoids}
use rubberos.Ps2.Keyboard.{
  state_start, state_ext1, state_ext2_2, Keyboard, KeyEvent, Outcome, put_byte,
}

pub record IsValid (kb : Keyboard) : Type 0 where
  pub state_known : kb.state ≤ state_ext2_2
  pub byte_in : kb.byte < 256

-- the modifier and lock bits, which only process_keyevent writes
abbrev pub SameKeys : Keyboard → Keyboard → Type 0
SameKeys kb kb' = kb' ≡ record kb { state = kb'.state; byte = kb'.byte }

-- The call returns, and its keyboard and event satisfy P.
abbrev pub Returns : (Keyboard → Option KeyEvent → Type 0) → Outcome → Type 0
Returns P none = ⊥
Returns P (some (kb, evt)) = P kb evt

-- From a valid keyboard every byte is handled without a panic: the new keyboard is valid, and its
-- modifier and lock bits are the old ones.
pub put_byte-Returns :
    (kb : Keyboard) (byte : ℕ)
    → IsValid kb
    → byte < 256
    → Returns (λ kb' evt. IsValid kb' × SameKeys kb kb') (put_byte kb byte)
unfolding put_byte
put_byte-Returns kb byte v h = ground arith

-- A key that no event has: the unknown key, and the right control key.
never_sent : Keycode → Bool
never_sent keycode_unknown = true
never_sent key_rctrl = true
never_sent _ = false

is_rctrl : Keycode → Bool
is_rctrl key_rctrl = true
is_rctrl _ = false

not_rctrl : (key : Keycode) → is_rctrl key ≡ false → is_unknown key ≡ false → never_sent key ≡ false
unfolding is_rctrl is_unknown never_sent
not_rctrl keycode_unknown other known = cc
not_rctrl key_rctrl other known = cc
not_rctrl _ other known = refl

module _ (byte : ℕ) where
  sent_normal : is_unknown (keycode_normal byte) ≡ false → never_sent (keycode_normal byte) ≡ false
  unfolding is_rctrl
  sent_normal = not_rctrl _ (normal_avoids is_rctrl refl byte refl)

  sent_extended :
      is_unknown (keycode_extended byte) ≡ false → never_sent (keycode_extended byte) ≡ false
  unfolding is_rctrl
  sent_extended = not_rctrl _ (extended_avoids is_rctrl refl byte refl)

sent_special : (never_sent key_printscreen ≡ false) × (never_sent key_pausebreak ≡ false)
unfolding never_sent
sent_special = (refl, refl)

abbrev sends : (Keycode → Bool) → Outcome → Bool
sends p none = false
sends p (some (kb, none)) = false
sends p (some (kb, some evt)) = p evt.keycode

put_byte_never_sends : (kb : Keyboard) (byte : ℕ) → sends never_sent (put_byte kb byte) ≡ false
unfolding put_byte
put_byte_never_sends kb byte = ground (
  arith,
  sent_normal byte,
  sent_normal (byte % 0x80),
  sent_extended byte,
  sent_extended (byte % 0x80),
  sent_special,
)

-- the event of the left control key, which leaves the start state
abbrev pub left_control : Keyboard → Bool → Outcome
left_control kb down =
    some (record kb { state = state_start }, some (record { keycode = key_lctrl; keydown = down }))

put_right_control :
    (kb : Keyboard)
    → (put_byte (record kb { state = state_ext1 }) 0x1d ≡ left_control kb true)
      × (put_byte (record kb { state = state_ext1 }) 0x9d ≡ left_control kb false)
unfolding put_byte keycode_extended is_unknown
put_right_control kb = (refl, refl)

never_sent-false :
    (key : Keycode) → never_sent key ≡ false → (is_unknown key ≡ false) × (key ≢ key_rctrl)
unfolding never_sent is_unknown
never_sent-false keycode_unknown h = cc
never_sent-false key_rctrl h = cc
never_sent-false _ h = (refl, λ e. cc)

-- An event that a byte completes has a known key, which is never the right control key. The codes of
-- the right control key, 0x1d and 0x9d behind 0xe0, are reported as the left control key going down
-- and up.
pub put_byte_sound :
    (kb : Keyboard) (byte : ℕ) {kb' : Keyboard} {evt : KeyEvent}
    → put_byte kb byte ≡ some (kb', some evt)
    → (is_unknown evt.keycode ≡ false)
      × (evt.keycode ≢ key_rctrl)
      × (put_byte (record kb { state = state_ext1 }) 0x1d ≡ left_control kb true)
      × (put_byte (record kb { state = state_ext1 }) 0x9d ≡ left_control kb false)
put_byte_sound kb byte {evt} e =
    let (known, other) = never_sent-false evt.keycode (rw e at (put_byte_never_sends kb byte)) in
    let (down, up) = put_right_control kb in (known, other, down, up)

-- The bytes of a sequence in order, as intr_msg_on_keyboard feeds them: the events that they make.
unfoldable pub run : Keyboard → List ℕ → Option (Keyboard × List KeyEvent)
run kb [] = some (kb, [])
run kb (byte ∷ bytes) = elim (put_byte kb byte) [
  | none ↦ none
  | some (kb', evt) ↦ elim (run kb' bytes) [
    | none ↦ none
    | some (last, evts) ↦ some (last, elim evt [ none ↦ evts | some e ↦ e ∷ evts ])
  ]
]

abbrev pub press_release : Keycode → List KeyEvent
press_release key =
    record { keycode = key; keydown = true } ∷ record { keycode = key; keydown = false } ∷ []

-- 0x60 and 0x61, whose break codes would be the prefixes, have no key, and so have the extended
-- codes of the print screen sequences.
prefixes_unknown :
    (is_unknown (keycode_normal 0x60) ≡ true)
    × (is_unknown (keycode_normal 0x61) ≡ true)
    × (is_unknown (keycode_extended 0x2a) ≡ true)
    × (is_unknown (keycode_extended 0x37) ≡ true)
unfolding is_unknown keycode_normal keycode_extended
prefixes_unknown = (refl, refl, refl, refl)

run-cons :
    (kb : Keyboard) (byte : ℕ) (bytes : List ℕ) {kb' last : Keyboard} {evt : Option KeyEvent}
    {evts : List KeyEvent}
    → put_byte kb byte ≡ some (kb', evt)
    → run kb' bytes ≡ some (last, evts)
    → run kb (byte ∷ bytes) ≡ some (last, elim evt [ none ↦ evts | some e ↦ e ∷ evts ])
unfolding run
run-cons kb byte bytes e f = rw (e, run) (rw (f, run))

run-nil : (kb : Keyboard) → run kb [] ≡ some (kb, [])
unfolding run
run-nil kb = refl

module _ (kb : Keyboard) (start : kb.state ≡ state_start) (code : ℕ) (low : code < 0x80) where
  put_normal :
      is_unknown (keycode_normal code) ≡ false
      → let key = keycode_normal code in
        (put_byte kb code ≡ some (kb, some (record { keycode = key; keydown = true })))
        × (put_byte kb (code + 0x80) ≡ some (kb, some (record { keycode = key; keydown = false })))
  unfolding put_byte
  put_normal known =
      let wrap : (code + 0x80) % 0x80 ≡ code = omega arith in
      (ground (arith, prefixes_unknown), ground (arith, prefixes_unknown, wrap))

  put_extended :
      is_unknown (keycode_extended code) ≡ false
      → let key = keycode_extended code in
        let kb' = record kb { state = state_ext1 } in
        (put_byte kb 0xe0 ≡ some (kb', none))
        × (put_byte kb' code ≡ some (kb, some (record { keycode = key; keydown = true })))
        × (put_byte kb' (code + 0x80) ≡ some (kb, some (record { keycode = key; keydown = false })))
  unfolding put_byte
  put_extended known =
      let wrap : (code + 0x80) % 0x80 ≡ code = omega arith in
      (ground arith, ground (arith, prefixes_unknown), ground (arith, prefixes_unknown, wrap))

  -- A make code with a key, followed by its break code, is that key going down and up.
  pub run-press_release :
      is_unknown (keycode_normal code) ≡ false
      → run kb (code ∷ (code + 0x80) ∷ []) ≡ some (kb, press_release (keycode_normal code))
  run-press_release known =
      let (down, up) = put_normal known in run-cons kb code _ down (run-cons kb _ _ up (run-nil kb))

  -- So it is for the extended keys, each code behind 0xe0.
  pub run-press_release_extended :
      is_unknown (keycode_extended code) ≡ false
      → run kb (0xe0 ∷ code ∷ 0xe0 ∷ (code + 0x80) ∷ [])
        ≡ some (kb, press_release (keycode_extended code))
  run-press_release_extended known =
      let (ext, down, up) = put_extended known in
      run-cons kb _ _ ext
        (run-cons _ code _ down (run-cons kb _ _ ext (run-cons _ _ _ up (run-nil kb))))

run_special_at :
    (kb : Keyboard)
    → let kb' = record kb { state = state_start } in
      (run kb' (0xe0 ∷ 0x2a ∷ 0xe0 ∷ 0x37 ∷ 0xe0 ∷ 0xb7 ∷ 0xe0 ∷ 0xaa ∷ [])
        ≡ some (record kb' { byte = 0xb7 }, press_release key_printscreen))
      × (run kb' (0xe1 ∷ 0x1d ∷ 0x45 ∷ 0xe1 ∷ 0x9d ∷ 0xc5 ∷ [])
          ≡ some (record kb' { byte = 0x9d }, press_release key_pausebreak))
unfolding run put_byte
run_special_at kb = (refl, refl)

-- The sequences of the two keys with no code of their own: print screen down and up, and pause
-- down and up.
pub run_special :
    (kb : Keyboard)
    → kb.state ≡ state_start
    → (run kb (0xe0 ∷ 0x2a ∷ 0xe0 ∷ 0x37 ∷ 0xe0 ∷ 0xb7 ∷ 0xe0 ∷ 0xaa ∷ [])
        ≡ some (record kb { byte = 0xb7 }, press_release key_printscreen))
      × (run kb (0xe1 ∷ 0x1d ∷ 0x45 ∷ 0xe1 ∷ 0x9d ∷ 0xc5 ∷ [])
          ≡ some (record kb { byte = 0x9d }, press_release key_pausebreak))
run_special kb start =
    let same : record kb { state = state_start } ≡ kb = ground arith in
    subst
      (λ k.
        (run k (0xe0 ∷ 0x2a ∷ 0xe0 ∷ 0x37 ∷ 0xe0 ∷ 0xb7 ∷ 0xe0 ∷ 0xaa ∷ [])
          ≡ some (record k { byte = 0xb7 }, press_release key_printscreen))
        × (run k (0xe1 ∷ 0x1d ∷ 0x45 ∷ 0xe1 ∷ 0x9d ∷ 0xc5 ∷ [])
            ≡ some (record k { byte = 0x9d }, press_release key_pausebreak)))
      same (run_special_at kb)

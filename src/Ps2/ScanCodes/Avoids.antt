-- ===== src/Ps2/ScanCodes/Avoids.antt =====
-- A property of every key that a scan code table names, and of the unknown key, holds of whatever
-- the table returns.
use rubberos.Base.{ℕ, ◌≡◌, Bool, true, false, ◌&&◌, List, [], ◌∷◌, arith, not}
use rubberos.Ps2.Keycode.{Keycode, keycode_unknown}
use rubberos.Ps2.ScanCodes.{switch, normal_cases, extended_cases, keycode_normal, keycode_extended}

-- no key of the table passes the test
abbrev pub none_passes : (Keycode → Bool) → List (ℕ × Keycode) → Bool
none_passes p [] = true
none_passes p ((code, key) ∷ cases) = not (p key) && none_passes p cases

module _ (p : Keycode → Bool) (unknown : p keycode_unknown ≡ false) where
  switch_avoids :
      (byte : ℕ) (cases : List (ℕ × Keycode))
      → none_passes p cases ≡ true
      → p (switch byte cases) ≡ false
  unfolding switch
  switch_avoids byte [] h = unknown
  switch_avoids byte ((code, key) ∷ cases) h = ground (arith, switch_avoids byte cases)

  pub normal_avoids :
      (byte : ℕ) → none_passes p normal_cases ≡ true → p (keycode_normal byte) ≡ false
  unfolding keycode_normal
  normal_avoids byte h = switch_avoids byte normal_cases h

  pub extended_avoids :
      (byte : ℕ) → none_passes p extended_cases ≡ true → p (keycode_extended byte) ≡ false
  unfolding keycode_extended
  extended_avoids byte h = switch_avoids byte extended_cases h

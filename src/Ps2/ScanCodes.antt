-- ===== src/Ps2/ScanCodes.antt =====
-- The scan code tables of kernel/src/drivers/ps2_keyboard.c: a `switch` that returns a key in each
-- case is its list of cases.
pub mod Avoids
use rubberos.Base.{ℕ, List, [], ◌∷◌, ◌==◌, if◌then◌else◌}
use rubberos.Ps2.Keycode.{
  Keycode, key_escape, key_1, key_2, key_3, key_4, key_5, key_6, key_7, key_8, key_9, key_0,
  key_minus, key_plus, key_backspace, key_tab, key_q, key_w, key_e, key_r, key_t, key_y, key_u,
  key_i, key_o, key_p, key_oem_lbrace, key_oem_rbrace, key_enter, key_lctrl, key_a, key_s, key_d,
  key_f, key_g, key_h, key_j, key_k, key_l, key_oem_colon, key_oem_quote, key_oem_tilde, key_lshift,
  key_oem_pipe, key_z, key_x, key_c, key_v, key_b, key_n, key_m, key_comma, key_period,
  key_oem_slash, key_rshift, key_numpad_mul, key_lalt, key_space, key_capslock, key_f1, key_f2,
  key_f3, key_f4, key_f5, key_f6, key_f7, key_f8, key_f9, key_f10, key_numlock, key_scrolllock,
  key_numpad7, key_numpad8, key_numpad9, key_numpad_sub, key_numpad4, key_numpad5, key_numpad6,
  key_numpad_add, key_numpad1, key_numpad2, key_numpad3, key_numpad0, key_numpad_period, key_f11,
  key_f12, key_mm_prevtrack, key_mm_nexttrack, key_numpad_enter, key_mm_mute, key_mm_calculator,
  key_mm_playpause, key_mm_stop, key_mm_volumedown, key_mm_volumeup, key_mm_wwwhome, key_numpad_div,
  key_ralt, key_home, key_up, key_pageup, key_left, key_right, key_end, key_down, key_pagedown,
  key_insert, key_delete, key_lwin, key_rwin, key_apps, key_acpi_power, key_acpi_sleep,
  key_acpi_wake, key_mm_wwwsearch, key_mm_wwwfavorites, key_mm_wwwrefresh, key_mm_wwwstop,
  key_mm_wwwforward, key_mm_wwwback, key_mm_mycomputer, key_mm_email, key_mm_mediaselect,
  keycode_unknown,
}

-- The `switch`: the first case with the byte, or the default.
unfoldable pub switch : ℕ → List (ℕ × Keycode) → Keycode
switch byte [] = keycode_unknown
switch byte ((code, key) ∷ cases) = if byte == code then key else switch byte cases

abbrev pub normal_cases : List (ℕ × Keycode)
normal_cases =
    (0x01, key_escape)
    ∷ (0x02, key_1)
    ∷ (0x03, key_2)
    ∷ (0x04, key_3)
    ∷ (0x05, key_4)
    ∷ (0x06, key_5)
    ∷ (0x07, key_6)
    ∷ (0x08, key_7)
    ∷ (0x09, key_8)
    ∷ (0x0a, key_9)
    ∷ (0x0b, key_0)
    ∷ (0x0c, key_minus)
    ∷ (0x0d, key_plus)
    ∷ (0x0e, key_backspace)
    ∷ (0x0f, key_tab)
    ∷ (0x10, key_q)
    ∷ (0x11, key_w)
    ∷ (0x12, key_e)
    ∷ (0x13, key_r)
    ∷ (0x14, key_t)
    ∷ (0x15, key_y)
    ∷ (0x16, key_u)
    ∷ (0x17, key_i)
    ∷ (0x18, key_o)
    ∷ (0x19, key_p)
    ∷ (0x1a, key_oem_lbrace)
    ∷ (0x1b, key_oem_rbrace)
    ∷ (0x1c, key_enter)
    ∷ (0x1d, key_lctrl)
    ∷ (0x1e, key_a)
    ∷ (0x1f, key_s)
    ∷ (0x20, key_d)
    ∷ (0x21, key_f)
    ∷ (0x22, key_g)
    ∷ (0x23, key_h)
    ∷ (0x24, key_j)
    ∷ (0x25, key_k)
    ∷ (0x26, key_l)
    ∷ (0x27, key_oem_colon)
    ∷ (0x28, key_oem_quote)
    ∷ (0x29, key_oem_tilde)
    ∷ (0x2a, key_lshift)
    ∷ (0x2b, key_oem_pipe)
    ∷ (0x2c, key_z)
    ∷ (0x2d, key_x)
    ∷ (0x2e, key_c)
    ∷ (0x2f, key_v)
    ∷ (0x30, key_b)
    ∷ (0x31, key_n)
    ∷ (0x32, key_m)
    ∷ (0x33, key_comma)
    ∷ (0x34, key_period)
    ∷ (0x35, key_oem_slash)
    ∷ (0x36, key_rshift)
    ∷ (0x37, key_numpad_mul)
    ∷ (0x38, key_lalt)
    ∷ (0x39, key_space)
    ∷ (0x3a, key_capslock)
    ∷ (0x3b, key_f1)
    ∷ (0x3c, key_f2)
    ∷ (0x3d, key_f3)
    ∷ (0x3e, key_f4)
    ∷ (0x3f, key_f5)
    ∷ (0x40, key_f6)
    ∷ (0x41, key_f7)
    ∷ (0x42, key_f8)
    ∷ (0x43, key_f9)
    ∷ (0x44, key_f10)
    ∷ (0x45, key_numlock)
    ∷ (0x46, key_scrolllock)
    ∷ (0x47, key_numpad7)
    ∷ (0x48, key_numpad8)
    ∷ (0x49, key_numpad9)
    ∷ (0x4a, key_numpad_sub)
    ∷ (0x4b, key_numpad4)
    ∷ (0x4c, key_numpad5)
    ∷ (0x4d, key_numpad6)
    ∷ (0x4e, key_numpad_add)
    ∷ (0x4f, key_numpad1)
    ∷ (0x50, key_numpad2)
    ∷ (0x51, key_numpad3)
    ∷ (0x52, key_numpad0)
    ∷ (0x53, key_numpad_period)
    ∷ (0x57, key_f11)
    ∷ (0x58, key_f12)
    ∷ []

unfoldable pub keycode_normal : ℕ → Keycode
unfolding switch
keycode_normal byte = switch byte normal_cases

abbrev pub extended_cases : List (ℕ × Keycode)
extended_cases =
    (0x10, key_mm_prevtrack)
    ∷ (0x19, key_mm_nexttrack)
    ∷ (0x1c, key_numpad_enter)
    ∷ (0x1d, key_lctrl)
    ∷ (0x20, key_mm_mute)
    ∷ (0x21, key_mm_calculator)
    ∷ (0x22, key_mm_playpause)
    ∷ (0x24, key_mm_stop)
    ∷ (0x2e, key_mm_volumedown)
    ∷ (0x30, key_mm_volumeup)
    ∷ (0x32, key_mm_wwwhome)
    ∷ (0x35, key_numpad_div)
    ∷ (0x38, key_ralt)
    ∷ (0x47, key_home)
    ∷ (0x48, key_up)
    ∷ (0x49, key_pageup)
    ∷ (0x4b, key_left)
    ∷ (0x4d, key_right)
    ∷ (0x4f, key_end)
    ∷ (0x50, key_down)
    ∷ (0x51, key_pagedown)
    ∷ (0x52, key_insert)
    ∷ (0x53, key_delete)
    ∷ (0x5b, key_lwin)
    ∷ (0x5c, key_rwin)
    ∷ (0x5d, key_apps)
    ∷ (0x5e, key_acpi_power)
    ∷ (0x5f, key_acpi_sleep)
    ∷ (0x63, key_acpi_wake)
    ∷ (0x65, key_mm_wwwsearch)
    ∷ (0x66, key_mm_wwwfavorites)
    ∷ (0x67, key_mm_wwwrefresh)
    ∷ (0x68, key_mm_wwwstop)
    ∷ (0x69, key_mm_wwwforward)
    ∷ (0x6a, key_mm_wwwback)
    ∷ (0x6b, key_mm_mycomputer)
    ∷ (0x6c, key_mm_email)
    ∷ (0x6d, key_mm_mediaselect)
    ∷ []

unfoldable pub keycode_extended : ℕ → Keycode
unfolding switch
keycode_extended byte = switch byte extended_cases

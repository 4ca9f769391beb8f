-- ===== src/Ps2/Keycode.antt =====
-- kernel/include/drivers/keycode.h: the keys. A key with two names (KEY_OEM3 and KEY_OEM_TILDE)
-- has the name that the keyboard driver uses.
use rubberos.Base.{Bool, true, false}

pub data Keycode : Type 0 where
  key_escape key_f1 key_f2 key_f3 key_f4 key_f5 key_f6 key_f7 key_f8 key_f9 key_f10 : Keycode
  key_f11 key_f12 key_printscreen key_sysrq key_scrolllock key_pausebreak key_oem_tilde : Keycode
  key_1 key_2 key_3 key_4 key_5 key_6 key_7 key_8 key_9 key_0 key_minus key_plus : Keycode
  key_backspace key_insert key_home key_pageup key_tab key_q key_w key_e key_r key_t : Keycode
  key_y key_u key_i key_o key_p key_oem_lbrace key_oem_rbrace key_oem_pipe key_delete : Keycode
  key_end key_pagedown key_capslock key_a key_s key_d key_f key_g key_h key_j key_k key_l : Keycode
  key_oem_colon key_oem_quote key_enter key_lshift key_z key_x key_c key_v key_b key_n : Keycode
  key_m key_comma key_period key_oem_slash key_rshift key_up key_lctrl key_lwin key_lalt : Keycode
  key_space key_ralt key_rwin key_apps key_rctrl key_left key_down key_right key_numlock : Keycode
  key_numpad_div key_numpad_mul key_numpad_sub key_numpad7 key_numpad8 key_numpad9 : Keycode
  key_numpad_add key_numpad4 key_numpad5 key_numpad6 key_numpad1 key_numpad2 key_numpad3 : Keycode
  key_numpad_enter key_numpad0 key_numpad_period key_mm_prevtrack key_mm_nexttrack : Keycode
  key_mm_mute key_mm_calculator key_mm_playpause key_mm_stop key_mm_volumedown : Keycode
  key_mm_volumeup key_mm_wwwhome key_mm_wwwsearch key_mm_wwwfavorites key_mm_wwwrefresh : Keycode
  key_mm_wwwstop key_mm_wwwforward key_mm_wwwback key_mm_mycomputer key_mm_email : Keycode
  key_mm_mediaselect key_acpi_power key_acpi_sleep key_acpi_wake keycode_unknown : Keycode

-- `keycode == KEYCODE_UNKNOWN`
unfoldable pub is_unknown : Keycode → Bool
is_unknown keycode_unknown = true
is_unknown _ = false

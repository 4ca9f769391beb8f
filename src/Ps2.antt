-- ===== src/Ps2.antt =====
-- The PS/2 drivers: kernel/src/drivers/ps2_keyboard.c and ps2_mouse.c.
pub mod Keycode
pub mod ScanCodes
pub mod Keyboard
pub mod Mouse

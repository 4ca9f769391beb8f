-- ===== src/Gui.antt =====
-- kernel/src/gui: the shapes and the drawing on a framebuffer.
pub mod Shapes
pub mod Graphic
pub mod TtyWindow
pub mod Window

-- ===== src/Tty.antt =====
-- src/drivers/tty/tty.c and src/include/drivers/tty.h: the console, its screen memory and its
-- escape sequences.
pub mod State
pub mod Escape
pub mod Write
pub mod Bounds
pub mod Scroll
pub mod Print
pub mod Colours
mod Tests

-- ===== src/Tty/Bounds.antt =====
-- The console never leaves its screen memory: src/drivers/tty/tty.c.
pub mod Valid
pub mod Number
pub mod Commands
pub mod Stream

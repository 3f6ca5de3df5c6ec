-- ===== src/Tty.antt =====
-- The terminal of kernel/src/dev/dev_tty.c. A child is about the queue of typed characters, with the
-- line that can still be corrected, another about the screen.
pub mod Cook
pub mod Screen
pub mod Render
mod Tests

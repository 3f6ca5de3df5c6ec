-- ===== src/Kmt.antt =====
-- kernel/src/kmt.c: threads, spin locks and semaphores.
pub mod Spin
pub mod Sem
pub mod Schedule
mod Tests

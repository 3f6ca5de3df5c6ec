-- ===== src/Uproc.antt =====
-- kernel/src/uproc.c: the memory areas and the mapped pages of user processes.
pub mod Areas
pub mod Pages
pub mod Mmap
mod Tests

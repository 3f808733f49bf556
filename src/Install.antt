-- ===== src/Install.antt =====
-- internal/install: the block that oca manages in the start-up file of a shell.
pub mod Cut
pub mod Profile
mod Examples

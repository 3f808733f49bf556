-- ===== src/Occupancy.antt =====
-- internal/occupancy: which sessions occupy which worktrees.
pub mod Records
pub mod Warnings
mod Examples

-- ===== src/Runtime.antt =====
-- internal/advruntime: what oca reports of the runtime of Advance, and how it cleans up after it.
pub mod Types
pub mod Summary
pub mod Recovery
pub mod Attributes
pub mod Workflows
pub mod Debt
pub mod Sessions
pub mod Worktrees
pub mod Locks
pub mod Workspaces
pub mod Provider
mod Examples

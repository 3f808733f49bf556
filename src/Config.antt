-- ===== src/Config.antt =====
-- internal/config: the sections of stack.toml and their validation.
pub mod Types
pub mod Errors
pub mod Servers
pub mod SlotGroups
pub mod Sections
pub mod Toggles
pub mod Temporal
pub mod Validate
pub mod Expand
pub mod Resolve

-- ===== src/Render.antt =====
-- internal/render: merging into the files of an OpenCode installation.
pub mod Fields
pub mod Merge
pub mod Disk
pub mod Atomic
pub mod Apply
pub mod Array
pub mod Sections

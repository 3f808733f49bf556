-- ===== src/Maintain.antt =====
-- internal/maintain: the plan of `oca maintain` and its execution.
pub mod Types
pub mod SessionGate
pub mod Machine
pub mod Cleanup
pub mod Planner
pub mod Plan
pub mod Git
pub mod Rebuild
pub mod Drift
pub mod Execute

-- ===== src/Supervisor.antt =====
-- internal/temporal/supervise.go: the life of the local Temporal server. The processes, the network,
-- the file operations and the clock answer through `Env`, as functions of what was done so far.
pub mod Types
pub mod Status
pub mod Operations

-- ===== src/Maintain/Types.antt =====
-- internal/maintain/plan.go, cleanup.go and advance_state.go: the data of a maintenance plan.
use opencode_advance.Prelude.{ℤ, String, Bool, List, Message}

-- type GateStatus, with its constants; no other status is made.
pub data GateStatus : Type 0 where
  pass : GateStatus
  blocked : GateStatus
  warn : GateStatus

-- status == GateStatusBlocked
abbrev pub is_blocked : GateStatus → Bool
is_blocked GateStatus.pass = Bool.false
is_blocked GateStatus.blocked = Bool.true
is_blocked GateStatus.warn = Bool.false

-- type Blocker
pub record Blocker : Type 0 where
  pub code : String
  pub message : Message
  pub hint : String

-- type GateReport
pub record GateReport : Type 0 where
  pub status : GateStatus
  pub blockers : List Blocker

-- type Options
pub record Options : Type 0 where
  pub project_root : String
  pub config_path : String
  pub dry_run : Bool
  pub execute : Bool
  pub include_merge : Bool
  pub include_rebuild : Bool
  pub include_cleanup : Bool

-- type Action
pub record Action : Type 0 where
  pub id : String
  pub kind : String
  pub target : String
  pub branch : String
  pub path : String
  pub would_run : Bool
  pub execute_allowed : Bool
  pub blocked_by : List Blocker
  pub evidence : List String

-- type PluginDrift
pub record PluginDrift : Type 0 where
  pub plugin : String
  pub status : String
  pub path : String

-- type MergeCandidate
pub record MergeCandidate : Type 0 where
  pub change_id : String
  pub branch : String
  pub eligible : Bool
  pub reason : String

-- type RebuildAction
pub record RebuildAction : Type 0 where
  pub plugin : String
  pub needed : Bool
  pub reason : String

-- type CleanupCandidate
pub record CleanupCandidate : Type 0 where
  pub branch : String
  pub path : String
  pub eligible : Bool
  pub reason : String

-- type HealthFinding
pub record HealthFinding : Type 0 where
  pub code : String
  pub severity : String
  pub message : String

-- type Plan
pub record Plan : Type 0 where
  pub schema_version : ℤ
  pub generated_at : ℤ
  pub project_root : String
  pub default_branch : String
  pub session_gate : GateReport
  pub plugin_drift : List PluginDrift
  pub merge_candidates : List MergeCandidate
  pub rebuilds : List RebuildAction
  pub cleanup_candidates : List CleanupCandidate
  pub temporal_health : List HealthFinding
  pub actions : List Action
  pub blockers : List Blocker

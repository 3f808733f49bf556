-- ===== src/Runtime/Types.antt =====
-- internal/advruntime/runtime.go: the data of a report. Times and durations are in nanoseconds.
use opencode_advance.Prelude.{
  ℕ, suc, ◌*◌, ℤ, pos, negsuc, eqb_ℤ, String, Bool, List, [], show, ◌<>◌, is_blank, if◌then◌else◌,
}

-- type Status
pub data Status : Type 0 where
  pass : Status
  warn : Status
  fail : Status
  unknown : Status

-- type Severity
pub data Severity : Type 0 where
  info : Severity
  caution : Severity
  error : Severity

-- type Config
pub record Config : Type 0 where
  pub address : String
  pub namespace : String
  pub project_id : String
  pub change_id : String
  pub max_workflows : ℤ
  pub workflow_stale_after : ℤ
  pub session_stale_after : ℤ
  pub worktree_stale_after : ℤ
  pub task_queue_no_poller : ℤ

-- type Summary
pub record Summary : Type 0 where
  pub status : Status
  pub projects : ℕ
  pub workflow_queues : ℕ
  pub stale_workflow_queues : ℕ
  pub missing_search_attributes : ℕ
  pub session_debt : ℕ
  pub worktree_debt : ℕ
  pub findings : ℕ

-- type WorkflowQueueStatus
pub record WorkflowQueueStatus : Type 0 where
  pub project_id : String
  pub task_queue : String
  pub status : Status
  pub pollers : ℕ
  pub backlog : ℤ
  pub running_workflows : ℕ
  pub oldest_run_age : ℤ
  pub message : String
  pub hint : String

-- type SearchAttributeStatus
pub record SearchAttributeStatus : Type 0 where
  pub name : String
  pub expected : String
  pub actual : String
  pub status : Status
  pub message : String
  pub hint : String

-- type SessionDebtFinding
pub record SessionDebtFinding : Type 0 where
  pub path : String
  pub status : Status
  pub repairable : ℕ
  pub ignored : ℕ
  pub oldest_age : ℤ
  pub message : String
  pub hint : String

-- type WorktreeFinding
pub record WorktreeFinding : Type 0 where
  pub path : String
  pub branch : String
  pub status : Status
  pub age : ℤ
  pub message : String
  pub hint : String

-- type Finding
pub record Finding : Type 0 where
  pub code : String
  pub severity : Severity
  pub message : String
  pub hint : String

-- type RecoveryStep
pub record RecoveryStep : Type 0 where
  pub order : ℕ
  pub title : String
  pub command : List String
  pub dry_run_only : Bool
  pub destructive : Bool
  pub reason : String

-- type Report
pub record Report : Type 0 where
  pub generated_at : ℤ
  pub config : Config
  pub summary : Summary
  pub workflow_queues : List WorkflowQueueStatus
  pub search_attributes : List SearchAttributeStatus
  pub session_debt : List SessionDebtFinding
  pub worktrees : List WorktreeFinding
  pub findings : List Finding
  pub recovery_plan : List RecoveryStep

abbrev pub second : ℕ
second = 1000000000

abbrev minutes : ℕ → ℤ
minutes n = pos (n * (60 * second))

abbrev or_text : String → String → String
or_text s default = if is_blank s then default else s

abbrev or_number : ℤ → ℤ → ℤ
or_number n default = if eqb_ℤ n (pos 0) then default else n

-- Config.WithDefaults, with DefaultThresholds.
unfoldable pub with_defaults : Config → Config
with_defaults c = record {
  address = or_text c.address "127.0.0.1:7233";
  namespace = or_text c.namespace "default";
  project_id = c.project_id;
  change_id = c.change_id;
  max_workflows = or_number c.max_workflows (pos 500);
  workflow_stale_after = or_number c.workflow_stale_after (minutes 30);
  session_stale_after = or_number c.session_stale_after (minutes 1440);
  worktree_stale_after = or_number c.worktree_stale_after (minutes 10080);
  task_queue_no_poller = or_number c.task_queue_no_poller (minutes 5);
}

-- func NewReport
unfoldable pub new_report : ℤ → Config → Report
new_report now c = record {
  generated_at = now;
  config = with_defaults c;
  summary = record {
    status = Status.pass;
    projects = 0;
    workflow_queues = 0;
    stale_workflow_queues = 0;
    missing_search_attributes = 0;
    session_debt = 0;
    worktree_debt = 0;
    findings = 0;
  };
  workflow_queues = [];
  search_attributes = [];
  session_debt = [];
  worktrees = [];
  findings = [];
  recovery_plan = [];
}

-- The verb %d.
abbrev pub show_int : ℤ → String
show_int (pos n) = show n
show_int (negsuc n) = "-" <> show (suc n)

-- string(status)
abbrev pub status_text : Status → String
status_text Status.pass = "pass"
status_text Status.warn = "warn"
status_text Status.fail = "fail"
status_text Status.unknown = "unknown"

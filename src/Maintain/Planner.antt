-- ===== src/Maintain/Planner.antt =====
-- internal/maintain/plan.go and advance_state.go: `Planner`, whose fields are functions, and the reports
-- that they give.
use opencode_advance.Prelude.{
  ℤ, String, Bool, not, Option, List, is_blank, is_empty, ◌<>◌, str_eq, if◌then◌else◌,
}
use opencode_advance.Config.Sections.Types.{Plugin}
use opencode_advance.Maintain.Types.{GateReport, Options, Plan}
use opencode_advance.Maintain.Cleanup.{WorktreeInfo}

-- type AdvanceArchiveCandidate
pub record AdvanceArchiveCandidate : Type 0 where
  pub change_id : String
  pub branch : String
  pub status : String
  pub release_gate : String
  pub eligible : Bool
  pub reason : String

-- type AdvanceInspectReport, at the fields that the plan reads
pub record AdvanceInspectReport : Type 0 where
  pub eligible_archives : List AdvanceArchiveCandidate
  pub archived_changes : List AdvanceArchiveCandidate

-- func (r AdvanceInspectReport) Candidates
abbrev pub candidates : AdvanceInspectReport → List AdvanceArchiveCandidate
candidates r = if is_empty r.archived_changes then r.eligible_archives else r.archived_changes

-- func (c AdvanceArchiveCandidate) IneligibleReason
pub archive_reason : AdvanceArchiveCandidate → String
archive_reason c =
    if not (is_blank c.reason)
    then c.reason
    else if not (str_eq c.release_gate "done")
    then "release gate is " <> c.release_gate
    else if not c.eligible
    then "not marked eligible by Advance inspect"
    else "not eligible"

-- type PluginDriftReport, at the fields that the plan reads
pub record DriftReport : Type 0 where
  pub status : String
  pub marker_path : String
  pub reason : String

-- A result with a Go error: `inl` is the error.
pub data Outcome {ℓ} (A : Type ℓ) : Type ℓ where
  failed : String → Outcome A
  ok : A → Outcome A

-- The plugins of the stack, which is all that the plan reads of it.
abbrev pub Plugins : Type 0
Plugins = List (String × Plugin)

-- type Planner
pub record Planner : Type 0 where
  pub now : ℤ
  pub gate_check : Options → GateReport
  pub load_stack : String → Outcome Plugins
  pub inspect_advance : Plugin → Outcome AdvanceInspectReport
  pub drift_check : String → Plugin → Outcome DriftReport
  pub list_worktrees : String → String → Option String × List WorktreeInfo

-- The plan and the error that a function leaves.
abbrev pub Built : Type 0
Built = Plan × Option String

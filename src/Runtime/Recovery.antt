-- ===== src/Runtime/Recovery.antt =====
-- internal/advruntime/recovery_plan.go: the recovery steps of a report.
pub mod Steps
use opencode_advance.Prelude.{
  ℕ, zero, suc, ◌+◌, String, Bool, true, false, ◌&&◌, ◌||◌, not, List, [], ◌∷◌, ◌++◌, ◌<>◌, ◌==◌,
  ltb, str_eq, if◌then◌else◌,
}
use opencode_advance.Runtime.Types.{
  Status, WorkflowQueueStatus, SearchAttributeStatus, SessionDebtFinding, WorktreeFinding, Finding,
  RecoveryStep, Report, status_text,
}

-- The variables `order` and `steps` of Synthesize.
pub record Progress : Type 0 where
  pub order : ℕ
  pub steps : List RecoveryStep

-- One step more. Every step of Synthesize is marked as dry run only.
abbrev pub add_step : Progress → String → List String → Bool → String → Progress
add_step p title command destructive reason = record {
  order = p.order + 1;
  steps =
      p.steps
      ++ record {
        order = p.order;
        title = title;
        command = command;
        dry_run_only = true;
        destructive = destructive;
        reason = reason;
      }
        ∷ [];
}

abbrev pub dry_run : List String
dry_run = "oca" ∷ "adv" ∷ "recover" ∷ "--dry-run" ∷ []

abbrev pub doctor : List String
doctor = "oca" ∷ "session" ∷ "doctor" ∷ "--apply" ∷ "--backup-dir" ∷ "<backup-dir>" ∷ []

abbrev pub is_bad_attribute : Status → Bool
is_bad_attribute Status.fail = true
is_bad_attribute Status.unknown = true
is_bad_attribute s = false

abbrev pub is_bad_queue : Status → Bool
is_bad_queue Status.fail = true
is_bad_queue Status.warn = true
is_bad_queue s = false

abbrev pub is_warning : Status → Bool
is_warning Status.warn = true
is_warning s = false

abbrev pub attribute_step : Progress → SearchAttributeStatus → Progress
attribute_step p a =
    if is_bad_attribute a.status
    then add_step p ("Register missing or fix incorrect ADV search attribute: " <> a.name) dry_run
        false
        ("Search attribute "
          <> (a.name <> (" is " <> (status_text a.status <> (": " <> a.message)))))
    else p

abbrev pub queue_step : Progress → WorkflowQueueStatus → Progress
queue_step p q =
    if is_bad_queue q.status
    then if (q.pollers == 0) && ltb 0 q.running_workflows
      then add_step p ("Restart worker for stale queue: " <> q.task_queue)
          (dry_run ++ "--project" ∷ q.project_id ∷ []) false
          (q.message <> (" (" <> (q.hint <> ")")))
      else p
    else p

abbrev pub debt_step : Progress → SessionDebtFinding → Progress
debt_step p debt =
    if is_warning debt.status && ltb 0 debt.repairable
    then add_step p "Clean up stale blank assistant messages in session DB" doctor true
        (debt.message <> (" — " <> debt.hint))
    else p

abbrev pub worktree_step : Progress → WorktreeFinding → Progress
worktree_step p wt =
    if is_warning wt.status
    then add_step p ("Review stale worktree: " <> wt.branch) dry_run false
        (wt.message <> (" — " <> wt.hint))
    else p

abbrev pub finding_step : Progress → Finding → Progress
finding_step p f =
    if str_eq f.code "ADV_SEARCH_ATTRIBUTES_UNKNOWN"
    then p
    else add_step p ("Investigate ADV runtime finding: " <> f.code)
        ("oca" ∷ "doctor" ∷ "--scope" ∷ "adv-runtime" ∷ []) false (f.message <> (" — " <> f.hint))

-- A loop of Synthesize.
unfoldable pub each {ℓ} : {A : Type ℓ} → (Progress → A → Progress) → Progress → List A → Progress
each step p [] = p
each step p (x ∷ xs) = each step (step p x) xs

-- RecoveryPlanSynthesizer.Synthesize
unfoldable pub synthesize : Report → List RecoveryStep
unfolding each
synthesize r =
    let start : Progress = record { order = 1; steps = [] } in
    let p = each attribute_step start r.search_attributes in
    let p = each queue_step p r.workflow_queues in
    let p = each debt_step p r.session_debt in
    let p = each worktree_step p r.worktrees in let p = each finding_step p r.findings in p.steps

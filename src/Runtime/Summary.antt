-- ===== src/Runtime/Summary.antt =====
-- internal/advruntime/workflows.go: `addFinding` and `refreshSummaryStatus`.
pub mod Worst
use opencode_advance.Prelude.{ℕ, String, Bool, List, [], ◌∷◌, ◌++◌, length}
use opencode_advance.Runtime.Types.{
  Status, Severity, Summary, WorkflowQueueStatus, SearchAttributeStatus, Finding, Report,
}

-- A round of each of the three loops: the status so far and what is met.
abbrev pub after_finding : Status → Severity → Status
after_finding status Severity.error = Status.fail
after_finding Status.pass Severity.caution = Status.warn
after_finding status severity = status

abbrev pub after_queue : Status → Status → Status
after_queue status Status.fail = Status.fail
after_queue Status.pass Status.warn = Status.warn
after_queue status met = status

abbrev pub after_attribute : Status → Status → Status
after_attribute status Status.fail = Status.fail
after_attribute Status.pass Status.warn = Status.warn
after_attribute Status.pass Status.unknown = Status.warn
after_attribute status met = status

-- A loop that carries the status.
unfoldable pub scan {ℓ} : {A : Type ℓ} → (Status → A → Status) → Status → List A → Status
scan after status [] = status
scan after status (x ∷ xs) = scan after (after status x) xs

abbrev pub scan_findings : Status → List Finding → Status
scan_findings = scan (λ status f. after_finding status f.severity)

abbrev pub scan_queues : Status → List WorkflowQueueStatus → Status
scan_queues = scan (λ status q. after_queue status q.status)

abbrev pub scan_attributes : Status → List SearchAttributeStatus → Status
scan_attributes = scan (λ status a. after_attribute status a.status)

abbrev pub summary_status : Report → Status
summary_status r =
    scan_attributes (scan_queues (scan_findings Status.pass r.findings) r.workflow_queues)
      r.search_attributes

-- func refreshSummaryStatus
unfoldable pub refresh_summary_status : Report → Report
unfolding scan
refresh_summary_status r = record r { summary = record r.summary { status = summary_status r } }

-- func addFinding
unfoldable pub add_finding : Severity → String → String → String → Report → Report
unfolding refresh_summary_status
add_finding severity code message hint r =
    let found =
      r.findings
      ++ record { code = code; severity = severity; message = message; hint = hint } ∷ [] in
    refresh_summary_status
      (record r { findings = found; summary = record r.summary { findings = length found } })

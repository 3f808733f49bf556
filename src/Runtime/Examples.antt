-- ===== src/Runtime/Examples.antt =====
-- A report with a queue that fails, a service of two pages, a database with one repairable message,
-- and calls of a provider.
use opencode_advance.Prelude.{
  ℕ, ◌<◌, pos, String, Bool, true, false, ◌≡◌, ◌≢◌, refl, ap, subst, Option, none, some, List, [],
  ◌∷◌, arith, str_eq, Result, is_blank, All, length,
}
use opencode_advance.Runtime.Types.{
  Status, Severity, Config, WorkflowQueueStatus, SessionDebtFinding, Report, new_report,
}
use opencode_advance.Runtime.Summary.{refresh_summary_status}
use opencode_advance.Runtime.Summary.Worst.{
  worst, has_failure, has_warning, refresh_summary_status-worst,
}
use opencode_advance.Runtime.Recovery.{synthesize}
use opencode_advance.Runtime.Recovery.Steps.{Numbered, IsHarmless, synthesize-Numbered}
use opencode_advance.Runtime.Workflows.{Workflow, Page, Service, list_adv_workflows, add_page}
use opencode_advance.Runtime.Workflows.Listing.{Lists, Pages, list_adv_workflows-Lists}
use opencode_advance.Runtime.Debt.{Row, Database, Scanner}
use opencode_advance.Runtime.Sessions.Copies.{System, World}
use opencode_advance.Runtime.Sessions.Deletes.{Deletes}
use opencode_advance.Runtime.Provider.{Call, new_provider, run}
use opencode_advance.Runtime.Provider.Runs.{IsTidy, new_provider-run}

abbrev config : Config
config = record {
  address = "";
  namespace = "";
  project_id = "";
  change_id = "";
  max_workflows = pos 2;
  workflow_stale_after = pos 0;
  session_stale_after = pos 0;
  worktree_stale_after = pos 0;
  task_queue_no_poller = pos 0;
}

abbrev queue : WorkflowQueueStatus
queue = record {
  project_id = "p1";
  task_queue = "advance-p1";
  status = Status.fail;
  pollers = 0;
  backlog = pos 4;
  running_workflows = 2;
  oldest_run_age = pos 0;
  message = "no pollers";
  hint = "restart";
}

abbrev debt : SessionDebtFinding
debt = record {
  path = "/d/opencode.db";
  status = Status.warn;
  repairable = 3;
  ignored = 9;
  oldest_age = pos 0;
  message = "debt";
  hint = "clean up";
}

abbrev report : Report
report = record (new_report (pos 0) config) {
  workflow_queues = queue ∷ [];
  session_debt = debt ∷ [];
  findings = record { code = "X"; severity = Severity.caution; message = "m"; hint = "h" } ∷ [];
}

abbrev is_failure : Status → Bool
is_failure Status.fail = true
is_failure s = false

report_fails : is_failure (refresh_summary_status report).summary.status ≡ true
unfolding refresh_summary_status new_report
report_fails = refl

refresh_summary_status-worst_example : refresh_summary_status report ≡ record report {
  summary = record report.summary { status = worst (has_failure report) (has_warning report) };
}
refresh_summary_status-worst_example = refresh_summary_status-worst report

three_steps : length (synthesize report) ≡ 3
unfolding synthesize new_report
three_steps = refl

synthesize-Numbered_example : Numbered 1 (synthesize report) × All IsHarmless (synthesize report)
synthesize-Numbered_example = synthesize-Numbered report

abbrev workflow : String → Workflow
workflow id = record { id = id; is_running = true; task_queue = ""; start = none }

-- The first page for the empty token, then the last page.
abbrev page_of : Bool → Page
page_of true = record {
  executions = workflow "adv/project/p1" ∷ workflow "other" ∷ [];
  next_token = "2";
}
page_of false = record { executions = workflow "adv/change/p1/c1" ∷ []; next_token = "" }

abbrev service : Service
service = record {
  list = λ k size token. Result.done (page_of (str_eq token ""));
  describe = λ queue. Result.fail "no such queue";
  show_duration = λ d. "";
}

abbrev rank_of : Bool → ℕ
rank_of true = 1
rank_of false = 0

abbrev rank : String → ℕ
rank token = rank_of (str_eq token "")

abbrev next_of : Result Page → String
next_of (Result.fail e) = ""
next_of (Result.done page) = page.next_token

next-rank :
    (b : Bool) (page : Page)
    → Result.done (page_of b) ≡ Result.done page
    → is_blank page.next_token ≡ false
    → rank page.next_token < rank_of b
next-rank true page e h = subst (λ t. rank t < 1) (ap next_of e) (omega arith)
next-rank false page e h =
    absurd (subst (λ t. is_blank t ≢ false) (ap next_of e) (λ x. ground (arith, x)) h)

service-Pages : Pages service 2 rank
service-Pages k size token page e h = next-rank (str_eq token "") page e h

both_pages :
    list_adv_workflows service (pos 2) 2 0 [] ""
    ≡ some (Result.done (workflow "adv/project/p1" ∷ workflow "adv/change/p1/c1" ∷ []))
unfolding list_adv_workflows add_page
both_pages = refl

list_adv_workflows-Lists_example : Lists 2 (list_adv_workflows service (pos 2) 2 0 [] "")
list_adv_workflows-Lists_example =
    list_adv_workflows-Lists service 2 rank service-Pages 2 0 [] "" (omega arith)
      (record { bound = omega arith; running = tt })

abbrev row : String → Option String → Row
row id reason = record {
  id = id;
  time_created = pos 1;
  role = some "assistant";
  finish_reason = reason;
}

abbrev database : Database
database = record {
  has_table = true;
  messages = row "a" none ∷ row "b" (some "stop") ∷ [];
  parts = [];
}

abbrev scanner : Scanner
scanner = record {
  db = some database;
  db_path = "/d/opencode.db";
  stale_after = pos 1;
  now = pos 9000000;
}

abbrev system : System
system = record { error = λ k. none; is_symlink = λ p. false; timestamp = "t" }

abbrev nothing_done : World
nothing_done = record { calls = 0; log = [] }

abbrev calls : List Call
calls =
    Call.wanted (Result.fail "refused")
    ∷ Call.wanted (Result.done 7)
    ∷ Call.wanted (Result.done 8)
    ∷ Call.finished
    ∷ []

new_provider-run_example : IsTidy (run new_provider calls)
new_provider-run_example = new_provider-run calls

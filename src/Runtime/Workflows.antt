-- ===== src/Runtime/Workflows.antt =====
-- internal/advruntime/workflows.go: the running workflows of Advance by task queue.
pub mod Listing
use opencode_advance.Prelude.{
  ℕ, zero, suc, ◌+◌, ◌-◌, ◌*◌, ◌/◌, ℤ, pos, negsuc, ltb_ℤ, eqb_ℤ, ◌-ℤ◌, String, Bool, true, false,
  ◌&&◌, not, Option, none, some, List, [], ◌∷◌, ◌++◌, ◌<>◌, ◌==◌, ltb, str_eq, is_blank,
  starts_with, split_path, drop_bytes, show, length, lookup, insert, sort_entries, if◌then◌else◌,
  Result,
}
use opencode_advance.Runtime.Types.{
  Status, Severity, Config, Summary, WorkflowQueueStatus, Report, new_report, with_defaults, second,
}
use opencode_advance.Runtime.Summary.{add_finding, refresh_summary_status}

-- What the classifier reads of workflowpb.WorkflowExecutionInfo.
pub record Workflow : Type 0 where
  pub id : String
  pub is_running : Bool
  pub task_queue : String
  pub start : Option ℤ

pub record Page : Type 0 where
  pub executions : List Workflow
  pub next_token : String

-- What the classifier reads of the answer of DescribeTaskQueue.
pub record Description : Type 0 where
  pub pollers : ℕ
  pub backlog : Option ℤ

-- type WorkflowService: its answer to the listing number `k` with a page size and a token, and its
-- description of a queue. `show_duration` is the verb %s of a duration.
pub record Service : Type 0 where
  pub list : ℕ → ℤ → String → Result Page
  pub describe : String → Result Description
  pub show_duration : ℤ → String

-- func isADVRunningWorkflow
abbrev pub is_adv_running_workflow : Workflow → Bool
is_adv_running_workflow w = starts_with w.id "adv/" && w.is_running

-- The executions of a page, until there are enough.
unfoldable pub add_page : ℤ → List Workflow → List Workflow → List Workflow
add_page max found [] = found
add_page max found (w ∷ ws) =
    let rest = add_page max (if is_adv_running_workflow w then found ++ w ∷ [] else found) ws in
    if ltb_ℤ (pos (length found)) max then rest else found

abbrev pub min_ℤ : ℤ → ℤ → ℤ
min_ℤ a b = if ltb_ℤ b a then b else a

abbrev pub page_size : ℤ → List Workflow → ℤ
page_size max found = min_ℤ (max -ℤ pos (length found)) (pos 100)

-- WorkflowClassifier.listADVWorkflows, on fuel; none is a loop that goes on.
unfoldable pub list_adv_workflows :
    Service → ℤ → ℕ → ℕ → List Workflow → String → Option (Result (List Workflow))
list_adv_workflows service max zero k found token = none
list_adv_workflows service max (suc fuel) k found token =
    let more = λ (page : Page).
      let all = add_page max found page.executions in
      let rest = list_adv_workflows service max fuel (suc k) all page.next_token in
      if is_blank page.next_token then some (Result.done all) else rest in
    if ltb_ℤ (pos (length found)) max
    then elim (service.list k (page_size max found) token) [
      | Result.fail e ↦ some (Result.fail e)
      | Result.done page ↦ more page
    ]
    else some (Result.done found)

-- func projectIDFromWorkflowID, on the parts between the slashes.
abbrev pub project_id_from_parts : List String → String
project_id_from_parts (a ∷ b ∷ c ∷ []) = if str_eq a "adv" && str_eq b "project" then c else ""
project_id_from_parts (a ∷ b ∷ c ∷ d ∷ others) =
    if str_eq a "adv" && str_eq b "project"
    then c
    else if str_eq a "adv" && str_eq b "change"
    then c
    else ""
project_id_from_parts parts = ""

pub project_id_from_workflow_id : String → String
unfolding split_path
project_id_from_workflow_id id = project_id_from_parts (split_path id)

-- The task queue that groupWorkflowsByQueue takes for a workflow.
abbrev pub queue_of : Workflow → String
queue_of w =
    let project_id = project_id_from_workflow_id w.id in
    if is_blank w.task_queue && not (is_blank project_id)
    then "advance-" <> project_id
    else w.task_queue

abbrev pub group_of {ℓ} : {A : Type ℓ} → Option (List A) → List A
group_of none = []
group_of (some group) = group

-- func groupWorkflowsByQueue; `groups` is the map so far.
pub group_workflows_by_queue :
    List (String × List Workflow) → List Workflow → List (String × List Workflow)
unfolding project_id_from_workflow_id
group_workflows_by_queue groups [] = groups
group_workflows_by_queue groups (w ∷ ws) =
    let queue = queue_of w in
    group_workflows_by_queue
      (if is_blank queue
        then groups
        else insert queue (group_of (lookup queue groups) ++ w ∷ []) groups)
      ws

-- strings.TrimPrefix
abbrev trim_advance : String → String
trim_advance s = if starts_with s "advance-" then drop_bytes 8 s else s

-- func projectIDForQueue
pub project_id_for_queue : String → List Workflow → String
unfolding project_id_from_workflow_id
project_id_for_queue queue [] = trim_advance queue
project_id_for_queue queue (w ∷ ws) =
    let project_id = project_id_from_workflow_id w.id in
    let rest = project_id_for_queue queue ws in
    if not (is_blank project_id) then project_id else rest

-- time.Time{}, in nanoseconds from 1970.
abbrev pub zero_time : ℤ
zero_time = negsuc (62135596800 * second - 1)

-- GetStartTime().AsTime(): a timestamp that is missing is the start of 1970.
abbrev pub start_time : Option ℤ → ℤ
start_time none = pos 0
start_time (some t) = t

pub oldest_start : ℤ → List Workflow → ℤ
oldest_start oldest [] = oldest
oldest_start oldest (w ∷ ws) =
    let start = start_time w.start in
    oldest_start
      (if eqb_ℤ start zero_time
        then oldest
        else if eqb_ℤ oldest zero_time
        then start
        else if ltb_ℤ start oldest
        then start
        else oldest)
      ws

-- func oldestRunAge
pub oldest_run_age : List Workflow → ℤ → ℤ
unfolding oldest_start
oldest_run_age ws now =
    let oldest = oldest_start zero_time ws in
    if eqb_ℤ oldest zero_time then pos 0 else if ltb_ℤ now oldest then pos 0 else now -ℤ oldest

-- d.Round(time.Second)
abbrev pub round_second : ℤ → ℤ
round_second (pos n) = pos ((n + second / 2) / second * second)
round_second (negsuc n) = pos 0 -ℤ pos ((suc n + second / 2) / second * second)

abbrev backlog_of : Option ℤ → ℤ
backlog_of none = pos 0
backlog_of (some n) = n

abbrev pub no_pollers : Service → Config → WorkflowQueueStatus → WorkflowQueueStatus
no_pollers service config s =
    let count = show s.running_workflows in
    let message : String = "task queue has no pollers and " <> (count <> " running workflows") in
    let hint : String = "restart OpenCode/Advance worker for this project queue" in
    if not (ltb_ℤ s.oldest_run_age config.workflow_stale_after)
    then record s {
      status = Status.fail;
      message =
          message
          <> ("; oldest run age "
              <> (service.show_duration (round_second s.oldest_run_age)
                  <> (" exceeds " <> service.show_duration config.workflow_stale_after)));
      hint = hint;
    }
    else record s { status = Status.warn; message = message; hint = hint }

abbrev pub described :
    Service → Config → WorkflowQueueStatus → Result Description → WorkflowQueueStatus
described service config s (Result.fail e) = record s {
  status = Status.warn;
  message = "describe task queue failed: " <> e;
  hint = "check Temporal task queue visibility";
}
described service config s (Result.done d) =
    let s' = record s { pollers = d.pollers; backlog = backlog_of d.backlog } in
    if ltb 0 s.running_workflows && (d.pollers == 0) then no_pollers service config s' else s'

-- WorkflowClassifier.describeQueue
pub describe_queue : Service → Config → ℤ → String → List Workflow → WorkflowQueueStatus
unfolding project_id_for_queue oldest_run_age
describe_queue service config now queue ws =
    described service config
      (record {
        project_id = project_id_for_queue queue ws;
        task_queue = queue;
        status = Status.pass;
        pollers = 0;
        backlog = pos 0;
        running_workflows = length ws;
        oldest_run_age = oldest_run_age ws now;
        message = "";
        hint = "";
      })
      (service.describe queue)

pub describe_queues :
    Service → Config → ℤ → List (String × List Workflow) → List WorkflowQueueStatus
unfolding describe_queue
describe_queues service config now [] = []
describe_queues service config now ((queue, ws) ∷ others) =
    describe_queue service config now queue ws ∷ describe_queues service config now others

abbrev is_fail_status : Status → Bool
is_fail_status Status.fail = true
is_fail_status s = false

pub count_stale : List WorkflowQueueStatus → ℕ
count_stale [] = 0
count_stale (q ∷ qs) = if is_fail_status q.status then count_stale qs + 1 else count_stale qs

abbrev pub after_workflows : Service → ℤ → Report → Result (List Workflow) → Report
after_workflows service now r (Result.fail e) =
    add_finding Severity.caution "ADV_WORKFLOW_LIST_FAILED" ("list ADV workflows failed: " <> e)
      "check Temporal reachability and namespace" r
after_workflows service now r (Result.done ws) =
    let queues =
      describe_queues service r.config now (sort_entries (group_workflows_by_queue [] ws)) in
    refresh_summary_status (record r {
      workflow_queues = queues;
      summary = record r.summary {
        workflow_queues = length queues;
        stale_workflow_queues = count_stale queues;
      };
    })

abbrev pub after_list : Service → ℤ → Report → Option (Result (List Workflow)) → Option Report
after_list service now r none = none
after_list service now r (some found) = some (after_workflows service now r found)

-- WorkflowClassifier.Classify on fuel; the classifier normalises its configuration before. A nil
-- service is none.
pub classify : ℕ → ℤ → ℤ → Config → Option Service → Option Report
unfolding list_adv_workflows describe_queues group_workflows_by_queue count_stale
classify fuel generated now config none = some (
    add_finding Severity.caution "ADV_TEMPORAL_UNAVAILABLE" "Temporal workflow service unavailable"
      "start Temporal or run recovery in dry-run mode"
      (new_report generated (with_defaults config)))
classify fuel generated now config (some service) =
    let r = new_report generated (with_defaults config) in
    after_list service now r (list_adv_workflows service r.config.max_workflows fuel 0 [] "")

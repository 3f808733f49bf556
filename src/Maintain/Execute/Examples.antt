-- ===== src/Maintain/Execute/Examples.antt =====
-- Planning and executing on a small machine.
use opencode_advance.Prelude.{
  pos, String, ◌≡◌, true, false, none, [], ◌∷◌, refl, lookup, trim_space,
}
use opencode_advance.Maintain.Types.{GateStatus, GateReport, Options}
use opencode_advance.Maintain.Cleanup.{WorktreeInfo}
use opencode_advance.Maintain.Plan.{build, add_cleanups, add_cleanup_candidates}
use opencode_advance.Maintain.Planner.{Outcome, Planner}
use opencode_advance.Maintain.Plan.Reasons.{IsPlanned}
use opencode_advance.Maintain.Plan.Allowed.{gate_of, build-IsPlanned}
use opencode_advance.Maintain.Machine.{Machine, Reply, Event, and_then, git}
use opencode_advance.Maintain.Git.{require_clean_git_tree}
use opencode_advance.Maintain.Execute.{
  execute_plan, execute_actions, execute_action, execute_cleanup, run_advance_reconcile, reconcile,
}
use opencode_advance.Maintain.Execute.Safe.{IsSafe}
use opencode_advance.Maintain.Execute.Guarded.{execute_plan-IsSafe}
use opencode_advance.Maintain.Execute.Harmless.{RunsNothing, blocked-build-execute_plan}

abbrev same_path : String → String
same_path path = path

abbrev done_change : WorktreeInfo
done_change = record {
  branch = "change/done";
  path = "/trees/done";
  clean = true;
  merged = true;
  process_free = true;
  session_free = true;
}

abbrev open_change : WorktreeInfo
open_change = record done_change { branch = "change/open"; path = "/trees/open"; clean = false }

abbrev planner_under : GateReport → Planner
planner_under gate = record {
  now = pos 0;
  gate_check = λ options. gate;
  load_stack = λ path. Outcome.ok [];
  inspect_advance = λ plugin. Outcome.failed "no advance";
  drift_check = λ name plugin. Outcome.failed "no git";
  list_worktrees = λ root branch. (none, done_change ∷ open_change ∷ []);
}

abbrev closed : GateReport
closed = record { status = GateStatus.blocked; blockers = [] }

abbrev free : GateReport
free = record { status = GateStatus.pass; blockers = [] }

abbrev options : Options
options = record {
  project_root = "/p";
  config_path = "/p/stack.toml";
  dry_run = false;
  execute = true;
  include_merge = false;
  include_rebuild = false;
  include_cleanup = true;
}

-- git succeeds and prints nothing.
abbrev quiet : Machine
quiet = record {
  answer = λ log cmd. record { output = ""; failure = none };
  exists = λ log path. false;
  make_dir = λ log path. none;
  write = λ log path marker. none;
  now = pos 0;
  hash = λ commands. "";
}

abbrev silent : Reply
silent = record { output = ""; failure = none }

-- The one eligible worktree goes, and then its branch.
cleanup_run :
    execute_plan quiet
      (λ path. Outcome.ok [])
      options
      (build same_path none (planner_under free) options).0
      []
    ≡ (
      none,
      Event.ran (git "/p" ("branch" ∷ "-d" ∷ "change/done" ∷ [])) silent
          ∷ Event.ran (git "/p" ("worktree" ∷ "remove" ∷ "/trees/done" ∷ [])) silent
          ∷ Event.ran
              (git "/p" ("merge-base" ∷ "--is-ancestor" ∷ "change/done" ∷ "trunk" ∷ []))
              silent
          ∷ Event.ran (git "/trees/done" ("status" ∷ "--porcelain" ∷ [])) silent
          ∷ [],
    )
unfolding execute_plan execute_actions execute_action execute_cleanup require_clean_git_tree
    run_advance_reconcile reconcile build add_cleanup_candidates add_cleanups and_then trim_space
    lookup
cleanup_run = refl

build-IsPlanned_example :
    IsPlanned
      (gate_of same_path none (planner_under free) options)
      (build same_path none (planner_under free) options).0
build-IsPlanned_example = build-IsPlanned same_path none (planner_under free) options

execute_plan-IsSafe_example :
    IsSafe
      (execute_plan quiet
        (λ path. Outcome.ok [])
        options
        (build same_path none (planner_under free) options).0
        []).1
execute_plan-IsSafe_example =
    execute_plan-IsSafe quiet (λ path. Outcome.ok []) options
      (build same_path none (planner_under free) options).0 [] IsSafe.nil

blocked-build-execute_plan_example :
    RunsNothing quiet options (build same_path none (planner_under closed) options).0 [] (
      execute_plan quiet
        (λ path. Outcome.ok [])
        options
        (build same_path none (planner_under closed) options).0
        [])
blocked-build-execute_plan_example =
    blocked-build-execute_plan quiet same_path none (planner_under closed) options options
      (λ path. Outcome.ok []) [] refl

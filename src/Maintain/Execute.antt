-- ===== src/Maintain/Execute.antt =====
-- internal/maintain/execute.go: `ExecutePlan` over a log of commands.
pub mod Safe
pub mod Guarded
pub mod Harmless
mod Examples
use opencode_advance.Prelude.{
  ℤ, pos, ℕ, suc, String, Bool, true, false, ◌&&◌, ◌||◌, not, Option, none, some, List, [], ◌∷◌,
  is_blank, is_empty, ◌<>◌, str_eq, if◌then◌else◌, lookup, map, Message, literal, sprintf, str, int,
  length, trim_space, join_path, dir_path,
}
use opencode_advance.Config.Sections.Types.{Plugin}
use opencode_advance.Maintain.Types.{Blocker, Action, Options, Plan}
use opencode_advance.Maintain.Planner.{Outcome, Plugins}
use opencode_advance.Maintain.Cleanup.{without_prefix}
use opencode_advance.Maintain.Drift.{source_root_of, build_marker_path, build_marker}
use opencode_advance.Maintain.Git.{or_error, require_expected_branch, require_clean_git_tree}
use opencode_advance.Maintain.Rebuild.{run_build, write_build_marker}
use opencode_advance.Maintain.Machine.{
  Machine, Cmd, Reply, Event, Log, Error, and_then, run, git, git_command,
}

-- func blockerCodeList
pub blocker_code_list : List Blocker → String
blocker_code_list [] = ""
blocker_code_list (b ∷ bs) =
    let rest = blocker_code_list bs in if is_empty bs then b.code else b.code <> (", " <> rest)

module _ (machine : Machine) where
  -- func executeMerge
  abbrev pub branch_of : Action → String
  branch_of action =
      if is_blank action.branch
      then "change/" <> without_prefix action.id "merge:"
      else action.branch

  pub merge_plugin : Action → Option Plugin → Log → Option Error × Log
  merge_plugin action none log =
      (some (sprintf "merge target plugin %q not found" (str action.target ∷ [])), log)
  merge_plugin action (some plugin) log =
      if is_blank plugin.checkout
      then (some (sprintf "merge target plugin %q has no checkout" (str action.target ∷ [])), log)
      else and_then (require_expected_branch machine plugin.checkout plugin.ref log) λ log.
        and_then (require_clean_git_tree machine plugin.checkout log) λ log.
          or_error (λ e out. sprintf "ff-only merge %s: %w" (str (branch_of action) ∷ str e ∷ []))
            (git_command machine plugin.checkout ("merge" ∷ "--ff-only" ∷ branch_of action ∷ [])
              log)

  pub execute_merge : Plugins → Action → Log → Option Error × Log
  execute_merge plugins action log = merge_plugin action (lookup action.target plugins) log

  -- func runAdvanceReconcile
  abbrev pub reconcile_cmd : Plugin → String → Cmd
  reconcile_cmd advance branch = record {
    name = "node";
    args =
        join_path (advance.checkout ∷ "scripts" ∷ "maintenance" ∷ "reconcile-worktree.mjs" ∷ [])
        ∷ "--branch"
        ∷ branch
        ∷ [];
    dir = advance.checkout;
    env = [];
    timeout = pos 30;
  }

  pub reconcile : Option Plugin → String → Log → Option Error × Log
  reconcile none branch log = (none, log)
  reconcile (some advance) branch log =
      if is_blank advance.checkout
      then (none, log)
      else (let script =
            join_path
              (advance.checkout ∷ "scripts" ∷ "maintenance" ∷ "reconcile-worktree.mjs" ∷ []) in
          let there = machine.exists log script in
          let log = Event.looked script there ∷ log in
          if there
          then or_error
              (λ e out.
                sprintf "advance worktree reconcile failed: %w\noutput:\n%s"
                  (str e ∷ str (trim_space out) ∷ []))
              (run machine (reconcile_cmd advance branch) log)
          else (none, log))

  pub run_advance_reconcile : Plugins → String → Log → Option Error × Log
  run_advance_reconcile plugins branch log = reconcile (lookup "advance" plugins) branch log

  -- func executeCleanup
  pub execute_cleanup : Plugins → String → Action → Log → Option Error × Log
  execute_cleanup plugins project_root action log =
      if is_blank action.path || is_blank action.branch
      then (some (sprintf "cleanup action %s missing path or branch" (str action.id ∷ [])), log)
      else and_then (require_clean_git_tree machine action.path log) λ log.
        and_then
          (or_error
            (λ e out. sprintf "cleanup branch %s is not merged into trunk" (str action.branch ∷ []))
            (git_command machine project_root
              ("merge-base" ∷ "--is-ancestor" ∷ action.branch ∷ "trunk" ∷ []) log))
          λ log.
            and_then
              (or_error (λ e out. sprintf "remove worktree %s: %w" (str action.path ∷ str e ∷ []))
                (git_command machine project_root ("worktree" ∷ "remove" ∷ action.path ∷ []) log))
              λ log.
                and_then
                  (or_error
                    (λ e out. sprintf "delete branch %s: %w" (str action.branch ∷ str e ∷ []))
                    (git_command machine project_root ("branch" ∷ "-d" ∷ action.branch ∷ []) log))
                  λ log. run_advance_reconcile plugins action.branch log

  -- func executeRebuild
  pub rebuild_plugin : Action → Option Plugin → Log → Option Error × Log
  rebuild_plugin action none log =
      (some (sprintf "rebuild target plugin %q not found" (str action.target ∷ [])), log)
  rebuild_plugin action (some plugin) log =
      and_then (run_build machine plugin log)
        λ log. write_build_marker machine action.target plugin log

  pub execute_rebuild : Plugins → Action → Log → Option Error × Log
  execute_rebuild plugins action log = rebuild_plugin action (lookup action.target plugins) log

  -- The `switch` on the kind of an action; another kind does nothing.
  pub execute_action : Plugins → String → Action → Log → Option Error × Log
  execute_action plugins project_root action log =
      if str_eq action.kind "merge"
      then execute_merge plugins action log
      else if str_eq action.kind "rebuild"
      then execute_rebuild plugins action log
      else if str_eq action.kind "cleanup"
      then execute_cleanup plugins project_root action log
      else (none, log)

  -- The loop over the actions.
  pub execute_actions : Plugins → String → List Action → Log → Option Error × Log
  execute_actions plugins project_root [] log = (none, log)
  execute_actions plugins project_root (action ∷ rest) log =
      if not action.execute_allowed
      then (some (sprintf "action %s is not execute-allowed" (str action.id ∷ [])), log)
      else and_then (execute_action plugins project_root action log)
          λ log. execute_actions plugins project_root rest log

  abbrev pub execute_loaded : Outcome Plugins → String → Plan → Log → Option Error × Log
  execute_loaded (Outcome.failed e) project_root plan log = (some (literal e), log)
  execute_loaded (Outcome.ok plugins) project_root plan log =
      execute_actions plugins project_root plan.actions log

  -- func ExecutePlan; `load` is cfg.Load.
  pub execute_plan : (String → Outcome Plugins) → Options → Plan → Log → Option Error × Log
  execute_plan load options plan log =
      if not options.execute
      then (none, log)
      else if not (is_empty plan.blockers)
      then (some (sprintf "blocked: %s" (str (blocker_code_list plan.blockers) ∷ [])), log)
      else execute_loaded (load options.config_path) options.project_root plan log

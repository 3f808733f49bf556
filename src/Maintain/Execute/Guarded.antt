-- ===== src/Maintain/Execute/Guarded.antt =====
-- No worktree is removed and no branch merged without the checks right before.
use opencode_advance.Prelude.{
  ℕ, suc, String, inl, inr, true, not, ◌||◌, Option, none, some, List, [], ◌∷◌, arith, refl,
  Bool-cases, is_blank, str_eq, lookup, is_empty, join_path,
}
use opencode_advance.Config.Sections.Types.{Plugin}
use opencode_advance.Maintain.Types.{Action, Options, Plan}
use opencode_advance.Maintain.Planner.{Outcome, Plugins}
use opencode_advance.Maintain.Drift.{source_root_of}
use opencode_advance.Maintain.Machine.{Machine, Event, Log, git}
use opencode_advance.Maintain.Git.{require_expected_branch, require_clean_git_tree}
use opencode_advance.Maintain.Rebuild.{
  run_commands, run_build, build_cmd, git_read, write_build_marker, written,
}
use opencode_advance.Maintain.Execute.{
  merge_plugin, execute_merge, reconcile, run_advance_reconcile, reconcile_cmd, execute_cleanup,
  rebuild_plugin, execute_rebuild, execute_action, execute_actions, execute_loaded, execute_plan,
}
use opencode_advance.Maintain.Execute.Safe.{
  IsSafe, status_of, plain-IsSafe, and_then-IsSafe, if-IsSafe, require_clean-IsCleanReply,
}

module _ (machine : Machine) where
  merge_plugin-IsSafe :
      (action : Action) (found : Option Plugin) (log : Log)
      → IsSafe log
      → IsSafe (merge_plugin machine action found log).1
  unfolding merge_plugin require_expected_branch require_clean_git_tree
  merge_plugin-IsSafe action none log s = s
  merge_plugin-IsSafe action (some plugin) log s = elim (Bool-cases (is_blank plugin.checkout)) [
    | inl b ↦ rw b s
    | inr n ↦ rw n (
        let dir = plugin.checkout in
        let shown = machine.answer log (git dir ("branch" ∷ "--show-current" ∷ [])) in
        let log1 = Event.ran (git dir ("branch" ∷ "--show-current" ∷ [])) shown ∷ log in
        let clean = machine.answer log1 (status_of dir) in
        let log2 = Event.ran (status_of dir) clean ∷ log1 in
        let safe1 =
          plain-IsSafe (git dir ("branch" ∷ "--show-current" ∷ [])) shown log refl refl s in
        let safe2 = plain-IsSafe (status_of dir) clean log1 refl refl safe1 in
        and_then-IsSafe _ _ safe1 λ h1. and_then-IsSafe _ _ safe2 λ h2.
          IsSafe.cons
            (
              (λ e. absurd (ground (arith, e))),
              λ e. record {
                shown = shown;
                clean = clean;
                older = log;
                before = refl;
                is_clean = require_clean-IsCleanReply machine dir log1 h2;
                is_shown = ground (arith, h1);
              },
            )
            safe2)
  ]

  run_advance_reconcile-IsSafe :
      (found : Option Plugin) (branch : String) (log : Log)
      → IsSafe log
      → IsSafe (reconcile machine found branch log).1
  unfolding reconcile
  run_advance_reconcile-IsSafe none branch log s = s
  run_advance_reconcile-IsSafe (some advance) branch log s =
      let script =
        join_path (advance.checkout ∷ "scripts" ∷ "maintenance" ∷ "reconcile-worktree.mjs" ∷ []) in
      elim (Bool-cases (is_blank advance.checkout)) [
        | inl b ↦ rw b s
        | inr n ↦ elim (Bool-cases (machine.exists log script)) [
          | inl t ↦ rw n (
              rw t (
                plain-IsSafe (reconcile_cmd machine advance branch)
                  (machine.answer (Event.looked script true ∷ log)
                    (reconcile_cmd machine advance branch))
                  (Event.looked script true ∷ log) refl refl (IsSafe.cons tt s)))
          | inr f ↦ rw n (rw f (IsSafe.cons tt s))
        ]
      ]

  execute_cleanup-IsSafe :
      (plugins : Plugins) (root : String) (action : Action) (log : Log)
      → IsSafe log
      → IsSafe (execute_cleanup machine plugins root action log).1
  unfolding execute_cleanup require_clean_git_tree run_advance_reconcile
  execute_cleanup-IsSafe plugins root action log s =
      elim (Bool-cases (is_blank action.path || is_blank action.branch)) [
        | inl b ↦ rw b s
        | inr n ↦ rw n (
            let merge_base =
              git root ("merge-base" ∷ "--is-ancestor" ∷ action.branch ∷ "trunk" ∷ []) in
            let removal = git root ("worktree" ∷ "remove" ∷ action.path ∷ []) in
            let deletion = git root ("branch" ∷ "-d" ∷ action.branch ∷ []) in
            let clean = machine.answer log (status_of action.path) in
            let log1 = Event.ran (status_of action.path) clean ∷ log in
            let merged = machine.answer log1 merge_base in
            let log2 = Event.ran merge_base merged ∷ log1 in
            let log3 = Event.ran removal (machine.answer log2 removal) ∷ log2 in
            let log4 = Event.ran deletion (machine.answer log3 deletion) ∷ log3 in
            let safe1 = plain-IsSafe (status_of action.path) clean log refl refl s in
            let safe2 = plain-IsSafe merge_base merged log1 refl refl safe1 in
            and_then-IsSafe _ _ safe1 λ h1. and_then-IsSafe _ _ safe2 λ h2.
              (let safe3 : IsSafe log3 =
                  IsSafe.cons
                    (
                      (λ e. record {
                        path = action.path;
                        branch = action.branch;
                        clean = clean;
                        merged = merged;
                        older = log;
                        removal = refl;
                        before = refl;
                        is_clean = require_clean-IsCleanReply machine action.path log h1;
                        is_merged = ground (arith, h2);
                      }),
                      λ e. absurd (ground (arith, e)),
                    )
                    safe2 in
                let safe4 : IsSafe log4 =
                  plain-IsSafe deletion (machine.answer log3 deletion) log3 refl refl safe3 in
                and_then-IsSafe _ _ safe3 λ h3. and_then-IsSafe _ _ safe4 λ h4.
                  run_advance_reconcile-IsSafe (lookup "advance" plugins) action.branch log4 safe4))
      ]

  run_commands-IsSafe :
      (plugin : Plugin) (i : ℕ) (cmds : List String) (log : Log)
      → IsSafe log
      → IsSafe (run_commands machine plugin i cmds log).1
  unfolding run_commands
  run_commands-IsSafe plugin i [] log s = s
  run_commands-IsSafe plugin i (cmd ∷ rest) log s =
      let reply = machine.answer log (build_cmd machine plugin cmd) in
      let log1 = Event.ran (build_cmd machine plugin cmd) reply ∷ log in
      let safe1 : IsSafe log1 = plain-IsSafe (build_cmd machine plugin cmd) reply log refl refl s in
      and_then-IsSafe _ _ safe1 λ h. run_commands-IsSafe plugin (suc i) rest log1 safe1

  written-IsSafe : (e : Option String) (log : Log) → IsSafe log → IsSafe (written machine e log).1
  written-IsSafe none log s = s
  written-IsSafe (some e) log s = s

  write_build_marker-IsSafe :
      (name : String) (plugin : Plugin) (log : Log)
      → IsSafe log
      → IsSafe (write_build_marker machine name plugin log).1
  unfolding write_build_marker
  write_build_marker-IsSafe name plugin log s =
      let head = git_read machine (source_root_of plugin) ("rev-parse" ∷ "HEAD" ∷ []) in
      let show = git_read machine (source_root_of plugin) ("branch" ∷ "--show-current" ∷ []) in
      let log1 = Event.ran head (machine.answer log head) ∷ log in
      let safe1 : IsSafe log1 = plain-IsSafe head (machine.answer log head) log refl refl s in
      let safe2 : IsSafe (Event.ran show (machine.answer log1 show) ∷ log1) =
        plain-IsSafe show (machine.answer log1 show) log1 refl refl safe1 in
      and_then-IsSafe _ _ safe1 λ h.
        and_then-IsSafe _ _ (written-IsSafe _ _ (IsSafe.cons tt safe2))
          λ k. written-IsSafe _ _ (IsSafe.cons tt (written-IsSafe _ _ (IsSafe.cons tt safe2)))

  rebuild_plugin-IsSafe :
      (action : Action) (found : Option Plugin) (log : Log)
      → IsSafe log
      → IsSafe (rebuild_plugin machine action found log).1
  unfolding rebuild_plugin run_build
  rebuild_plugin-IsSafe action none log s = s
  rebuild_plugin-IsSafe action (some plugin) log s =
      let safe = run_commands-IsSafe plugin 0 plugin.build log s in
      and_then-IsSafe _ _ safe λ h. write_build_marker-IsSafe action.target plugin _ safe

  execute_action-IsSafe :
      (plugins : Plugins) (root : String) (action : Action) (log : Log)
      → IsSafe log
      → IsSafe (execute_action machine plugins root action log).1
  unfolding execute_action execute_merge execute_rebuild
  execute_action-IsSafe plugins root action log s = elim (Bool-cases (str_eq action.kind "merge")) [
    | inl m ↦ rw m (merge_plugin-IsSafe action (lookup action.target plugins) log s)
    | inr m ↦ elim (Bool-cases (str_eq action.kind "rebuild")) [
      | inl r ↦ rw m (rw r (rebuild_plugin-IsSafe action (lookup action.target plugins) log s))
      | inr r ↦ elim (Bool-cases (str_eq action.kind "cleanup")) [
        | inl c ↦ rw m (rw r (rw c (execute_cleanup-IsSafe plugins root action log s)))
        | inr c ↦ rw m (rw r (rw c s))
      ]
    ]
  ]

  execute_actions-IsSafe :
      (plugins : Plugins) (root : String) (actions : List Action) (log : Log)
      → IsSafe log
      → IsSafe (execute_actions machine plugins root actions log).1
  unfolding execute_actions
  execute_actions-IsSafe plugins root [] log s = s
  execute_actions-IsSafe plugins root (action ∷ rest) log s =
      let safe = execute_action-IsSafe plugins root action log s in
      if-IsSafe (not action.execute_allowed) _ _ s
        (and_then-IsSafe _ _ safe λ h. execute_actions-IsSafe plugins root rest _ safe)

  execute_loaded-IsSafe :
      (loaded : Outcome Plugins) (root : String) (plan : Plan) (log : Log)
      → IsSafe log
      → IsSafe (execute_loaded machine loaded root plan log).1
  execute_loaded-IsSafe (Outcome.failed e) root plan log s = s
  execute_loaded-IsSafe (Outcome.ok plugins) root plan log s =
      execute_actions-IsSafe plugins root plan.actions log s

  -- Whatever git, the build commands and the file system answer, and whatever the plan holds: in a
  -- log that `ExecutePlan` leaves, every removal of a worktree comes directly after a successful
  -- status without changes in that worktree and a successful check that a branch is merged into
  -- trunk, and every merge directly after the checkout showed its branch and a status without
  -- changes, if this was so in the log before.
  pub execute_plan-IsSafe :
      (load : String → Outcome Plugins) (options : Options) (plan : Plan) (log : Log)
      → IsSafe log
      → IsSafe (execute_plan machine load options plan log).1
  unfolding execute_plan
  execute_plan-IsSafe load options plan log s = elim (Bool-cases options.execute) [
    | inr n ↦ rw n s
    | inl x ↦ elim (Bool-cases (is_empty plan.blockers)) [
      | inr b ↦ rw x (rw b s)
      | inl e ↦
          rw x (
            rw e (execute_loaded-IsSafe (load options.config_path) options.project_root plan log s))
    ]
  ]

-- ===== src/Maintain/Rebuild.antt =====
-- `RunBuild` of internal/plugin/build.go and `WriteBuildMarker` of internal/maintain/plugin_drift.go.
use opencode_advance.Prelude.{
  pos, ℕ, suc, String, Option, none, some, List, [], ◌∷◌, if◌then◌else◌, literal, sprintf, str, int,
  length, trim_space, dir_path,
}
use opencode_advance.Config.Sections.Types.{Plugin}
use opencode_advance.Maintain.Drift.{source_root_of, build_marker_path, build_marker}
use opencode_advance.Maintain.Machine.{Machine, Cmd, Event, Log, Error, and_then, run}
use opencode_advance.Maintain.Git.{or_error}

module _ (machine : Machine) where
  -- func RunBuild
  abbrev pub build_cmd : Plugin → String → Cmd
  build_cmd plugin cmd = record {
    name = "sh";
    args = "-c" ∷ cmd ∷ [];
    dir = plugin.checkout;
    env = ("CI", "true") ∷ ("DEBIAN_FRONTEND", "noninteractive") ∷ ("npm_config_yes", "true") ∷ [];
    timeout = pos 300;
  }

  unfoldable pub run_commands : Plugin → ℕ → List String → Log → Option Error × Log
  run_commands plugin i [] log = (none, log)
  run_commands plugin i (cmd ∷ rest) log =
      and_then
        (or_error
          (λ e out. sprintf "build step %d/%d %q failed: %w\noutput:\n%s" (
            int (pos (suc i))
            ∷ int (pos (length plugin.build))
            ∷ str cmd
            ∷ str e
            ∷ str (trim_space out)
            ∷ []))
          (run machine (build_cmd plugin cmd) log))
        λ log. run_commands plugin (suc i) rest log

  unfoldable pub run_build : Plugin → Log → Option Error × Log
  run_build plugin log = run_commands plugin 0 plugin.build log

  -- The command of gitOutput, with its timeout of 10 seconds.
  abbrev pub git_read : String → List String → Cmd
  git_read dir args = record { name = "git"; args = args; dir = dir; env = []; timeout = pos 10 }

  abbrev pub stat_error : Log → String → Option String
  stat_error log path = if machine.exists log path then none else some "no such file"

  abbrev pub written : Option String → Log → Option Error × Log
  written none log = (none, log)
  written (some e) log = (some (literal e), log)

  -- func WriteBuildMarker
  unfoldable pub write_build_marker : String → Plugin → Log → Option Error × Log
  write_build_marker name plugin log =
      let dir = source_root_of plugin in
      let (head, log) = run machine (git_read dir ("rev-parse" ∷ "HEAD" ∷ [])) log in
      and_then
        (or_error (λ e out. sprintf "git %s: %w" (str "rev-parse HEAD" ∷ str e ∷ [])) (head, log))
        λ log.
          let (branch, log) = run machine (git_read dir ("branch" ∷ "--show-current" ∷ [])) log in
          let marker =
            build_marker (stat_error log) machine.hash name plugin (trim_space head.output)
              (elim branch.failure [ some e ↦ "" | none ↦ trim_space branch.output ]) machine.now in
          let path = build_marker_path plugin in
          let made = machine.make_dir log (dir_path path) in
          let log = Event.made_dir (dir_path path) made ∷ log in
          and_then (written made log) λ log.
            let wrote = machine.write log path marker in
            written wrote (Event.wrote path marker wrote ∷ log)

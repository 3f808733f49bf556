-- ===== src/Maintain/Plan.antt =====
-- internal/maintain/plan.go: `Planner.Build`. The nil defaults of the fields of `Planner` are the functions of
-- `NewPlanner`.
pub mod Reasons
pub mod Allowed
use opencode_advance.Prelude.{
  ℤ, pos, String, Bool, true, false, ◌&&◌, ◌||◌, not, Option, none, some, List, [], ◌∷◌, ◌++◌,
  is_blank, is_empty, ◌<>◌, str_eq, if◌then◌else◌, lookup,
}
use opencode_advance.Config.Sections.Types.{Plugin, enabled_or_absent}
use opencode_advance.Maintain.Types.{
  GateStatus, is_blocked, Blocker, GateReport, Options, Action, PluginDrift, MergeCandidate,
  RebuildAction, CleanupCandidate, Plan,
}
use opencode_advance.Maintain.Cleanup.{WorktreeInfo, is_eligible, worktree_reason}
use opencode_advance.Maintain.Planner.{
  AdvanceArchiveCandidate, AdvanceInspectReport, candidates, archive_reason, DriftReport, Outcome,
  Plugins, Planner, Built,
}

abbrev pub merge_branch : AdvanceArchiveCandidate → String
merge_branch c = if is_blank c.branch then "change/" <> c.change_id else c.branch

abbrev pub can_merge : AdvanceArchiveCandidate → Bool
can_merge c = c.eligible && str_eq c.release_gate "done"

abbrev pub merge_candidate : AdvanceArchiveCandidate → MergeCandidate
merge_candidate c = record {
  change_id = c.change_id;
  branch = merge_branch c;
  eligible = can_merge c;
  reason = if can_merge c then "" else archive_reason c;
}

abbrev pub merge_action : GateReport → AdvanceArchiveCandidate → Action
merge_action gate c = record {
  id = "merge:" <> c.change_id;
  kind = "merge";
  target = "advance";
  branch = merge_branch c;
  path = "";
  would_run = true;
  execute_allowed = not (is_blocked gate.status);
  blocked_by = gate.blockers;
  evidence = "archive status verified" ∷ "release gate done" ∷ [];
}

-- A round of the loop of `addMergeCandidates`.
abbrev pub add_merge : GateReport → Plan → AdvanceArchiveCandidate → Plan
add_merge gate plan c = record plan {
  merge_candidates = plan.merge_candidates ++ merge_candidate c ∷ [];
  actions = if can_merge c then plan.actions ++ merge_action gate c ∷ [] else plan.actions;
}

pub add_merges : GateReport → Plan → List AdvanceArchiveCandidate → Plan
add_merges gate plan [] = plan
add_merges gate plan (c ∷ rest) = add_merges gate (add_merge gate plan c) rest

abbrev pub add_inspected : GateReport → Plan → Outcome AdvanceInspectReport → Built
add_inspected gate plan (Outcome.failed e) = (plan, some e)
add_inspected gate plan (Outcome.ok report) = (add_merges gate plan (candidates report), none)

abbrev pub add_advance : Planner → GateReport → Plan → Option Plugin → Built
add_advance planner gate plan none = (plan, none)
add_advance planner gate plan (some plugin) =
    if not (enabled_or_absent plugin.enabled) || is_blank plugin.checkout
    then (plan, none)
    else add_inspected gate plan (planner.inspect_advance plugin)

-- func (p Planner) addMergeCandidates
pub add_merge_candidates : Planner → GateReport → Plan → Plugins → Built
add_merge_candidates planner gate plan plugins =
    add_advance planner gate plan (lookup "advance" plugins)

abbrev pub cleanup_candidate : WorktreeInfo → CleanupCandidate
cleanup_candidate w = record {
  branch = w.branch;
  path = w.path;
  eligible = is_eligible w;
  reason = if is_eligible w then "" else worktree_reason w;
}

abbrev pub cleanup_action : GateReport → WorktreeInfo → Action
cleanup_action gate w = record {
  id = "cleanup:" <> w.branch;
  kind = "cleanup";
  target = "";
  branch = w.branch;
  path = w.path;
  would_run = true;
  execute_allowed = not (is_blocked gate.status);
  blocked_by = gate.blockers;
  evidence = "merged" ∷ "clean" ∷ "process-free" ∷ "session-free" ∷ [];
}

-- A round of the loop of `addCleanupCandidates`.
abbrev pub add_cleanup : Plan → WorktreeInfo → Plan
add_cleanup plan w = record plan {
  cleanup_candidates = plan.cleanup_candidates ++ cleanup_candidate w ∷ [];
  actions =
      if is_eligible w
      then plan.actions ++ cleanup_action plan.session_gate w ∷ []
      else plan.actions;
}

unfoldable pub add_cleanups : Plan → List WorktreeInfo → Plan
add_cleanups plan [] = plan
add_cleanups plan (w ∷ rest) = add_cleanups (add_cleanup plan w) rest

abbrev pub add_listed : Plan → Option String × List WorktreeInfo → Built
add_listed plan (some e, worktrees) = (plan, some e)
add_listed plan (none, worktrees) = (add_cleanups plan worktrees, none)

-- func (p Planner) addCleanupCandidates
unfoldable pub add_cleanup_candidates : Planner → Plan → Built
add_cleanup_candidates planner plan =
    add_listed plan (planner.list_worktrees plan.project_root plan.default_branch)

abbrev pub rebuild_action : GateReport → String → DriftReport → Action
rebuild_action gate name drift = record {
  id = "rebuild:" <> name;
  kind = "rebuild";
  target = name;
  branch = "";
  path = "";
  would_run = true;
  execute_allowed = not (is_blocked gate.status);
  blocked_by = gate.blockers;
  evidence = ("plugin drift status: " <> drift.status) ∷ [];
}

-- drift.Status == DriftStatusFresh
abbrev pub is_fresh : DriftReport → Bool
is_fresh drift = str_eq drift.status "fresh"

-- A round of `addRebuildActions` with the report of the drift check.
abbrev pub add_drift : GateReport → Plan → String → DriftReport → Plan
add_drift gate plan name drift = record plan {
  plugin_drift =
      plan.plugin_drift
      ++ record { plugin = name; status = drift.status; path = drift.marker_path } ∷ [];
  rebuilds =
      if is_fresh drift
      then plan.rebuilds
      else plan.rebuilds ++ record { plugin = name; needed = true; reason = drift.reason } ∷ [];
  actions =
      if is_fresh drift then plan.actions else plan.actions ++ rebuild_action gate name drift ∷ [];
}

-- func (p Planner) addRebuildActions: the loop over the plugins.
pub add_rebuild_actions : Planner → GateReport → Plan → Plugins → Built
add_rebuild_actions planner gate plan [] = (plan, none)
add_rebuild_actions planner gate plan ((name, plugin) ∷ rest) =
    if not (enabled_or_absent plugin.enabled) || is_blank plugin.checkout
    then add_rebuild_actions planner gate plan rest
    else elim (planner.drift_check name plugin) [
      | Outcome.failed e ↦ (plan, some e)
      | Outcome.ok drift ↦ add_rebuild_actions planner gate (add_drift gate plan name drift) rest
    ]

-- The next addition runs if the last one returned no error.
abbrev pub if_ok : Built → (Plan → Built) → Built
if_ok (plan, some e) next = (plan, some e)
if_ok (plan, none) next = next plan

abbrev pub when : Bool → (Plan → Built) → Plan → Built
when true add plan = add plan
when false add plan = (plan, none)

abbrev pub add_from_stack : Planner → Options → GateReport → Plan → Outcome Plugins → Built
add_from_stack planner options gate plan (Outcome.failed e) = (plan, some e)
add_from_stack planner options gate plan (Outcome.ok plugins) =
    if_ok (when options.include_merge (λ q. add_merge_candidates planner gate q plugins) plan)
      (when options.include_rebuild (λ q. add_rebuild_actions planner gate q plugins))

abbrev pub first_plan : Planner → String → GateReport → Plan
first_plan planner project_root gate = record {
  schema_version = pos 1;
  generated_at = planner.now;
  project_root = project_root;
  default_branch = "trunk";
  session_gate = gate;
  plugin_drift = [];
  merge_candidates = [];
  rebuilds = [];
  cleanup_candidates = [];
  temporal_health = [];
  actions = [];
  blockers = if is_blocked gate.status then gate.blockers else [];
}

-- The project root asked for, or the working directory.
abbrev pub root_of : String → Option String → String
root_of root none = root
root_of root (some wd) = if is_blank root then wd else root

module _ (normalize_project_root : String → String) (getwd : Option String) where
  -- func (p Planner) Build
  unfoldable pub build : Planner → Options → Built
  build planner options =
      let project_root = normalize_project_root (root_of options.project_root getwd) in
      let options = record options { project_root = project_root } in
      let gate = planner.gate_check options in
      if_ok
        (when
          (not (is_blank options.config_path) && (options.include_merge || options.include_rebuild))
          (λ plan.
            add_from_stack planner options gate plan (planner.load_stack options.config_path))
          (first_plan planner project_root gate))
        (when options.include_cleanup (add_cleanup_candidates planner))

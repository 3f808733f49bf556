-- ===== src/Maintain/Plan/Allowed.antt =====
-- What the actions of a built plan rest on.
use opencode_advance.Prelude.{
  String, ◌≡◌, ◌⊎◌, inl, inr, Bool, true, false, not, ◌&&◌, ◌||◌, Option, none, some, List, [], ◌∷◌,
  refl, Bool-cases, is_blank, lookup,
}
use opencode_advance.Config.Sections.Types.{Plugin, enabled_or_absent}
use opencode_advance.Maintain.Types.{GateReport, Options, Plan}
use opencode_advance.Maintain.Cleanup.{WorktreeInfo}
use opencode_advance.Maintain.Plan.{
  add_inspected, add_advance, add_merge_candidates, add_listed, add_cleanup_candidates, add_drift,
  add_rebuild_actions, if_ok, when, add_from_stack, build, root_of,
}
use opencode_advance.Maintain.Planner.{
  AdvanceInspectReport, Outcome, Plugins, Planner, Built, candidates,
}
use opencode_advance.Maintain.Plan.Reasons.{
  IsPlanned, add_merges-IsPlanned, add_cleanups-IsPlanned, IsPlanned-drift,
}

Outcome-cases {ℓ} :
    {A : Type ℓ} (o : Outcome A)
    → ((e : String) × (o ≡ Outcome.failed e)) ⊎ ((a : A) × (o ≡ Outcome.ok a))
Outcome-cases (Outcome.failed e) = inl (e, refl)
Outcome-cases (Outcome.ok a) = inr (a, refl)

module _ (planner : Planner) (gate : GateReport) where
  add_inspected-IsPlanned :
      (plan : Plan) (report : Outcome AdvanceInspectReport)
      → IsPlanned gate plan
      → IsPlanned gate (add_inspected gate plan report).0
  add_inspected-IsPlanned plan (Outcome.failed e) p = p
  add_inspected-IsPlanned plan (Outcome.ok report) p =
      add_merges-IsPlanned gate plan (candidates report) p

  add_advance-IsPlanned :
      (plan : Plan) (found : Option Plugin)
      → IsPlanned gate plan
      → IsPlanned gate (add_advance planner gate plan found).0
  add_advance-IsPlanned plan none p = p
  add_advance-IsPlanned plan (some plugin) p =
      elim (Bool-cases (not (enabled_or_absent plugin.enabled) || is_blank plugin.checkout)) [
        | inl skip ↦ rw skip p
        | inr go ↦ rw go (add_inspected-IsPlanned plan (planner.inspect_advance plugin) p)
      ]

  add_rebuild_actions-IsPlanned :
      (plan : Plan) (plugins : Plugins)
      → IsPlanned gate plan
      → IsPlanned gate (add_rebuild_actions planner gate plan plugins).0
  unfolding add_rebuild_actions
  add_rebuild_actions-IsPlanned plan [] p = p
  add_rebuild_actions-IsPlanned plan ((name, plugin) ∷ rest) p =
      elim (Bool-cases (not (enabled_or_absent plugin.enabled) || is_blank plugin.checkout)) [
        | inl skip ↦ rw (skip, add_rebuild_actions) (add_rebuild_actions-IsPlanned plan rest p)
        | inr go ↦
            elim (Outcome-cases (planner.drift_check name plugin))
              as (λ _.
                IsPlanned gate (add_rebuild_actions planner gate plan ((name, plugin) ∷ rest)).0) [
                  | inl (e, f) ↦ rw (go, add_rebuild_actions) (rw f p)
                  | inr (drift, f) ↦
                      rw (go, add_rebuild_actions)
                        (rw f (
                          add_rebuild_actions-IsPlanned (add_drift gate plan name drift) rest
                            (IsPlanned-drift gate plan name drift p)))
                ]
      ]

  if_ok-IsPlanned :
      (built : Built) (next : Plan → Built)
      → IsPlanned gate built.0
      → ((plan : Plan) → IsPlanned gate plan → IsPlanned gate (next plan).0)
      → IsPlanned gate (if_ok built next).0
  if_ok-IsPlanned (plan, some e) next p h = p
  if_ok-IsPlanned (plan, none) next p h = h plan p

  when-IsPlanned :
      (b : Bool) (add : Plan → Built) (plan : Plan)
      → IsPlanned gate plan
      → IsPlanned gate (add plan).0
      → IsPlanned gate (when b add plan).0
  when-IsPlanned true add plan p h = h
  when-IsPlanned false add plan p h = p

  add_from_stack-IsPlanned :
      (options : Options) (plan : Plan) (stack : Outcome Plugins)
      → IsPlanned gate plan
      → IsPlanned gate (add_from_stack planner options gate plan stack).0
  unfolding add_merge_candidates
  add_from_stack-IsPlanned options plan (Outcome.failed e) p = p
  add_from_stack-IsPlanned options plan (Outcome.ok plugins) p =
      if_ok-IsPlanned _ _
        (when-IsPlanned options.include_merge (λ q. add_merge_candidates planner gate q plugins)
          plan p (add_advance-IsPlanned plan (lookup "advance" plugins) p))
        λ q r.
          when-IsPlanned options.include_rebuild (λ q. add_rebuild_actions planner gate q plugins) q
            r (add_rebuild_actions-IsPlanned q plugins r)

  add_cleanup_candidates-IsPlanned :
      (plan : Plan) → IsPlanned gate plan → IsPlanned gate (add_cleanup_candidates planner plan).0
  unfolding add_cleanup_candidates
  add_cleanup_candidates-IsPlanned plan p =
      listed (planner.list_worktrees plan.project_root plan.default_branch)
    where
      listed :
          (found : Option String × List WorktreeInfo) → IsPlanned gate (add_listed plan found).0
      listed (some e, ws) = p
      listed (none, ws) = add_cleanups-IsPlanned gate plan ws p

-- The gate's report in a plan.
abbrev pub gate_of : (String → String) → Option String → Planner → Options → GateReport
gate_of normalize getwd planner options =
    planner.gate_check
      (record options { project_root = normalize (root_of options.project_root getwd) })

-- Whatever the parts of the planner answer, also where `Build` returns an error: the plan holds the
-- report of the gate check, with its blockers if it is blocked; every action may be executed unless
-- the gate is blocked; and every action is a merge or a cleanup of a candidate found eligible, or a
-- rebuild of a plugin whose build is not fresh.
pub build-IsPlanned :
    (normalize : String → String) (getwd : Option String) (planner : Planner) (options : Options)
    → IsPlanned (gate_of normalize getwd planner options) (build normalize getwd planner options).0
unfolding build
build-IsPlanned normalize getwd planner options =
    let gate = gate_of normalize getwd planner options in
    if_ok-IsPlanned planner gate _ _
      (when-IsPlanned planner gate
        (not (is_blank options.config_path) && (options.include_merge || options.include_rebuild)) _
        _ (record { same_gate = refl; blockers = refl; justified = tt })
        (add_from_stack-IsPlanned planner gate
          (record options { project_root = normalize (root_of options.project_root getwd) }) _
          (planner.load_stack options.config_path)
          (record { same_gate = refl; blockers = refl; justified = tt })))
      λ q r.
        when-IsPlanned planner gate options.include_cleanup (add_cleanup_candidates planner) q r
          (add_cleanup_candidates-IsPlanned planner gate q r)
